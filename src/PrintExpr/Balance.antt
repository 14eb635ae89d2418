-- ===== src/PrintExpr/Balance.antt =====
-- The handlers of PrintExpr.cpp keep the depth and the brackets, if the printers of their operands do: one
-- module for each module of handlers, and what they share.
use cpp2v.Common.{
  ℕ, suc, String, ◌≡◌, refl, subst, fun_ext, ap, append_assoc, Bool, true, false, List, [], ◌∷◌,
  ◌++◌, Option, none, some, All, codes, ◌&&◌, if◌then◌else◌,
}
use cpp2v.Formatter.{Printer, ok, err, asserted, put, put_codes}
use cpp2v.Formatter.Brackets.{scan, code, Brackets}
use cpp2v.Formatter.Balance.{
  Moves, Closed, stopped, asserts, ◌⟫◌, skip-Moves, text-Moves, nbsp-Moves, put_codes-Moves,
  IsLevel, IsLevel-Brackets,
}
use cpp2v.CoqPrinter.Text.{put_codes-put_codes}
use cpp2v.CoqPrinter.Balance.{up, str-Moves, ctor-Moves, end_ctor-Moves, with_ctor-Closed}
use cpp2v.OpaqueNames.{ℤ, pos, negsuc}
use cpp2v.ClangPrinter.{IsEnv, keep_depth}
use cpp2v.ClangPrinter.Balance.{keep_depth-Closed}
use cpp2v.PrintType.{QualType, null, qual, Ty, print_qual_type, print_qual_type_option, print_type}
use cpp2v.PrintType.Balance.{Unless, if-Closed}
use cpp2v.PrintType.WellFormed.{
  Supported, QualSupported, OptionSupported, print_qual_type-Closed, print_qual_type_option-Closed,
  print_type-Closed,
}
use cpp2v.PrintExpr.{
  Meta, lvalue, xvalue, prvalue, ValueCategory, Context, assert_false, assert_that, put_int,
  put_quoted_parts, print_val_cat, print_category, print_as, print_decl_type, Done, only_close,
  with_category, with_type, with_option, with_both, with_decl_type, done, option_or_type,
  unsupported_expr, frame, category_name,
}
pub mod Refs
pub mod Operators
pub mod Casts
pub mod Literals
pub mod Calls
pub mod Objects
pub mod Storage

-- What the printer of expressions relies on.
pub record IsContext (S : Type 0) (c : Context) : Type 0 where
  pub env : IsEnv S c.env
  pub stmt_closed : (s : ℕ) → Closed S (c.print_stmt s)

-- A value category can be printed.
abbrev pub ClassSupported : Type 0 → Bool → Option ValueCategory → Type 0
ClassSupported S false none = S
ClassSupported S _ _ = Unit

abbrev pub DoneSupported : Type 0 → Bool → Meta → Done → Type 0
DoneSupported S templates m only_close = Unit
DoneSupported S templates m with_category = ClassSupported S templates m.classified
DoneSupported S templates m with_both =
    ClassSupported S templates m.classified × QualSupported S templates m.type
DoneSupported S templates m _ = QualSupported S templates m.type

-- A type that is printed may be printed as an option.
qual-option :
    (S : Type 0) (templates : Bool) (q : QualType)
    → QualSupported S templates q
    → OptionSupported S templates q
qual-option S templates null h = tt
qual-option S templates (qual c l w t) h = h

module _ {S : Type 0} {d a : ℕ} where
  pub assert_false-Moves : {d' a' : ℕ} → S → Moves S d a d' a' assert_false
  unfolding assert_false
  assert_false-Moves s = record { room = 0; at = λ c f h e. stopped s asserts }

  pub assert_that-Moves : (b : Bool) → Unless b S → Moves S d a d a (assert_that b)
  unfolding assert_that
  assert_that-Moves true h = skip-Moves
  assert_that-Moves false h = assert_false-Moves h

  -- A quoted text in three parts that is level as a whole.
  pub put_parts-Moves :
      {b : ℕ} (opening : String) (text : List ℕ) (closing : String)
      → Brackets a b (codes opening ++ (text ++ codes closing))
      → Moves S d a d b (put_quoted_parts opening text closing)
  unfolding put_quoted_parts put
  put_parts-Moves {b} opening text closing w =
      subst (Moves S d a d b) (fun_ext λ f. ap ok (simp (put_codes-put_codes, append_assoc)))
        (put_codes-Moves d _ w)

  pub put_quoted_parts-Moves :
      (opening : String) (text : List ℕ) (closing : String)
      → IsLevel (codes opening ++ (text ++ codes closing))
      → Moves S d a d a (put_quoted_parts opening text closing)
  put_quoted_parts-Moves opening text closing h =
      put_parts-Moves opening text closing (IsLevel-Brackets a h)

pub list-Closed :
    (S : Type 0) (ps : List Printer) → All (Closed S) ps → All (λ p. Closed S (keep_depth p)) ps
list-Closed S [] h = tt
list-Closed S (p ∷ ps) h = (keep_depth-Closed h.0, list-Closed S ps h.1)

module _ {S : Type 0} (c : Context) (v : IsContext S c) where
  pub qual_type-Closed :
      (q : QualType) → QualSupported S c.env.templates q → Closed S (print_qual_type c.env c.info q)
  qual_type-Closed q h = print_qual_type-Closed c.env c.info q v.env h

  pub type-Closed : (t : Ty) → Supported S c.env.templates t → Closed S (print_type c.env c.info t)
  type-Closed t h = print_type-Closed S c.env c.info t v.env h

  pub put_int-Moves : (z : ℤ) {d a : ℕ} → Moves S d a d a (put_int c.env z)
  unfolding put_int scan
  put_int-Moves (pos n) {d} {a} = put_codes-Moves d _ (IsLevel-Brackets a (v.env.decimal_level n))
  put_int-Moves (negsuc n) {d} {a} =
      put_codes-Moves d _ (IsLevel-Brackets a (λ k. v.env.decimal_level (suc n) k))

  pub qual_option-Closed :
      (m : Meta)
      → QualSupported S c.env.templates m.type
      → Closed S (print_qual_type_option c.env c.info m.is_dependent m.type)
  qual_option-Closed m h =
      print_qual_type_option-Closed S c.env c.info m.is_dependent m.type v.env
        (qual-option S c.env.templates m.type h)

  category-Closed : (w : ValueCategory) → Closed S (put (category_name w))
  unfolding scan
  category-Closed lvalue = text-Moves "Lvalue" (λ n. refl)
  category-Closed xvalue = text-Moves "Xvalue" (λ n. refl)
  category-Closed prvalue = text-Moves "Prvalue" (λ n. refl)

  as-Closed :
      (w : ValueCategory) (t : QualType)
      → QualSupported S c.env.templates t
      → Closed S (print_as c w t)
  unfolding print_as scan
  as-Closed lvalue t h = with_ctor-Closed "Tref" (λ n. refl) false (qual_type-Closed t h)
  as-Closed xvalue t h = with_ctor-Closed "Trv_ref" (λ n. refl) false (qual_type-Closed t h)
  as-Closed prvalue t h = qual_type-Closed t h

  classified-Closed :
      (b : Bool) (w : ValueCategory) (o : Option ValueCategory)
      → ClassSupported S b o
      → Closed S (if b then put (category_name w) else print_category o)
  unfolding print_category
  classified-Closed true w o h = category-Closed w
  classified-Closed false w none h = assert_false-Moves h
  classified-Closed false w (some x) h = category-Closed x

  pub done-Moves :
      (m : Meta) (k : Done) → DoneSupported S c.env.templates m k → Moves S 1 1 0 0 (done c m k)
  unfolding done print_val_cat print_decl_type
  done-Moves m only_close h = end_ctor-Moves
  done-Moves m with_category h =
      nbsp-Moves ⟫ up (classified-Closed c.env.templates m.category m.classified h) ⟫ end_ctor-Moves
  done-Moves m with_type h = nbsp-Moves ⟫ up (qual_type-Closed m.type h) ⟫ end_ctor-Moves
  done-Moves m with_option h = nbsp-Moves ⟫ up (qual_option-Closed m h) ⟫ end_ctor-Moves
  done-Moves m with_both h =
      nbsp-Moves
      ⟫ up (classified-Closed c.env.templates m.category m.classified h.0)
      ⟫ nbsp-Moves
      ⟫ up (qual_type-Closed m.type h.1)
      ⟫ end_ctor-Moves
  done-Moves m with_decl_type h = up (as-Closed m.category m.type h) ⟫ end_ctor-Moves

  by_templates :
      (m : Meta) (b : Bool)
      → QualSupported S c.env.templates m.type
      → Moves S 1 1 0 0 (done c m (if b then with_option else with_type))
  by_templates m true h = done-Moves m with_option h
  by_templates m false h = done-Moves m with_type h

  pub decl_type-Closed :
      (m : Meta) → QualSupported S c.env.templates m.type → Closed S (print_decl_type c m)
  unfolding print_decl_type
  decl_type-Closed m h = as-Closed m.category m.type h

  pub done_type-Moves :
      (m : Meta)
      → QualSupported S c.env.templates m.type
      → Moves S 1 1 0 0 (done c m (option_or_type c.env))
  done_type-Moves m h = by_templates m c.env.templates h

  pub unsupported-Closed :
      (m : Meta) → QualSupported S c.env.templates m.type → Closed S (unsupported_expr c m)
  unfolding unsupported_expr scan
  unsupported-Closed m h =
      ctor-Moves "Eunsupported" (λ n. refl) false
      ⟫ str-Moves m.message
      ⟫ nbsp-Moves
      ⟫ done-Moves m with_decl_type h

  unless_error :
      (b : Bool) (A : Type 0) {p q : Printer}
      → Closed S p
      → Unless b A
      → (A → Closed S q)
      → Closed S (if b then p else q)
  unless_error true A hp h k = hp
  unless_error false A hp h k = k h

  -- An expression with errors is printed whatever it holds.
  pub frame-Closed :
      (m : Meta) (A : Type 0) {p : Printer}
      → Unless m.has_errors A
      → (A → Closed S p)
      → Closed S (frame m p)
  unfolding frame scan
  frame-Closed m A h k =
      unless_error m.has_errors A
        (ctor-Moves "Eerror" (λ n. refl) false ⟫ str-Moves m.message ⟫ nbsp-Moves ⟫ end_ctor-Moves)
        h k
