-- ===== src/PrintExpr/Balance/Literals.antt =====
-- The literals keep the depth and the brackets (PrintExpr.cpp).
use cpp2v.Common.{
  ℕ, refl, subst, fun_ext, ap, append_assoc, Bool, true, false, List, [], ◌∷◌, ◌++◌, Option, none,
  some, codes,
}
use cpp2v.Formatter.{Printer, Num, num_text, ok, put_num}
use cpp2v.Formatter.Brackets.{scan, scan-append, quoted}
use cpp2v.Formatter.Balance.{
  Moves, Closed, ◌⟫◌, skip-Moves, text-Moves, nbsp-Moves, cons-Moves, put_codes-Moves,
  put_nobreak-Moves, IsLevel, IsLevel-Brackets,
}
use cpp2v.CoqPrinter.Text.{put_codes-put_codes}
use cpp2v.CoqPrinter.Balance.{
  up, str-Moves, boolean-Moves, ctor-Moves, end_ctor-Moves, begin_list-Moves, end_list-Moves,
  with_ctor-Closed,
}
use cpp2v.OpaqueNames.{ℤ}
use cpp2v.ClangPrinter.Balance.{keep_depth-Closed, put_decimal-Moves}
use cpp2v.PrintType.{Ty}
use cpp2v.PrintType.WellFormed.{QualSupported}
use cpp2v.PrintExpr.{
  Meta, Context, with_type, visit_integer, visit_character, print_string_type, chars, put_chars,
  visit_string, visit_predefined, visit_bool, put_float, visit_floating, visit_source_int,
  visit_source_text, visit_source_other, visit_known_bool,
}
use cpp2v.PrintExpr.Balance.{IsContext, assert_false-Moves, type-Closed, put_int-Moves, done-Moves}
use cpp2v.PrintExpr.Balance.Casts.{TypeSupported}

module _ {S : Type 0} (c : Context) (v : IsContext S c) where
  pub integer-Closed :
      (m : Meta) (z : ℤ) → QualSupported S c.env.templates m.type → Closed S (visit_integer c m z)
  unfolding visit_integer scan
  integer-Closed m z h =
      ctor-Moves "Eint" (λ n. refl) false
      ⟫ put_int-Moves c v z
      ⟫ text-Moves "%Z" (λ n. refl)
      ⟫ done-Moves c v m with_type h

  pub character-Closed :
      (m : Meta) (k : ℕ) → QualSupported S c.env.templates m.type → Closed S (visit_character c m k)
  unfolding visit_character scan
  character-Closed m k h =
      ctor-Moves "Echar" (λ n. refl) false
      ⟫ put_decimal-Moves c.env k v.env
      ⟫ text-Moves "%N" (λ n. refl)
      ⟫ done-Moves c v m with_type h

  string_type-Closed :
      (t : Option Ty) → TypeSupported S c.env.templates t → Closed S (print_string_type c t)
  unfolding print_string_type
  string_type-Closed none h = assert_false-Moves h
  string_type-Closed (some t) h = nbsp-Moves ⟫ type-Closed c v t h

  chars-Moves : (ks : List ℕ) {d a : ℕ} → Moves S d a d a (put_chars c.env ks)
  unfolding put_chars scan
  chars-Moves [] = skip-Moves
  chars-Moves (k ∷ ks) =
      put_decimal-Moves c.env k v.env ⟫ text-Moves "%N" (λ n. refl) ⟫ cons-Moves ⟫ chars-Moves ks

  pub string-Closed :
      (is_big : Bool) (width : ℕ) (bytes : List ℕ) (t : Option Ty)
      → TypeSupported S c.env.templates t
      → Closed S (visit_string c is_big width bytes t)
  unfolding visit_string scan
  string-Closed is_big width bytes t h =
      ctor-Moves "Estring" (λ n. refl) false
      ⟫ begin_list-Moves
      ⟫ chars-Moves (chars is_big width bytes)
      ⟫ end_list-Moves
      ⟫ up (string_type-Closed t h)
      ⟫ end_ctor-Moves

  pub predefined-Closed :
      (text : List ℕ) (t : Option Ty)
      → TypeSupported S c.env.templates t
      → Closed S (visit_predefined c text t)
  unfolding visit_predefined scan
  predefined-Closed text t h =
      ctor-Moves "Estring" (λ n. refl) true
      ⟫ ctor-Moves "BS.string_to_bytes" (λ n. refl) true
      ⟫ str-Moves text
      ⟫ end_ctor-Moves
      ⟫ up (string_type-Closed t h)
      ⟫ end_ctor-Moves

  pub bool-Closed : (b : Bool) → Closed S (visit_bool b)
  unfolding visit_bool scan
  bool-Closed true = text-Moves "(Ebool true)" (λ n. refl)
  bool-Closed false = text-Moves "(Ebool false)" (λ n. refl)

  float-IsLevel : (k : ℕ) → IsLevel (codes "\"float: " ++ (c.env.float_text k ++ codes "\""))
  unfolding scan
  float-IsLevel k n =
      scan-append (c.env.float_text k) (codes "\"") (quoted, n) (quoted, n) (v.env.float_plain k n)

  float-Moves : (k : ℕ) {d a : ℕ} → Moves S d a d a (put_float c.env k)
  unfolding put_float
  float-Moves k {d} {a} =
      subst (Moves S d a d a) (fun_ext λ f. ap ok (simp (put_codes-put_codes, append_assoc)))
        (put_codes-Moves d _ (IsLevel-Brackets a (float-IsLevel k)))

  pub floating-Closed :
      (m : Meta) (k : ℕ) → QualSupported S c.env.templates m.type → Closed S (visit_floating c m k)
  unfolding visit_floating scan
  floating-Closed m k h =
      ctor-Moves "Eunsupported" (λ n. refl) true
      ⟫ nbsp-Moves
      ⟫ float-Moves k
      ⟫ done-Moves c v m with_type h

  pub source_int-Closed :
      (m : Meta) (text : List ℕ) (n : Num)
      → QualSupported S c.env.templates m.type
      → IsLevel (num_text n)
      → Closed S (visit_source_int c m text n)
  unfolding visit_source_int put_num scan
  source_int-Closed m text n h l =
      with_ctor-Closed "Esource_loc" (λ k. refl) true
        (str-Moves text
          ⟫ nbsp-Moves
          ⟫ ctor-Moves "Eint" (λ k. refl) true
          ⟫ put_nobreak-Moves 1 (num_text n) (IsLevel-Brackets 1 l)
          ⟫ nbsp-Moves
          ⟫ done-Moves c v m with_type h)

  pub source_text-Closed :
      (text : List ℕ) {p : Printer} → Closed S p → Closed S (visit_source_text text p)
  unfolding visit_source_text scan
  source_text-Closed text hp =
      with_ctor-Closed "Esource_loc" (λ k. refl) true
        (str-Moves text ⟫ nbsp-Moves ⟫ keep_depth-Closed hp)

  pub source_other-Closed : (text : List ℕ) → S → Closed S (visit_source_other text)
  unfolding visit_source_other scan
  source_other-Closed text s =
      with_ctor-Closed "Esource_loc" (λ k. refl) true
        (str-Moves text ⟫ nbsp-Moves ⟫ assert_false-Moves s)

  pub known_bool-Closed : (b : Bool) → Closed S (visit_known_bool b)
  unfolding visit_known_bool scan
  known_bool-Closed b = ctor-Moves "Ebool" (λ n. refl) true ⟫ boolean-Moves b ⟫ end_ctor-Moves
