-- ===== src/PrintType/Balance.antt =====
-- The printed form of every type keeps the depth and the brackets (PrintType.cpp).
use cpp2v.Common.{
  ℕ, String, refl, fun_ext, subst, ap, append_assoc, Bool, true, false, List, [], ◌∷◌, ◌++◌, Option,
  none, some, ◌==◌, if◌then◌else◌, codes,
}
use cpp2v.Formatter.{Printer, ok, err, asserted, put, put_codes}
use cpp2v.Formatter.Brackets.{scan, quoted, scan-append}
use cpp2v.Formatter.Balance.{
  Moves, Closed, stopped, asserts, ◌⟫◌, text-Moves, put_codes-Moves, nbsp-Moves, lparen-Moves,
  rparen-Moves, IsLevel, IsLevel-Brackets,
}
use cpp2v.CoqPrinter.Text.{put_codes-put_codes}
use cpp2v.CoqPrinter.Balance.{up, str-Moves, ctor-Moves, end_ctor-Moves, with_ctor-Closed}
use cpp2v.ClangPrinter.{Env, IsEnv}
use cpp2v.ClangPrinter.Balance.{keep_depth-Closed}
use cpp2v.PrintType.Syntax.{
  BuiltinKind, SimpleKind, simple, bool, dependent, sizeless, other, Transform,
  enum_underlying_type, transform,
}
use cpp2v.PrintType.Visit.{
  reference_or, type_frame, unsupported, wrapped, put_sizeless, keyword, visit_builtin,
  open_transform, visit_specialization, visit_injected, qualified,
}

-- Where the test fails, `S` has to hold.
abbrev pub Unless : Bool → Type 0 → Type 0
Unless true S = Unit
Unless false S = S

pub unless-Closed :
    {S : Type 0} (b : Bool) {p : Printer}
    → Closed S p
    → Unless b S
    → Closed S (if b then p else (λ f. err asserted))
unless-Closed true hp s = hp
unless-Closed false hp s = record { room = 0; at = λ c f h e. stopped s asserts }

pub if-Closed :
    {S : Type 0} (b : Bool) {p q : Printer}
    → Closed S p
    → Closed S q
    → Closed S (if b then p else q)
if-Closed true hp hq = hp
if-Closed false hp hq = hq

pub wrapped-Closed :
    {S : Type 0} (name : String) {body : Printer}
    → IsLevel (codes name)
    → Closed S body
    → Closed S (wrapped name body)
unfolding wrapped
wrapped-Closed name h b = ctor-Moves name h false ⟫ up b ⟫ end_ctor-Moves

pub unsupported-Closed : {S : Type 0} (message : List ℕ) → Closed S (unsupported message)
unfolding unsupported scan
unsupported-Closed message = with_ctor-Closed "Tunsupported" (λ n. refl) false (str-Moves message)

keyword-IsLevel : (k : SimpleKind) → IsLevel (codes (keyword k))
unfolding keyword scan
keyword-IsLevel bool n = refl
keyword-IsLevel _ n = refl

abbrev sizeless_prefix : List ℕ
sizeless_prefix = codes "Tarch None " ++ b'"' ∷ []

sort_by : {S : Type 0} (b : Bool) → Closed S (put (if b then "Mtype" else "type"))
unfolding scan
sort_by true = text-Moves "Mtype" (λ n. refl)
sort_by false = text-Moves "type" (λ n. refl)

module _ {S : Type 0} (env : Env) (v : IsEnv S env) where
  sizeless-IsLevel : (k : ℕ) → IsLevel (sizeless_prefix ++ (env.sizeless_name k ++ b'"' ∷ []))
  unfolding scan
  sizeless-IsLevel k n =
      scan-append (env.sizeless_name k) (b'"' ∷ []) (quoted, n) (quoted, n) (v.sizeless_plain k n)

  sizeless-Moves :
      (k : ℕ) {d a : ℕ}
      → Moves S d a d a (λ f.
        ok (put_codes (b'"' ∷ []) (put_codes (env.sizeless_name k) (put_codes sizeless_prefix f))))
  sizeless-Moves k {d} {a} =
      subst (Moves S d a d a) (fun_ext λ f. ap ok (simp (put_codes-put_codes, append_assoc)))
        (put_codes-Moves d _ (IsLevel-Brackets a (sizeless-IsLevel k)))

  reference_or-Closed : (n : ℕ) {p : Printer} → Closed S p → Closed S (reference_or env n p)
  unfolding reference_or scan
  reference_or-Closed n h =
      if-Closed (n == 0) h
        (put_codes-Moves 0 (b't' ∷ env.decimal n) (IsLevel-Brackets 0 (λ k. v.decimal_level n k)))

  pub type_frame-Closed : (n : ℕ) {p : Printer} → Closed S p → Closed S (type_frame env n p)
  unfolding type_frame
  type_frame-Closed n h = keep_depth-Closed (reference_or-Closed n h)

  put_sizeless-Closed : (k : ℕ) → Closed S (put_sizeless (env.sizeless_name k))
  unfolding put_sizeless
  put_sizeless-Closed k = lparen-Moves ⟫ sizeless-Moves k ⟫ rparen-Moves

  pub builtin-Closed : (message : List ℕ) (k : BuiltinKind) → Closed S (visit_builtin env message k)
  unfolding visit_builtin scan
  builtin-Closed message (simple k) = text-Moves (keyword k) (keyword-IsLevel k)
  builtin-Closed message dependent =
      if-Closed env.templates (text-Moves "Tdependent" (λ n. refl)) (unsupported-Closed message)
  builtin-Closed message (sizeless k) = put_sizeless-Closed k
  builtin-Closed message other = unsupported-Closed message

  pub open_transform-Moves : (k : Transform) → Moves S 0 0 1 1 (open_transform k)
  unfolding open_transform scan
  open_transform-Moves enum_underlying_type = ctor-Moves "@Tunderlying" (λ n. refl) false
  open_transform-Moves (transform name) =
      ctor-Moves "@Tunary_xform" (λ n. refl) false
      ⟫ str-Moves name
      ⟫ text-Moves "%bs" (λ n. refl)
      ⟫ nbsp-Moves

  pub specialization-Closed :
      (message : List ℕ) (temp : Option ℕ) (args : ℕ)
      → Closed S (visit_specialization env message temp args)
  unfolding visit_specialization scan
  specialization-Closed message none args = unsupported-Closed message
  specialization-Closed message (some temp) args =
      nbsp-Moves
      ⟫ with_ctor-Closed "Tnamed" (λ n. refl) false
          (with_ctor-Closed "Ninst (* TemplateSpecializationType *)" (λ n. refl) false
            (v.name_closed temp ⟫ nbsp-Moves ⟫ v.template_arguments_closed args))

  pub injected-Closed :
      (message : List ℕ) (decl : Option ℕ)
      → Unless env.templates S
      → Closed S (visit_injected env message decl)
  unfolding visit_injected scan
  injected-Closed message none s = unless-Closed env.templates (unsupported-Closed message) s
  injected-Closed message (some d) s =
      unless-Closed env.templates
        (nbsp-Moves ⟫ with_ctor-Closed "Tnamed" (λ n. refl) false (v.name_closed d ⟫ nbsp-Moves)) s

  pub qualified-Closed : (c l w : Bool) {p : Printer} → Closed S p → Closed S (qualified c l w p)
  unfolding qualified scan
  qualified-Closed true l true h = wrapped-Closed "Qconst_volatile" (λ n. refl) h
  qualified-Closed true l false h = wrapped-Closed "Qconst" (λ n. refl) h
  qualified-Closed false true w h = wrapped-Closed "Qvolatile" (λ n. refl) h
  qualified-Closed false false w h = h

  pub decltype_name :
      (is_ref : Bool) → IsLevel (codes (if is_ref then "Texprtype" else "Tdecltype"))
  unfolding scan
  decltype_name true n = refl
  decltype_name false n = refl

  pub sort-Closed : Closed S (put (if env.templates then "Mtype" else "type"))
  sort-Closed = sort_by env.templates
