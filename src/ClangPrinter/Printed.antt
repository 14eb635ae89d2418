-- ===== src/ClangPrinter/Printed.antt =====
-- The names of parameters of functions and templates keep the depth and the brackets (ClangPrinter.cpp).
use cpp2v.Common.{
  ℕ, String, ◌≡◌, ◌∙◌, refl, subst, fun_ext, ap, append_assoc, Bool, true, false, List, [], ◌∷◌,
  ◌++◌, Option, none, some, ◌==◌, codes, if◌then◌else◌, arith,
}
use cpp2v.Formatter.{Printer, ok, err, asserted, put, put_nobreak, num_text, skip, ◌>>◌, put_num}
use cpp2v.Formatter.Brackets.{scan, scan-append, quoted, code, Brackets}
use cpp2v.Formatter.Balance.{
  Closed, stopped, asserts, ◌⟫◌, nbsp-Moves, put_codes-Moves, put_nobreak-Moves, put-Moves,
  Brackets-close, IsLevel, IsLevel-Brackets,
}
use cpp2v.CoqPrinter.Text.{put_codes-put_codes}
use cpp2v.CoqPrinter.Balance.{str-Moves, with_ctor-Closed}
use cpp2v.ClangPrinter.{Env, IsEnv, put_decimal}
use cpp2v.ClangPrinter.Balance.{put_decimal-Moves, die-Moves}
use cpp2v.PrintType.{Info}
use cpp2v.PrintType.Balance.{Unless}
use cpp2v.PrintType.WellFormed.{QualSupported, print_qual_type-Closed}
use cpp2v.ClangPrinter.Params.{
  ParamContext, no_function, no_function_decl, function, Label, named, positioned, find_label,
  put_offset, print_label, print_param_name, Argument, type_argument, integral, expression,
  other_argument, Scope, partial, specialized, templated, plain_scope, find_type, find_value,
  nth_argument, print_type_argument, print_named, found_or, print_type_param, print_kind,
  print_value_argument, print_value_param,
}

-- A parameter is that of a function, which has it.
abbrev LabelSupported : Type 0 → Option Label → Type 0
LabelSupported S none = S
LabelSupported S (some l) = Unit

abbrev ParamSupported : Type 0 → ParamContext → ℕ → Type 0
ParamSupported S (function ps) d = LabelSupported S (find_label d ps 0 none 0)
ParamSupported S _ d = S

abbrev ArgumentSupported : Type 0 → Bool → Option Argument → Type 0
ArgumentSupported S templates (some (type_argument k t)) = QualSupported S templates t
ArgumentSupported S templates _ = S

abbrev ValueSupported : Type 0 → Bool → Option Argument → Type 0
ValueSupported S templates none = S
ValueSupported S templates (some (integral n t)) =
    IsLevel (num_text n) × QualSupported S templates t
ValueSupported S templates (some a) = Unit

-- `A` is what the search further out needs.
abbrev FoundOr : Type 0 → Bool → Option (List ℕ) → Type 0 → Type 0
FoundOr S holds none A = A
FoundOr S holds (some name) A = Unless holds S

-- A template parameter is found, not in a function or class while templates are not printed.
abbrev TypeParamSupported : Type 0 → Bool → ℕ → ℕ → List Scope → Type 0
TypeParamSupported S templates depth index [] = S
TypeParamSupported S templates depth index (partial ps ∷ scopes) =
    FoundOr S true (find_type depth index ps) (TypeParamSupported S templates depth index scopes)
TypeParamSupported S templates depth index (specialized args ∷ scopes) =
    ArgumentSupported S templates (nth_argument index args)
TypeParamSupported S templates depth index (templated ps ∷ scopes) =
    FoundOr S templates (find_type depth index ps)
      (TypeParamSupported S templates depth index scopes)
TypeParamSupported S templates depth index (plain_scope ∷ scopes) =
    TypeParamSupported S templates depth index scopes

abbrev ValueParamSupported : Type 0 → Bool → ℕ → ℕ → List Scope → Type 0
ValueParamSupported S templates depth index [] = S
ValueParamSupported S templates depth index (partial ps ∷ scopes) =
    FoundOr S true (find_value depth index ps) (ValueParamSupported S templates depth index scopes)
ValueParamSupported S templates depth index (specialized args ∷ scopes) =
    ValueSupported S templates (nth_argument index args)
ValueParamSupported S templates depth index (templated ps ∷ scopes) =
    FoundOr S templates (find_value depth index ps)
      (ValueParamSupported S templates depth index scopes)
ValueParamSupported S templates depth index (plain_scope ∷ scopes) =
    ValueParamSupported S templates depth index scopes

asserts-Closed : {S : Type 0} → S → Closed S (λ f. err asserted)
asserts-Closed s = record { room = 0; at = λ c f h e. stopped s asserts }

anon-open : Brackets 0 1 (codes "(localname.anon ")
unfolding scan
anon-open = record { at = λ n. ap (λ k. some (code, k)) (omega arith) }

-- A name has no quote.
abbrev IsPlain : List ℕ → Type 0
IsPlain text = (n : ℕ) → scan text (quoted, n) ≡ some (quoted, n)

module _ {S : Type 0} (env : Env) (v : IsEnv S env) where
  quoted-Moves :
      (text : List ℕ) → IsPlain text → Closed S (do put "\""; put_nobreak text; skip; put "\"")
  unfolding put put_nobreak skip scan
  quoted-Moves text h =
      subst (Closed S) (fun_ext λ f. ap ok (simp (put_codes-put_codes, append_assoc))) (
        put_codes-Moves 0 (codes "\"" ++ (text ++ codes "\""))
          (IsLevel-Brackets 0 (λ n. scan-append text (codes "\"") (quoted, n) (quoted, n) (h n))))

  counted-IsLevel :
      (text : List ℕ) (offset : ℕ)
      → IsPlain text
      → IsLevel (codes "\"" ++ (text ++ (codes "..." ++ (env.decimal offset ++ codes "\""))))
  unfolding scan
  counted-IsLevel text offset h n =
      scan-append text _ (quoted, n) (quoted, n) (h n)
      ∙ scan-append (env.decimal offset) (codes "\"") (quoted, n) (quoted, n)
          (v.decimal_plain offset n)

  counted-Moves :
      (text : List ℕ) (offset : ℕ)
      → IsPlain text
      → Closed S (do put "\""; put_nobreak text; (do put "..."; put_decimal env offset); put "\"")
  unfolding put put_nobreak put_decimal
  counted-Moves text offset h =
      subst (Closed S) (fun_ext λ f. ap ok (simp (put_codes-put_codes, append_assoc)))
        (put_codes-Moves 0 _ (IsLevel-Brackets 0 (counted-IsLevel text offset h)))

  named-Closed :
      (text : List ℕ) (offset : ℕ) (b : Bool)
      → IsPlain text
      → Closed S (do
        put "\""
        put_nobreak text
        (if b then skip else (do put "..."; put_decimal env offset))
        put "\"")
  named-Closed text offset true h = quoted-Moves text h
  named-Closed text offset false h = counted-Moves text offset h

  label-Closed :
      (names : ℕ → List ℕ) (l : Option Label)
      → ((k : ℕ) → IsPlain (names k))
      → LabelSupported S l
      → Closed S (print_label env names l)
  unfolding print_label put_offset
  label-Closed names none p h = die-Moves h
  label-Closed names (some (named k offset)) p h = named-Closed (names k) offset (offset == 0) (p k)
  label-Closed names (some (positioned i)) p h =
      put-Moves 0 "(localname.anon " anon-open
      ⟫ put_decimal-Moves env i v
      ⟫ put-Moves 0 ")" (Brackets-close 0)

  param_name-Closed :
      (names : ℕ → List ℕ) (ctx : ParamContext) (d : ℕ)
      → ((k : ℕ) → IsPlain (names k))
      → ParamSupported S ctx d
      → Closed S (print_param_name env names ctx d)
  unfolding print_param_name
  param_name-Closed names no_function d p h = asserts-Closed h
  param_name-Closed names no_function_decl d p h = die-Moves h
  param_name-Closed names (function ps) d p h = label-Closed names (find_label d ps 0 none 0) p h

  module _ (info : Info) where
    type_argument-Closed :
        (a : Option Argument)
        → ArgumentSupported S env.templates a
        → Closed S (print_type_argument env info a)
    unfolding print_type_argument
    type_argument-Closed (some (type_argument k t)) h = print_qual_type-Closed env info t v h
    type_argument-Closed none h = asserts-Closed h
    type_argument-Closed (some (integral n t)) h = asserts-Closed h
    type_argument-Closed (some (expression e)) h = asserts-Closed h
    type_argument-Closed (some (other_argument k)) h = asserts-Closed h

    kind-IsLevel :
        (k : ℕ) → IsLevel (codes "\"NonTypeTemplateParam " ++ (env.decimal k ++ codes "\""))
    unfolding scan
    kind-IsLevel k n =
        scan-append (env.decimal k) (codes "\"") (quoted, n) (quoted, n) (v.decimal_plain k n)

    kind_text-Closed :
        (k : ℕ) → Closed S (do put "\"NonTypeTemplateParam "; put_decimal env k; put "\"")
    unfolding put put_decimal
    kind_text-Closed k =
        subst (Closed S) (fun_ext λ f. ap ok (simp (put_codes-put_codes, append_assoc))) (
          put_codes-Moves 0 (codes "\"NonTypeTemplateParam " ++ (env.decimal k ++ codes "\""))
            (IsLevel-Brackets 0 (kind-IsLevel k)))

    kind-Closed : (k : ℕ) → Closed S (print_kind env k)
    unfolding print_kind scan
    kind-Closed k = with_ctor-Closed "Eunsupported" (λ n. refl) true (kind_text-Closed k)

    value_argument-Closed :
        (a : Option Argument)
        → ValueSupported S env.templates a
        → Closed S (print_value_argument env info a)
    unfolding print_value_argument put_num scan
    value_argument-Closed none h = asserts-Closed h
    value_argument-Closed (some (integral n t)) h =
        with_ctor-Closed "Eint" (λ k. refl) true
          (put_nobreak-Moves 0 (num_text n) (IsLevel-Brackets 0 h.0)
            ⟫ nbsp-Moves
            ⟫ print_qual_type-Closed env info t v h.1)
    value_argument-Closed (some (expression e)) h = v.expr_closed e
    value_argument-Closed (some (type_argument k t)) h = kind-Closed k
    value_argument-Closed (some (other_argument k)) h = kind-Closed k

    found_or-Closed :
        (name : String) (holds : Bool) (o : Option (List ℕ)) (A : Type 0) {p : Printer}
        → IsLevel (codes name)
        → (A → Closed S p)
        → FoundOr S holds o A
        → Closed S (found_or name holds o p)
    unfolding found_or print_named
    found_or-Closed name holds none A n hp h = hp h
    found_or-Closed name true (some text) A n hp h = with_ctor-Closed name n false (str-Moves text)
    found_or-Closed name false (some text) A n hp h = asserts-Closed h

    type_param-Closed :
        (depth index : ℕ) (scopes : List Scope)
        → TypeParamSupported S env.templates depth index scopes
        → Closed S (print_type_param env info depth index scopes)
    unfolding print_type_param scan
    type_param-Closed depth index [] h = die-Moves h
    type_param-Closed depth index (partial ps ∷ scopes) h =
        found_or-Closed "Tparam" true _ _ (λ n. refl) (λ x. type_param-Closed depth index scopes x)
          h
    type_param-Closed depth index (specialized args ∷ scopes) h =
        type_argument-Closed (nth_argument index args) h
    type_param-Closed depth index (templated ps ∷ scopes) h =
        found_or-Closed "Tparam" env.templates _ _ (λ n. refl)
          (λ x. type_param-Closed depth index scopes x) h
    type_param-Closed depth index (plain_scope ∷ scopes) h = type_param-Closed depth index scopes h

    value_param-Closed :
        (depth index : ℕ) (scopes : List Scope)
        → ValueParamSupported S env.templates depth index scopes
        → Closed S (print_value_param env info depth index scopes)
    unfolding print_value_param scan
    value_param-Closed depth index [] h = die-Moves h
    value_param-Closed depth index (partial ps ∷ scopes) h =
        found_or-Closed "Eparam" true _ _ (λ n. refl) (λ x. value_param-Closed depth index scopes x)
          h
    value_param-Closed depth index (specialized args ∷ scopes) h =
        value_argument-Closed (nth_argument index args) h
    value_param-Closed depth index (templated ps ∷ scopes) h =
        found_or-Closed "Eparam" env.templates _ _ (λ n. refl)
          (λ x. value_param-Closed depth index scopes x) h
    value_param-Closed depth index (plain_scope ∷ scopes) h =
        value_param-Closed depth index scopes h

-- A parameter of a function, a type parameter and a value parameter of a template are printed with depth and
-- brackets as they were. If `S` has no proof, the printers are sure to return. Else they may stop, for a reason
-- that is not the depth, where the parameter is not found, is found in a function or class while templates are
-- not printed, stands for an argument that is not printed or is of a type that is not supported, or where
-- a printer of names or expressions stops. This holds from every formatter that is far enough below the end of
-- an `unsigned int`, if identifiers have no quote and numbers have balanced text, and the printers of names and
-- expressions do so too.
pub params-Closed :
    (S : Type 0) (env : Env) (info : Info) (names : ℕ → List ℕ) (ctx : ParamContext) (d : ℕ)
    (type_depth type_index value_depth value_index : ℕ) (scopes : List Scope)
    → IsEnv S env
    → ((k n : ℕ) → scan (names k) (quoted, n) ≡ some (quoted, n))
    → ParamSupported S ctx d
    → TypeParamSupported S env.templates type_depth type_index scopes
    → ValueParamSupported S env.templates value_depth value_index scopes
    → Closed S (print_param_name env names ctx d)
      × Closed S (print_type_param env info type_depth type_index scopes)
      × Closed S (print_value_param env info value_depth value_index scopes)
params-Closed S env info names ctx d i j k l scopes v plain hp ht hv = (
  param_name-Closed env v names ctx d plain hp,
  type_param-Closed env v info i j scopes ht,
  value_param-Closed env v info k l scopes hv,
)
