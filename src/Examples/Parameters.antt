-- ===== src/Examples/Parameters.antt =====
-- Parameters of functions and templates, with the environment of Environment.antt.
use cpp2v.Common.{
  ℕ, ◌≡◌, ◌≢◌, ◌∙◌, sym, refl, List, [], ◌∷◌, Option, none, some, inl, inr, codes, arith,
}
use cpp2v.Formatter.{Formatter, Result, ok, err}
use cpp2v.Formatter.Brackets.{scan}
use cpp2v.Formatter.Balance.{Closed}
use cpp2v.ClangPrinter.Params.{
  Param, named, function, find_label, print_param_name, type_param, value_param, find_type,
  find_value, TemplateParam, Scope, partial, print_type_param, print_value_param,
}
use cpp2v.ClangPrinter.Labels.{Contiguous, find_label-Distinct}
use cpp2v.ClangPrinter.Printed.{params-Closed}
use cpp2v.ClangPrinter.Lookup.{find_value-find_type}
use cpp2v.Examples.Environment.{environment, environment-IsEnv, info, page}

-- `(int, T... x, int y)`, where the pack has two parameters.
abbrev parameters : List Param
parameters =
    record { decl = 10; ident = none }
    ∷ record { decl = 11; ident = some 1 }
    ∷ record { decl = 12; ident = some 1 }
    ∷ record { decl = 13; ident = some 2 }
    ∷ []

abbrev text_of : Result Formatter → Option (List ℕ)
text_of (ok f) = some f.out
text_of (err e) = none

second_text :
    text_of (print_param_name environment (λ k. codes "x") (function parameters) 12 page)
    ≡ some (codes "\"x...1\"")
unfolding environment print_param_name
second_text = refl

first_text :
    text_of (print_param_name environment (λ k. codes "x") (function parameters) 10 page)
    ≡ some (codes "(localname.anon 0)")
unfolding environment print_param_name
first_text = refl

not_both : (j k : ℕ) → j ≢ k → (n : ℕ) → some j ≡ some n → some k ≢ some n
not_both j k ne n e z = ne (injected (e ∙ sym z))
  where
    injected : some j ≡ some k → j ≡ k
    injected h = cc

side_by_side : Contiguous parameters
side_by_side = (
  λ k e. absurd cc,
  (
    λ k e. inl (e, inr (not_both 1 2 (λ t. absurd (omega (arith, t))) k e, tt)),
    (λ k e. inr (not_both 1 2 (λ t. absurd (omega (arith, t))) k e, tt), (λ k e. tt, tt)),
  ),
)

find_label-Distinct_example : named 1 0 ≢ named 1 1
unfolding find_label
find_label-Distinct_example =
    find_label-Distinct parameters 11 12 (named 1 0) (named 1 1) (λ e. absurd (omega (arith, e)))
      side_by_side (omega arith) refl refl

abbrev template : List TemplateParam
template = type_param 0 0 (codes "T") ∷ value_param 0 1 (codes "n") ∷ []

find_value-find_type_example : find_value 0 1 template ≡ some (codes "n")
unfolding find_value find_type
find_value-find_type_example = find_value-find_type 0 1 0 template (tt, (refl, tt))

-- A partial specialization of `template<class T, int n>`.
abbrev enclosing : List Scope
enclosing = partial template ∷ []

value_text :
    text_of (print_value_param environment info 0 1 enclosing page) ≡ some (codes "(Eparam \"n\")")
unfolding environment print_value_param
value_text = refl

params-Closed_example :
    Closed ⊥ (print_param_name environment (λ k. codes "x") (function parameters) 12)
    × Closed ⊥ (print_type_param environment info 0 0 enclosing)
    × Closed ⊥ (print_value_param environment info 0 1 enclosing)
unfolding environment scan find_label find_type find_value
params-Closed_example =
    params-Closed ⊥ environment info (λ k. codes "x") (function parameters) 12 0 0 0 1 enclosing
      (environment-IsEnv ⊥) (λ k n. refl) tt tt tt
