-- ===== src/Examples/Printing.antt =====
-- Statements, declarations and types printed with the environment of Environment.antt.
use cpp2v.Common.{ℕ, ◌≡◌, refl, true, false, List, [], ◌∷◌, ◌++◌, Option, none, some, codes}
use cpp2v.Formatter.Termination.{Returns}
use cpp2v.Formatter.{Formatter, Result, ok, err}
use cpp2v.Formatter.Balance.{Closed}
use cpp2v.CoqPrinter.Balance.{printed}
use cpp2v.ClangPrinter.{cc_c}
use cpp2v.PrintType.{
  QualType, qual, no_params, param, Ty, simple, int, pointer, function_proto, builtin,
  constant_array, print_type,
}
use cpp2v.PrintType.WellFormed.{print_type-Returns, print_type-Closed}
use cpp2v.PrintLocalDecl.{LocalDecl, var, decomposition, held, bound, print_local_decl}
use cpp2v.PrintLocalDecl.WellFormed.{print_local_decl-Closed}
use cpp2v.PrintStmt.{
  Context, Stmt, no_stmts, stmt, present, if_stmt, compound, return_stmt, decl_stmt, case_stmt,
  print_stmt,
}
use cpp2v.PrintStmt.WellFormed.{print_stmt-Closed, print_stmt-Returns}
use cpp2v.Examples.Environment.{environment, environment-IsEnv, info, page}

-- The text that a printer writes on an empty page.
abbrev text_of : Result Formatter → Option (List ℕ)
text_of (ok f) = some f.out
text_of (err e) = none

abbrev int_type : QualType
int_type = qual false false false (builtin (simple int))

-- `int (*)(const int*, int[12])`
abbrev callback : Ty
callback = pointer (
    qual false false false (
      function_proto cc_c false int_type (
        param (pointer (qual true false false (builtin (simple int))))
          (param (constant_array int_type 12) no_params))))

abbrev context : Context
context = record { env = environment; info = info; thread_safe = true }

abbrev locals : Stmt
locals = decl_stmt (
    var (codes "a\"b") int_type (some 1)
    ∷ decomposition 5 2 (held (codes "c") int_type (some 3) ∷ bound (codes "d") int_type 4 ∷ [])
    ∷ [])

abbrev body : Stmt
body = compound (
    stmt locals (
      stmt (if_stmt none 1 (return_stmt (some 2)) (present (case_stmt 1 none (return_stmt none))))
        no_stmts))

type_text :
    text_of (print_type environment info callback page)
    ≡ some (
        codes
          "(Tptr\n  (Tfunction type CC_C Ar_Definite Tint ((Tptr (Qconst Tint)) :: (Tarray Tint 12) :: nil)))")
unfolding environment print_type
type_text = refl

concat : List (List ℕ) → List ℕ
concat [] = []
concat (l ∷ ls) = l ++ concat ls

body_text :
    text_of (print_stmt context body page)
    ≡ some (
        concat (
          codes "\n(Sseq ("
          ∷ codes "\n    (Sdecl ("
          ∷ codes "\n        (Dvar \"a\"\"b\" Tint"
          ∷ codes "\n          (Some"
          ∷ codes "\n            (Evar e))) ::"
          ∷ codes "\n        (Ddecompose"
          ∷ codes "\n          (Evar e) (localname.anon 0) ("
          ∷ codes "\n            (Bvar \"c\" Tint"
          ∷ codes "\n              (Evar e)) ::"
          ∷ codes "\n            (Bbind \"d\" Tint"
          ∷ codes "\n              (Evar e)) :: nil)) :: nil)) ::"
          ∷ codes "\n    (Sif None"
          ∷ codes "\n      (Evar e)"
          ∷ codes "\n      (Sreturn_val"
          ∷ codes "\n        (Evar e))"
          ∷ codes "\n      (Scase"
          ∷ codes "\n        (Exact (-7)%Z)) :: Sreturn_void) :: nil))"
          ∷ []))
unfolding environment print_stmt concat
body_text = refl

print_stmt-Closed_example : Closed ⊥ (print_stmt context body)
print_stmt-Closed_example =
    print_stmt-Closed ⊥ context body (environment-IsEnv ⊥)
      ((tt, ((tt, (tt, tt)), tt)), ((tt, (tt, tt)), tt))

print_type-Closed_example : Closed ⊥ (print_type environment info callback)
print_type-Closed_example =
    print_type-Closed ⊥ environment info callback (environment-IsEnv ⊥) (tt, (tt, (tt, (tt, tt))))

abbrev binding_decl : LocalDecl
binding_decl =
    decomposition 5 2 (held (codes "c") int_type (some 3) ∷ bound (codes "d") int_type 4 ∷ [])

print_local_decl-Closed_example :
    Closed ⊥ (printed (print_local_decl environment info true binding_decl))
print_local_decl-Closed_example =
    print_local_decl-Closed ⊥ environment info true binding_decl (environment-IsEnv ⊥)
      (tt, (tt, tt))

print_stmt-Returns_example : Returns (print_stmt context body)
print_stmt-Returns_example =
    print_stmt-Returns context body (environment-IsEnv ⊥)
      ((tt, ((tt, (tt, tt)), tt)), ((tt, (tt, tt)), tt))

print_type-Returns_example : Returns (print_type environment info callback)
print_type-Returns_example =
    print_type-Returns environment info callback (environment-IsEnv ⊥) (tt, (tt, (tt, (tt, tt))))
