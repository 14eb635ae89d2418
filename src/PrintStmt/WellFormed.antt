-- ===== src/PrintStmt/WellFormed.antt =====
-- The printed form of every statement keeps the depth and the brackets (PrintStmt.cpp).
use cpp2v.Common.{refl, Bool, true, none, some, All, codes}
use cpp2v.Formatter.Termination.{Returns, Closed-Returns}
use cpp2v.Formatter.Brackets.{scan}
use cpp2v.Formatter.Balance.{Closed, ◌⟫◌, skip-Moves, text-Moves, nbsp-Moves, cons-Moves}
use cpp2v.CoqPrinter.Balance.{
  up, str-Moves, none-Moves, begin_list-Moves, end_list-Moves, with_ctor-Closed, list_loop-Moves,
}
use cpp2v.ClangPrinter.{IsEnv}
use cpp2v.ClangPrinter.Balance.{keep_depth-Closed, die-Moves}
use cpp2v.PrintLocalDecl.WellFormed.{LocalSupported}
use cpp2v.PrintStmt.Syntax.{
  OptStmt, absent, present, Stmts, no_stmts, stmt, Stmt, any_stmt, decl_stmt, while_stmt, for_stmt,
  range_for, do_stmt, break_stmt, continue_stmt, null_stmt, try_stmt, if_consteval, if_stmt,
  case_stmt, default_stmt, switch_stmt, expr_stmt, return_stmt, compound, gcc_asm, attributed,
  label, goto,
}
use cpp2v.PrintStmt.Visit.{
  Context, visit, print_opt, print_else, print_behind, print_stmts, print_stmt,
}
use cpp2v.PrintStmt.Balance.{
  VariableSupported, in_some-Closed, strings-Closed, expr_option-Closed, condition_variable-Closed,
  decl_stmt-Closed, label-Closed, asm-Closed,
}

-- `S` holds if the printer stops on the statement itself or on a declaration in it. With `⊥` for `S`
-- there is no such place.
abbrev mutual
  pub Supported : Type 0 → Bool → Stmt → Type 0
  Supported S templates any_stmt = S
  Supported S templates (decl_stmt ds) = All (LocalSupported S templates) ds
  Supported S templates (while_stmt d e body) =
      VariableSupported S templates d × Supported S templates body
  Supported S templates (for_stmt init cond inc body) =
      OptSupported S templates init × Supported S templates body
  Supported S templates (range_for range begin end init cond inc var body) =
      Supported S templates range
      × (Supported S templates begin
          × (Supported S templates end
              × (OptSupported S templates init
                  × (Supported S templates var × Supported S templates body))))
  Supported S templates (do_stmt body e) = Supported S templates body
  Supported S templates (if_consteval t e) = Supported S templates t × OptSupported S templates e
  Supported S templates (if_stmt d e t f) =
      VariableSupported S templates d × (Supported S templates t × OptSupported S templates f)
  Supported S templates (case_stmt lo hi sub) = Supported S templates sub
  Supported S templates (default_stmt sub) = OptSupported S templates sub
  Supported S templates (switch_stmt d e body) =
      VariableSupported S templates d × Supported S templates body
  Supported S templates (compound ss) = AllSupported S templates ss
  Supported S templates (attributed attrs sub) = Supported S templates sub
  Supported S templates (label name sub) = Supported S templates sub
  Supported S templates _ = Unit

  pub OptSupported : Type 0 → Bool → OptStmt → Type 0
  OptSupported S templates absent = Unit
  OptSupported S templates (present s) = Supported S templates s

  pub AllSupported : Type 0 → Bool → Stmts → Type 0
  AllSupported S templates no_stmts = Unit
  AllSupported S templates (stmt s ss) = Supported S templates s × AllSupported S templates ss

mutual
  unfolding visit scan

  visit-Closed :
      {S : Type 0} (c : Context) (v : IsEnv S c.env) (s : Stmt)
      → Supported S c.env.templates s
      → Closed S (visit c s)
  visit-Closed c v any_stmt h = die-Moves h
  visit-Closed c v (decl_stmt ds) h = decl_stmt-Closed c v ds h
  visit-Closed c v (while_stmt d e body) h =
      with_ctor-Closed "Swhile" (λ n. refl) true
        (condition_variable-Closed c v d h.0
          ⟫ nbsp-Moves
          ⟫ v.expr_closed e
          ⟫ nbsp-Moves
          ⟫ keep_depth-Closed (visit-Closed c v body h.1))
  visit-Closed c v (for_stmt init cond inc body) h =
      with_ctor-Closed "Sfor" (λ n. refl) true
        (opt-Closed c v init h.0
          ⟫ nbsp-Moves
          ⟫ expr_option-Closed c v cond
          ⟫ nbsp-Moves
          ⟫ expr_option-Closed c v inc
          ⟫ nbsp-Moves
          ⟫ keep_depth-Closed (visit-Closed c v body h.1))
  visit-Closed c v (range_for range begin end init cond inc var body) h =
      with_ctor-Closed "Sforeach" (λ n. refl) true
        (keep_depth-Closed (visit-Closed c v range h.0)
          ⟫ nbsp-Moves
          ⟫ keep_depth-Closed (visit-Closed c v begin h.1.0)
          ⟫ nbsp-Moves
          ⟫ keep_depth-Closed (visit-Closed c v end h.1.1.0)
          ⟫ nbsp-Moves
          ⟫ opt-Closed c v init h.1.1.1.0
          ⟫ nbsp-Moves
          ⟫ expr_option-Closed c v cond
          ⟫ nbsp-Moves
          ⟫ expr_option-Closed c v inc
          ⟫ nbsp-Moves
          ⟫ keep_depth-Closed (visit-Closed c v var h.1.1.1.1.0)
          ⟫ nbsp-Moves
          ⟫ keep_depth-Closed (visit-Closed c v body h.1.1.1.1.1))
  visit-Closed c v (do_stmt body e) h =
      with_ctor-Closed "Sdo" (λ n. refl) true
        (keep_depth-Closed (visit-Closed c v body h) ⟫ nbsp-Moves ⟫ v.expr_closed e)
  visit-Closed c v break_stmt h = text-Moves "Sbreak" (λ n. refl)
  visit-Closed c v continue_stmt h = text-Moves "Scontinue" (λ n. refl)
  visit-Closed c v null_stmt h = text-Moves "Sskip" (λ n. refl)
  visit-Closed c v try_stmt h =
      with_ctor-Closed "Sunsupported" (λ n. refl) true (str-Moves (codes "try"))
  visit-Closed c v (if_consteval t e) h =
      with_ctor-Closed "Sif_consteval" (λ n. refl) true
        (keep_depth-Closed (visit-Closed c v t h.0) ⟫ nbsp-Moves ⟫ else-Closed c v e h.1)
  visit-Closed c v (if_stmt d e t f) h =
      with_ctor-Closed "Sif" (λ n. refl) true
        (condition_variable-Closed c v d h.0
          ⟫ nbsp-Moves
          ⟫ v.expr_closed e
          ⟫ nbsp-Moves
          ⟫ keep_depth-Closed (visit-Closed c v t h.1.0)
          ⟫ nbsp-Moves
          ⟫ else-Closed c v f h.1.1)
  visit-Closed c v (case_stmt lo hi sub) h =
      with_ctor-Closed "Scase" (λ n. refl) true (label-Closed c v lo hi)
      ⟫ cons-Moves
      ⟫ keep_depth-Closed (visit-Closed c v sub h)
  visit-Closed c v (default_stmt sub) h =
      text-Moves "Sdefault" (λ n. refl) ⟫ behind-Closed c v sub h
  visit-Closed c v (switch_stmt d e body) h =
      with_ctor-Closed "Sswitch" (λ n. refl) true
        (condition_variable-Closed c v d h.0
          ⟫ v.expr_closed e
          ⟫ keep_depth-Closed (visit-Closed c v body h.1))
  visit-Closed c v (expr_stmt e) h = with_ctor-Closed "Sexpr" (λ n. refl) true (v.expr_closed e)
  visit-Closed c v (return_stmt none) h = text-Moves "Sreturn_void" (λ n. refl)
  visit-Closed c v (return_stmt (some e)) h =
      with_ctor-Closed "Sreturn_val" (λ n. refl) true (v.expr_closed e)
  visit-Closed c v (compound ss) h =
      with_ctor-Closed "Sseq" (λ n. refl) true
        (begin_list-Moves ⟫ up (stmts-Closed c v ss h) ⟫ end_list-Moves)
  visit-Closed c v (gcc_asm text b ins outs clobbers) h = asm-Closed c v text b ins outs clobbers
  visit-Closed c v (attributed attrs sub) h =
      with_ctor-Closed "Sattr" (λ n. refl) true
        (begin_list-Moves
          ⟫ list_loop-Moves _ attrs (strings-Closed _ attrs)
          ⟫ end_list-Moves
          ⟫ keep_depth-Closed (visit-Closed c v sub h))
  visit-Closed c v (label name sub) h =
      with_ctor-Closed "Slabeled" (λ n. refl) true
        (str-Moves name ⟫ nbsp-Moves ⟫ keep_depth-Closed (visit-Closed c v sub h))
  visit-Closed c v (goto name) h = with_ctor-Closed "Sgoto" (λ n. refl) true (str-Moves name)

  opt-Closed :
      {S : Type 0} (c : Context) (v : IsEnv S c.env) (s : OptStmt)
      → OptSupported S c.env.templates s
      → Closed S (print_opt c s)
  opt-Closed c v absent h = none-Moves
  opt-Closed c v (present s) h = in_some-Closed (keep_depth-Closed (visit-Closed c v s h))

  else-Closed :
      {S : Type 0} (c : Context) (v : IsEnv S c.env) (s : OptStmt)
      → OptSupported S c.env.templates s
      → Closed S (print_else c s)
  else-Closed c v absent h = text-Moves "Sskip" (λ n. refl)
  else-Closed c v (present s) h = keep_depth-Closed (visit-Closed c v s h)

  behind-Closed :
      {S : Type 0} (c : Context) (v : IsEnv S c.env) (s : OptStmt)
      → OptSupported S c.env.templates s
      → Closed S (print_behind c s)
  behind-Closed c v absent h = skip-Moves
  behind-Closed c v (present s) h = cons-Moves ⟫ keep_depth-Closed (visit-Closed c v s h)

  stmts-Closed :
      {S : Type 0} (c : Context) (v : IsEnv S c.env) (ss : Stmts)
      → AllSupported S c.env.templates ss
      → Closed S (print_stmts c ss)
  stmts-Closed c v no_stmts h = skip-Moves
  stmts-Closed c v (stmt s ss) h =
      keep_depth-Closed (visit-Closed c v s h.0) ⟫ cons-Moves ⟫ stmts-Closed c v ss h.1

-- Printing a statement leaves the indentation as it was and adds a text whose parentheses and quotes are
-- balanced. The printer is sure to return if `S` has no proof; else it may stop, for a reason that is not
-- the depth, where the statement is not supported or a printer of names and expressions stops. This holds
-- from every formatter that is far enough below the end of an `unsigned int`, for printers of names and
-- expressions that do so too.
pub print_stmt-Closed :
    (S : Type 0) (c : Context) (s : Stmt)
    → IsEnv S c.env
    → Supported S c.env.templates s
    → Closed S (print_stmt c s)
unfolding print_stmt
print_stmt-Closed S c s v h = keep_depth-Closed (visit-Closed c v s h)

-- The printer returns on every supported statement, from every formatter that is far enough below the end
-- of an `unsigned int`, if the printers of names and expressions do. It returns at the depth where it
-- started and adds a text whose parentheses and quotes are balanced.
pub print_stmt-Returns :
    (c : Context) (s : Stmt)
    → IsEnv ⊥ c.env
    → Supported ⊥ c.env.templates s
    → Returns (print_stmt c s)
print_stmt-Returns c s v h = Closed-Returns (print_stmt c s) (print_stmt-Closed ⊥ c s v h)
