-- ===== src/PrintStmt/Visit.antt =====
-- The visitor of PrintStmt.cpp and `printStmt`.
use cpp2v.Common.{ℕ, Bool, true, List, Option, none, some, codes}
use cpp2v.Formatter.{Printer, ok, bind, ◌>>◌, skip, put, put_num, nbsp, cons}
use cpp2v.CoqPrinter.{
  ctor, end_ctor, with_ctor, some_, none_, str, boolean, begin_list, end_list, begin_tuple,
  next_tuple, end_tuple, list_loop, filter_loop,
}
use cpp2v.ClangPrinter.{Expr, Env, keep_depth, die}
use cpp2v.PrintType.{Info}
use cpp2v.PrintLocalDecl.{LocalDecl, print_local_decl}
use cpp2v.PrintStmt.Syntax.{
  OptStmt, absent, present, Stmts, no_stmts, stmt, Stmt, any_stmt, decl_stmt, while_stmt, for_stmt,
  range_for, do_stmt, break_stmt, continue_stmt, null_stmt, try_stmt, if_consteval, if_stmt,
  case_stmt, default_stmt, switch_stmt, expr_stmt, return_stmt, compound, gcc_asm, attributed,
  label, goto,
}

-- What the printer of statements reads: the printers of names and expressions, what the printer of types
-- asks, and `getLangOpts().ThreadsafeStatics`.
pub record Context : Type 0 where
  pub env : Env
  pub info : Info
  pub thread_safe : Bool

-- `print.some()`, `body`, `print.end_ctor()`
unfoldable pub in_some : Printer → Printer
unfolding some_ end_ctor
in_some body = do some_; body; end_ctor

unfoldable pub print_expr_option : Env → Option Expr → Printer
unfolding in_some none_
print_expr_option env none = none_
print_expr_option env (some e) = in_some (env.print_expr e)

-- `cprint.printLocalDecl(print, v)`, whose answer is dropped.
unfoldable pub print_decl : Context → LocalDecl → Printer
unfolding print_local_decl
print_decl c d f = bind (print_local_decl c.env c.info c.thread_safe d f) (λ (g, _). ok g)

-- The condition variable of a statement.
unfoldable pub print_condition_variable : Context → Option LocalDecl → Printer
unfolding in_some none_ print_decl
print_condition_variable c none = none_
print_condition_variable c (some d) = in_some (print_decl c d)

unfoldable pub visit_decl_stmt : Context → List LocalDecl → Printer
unfolding ctor end_ctor begin_list end_list filter_loop print_local_decl
visit_decl_stmt c ds = do
  ctor "Sdecl" true
  begin_list
  filter_loop (print_local_decl c.env c.info c.thread_safe) ds
  end_list
  end_ctor

-- The label of `VisitCaseStmt`.
unfoldable pub print_label : Env → Expr → Option Expr → Printer
unfolding with_ctor put_num nbsp
print_label env lo none = with_ctor "Exact" true (put_num (env.known_const_int lo))
print_label env lo (some hi) =
    with_ctor "Range" true
      do put_num (env.known_const_int lo); nbsp; put_num (env.known_const_int hi)

unfoldable pub print_operand : Env → List ℕ × Expr → Printer
unfolding begin_tuple str next_tuple end_tuple
print_operand env (constraint, e) = do
  begin_tuple
  str constraint
  next_tuple
  env.print_expr e
  end_tuple

unfoldable pub visit_asm :
    Env → List ℕ → Bool → List (List ℕ × Expr) → List (List ℕ × Expr) → List (List ℕ) → Printer
unfolding ctor str nbsp boolean begin_list end_list list_loop print_operand end_ctor
visit_asm env text volatile inputs outputs clobbers = do
  ctor "Sasm" true
  str text
  nbsp
  boolean volatile
  nbsp
  begin_list
  list_loop (print_operand env) inputs
  end_list
  begin_list
  list_loop (print_operand env) outputs
  end_list
  begin_list
  list_loop str clobbers
  end_list
  end_ctor

unfoldable mutual
  unfolding with_ctor ctor end_ctor in_some print_expr_option print_condition_variable
      visit_decl_stmt print_label visit_asm keep_depth die put str begin_list end_list list_loop

  pub visit : Context → Stmt → Printer
  visit c any_stmt = die
  visit c (decl_stmt ds) = visit_decl_stmt c ds
  visit c (while_stmt v e body) =
      with_ctor "Swhile" true
        do print_condition_variable c v; nbsp; c.env.print_expr e; nbsp; keep_depth (visit c body)
  visit c (for_stmt init cond inc body) = with_ctor "Sfor" true do
    print_opt c init
    nbsp
    print_expr_option c.env cond
    nbsp
    print_expr_option c.env inc
    nbsp
    keep_depth (visit c body)
  visit c (range_for range begin end init cond inc var body) = with_ctor "Sforeach" true do
    keep_depth (visit c range)
    nbsp
    keep_depth (visit c begin)
    nbsp
    keep_depth (visit c end)
    nbsp
    print_opt c init
    nbsp
    print_expr_option c.env cond
    nbsp
    print_expr_option c.env inc
    nbsp
    keep_depth (visit c var)
    nbsp
    keep_depth (visit c body)
  visit c (do_stmt body e) =
      with_ctor "Sdo" true do keep_depth (visit c body); nbsp; c.env.print_expr e
  visit c break_stmt = put "Sbreak"
  visit c continue_stmt = put "Scontinue"
  visit c null_stmt = put "Sskip"
  visit c try_stmt = with_ctor "Sunsupported" true (str (codes "try"))
  visit c (if_consteval t e) =
      with_ctor "Sif_consteval" true do keep_depth (visit c t); nbsp; print_else c e
  visit c (if_stmt v e t f) = with_ctor "Sif" true do
    print_condition_variable c v
    nbsp
    c.env.print_expr e
    nbsp
    keep_depth (visit c t)
    nbsp
    print_else c f
  visit c (case_stmt lo hi sub) = do
    with_ctor "Scase" true (print_label c.env lo hi)
    cons
    keep_depth (visit c sub)
  visit c (default_stmt sub) = do put "Sdefault"; print_behind c sub
  visit c (switch_stmt v e body) =
      with_ctor "Sswitch" true
        do print_condition_variable c v; c.env.print_expr e; keep_depth (visit c body)
  visit c (expr_stmt e) = with_ctor "Sexpr" true (c.env.print_expr e)
  visit c (return_stmt none) = put "Sreturn_void"
  visit c (return_stmt (some e)) = with_ctor "Sreturn_val" true (c.env.print_expr e)
  visit c (compound ss) = with_ctor "Sseq" true do begin_list; print_stmts c ss; end_list
  visit c (gcc_asm text volatile inputs outputs clobbers) =
      visit_asm c.env text volatile inputs outputs clobbers
  visit c (attributed attrs sub) =
      with_ctor "Sattr" true do begin_list; list_loop str attrs; end_list; keep_depth (visit c sub)
  visit c (label name sub) = with_ctor "Slabeled" true do str name; nbsp; keep_depth (visit c sub)
  visit c (goto name) = with_ctor "Sgoto" true (str name)

  -- `Some` of a statement, or `None`
  pub print_opt : Context → OptStmt → Printer
  print_opt c absent = none_
  print_opt c (present s) = in_some (keep_depth (visit c s))

  pub print_else : Context → OptStmt → Printer
  print_else c absent = put "Sskip"
  print_else c (present s) = keep_depth (visit c s)

  -- The statement behind `default:`
  pub print_behind : Context → OptStmt → Printer
  print_behind c absent = skip
  print_behind c (present s) = do cons; keep_depth (visit c s)

  pub print_stmts : Context → Stmts → Printer
  print_stmts c no_stmts = skip
  print_stmts c (stmt s ss) = do keep_depth (visit c s); cons; print_stmts c ss

-- `printStmt`
unfoldable pub print_stmt : Context → Stmt → Printer
unfolding visit keep_depth
print_stmt c s = keep_depth (visit c s)
