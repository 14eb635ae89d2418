-- ===== src/PrintExpr/Statements.antt =====
-- The printer of expressions in its place: statements and types that print their expressions with it
-- (PrintExpr.cpp, PrintStmt.cpp and PrintType.cpp together).
use cpp2v.Common.{ℕ, Bool, List}
use cpp2v.Formatter.Termination.{Returns}
use cpp2v.OpaqueNames.{OpaqueNames, empty}
use cpp2v.ClangPrinter.{Env, IsEnv}
use cpp2v.PrintStmt
use cpp2v.PrintStmt.WellFormed.{Supported, print_stmt-Returns}
use cpp2v.PrintExpr.{Expr, Context, print_expr, print_expr_fresh}
use cpp2v.PrintExpr.Balance.{IsContext}
use cpp2v.PrintExpr.Supported.{ExprSupported}
use cpp2v.PrintExpr.WellFormed.{print_expr-Closed}

-- The names that a local declaration starts an expression with.
abbrev holding : List ℕ → OpaqueNames
holding ds = record empty { anonymous = ds }

-- The printers of `c`, with expressions printed by `printExpr`. `exprs` is what clang's pointers stand for.
unfoldable pub with_exprs : Context → (ℕ → Expr) → Env
unfolding print_expr print_expr_fresh empty
with_exprs c exprs = record c.env {
  print_expr = λ e. print_expr_fresh c (exprs e);
  print_expr_in = λ ds e. (print_expr c (exprs e) (holding ds)).1;
}

abbrev statements : Context → (ℕ → Expr) → Bool → PrintStmt.Context
statements c exprs thread_safe = record {
  env = with_exprs c exprs;
  info = c.info;
  thread_safe = thread_safe;
}

with_exprs-IsEnv :
    (S : Type 0) (c : Context) (exprs : ℕ → Expr)
    → IsContext S c
    → ((e : ℕ) → ExprSupported S c (exprs e))
    → IsEnv S (with_exprs c exprs)
unfolding with_exprs print_expr_fresh
with_exprs-IsEnv S c exprs v h = record {
  name_closed = v.env.name_closed;
  unqualified_closed = v.env.unqualified_closed;
  expr_closed = λ e. print_expr-Closed S c (exprs e) empty v (h e);
  expr_in_closed = λ ds e. print_expr-Closed S c (exprs e) (holding ds) v (h e);
  const_level = v.env.const_level;
  unresolved_closed = v.env.unresolved_closed;
  template_param_closed = v.env.template_param_closed;
  template_arguments_closed = v.env.template_arguments_closed;
  param_closed = v.env.param_closed;
  field_closed = v.env.field_closed;
  non_type_param_closed = v.env.non_type_param_closed;
  operator_level = v.env.operator_level;
  atomic_level = v.env.atomic_level;
  cast_level = v.env.cast_level;
  opcode_plain = v.env.opcode_plain;
  float_plain = v.env.float_plain;
  decimal_plain = v.env.decimal_plain;
  decimal_level = v.env.decimal_level;
  sizeless_plain = v.env.sizeless_plain;
}

-- With expressions printed by `printExpr`, the printer of statements returns on every supported statement, from
-- every formatter that is far enough below the end of an `unsigned int`, if the expressions are supported, and
-- the printers of names and of the statements in expressions return; an atomic operation with no name and a
-- type trait with no case are never supported. It returns at the depth where it started
-- and adds a text whose parentheses and quotes are balanced.
pub print_stmt_exprs-Returns :
    (c : Context) (exprs : ℕ → Expr) (thread_safe : Bool) (s : PrintStmt.Stmt)
    → IsContext ⊥ c
    → ((e : ℕ) → ExprSupported ⊥ c (exprs e))
    → Supported ⊥ c.env.templates s
    → Returns (PrintStmt.print_stmt (statements c exprs thread_safe) s)
unfolding with_exprs
print_stmt_exprs-Returns c exprs thread_safe s v h hs =
    print_stmt-Returns (statements c exprs thread_safe) s (with_exprs-IsEnv ⊥ c exprs v h) hs
