-- ===== src/PrintStmt/Syntax.antt =====
-- The statements of clang's AST as PrintStmt.cpp reads them.
use cpp2v.Common.{ℕ, Bool, List, Option}
use cpp2v.ClangPrinter.{Expr}
use cpp2v.PrintLocalDecl.{LocalDecl}

mutual
  -- A statement that may be null.
  pub data OptStmt : Type 0 where
    absent : OptStmt
    present : Stmt → OptStmt

  pub data Stmts : Type 0 where
    no_stmts : Stmts
    stmt : Stmt → Stmts → Stmts

  pub data Stmt : Type 0 where
    -- a class with no case of its own
    any_stmt : Stmt
    decl_stmt : List LocalDecl → Stmt
    while_stmt : Option LocalDecl → Expr → Stmt → Stmt
    for_stmt : OptStmt → Option Expr → Option Expr → Stmt → Stmt
    -- range, begin, end, init, condition, increment, loop variable, body
    range_for : Stmt → Stmt → Stmt → OptStmt → Option Expr → Option Expr → Stmt → Stmt → Stmt
    do_stmt : Stmt → Expr → Stmt
    break_stmt continue_stmt null_stmt try_stmt : Stmt
    if_consteval : Stmt → OptStmt → Stmt
    if_stmt : Option LocalDecl → Expr → Stmt → OptStmt → Stmt
    -- `getLHS()`, `getRHS()` and the statement behind the label
    case_stmt : Expr → Option Expr → Stmt → Stmt
    default_stmt : OptStmt → Stmt
    switch_stmt : Option LocalDecl → Expr → Stmt → Stmt
    expr_stmt : Expr → Stmt
    return_stmt : Option Expr → Stmt
    compound : Stmts → Stmt
    -- the text, `isVolatile()`, inputs and outputs with their constraints, clobbers
    gcc_asm : List ℕ → Bool → List (List ℕ × Expr) → List (List ℕ × Expr) → List (List ℕ) → Stmt
    -- the spellings of the attributes
    attributed : List (List ℕ) → Stmt → Stmt
    label : List ℕ → Stmt → Stmt
    goto : List ℕ → Stmt
