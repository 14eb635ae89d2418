-- ===== src/PrePrint/Syntax.antt =====
-- Types, statements and declarations of clang's AST as PrePrint.cpp reads them: a constructor for each
-- class that has a case of its own. A type has the number of its pointer; a declaration that is only
-- named is its number, or `none` for a null pointer.
use cpp2v.Common.{ℕ, Option}

mutual
  pub data OptTy : Type 0 where
    null : OptTy
    to : Ty → OptTy

  pub data Ty : Type 0 where
    ty : ℕ → TyKind → Ty

  pub data Tys : Type 0 where
    no_tys : Tys
    and_ty : OptTy → Tys → Tys

  pub data TyKind : Type 0 where
    other_type : TyKind
    subst_parm elaborated : OptTy → TyKind
    tag : Option ℕ → TyKind
    reference_type pointer array : OptTy → TyKind
    variable_array : OptStmt → TyKind
    decayed : OptTy → OptTy → TyKind
    function : OptTy → TyKind
    function_proto : Tys → OptTy → TyKind

  pub data OptStmt : Type 0 where
    absent : OptStmt
    present : Stmt → OptStmt

  pub data Stmts : Type 0 where
    no_stmts : Stmts
    and_stmt : OptStmt → Stmts → Stmts

  -- A statement that is no expression, or an expression with its type.
  pub data Stmt : Type 0 where
    statement : StmtKind → Stmt
    expression : OptTy → StmtKind → Stmt

  pub data StmtKind : Type 0 where
    other_stmt : StmtKind
    -- a reference to a variable that lives in a function, or to any other declaration
    local_ref : StmtKind
    decl_ref : Option ℕ → StmtKind
    binary : OptStmt → OptStmt → StmtKind
    unary : OptStmt → StmtKind
    call : OptStmt → Stmts → StmtKind
    member_call : Option ℕ → OptStmt → Stmts → StmtKind
    construct : Option ℕ → Stmts → StmtKind
    cast : OptStmt → OptTy → StmtKind
    compound : Stmts → StmtKind
    return_stmt : OptStmt → StmtKind
    -- the initializer of the condition variable, if there is one, comes first
    while_stmt : OptStmt → OptStmt → OptStmt → StmtKind
    do_stmt : OptStmt → OptStmt → StmtKind
    for_stmt if_stmt : OptStmt → OptStmt → OptStmt → OptStmt → StmtKind
    stmt_expr : OptStmt → StmtKind

pub data Decl : Type 0 where
  null_decl other_decl : Decl
  var : OptTy → Decl
  -- parameters, result, the declaration itself, body
  function_decl : Tys → OptTy → ℕ → OptStmt → Decl
  -- the initializers come first
  constructor_decl : Stmts → Tys → OptTy → ℕ → OptStmt → Decl
  record_decl : ℕ → Tys → Decl
