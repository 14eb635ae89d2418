-- ===== src/PrePrint/Traverse.antt =====
-- The visitor `PrePrint` of PrePrint.cpp.
use cpp2v.Common.{ℕ, Bool, true, false, List, [], ◌∷◌, Option, none, some, ◌==◌, if◌then◌else◌}
use cpp2v.Formatter.{Result, ok, err}
use cpp2v.PrePrint.NameCache.{NameCache, empty, fresh, store, lookup}
use cpp2v.PrePrint.Syntax.{
  OptTy, null, to, Ty, ty, Tys, no_tys, and_ty, TyKind, other_type, subst_parm, elaborated, tag,
  reference_type, pointer, array, variable_array, decayed, function, function_proto, OptStmt,
  absent, present, Stmts, no_stmts, and_stmt, Stmt, statement, expression, StmtKind, other_stmt,
  local_ref, decl_ref, binary, unary, call, member_call, construct, cast, compound, return_stmt,
  while_stmt, do_stmt, for_stmt, if_stmt, stmt_expr, Decl, null_decl, other_decl, var,
  function_decl, constructor_decl, record_decl,
}

-- A call of one of the two printers: its prefix, the name and the pointer.
pub record Call : Type 0 where
  pub prefix : ℕ
  pub name : ℕ
  pub pointee : ℕ

-- The cache, and the calls of the printers, the last one first. `limit` is one more than the largest
-- `unsigned int`.
pub record State : Type 0 where
  pub types : NameCache
  pub names : NameCache
  pub calls : List Call
  pub limit : ℕ

unfoldable pub initial : ℕ → State
unfolding empty
initial limit = record { types = empty; names = empty; calls = []; limit = limit }

abbrev pub Action : Type 0
Action = State → Result State

abbrev pub bind : {A : Type 0} → Result A → (A → Result State) → Result State
bind (ok a) k = k a
bind (err e) k = err e

infixl 5 ◌>>◌
abbrev pub ◌>>◌ : Action → Action → Action
◌>>◌ p q s = bind (p s) q

unfoldable pub pass : Action
pass s = ok s

-- `fresh`, the printer and `store`, for a type.
unfoldable pub define_type : ℕ → Action
unfolding fresh store
define_type p s =
    let (c, n) = fresh s.limit s.types in
    bind (store p n c) (λ c'.
      ok (record s {
        types = c';
        calls = record { prefix = b't'; name = n; pointee = p } ∷ s.calls;
      }))

unfoldable pub define_name : ℕ → Action
unfolding fresh store
define_name p s =
    let (c, n) = fresh s.limit s.names in
    bind (store p n c) (λ c'.
      ok (record s {
        names = c';
        calls = record { prefix = b'n'; name = n; pointee = p } ∷ s.calls;
      }))

unfoldable pub visit_name : Option ℕ → Action
unfolding lookup define_name
visit_name none s = ok s
visit_name (some p) s = if lookup p s.names == 0 then define_name p s else ok s

-- What the case of the visitor returns: whether the type gets a name.
unfoldable pub is_named : TyKind → Bool
is_named (tag d) = true
is_named (reference_type t) = true
is_named (pointer t) = true
is_named (array t) = true
is_named (function r) = true
is_named (function_proto ps r) = true
is_named _ = false

-- `Visit(const Type*)`, where `walk` is the case of the visitor.
unfoldable pub type_once : ℕ → Bool → Action → Action
unfolding lookup define_type
type_once p named walk s =
    if lookup p s.types == 0
    then bind (walk s) (λ s'. if named then define_type p s' else ok s')
    else ok s

unfoldable mutual
  unfolding pass visit_name is_named type_once

  pub visit_opt_type : OptTy → Action
  visit_opt_type null = pass
  visit_opt_type (to t) = visit_type t

  pub visit_type : Ty → Action
  visit_type (ty p k) = type_once p (is_named k) (walk_type k)

  pub visit_types : Tys → Action
  visit_types no_tys = pass
  visit_types (and_ty t ts) = do visit_opt_type t; visit_types ts

  pub walk_type : TyKind → Action
  walk_type other_type = pass
  walk_type (subst_parm t) = visit_opt_type t
  walk_type (elaborated t) = visit_opt_type t
  walk_type (tag d) = visit_name d
  walk_type (reference_type t) = visit_opt_type t
  walk_type (pointer t) = visit_opt_type t
  walk_type (array t) = visit_opt_type t
  walk_type (variable_array e) = visit_opt_stmt e
  walk_type (decayed t u) = do visit_opt_type t; visit_opt_type u
  walk_type (function r) = visit_opt_type r
  walk_type (function_proto ps r) = do visit_types ps; visit_opt_type r

  pub visit_opt_stmt : OptStmt → Action
  visit_opt_stmt absent = pass
  visit_opt_stmt (present s) = visit_stmt s

  pub visit_stmts : Stmts → Action
  visit_stmts no_stmts = pass
  visit_stmts (and_stmt s ss) = do visit_opt_stmt s; visit_stmts ss

  pub visit_stmt : Stmt → Action
  visit_stmt (statement k) = walk_stmt k
  visit_stmt (expression t k) = do visit_opt_type t; walk_stmt k

  pub walk_stmt : StmtKind → Action
  walk_stmt other_stmt = pass
  walk_stmt local_ref = pass
  walk_stmt (decl_ref d) = visit_name d
  walk_stmt (binary l r) = do visit_opt_stmt l; visit_opt_stmt r
  walk_stmt (unary e) = visit_opt_stmt e
  walk_stmt (call f es) = do visit_opt_stmt f; visit_stmts es
  walk_stmt (member_call d f es) = do visit_name d; visit_opt_stmt f; visit_stmts es
  walk_stmt (construct d es) = do visit_name d; visit_stmts es
  walk_stmt (cast e t) = do visit_opt_stmt e; visit_opt_type t
  walk_stmt (compound ss) = visit_stmts ss
  walk_stmt (return_stmt e) = visit_opt_stmt e
  walk_stmt (while_stmt v e s) = do visit_opt_stmt v; visit_opt_stmt e; visit_opt_stmt s
  walk_stmt (do_stmt s e) = do visit_opt_stmt s; visit_opt_stmt e
  walk_stmt (for_stmt v e i s) = do
    visit_opt_stmt v
    visit_opt_stmt e
    visit_opt_stmt i
    visit_opt_stmt s
  walk_stmt (if_stmt v e s t) = do
    visit_opt_stmt v
    visit_opt_stmt e
    visit_opt_stmt s
    visit_opt_stmt t
  walk_stmt (stmt_expr s) = pass

unfoldable pub visit_function : Tys → OptTy → ℕ → OptStmt → Action
unfolding visit_types visit_opt_type visit_opt_stmt visit_name
visit_function ps r d body = do
  visit_types ps
  visit_opt_type r
  visit_name (some d)
  visit_opt_stmt body

-- `prePrintDecl`
unfoldable pub pre_print_decl : Decl → Action
unfolding pass visit_function visit_stmts visit_opt_type visit_types visit_name
pre_print_decl null_decl = pass
pre_print_decl other_decl = pass
pre_print_decl (var t) = visit_opt_type t
pre_print_decl (function_decl ps r d body) = visit_function ps r d body
pre_print_decl (constructor_decl is ps r d body) = do visit_stmts is; visit_function ps r d body
pre_print_decl (record_decl d ts) = do visit_name (some d); visit_types ts

-- The loops over the declarations of a module (ToCoq.cpp), which share the cache.
unfoldable pub pre_print_all : List Decl → Action
unfolding pass pre_print_decl
pre_print_all [] = pass
pre_print_all (d ∷ ds) = do pre_print_decl d; pre_print_all ds
