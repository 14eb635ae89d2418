-- ===== src/PrePrint/Keeps.antt =====
-- Invariants of the traversal in PrePrint.cpp: what a new name keeps, the whole traversal keeps.
use cpp2v.Common.{ℕ, Bool, true, false, List, [], ◌∷◌, Option, none, some, ◌==◌, if◌then◌else◌}
use cpp2v.Formatter.{Result, ok, err}
use cpp2v.PrePrint.NameCache.{lookup}
use cpp2v.PrePrint.Syntax.{
  OptTy, null, to, Ty, ty, Tys, no_tys, and_ty, TyKind, other_type, subst_parm, elaborated, tag,
  reference_type, pointer, array, variable_array, decayed, function, function_proto, OptStmt,
  absent, present, Stmts, no_stmts, and_stmt, Stmt, statement, expression, StmtKind, other_stmt,
  local_ref, decl_ref, binary, unary, call, member_call, construct, cast, compound, return_stmt,
  while_stmt, do_stmt, for_stmt, if_stmt, stmt_expr, Decl, null_decl, other_decl, var,
  function_decl, constructor_decl, record_decl,
}
use cpp2v.PrePrint.Traverse.{
  State, Action, bind, ◌>>◌, pass, define_type, define_name, visit_name, is_named, type_once,
  visit_opt_type, visit_type, visit_types, walk_type, visit_opt_stmt, visit_stmts, visit_stmt,
  walk_stmt, visit_function, pre_print_decl, pre_print_all,
}

-- `P` holds of the state that an action returns, if it returns one.
abbrev pub Holds : (State → Type 0) → Result State → Type 0
Holds P (ok s) = P s
Holds P (err e) = Unit

-- `P` is kept when a type or a declaration gets its name.
pub record IsKept (P : State → Type 0) : Type 0 where
  pub type_kept : (p : ℕ) (s : State) → P s → Holds P (define_type p s)
  pub name_kept : (p : ℕ) (s : State) → P s → Holds P (define_name p s)

-- An action that keeps `P`.
pub record Keeps (P : State → Type 0) (a : Action) : Type 0 where
  pub at : (s : State) → P s → Holds P (a s)

Holds-if :
    (P : State → Type 0) (b : Bool) (x y : Result State)
    → Holds P x
    → Holds P y
    → Holds P (if b then x else y)
Holds-if P true x y hx hy = hx
Holds-if P false x y hx hy = hy

module _ {P : State → Type 0} where
  Holds-bind : (r : Result State) {k : Action} → Holds P r → Keeps P k → Holds P (bind r k)
  Holds-bind (ok s) h k = k.at s h
  Holds-bind (err e) h k = tt

  infixr 5 ◌⟫◌
  ◌⟫◌ : {a b : Action} → Keeps P a → Keeps P b → Keeps P (a >> b)
  ◌⟫◌ {a} {b} ha hb = record { at = λ s h. Holds-bind (a s) (ha.at s h) hb }

  pass-Keeps : Keeps P pass
  unfolding pass
  pass-Keeps = record { at = λ s h. h }

module _ {P : State → Type 0} (kept : IsKept P) where
  name-Keeps : (d : Option ℕ) → Keeps P (visit_name d)
  unfolding visit_name
  name-Keeps none = record { at = λ s h. h }
  name-Keeps (some p) = record {
    at = λ s h. Holds-if P (lookup p s.names == 0) _ _ (kept.name_kept p s h) h;
  }

  named-Keeps : (p : ℕ) (b : Bool) → Keeps P (λ s. if b then define_type p s else ok s)
  named-Keeps p true = record { at = kept.type_kept p }
  named-Keeps p false = record { at = λ s h. h }

  once-Keeps : (p : ℕ) (b : Bool) {a : Action} → Keeps P a → Keeps P (type_once p b a)
  unfolding type_once
  once-Keeps p b {a} ha = record {
    at = λ s h.
        Holds-if P (lookup p s.types == 0) _ _ (Holds-bind (a s) (ha.at s h) (named-Keeps p b)) h;
  }

mutual
  unfolding visit_type

  opt_type-Keeps : {P : State → Type 0} (kept : IsKept P) (t : OptTy) → Keeps P (visit_opt_type t)
  opt_type-Keeps kept null = pass-Keeps
  opt_type-Keeps kept (to t) = type-Keeps kept t

  type-Keeps : {P : State → Type 0} (kept : IsKept P) (t : Ty) → Keeps P (visit_type t)
  type-Keeps kept (ty p k) = once-Keeps kept p (is_named k) (walk_type-Keeps kept k)

  types-Keeps : {P : State → Type 0} (kept : IsKept P) (ts : Tys) → Keeps P (visit_types ts)
  types-Keeps kept no_tys = pass-Keeps
  types-Keeps kept (and_ty t ts) = opt_type-Keeps kept t ⟫ types-Keeps kept ts

  walk_type-Keeps : {P : State → Type 0} (kept : IsKept P) (k : TyKind) → Keeps P (walk_type k)
  walk_type-Keeps kept other_type = pass-Keeps
  walk_type-Keeps kept (subst_parm t) = opt_type-Keeps kept t
  walk_type-Keeps kept (elaborated t) = opt_type-Keeps kept t
  walk_type-Keeps kept (tag d) = name-Keeps kept d
  walk_type-Keeps kept (reference_type t) = opt_type-Keeps kept t
  walk_type-Keeps kept (pointer t) = opt_type-Keeps kept t
  walk_type-Keeps kept (array t) = opt_type-Keeps kept t
  walk_type-Keeps kept (variable_array e) = opt_stmt-Keeps kept e
  walk_type-Keeps kept (decayed t u) = opt_type-Keeps kept t ⟫ opt_type-Keeps kept u
  walk_type-Keeps kept (function r) = opt_type-Keeps kept r
  walk_type-Keeps kept (function_proto ps r) = types-Keeps kept ps ⟫ opt_type-Keeps kept r

  opt_stmt-Keeps : {P : State → Type 0} (kept : IsKept P) (s : OptStmt) → Keeps P (visit_opt_stmt s)
  opt_stmt-Keeps kept absent = pass-Keeps
  opt_stmt-Keeps kept (present s) = stmt-Keeps kept s

  stmts-Keeps : {P : State → Type 0} (kept : IsKept P) (ss : Stmts) → Keeps P (visit_stmts ss)
  stmts-Keeps kept no_stmts = pass-Keeps
  stmts-Keeps kept (and_stmt s ss) = opt_stmt-Keeps kept s ⟫ stmts-Keeps kept ss

  stmt-Keeps : {P : State → Type 0} (kept : IsKept P) (s : Stmt) → Keeps P (visit_stmt s)
  stmt-Keeps kept (statement k) = walk_stmt-Keeps kept k
  stmt-Keeps kept (expression t k) = opt_type-Keeps kept t ⟫ walk_stmt-Keeps kept k

  walk_stmt-Keeps : {P : State → Type 0} (kept : IsKept P) (k : StmtKind) → Keeps P (walk_stmt k)
  walk_stmt-Keeps kept other_stmt = pass-Keeps
  walk_stmt-Keeps kept local_ref = pass-Keeps
  walk_stmt-Keeps kept (decl_ref d) = name-Keeps kept d
  walk_stmt-Keeps kept (binary l r) = opt_stmt-Keeps kept l ⟫ opt_stmt-Keeps kept r
  walk_stmt-Keeps kept (unary e) = opt_stmt-Keeps kept e
  walk_stmt-Keeps kept (call f es) = opt_stmt-Keeps kept f ⟫ stmts-Keeps kept es
  walk_stmt-Keeps kept (member_call d f es) =
      name-Keeps kept d ⟫ opt_stmt-Keeps kept f ⟫ stmts-Keeps kept es
  walk_stmt-Keeps kept (construct d es) = name-Keeps kept d ⟫ stmts-Keeps kept es
  walk_stmt-Keeps kept (cast e t) = opt_stmt-Keeps kept e ⟫ opt_type-Keeps kept t
  walk_stmt-Keeps kept (compound ss) = stmts-Keeps kept ss
  walk_stmt-Keeps kept (return_stmt e) = opt_stmt-Keeps kept e
  walk_stmt-Keeps kept (while_stmt v e s) =
      opt_stmt-Keeps kept v ⟫ opt_stmt-Keeps kept e ⟫ opt_stmt-Keeps kept s
  walk_stmt-Keeps kept (do_stmt s e) = opt_stmt-Keeps kept s ⟫ opt_stmt-Keeps kept e
  walk_stmt-Keeps kept (for_stmt v e i s) =
      opt_stmt-Keeps kept v ⟫ opt_stmt-Keeps kept e ⟫ opt_stmt-Keeps kept i ⟫ opt_stmt-Keeps kept s
  walk_stmt-Keeps kept (if_stmt v e s t) =
      opt_stmt-Keeps kept v ⟫ opt_stmt-Keeps kept e ⟫ opt_stmt-Keeps kept s ⟫ opt_stmt-Keeps kept t
  walk_stmt-Keeps kept (stmt_expr s) = pass-Keeps

module _ {P : State → Type 0} (kept : IsKept P) where
  function-Keeps :
      (ps : Tys) (r : OptTy) (d : ℕ) (body : OptStmt) → Keeps P (visit_function ps r d body)
  unfolding visit_function
  function-Keeps ps r d body =
      types-Keeps kept ps
      ⟫ opt_type-Keeps kept r
      ⟫ name-Keeps kept (some d)
      ⟫ opt_stmt-Keeps kept body

  decl-Keeps : (d : Decl) → Keeps P (pre_print_decl d)
  unfolding pre_print_decl
  decl-Keeps null_decl = pass-Keeps
  decl-Keeps other_decl = pass-Keeps
  decl-Keeps (var t) = opt_type-Keeps kept t
  decl-Keeps (function_decl ps r d body) = function-Keeps ps r d body
  decl-Keeps (constructor_decl is ps r d body) = stmts-Keeps kept is ⟫ function-Keeps ps r d body
  decl-Keeps (record_decl d ts) = name-Keeps kept (some d) ⟫ types-Keeps kept ts

  pub all-Keeps : (ds : List Decl) → Keeps P (pre_print_all ds)
  unfolding pre_print_all
  all-Keeps [] = pass-Keeps
  all-Keeps (d ∷ ds) = decl-Keeps d ⟫ all-Keeps ds
