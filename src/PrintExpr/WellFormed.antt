-- ===== src/PrintExpr/WellFormed.antt =====
-- The printed form of every expression keeps the depth and the brackets (PrintExpr.cpp).
use cpp2v.Common.{refl, subst, true, false, none, some, All, ◌==◌, length}
use cpp2v.Formatter.Brackets.{scan}
use cpp2v.Formatter.Termination.{Returns, Closed-Returns}
use cpp2v.Formatter.Balance.{Closed, ◌⟫◌, text-Moves, nbsp-Moves}
use cpp2v.OpaqueNames.{OpaqueNames}
use cpp2v.ClangPrinter.Balance.{keep_depth-Closed, die-Moves}
use cpp2v.PrintType.Balance.{Unless}
use cpp2v.PrintType.WellFormed.{QualSupported}
use cpp2v.PrintExpr.Syntax.{
  Meta, array2ptr, plain, OptExpr, absent, present, Exprs, no_exprs, and_expr, Expr, node, Kind,
  any_expr, stmt_expr, rewritten, gnu_null, recovery, unresolved_global, binary, unary, addr_of,
  decl_ref, unresolved_call, pseudo_call, call, operator_method, operator_function, operator_other,
  explicit_cast, builtin_cast, implicit_cast, any_cast, integer, character, source_int, source_text,
  source_other, string, predefined, bool_literal, floating, member, dependent_member, subscript,
  construct, inherited_ctor, member_call, pointer_call, other_call, default_arg, conditional,
  binary_conditional, constant, paren, subst_param, paren_list, transparent_list, union_list,
  init_list, this, null_ptr, trait_type, trait_expr, trait_none, offset_of, dependent_new, new,
  delete, cleanups, materialize, bind_temporary, opaque_value, atomic, default_init, va_arg, lambda,
  implicit_init, scalar_init, pseudo_destructor, known_bool, concept, array_loop, array_index,
}
use cpp2v.PrintExpr.{
  New, Context, is_some, visit, walk, visit_list, visit_opt, visit_under, print_expr, under, framed,
}
use cpp2v.PrintExpr.Balance.{IsContext, assert_false-Moves, unsupported-Closed, frame-Closed}
use cpp2v.PrintExpr.Balance.Refs.{decl_ref-Closed, this-Closed, unresolved_global-Closed}
use cpp2v.PrintExpr.Balance.Operators.{binary-Closed, unary-Closed, addr_of-Closed}
use cpp2v.PrintExpr.Balance.Casts.{explicit_cast-Closed, builtin_cast-Closed, implicit_cast-Closed}
use cpp2v.PrintExpr.Balance.Literals.{
  integer-Closed, character-Closed, string-Closed, predefined-Closed, bool-Closed, floating-Closed,
  source_int-Closed, source_text-Closed, source_other-Closed, known_bool-Closed,
}
use cpp2v.PrintExpr.Balance.Calls.{
  call-Closed, pointer_call-Closed, other_call-Closed, unresolved_call-Closed, pseudo_call-Closed,
  operator_method-Closed, operator_function-Closed, construct-Closed, inherited_ctor-Closed,
  member_call-Closed, lambda-Closed,
}
use cpp2v.PrintExpr.Balance.Objects.{
  OptClosed, wrapped-Closed, transparent-Closed, member-Closed, dependent_member-Closed,
  subscript-Closed, conditional-Closed, binary_conditional-Closed, paren_list-Closed,
  union_list-Closed, init_list-Closed,
}
use cpp2v.PrintExpr.Balance.Storage.{
  NewSupported, trait_expr-Moves, trait_type-Moves, trait-Closed, offset_of-Closed, new-Closed,
  delete-Closed, materialize-Closed, opaque-Closed, atomic-Closed, va_arg-Closed,
  pseudo_destructor-Closed, concept-Closed, scalar_init-Closed, array_loop-Closed,
  array_index-Closed, stmt_expr-Closed, typed-Closed, recovery-Closed,
}
use cpp2v.PrintExpr.Supported.{
  has_one, is_present, ExprSupported, KindSupported, AllSupported, OptSupported, UnderSupported,
  no_args-visit_list, is_one-visit_list, length-visit_list, at_most_one-visit_list,
  is_some-visit_opt,
}

new_supported :
    (S : Type 0) (c : Context) (w : New) (placement : Exprs) (size : OptExpr) (n k : OpaqueNames)
    → NewSupported S c.env.templates w (has_one placement) (is_present size)
    → NewSupported S c.env.templates w
        (length (visit_list c placement n).1 == 1)
        (is_some (visit_opt c size k).1)
new_supported S c w placement size n k h =
    subst (λ b. NewSupported S c.env.templates w b (is_some (visit_opt c size k).1))
      (length-visit_list c placement n)
      (subst (λ b. NewSupported S c.env.templates w (has_one placement) b)
        (is_some-visit_opt c size k) h)

mutual
  unfolding visit under framed scan

  visit-Closed :
      (S : Type 0) (c : Context) (v : IsContext S c) (e : Expr) (names : OpaqueNames)
      → ExprSupported S c e
      → Closed S (visit c e names).1
  visit-Closed S c v (node m k) names h =
      frame-Closed c v m _ h (λ x. walk-Closed S c v m k names x.0 x.1)

  walk-Closed :
      (S : Type 0) (c : Context) (v : IsContext S c) (m : Meta) (k : Kind) (names : OpaqueNames)
      → QualSupported S c.env.templates m.type
      → KindSupported S c m k
      → Closed S (walk c m k names).1
  walk-Closed S c v m any_expr names q h = unsupported-Closed c v m q
  walk-Closed S c v m (stmt_expr s) names q h = stmt_expr-Closed c v m s q
  walk-Closed S c v m (rewritten e) names q h = keep_depth-Closed (visit-Closed S c v e names h)
  walk-Closed S c v m gnu_null names q h = typed-Closed c v m "Egnu_null" false (λ n. refl) q
  walk-Closed S c v m recovery names q h = recovery-Closed c v m q h
  walk-Closed S c v m (unresolved_global n) names q h = unresolved_global-Closed c v m n q
  walk-Closed S c v m (binary op same_type is_boolean a b) names q h =
      binary-Closed c v m op same_type is_boolean q h.0 (visit-Closed S c v a _ h.1.0)
        (visit-Closed S c v b _ h.1.1)
  walk-Closed S c v m (unary op e) names q h =
      unary-Closed c v m op q (visit-Closed S c v e names h)
  walk-Closed S c v m (addr_of to e) names q h =
      addr_of-Closed c v to h.0 (visit-Closed S c v e names h.1)
  walk-Closed S c v m (decl_ref d) names q h = decl_ref-Closed c v m d names q h
  walk-Closed S c v m (unresolved_call callee args) names q h =
      unresolved_call-Closed c v callee _ h.0 (list-Closed S c v args names h.1)
  walk-Closed S c v m (pseudo_call arrow t base args) names q h =
      pseudo_call-Closed c v arrow t _
        (subst (λ b. Unless b S) (no_args-visit_list c args names) h.0) h.1.0
        (visit-Closed S c v base names h.1.1)
  walk-Closed S c v m (call callee args) names q h =
      call-Closed _ (visit-Closed S c v callee names h.0) (list-Closed S c v args _ h.1)
  walk-Closed S c v m (operator_method op d is_static is_virtual t object args) names q h =
      operator_method-Closed c v op d is_static is_virtual t _ h.0.0 h.0.1 h.1.0
        (visit-Closed S c v object names h.1.1.0) (list-Closed S c v args _ h.1.1.1)
  walk-Closed S c v m (operator_function op d t args) names q h =
      operator_function-Closed c v op d t _ h.0 h.1.0 (list-Closed S c v args names h.1.1)
  walk-Closed S c v m operator_other names q h = die-Moves h
  walk-Closed S c v m (explicit_cast form k written e) names q h =
      explicit_cast-Closed c v m form k written q h.0 h.1.0 (visit-Closed S c v e names h.1.1)
  walk-Closed S c v m (builtin_cast to t) names q h = builtin_cast-Closed c v to t h.0 h.1
  walk-Closed S c v m (implicit_cast k e) names q h =
      implicit_cast-Closed c v m k q h.0 (visit-Closed S c v e names h.1)
  walk-Closed S c v m any_cast names q h = assert_false-Moves h
  walk-Closed S c v m (integer z) names q h = integer-Closed c v m z q
  walk-Closed S c v m (character k) names q h = character-Closed c v m k q
  walk-Closed S c v m (source_int text n) names q h = source_int-Closed c v m text n q h
  walk-Closed S c v m (source_text text e) names q h =
      source_text-Closed c v text (visit-Closed S c v e names h)
  walk-Closed S c v m (source_other text) names q h = source_other-Closed c v text h
  walk-Closed S c v m (string width bytes t) names q h = string-Closed c v c.is_big width bytes t h
  walk-Closed S c v m (predefined text t) names q h = predefined-Closed c v text t h
  walk-Closed S c v m (bool_literal b) names q h = bool-Closed c v b
  walk-Closed S c v m (floating k) names q h = floating-Closed c v m k q
  walk-Closed S c v m (member arrow base k) names q h =
      member-Closed c v arrow k (visit-Closed S c v base names h.0) h.1
  walk-Closed S c v m (dependent_member arrow base n) names q h =
      dependent_member-Closed c v arrow n (visit-Closed S c v base names h)
  walk-Closed S c v m (subscript a b) names q h =
      subscript-Closed c v m q (under-Closed S c v a names h.0) (under-Closed S c v b _ h.1)
  walk-Closed S c v m (construct d args) names q h =
      construct-Closed c v m d _ q (list-Closed S c v args names h)
  walk-Closed S c v m (inherited_ctor d ts) names q h = inherited_ctor-Closed c v m d ts q h
  walk-Closed S c v m (member_call arrow d is_virtual t object args) names q h =
      member_call-Closed c v arrow d is_virtual t _ h.0 (visit-Closed S c v object names h.1.0)
        (list-Closed S c v args _ h.1.1)
  walk-Closed S c v m (pointer_call arrow rhs object args) names q h =
      pointer_call-Closed arrow _ (visit-Closed S c v rhs names h.0)
        (visit-Closed S c v object _ h.1.0) (list-Closed S c v args _ h.1.1)
  walk-Closed S c v m other_call names q h = other_call-Closed h
  walk-Closed S c v m (default_arg e) names q h =
      wrapped-Closed "Eimplicit" (λ n. refl) (visit-Closed S c v e names h)
  walk-Closed S c v m (conditional a t f) names q h =
      conditional-Closed c v m q (visit-Closed S c v a names h.0) (visit-Closed S c v t _ h.1.0)
        (visit-Closed S c v f _ h.1.1)
  walk-Closed S c v m (binary_conditional value common a t f) names q h =
      binary_conditional-Closed c v m _ q (visit-Closed S c v common _ h.0)
        (visit-Closed S c v a _ h.1.0) (visit-Closed S c v t _ h.1.1.0)
        (visit-Closed S c v f _ h.1.1.1)
  walk-Closed S c v m (constant e) names q h = visit-Closed S c v e names h
  walk-Closed S c v m (paren e) names q h = visit-Closed S c v e names h
  walk-Closed S c v m (subst_param e) names q h = visit-Closed S c v e names h
  walk-Closed S c v m (paren_list es) names q h =
      paren_list-Closed c v m _ q (list-Closed S c v es names h)
  walk-Closed S c v m (transparent_list es) names q h =
      transparent-Closed _ (list-Closed S c v es names h.1)
        (subst (λ b. Unless b S) (is_one-visit_list c es names) h.0)
  walk-Closed S c v m (union_list d es has_filler) names q h =
      union_list-Closed c v m d _ has_filler q
        (subst (λ b. Unless b S) (at_most_one-visit_list c es names) h.0) h.1.0
        (list-Closed S c v es names h.1.1)
  walk-Closed S c v m (init_list es filler) names q h =
      init_list-Closed c v m _ _ q (list-Closed S c v es names h.0) (opt-Closed S c v filler _ h.1)
  walk-Closed S c v m this names q h = this-Closed c v m c.lambda_class q h
  walk-Closed S c v m null_ptr names q h = text-Moves "Enull" (λ n. refl) ⟫ nbsp-Moves
  walk-Closed S c v m (trait_type k t) names q h =
      trait-Closed c v m k q h.0 (trait_type-Moves c v t h.1)
  walk-Closed S c v m (trait_expr k e) names q h =
      trait-Closed c v m k q h.0 (trait_expr-Moves (visit-Closed S c v e names h.1))
  walk-Closed S c v m (trait_none k) names q h = trait-Closed c v m k q h.0 (assert_false-Moves h.1)
  walk-Closed S c v m (offset_of o) names q h = offset_of-Closed c v m o q h
  walk-Closed S c v m dependent_new names q h = unsupported-Closed c v m q
  walk-Closed S c v m (new w placement size init) names q h =
      new-Closed c v w _ _ _ (new_supported S c w placement size _ _ h.0)
        (list-Closed S c v placement names h.1.0) (opt-Closed S c v size _ h.1.1.0)
        (opt-Closed S c v init _ h.1.1.1)
  walk-Closed S c v m (delete is_array op e t) names q h =
      delete-Closed c v is_array op t h.0 (visit-Closed S c v e names h.1.0) h.1.1
  walk-Closed S c v m (cleanups e) names q h =
      wrapped-Closed "Eandclean" (λ n. refl) (visit-Closed S c v e names h)
  walk-Closed S c v m (materialize is_extended e) names q h =
      materialize-Closed c v m is_extended q h.0 (visit-Closed S c v e names h.1)
  walk-Closed S c v m (bind_temporary e) names q h =
      keep_depth-Closed (visit-Closed S c v e names h)
  walk-Closed S c v m (opaque_value value) names q h = opaque-Closed c v m _ q
  walk-Closed S c v m (atomic none es) names q h = elim h [ ]
  walk-Closed S c v m (atomic (some op) es) names q h =
      atomic-Closed c v m op _ q (list-Closed S c v es names h)
  walk-Closed S c v m (default_init e) names q h =
      wrapped-Closed "Edefault_init_expr" (λ n. refl) (visit-Closed S c v e names h)
  walk-Closed S c v m (va_arg e) names q h = va_arg-Closed c v m q (visit-Closed S c v e names h)
  walk-Closed S c v m (lambda d es) names q h = lambda-Closed c v d _ (list-Closed S c v es names h)
  walk-Closed S c v m implicit_init names q h =
      typed-Closed c v m "Eimplicit_init" true (λ n. refl) q
  walk-Closed S c v m scalar_init names q h = scalar_init-Closed c v m q
  walk-Closed S c v m (pseudo_destructor t e) names q h =
      pseudo_destructor-Closed c v t h.0 (visit-Closed S c v e names h.1)
  walk-Closed S c v m (known_bool b) names q h = known_bool-Closed c v b
  walk-Closed S c v m (concept n is_dependent is_satisfied) names q h =
      concept-Closed c v n is_dependent is_satisfied
  walk-Closed S c v m (array_loop value size src e) names q h =
      array_loop-Closed c v m _ _ size q (visit-Closed S c v src _ h.0) (visit-Closed S c v e _ h.1)
  walk-Closed S c v m array_index names q h = array_index-Closed c v m _ q

  list-Closed :
      (S : Type 0) (c : Context) (v : IsContext S c) (es : Exprs) (names : OpaqueNames)
      → AllSupported S c es
      → All (Closed S) (visit_list c es names).1
  list-Closed S c v no_exprs names h = tt
  list-Closed S c v (and_expr e es) names h =
      (visit-Closed S c v e names h.0, list-Closed S c v es _ h.1)

  opt-Closed :
      (S : Type 0) (c : Context) (v : IsContext S c) (e : OptExpr) (names : OpaqueNames)
      → OptSupported S c e
      → OptClosed S (visit_opt c e names).1
  opt-Closed S c v absent names h = tt
  opt-Closed S c v (present e) names h = visit-Closed S c v e names h

  under-Closed :
      (S : Type 0) (c : Context) (v : IsContext S c) (e : Expr) (names : OpaqueNames)
      → UnderSupported S c e
      → Closed S (visit_under c e names).1
  under-Closed S c v (node m (implicit_cast (plain array2ptr) e)) names h =
      visit-Closed S c v e names h
  under-Closed S c v (node m k) names h =
      frame-Closed c v m _ h (λ x. walk-Closed S c v m k names x.0 x.1)

-- Printing an expression leaves the indentation as it was and adds a text whose parentheses and quotes are
-- balanced, whatever names it shares. The printer is sure to return if `S` has no proof; else it may stop,
-- for a reason that is not the depth, where the expression is not supported or a printer of names or
-- statements stops; an atomic operation with no name and a type trait with no case are never supported. This
-- holds from every formatter that is far enough below the end of an `unsigned int`, for printers of names and
-- statements that do so too.
pub print_expr-Closed :
    (S : Type 0) (c : Context) (e : Expr) (names : OpaqueNames)
    → IsContext S c
    → ExprSupported S c e
    → Closed S (print_expr c e names).1
unfolding print_expr under
print_expr-Closed S c e names v h = keep_depth-Closed (visit-Closed S c v e names h)

-- The printer returns on every supported expression, from every formatter that is far enough below the end of
-- an `unsigned int`, if the printers of names and statements do; an atomic operation with no name and a
-- type trait with no case are never supported. It returns at the depth where it started and
-- adds a text whose parentheses and quotes are balanced.
pub print_expr-Returns :
    (c : Context) (e : Expr) (names : OpaqueNames)
    → IsContext ⊥ c
    → ExprSupported ⊥ c e
    → Returns (print_expr c e names).1
print_expr-Returns c e names v h =
    Closed-Returns (print_expr c e names).1 (print_expr-Closed ⊥ c e names v h)
