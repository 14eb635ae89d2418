-- ===== src/PrintExpr/Visit.antt =====
-- The visitor of PrintExpr.cpp and `printExpr`. `names` is shared by all the expressions that a declaration
-- prints; each visit gives it back with what it added, and the printer of its text.
use cpp2v.Common.{Bool, true, false, List, [], ◌∷◌, Option, none, some, if◌then◌else◌}
use cpp2v.Formatter.{Printer, ◌>>◌, skip, put, nbsp}
use cpp2v.OpaqueNames.{OpaqueNames, empty, fresh, free, find, inc_index_count, dec_index_count}
use cpp2v.ClangPrinter.{keep_depth, die}
use cpp2v.PrintExpr.Syntax.{
  Meta, BinaryOp, comma, l_and, l_or, Referent, no_ref, static_ref, unknown_ref, member_ref,
  array2ptr, plain, ExplicitCast, other_explicit, TypeTrait, other_trait, OptExpr, absent, present,
  Exprs, no_exprs, and_expr, Expr, node, Kind, any_expr, stmt_expr, rewritten, gnu_null, recovery,
  unresolved_global, binary, unary, addr_of, decl_ref, unresolved_call, pseudo_call, call,
  operator_method, operator_function, operator_other, explicit_cast, builtin_cast, implicit_cast,
  any_cast, integer, character, source_int, source_text, source_other, string, predefined,
  bool_literal, floating, member, dependent_member, subscript, construct, inherited_ctor,
  member_call, pointer_call, other_call, default_arg, conditional, binary_conditional, constant,
  paren, subst_param, paren_list, transparent_list, union_list, init_list, this, null_ptr,
  trait_type, trait_expr, trait_none, offset_of, dependent_new, new, delete, cleanups, materialize,
  bind_temporary, opaque_value, atomic, default_init, va_arg, lambda, implicit_init, scalar_init,
  pseudo_destructor, known_bool, concept, array_loop, array_index,
}
use cpp2v.PrintExpr.Common.{assert_false, done, unsupported_expr, frame, Context}
use cpp2v.PrintExpr.Refs.{visit_decl_ref, visit_this, visit_unresolved_global}
use cpp2v.PrintExpr.Operators.{visit_binary, visit_unary, visit_addr_of}
use cpp2v.PrintExpr.Casts.{visit_explicit_cast, visit_builtin_cast, visit_implicit_cast}
use cpp2v.PrintExpr.Literals.{
  visit_integer, visit_character, visit_string, visit_predefined, visit_bool, visit_floating,
  visit_source_int, visit_source_text, visit_source_other, visit_known_bool,
}
use cpp2v.PrintExpr.Calls.{
  visit_unresolved_call, visit_pseudo_call, visit_call, visit_operator_method,
  visit_operator_function, visit_construct, visit_inherited_ctor, visit_member_call,
  visit_pointer_call, visit_other_call, visit_lambda,
}
use cpp2v.PrintExpr.Objects.{
  visit_member, visit_dependent_member, visit_subscript, visit_conditional,
  visit_binary_conditional, visit_paren_list, visit_transparent, visit_union_list, visit_init_list,
  visit_trait, trait_type_arg, trait_expr_arg, visit_offset_of, visit_new, visit_delete,
  visit_materialize, visit_wrapped, visit_opaque, visit_atomic, visit_va_arg,
  visit_pseudo_destructor, visit_concept, visit_scalar_init, visit_array_loop, visit_array_index,
  visit_stmt_expr, visit_typed, visit_recovery,
}

-- A visit: the names it leaves, and the printer.
abbrev pub Visited : Type 0
Visited = OpaqueNames × Printer

unfoldable pub under : (Printer → Printer) → Visited → Visited
under p r = (r.0, p r.1)

-- The operand is visited if the test holds.
unfoldable pub visited_if : Bool → OpaqueNames → Visited → OpaqueNames
visited_if b names r = if b then r.0 else names

-- The test of `Visit`, and the case of the visitor.
unfoldable pub framed : Meta → OpaqueNames → Visited → Visited
unfolding frame
framed m names r = (if m.has_errors then names else r.0, frame m r.1)

-- Does `VisitExplicitCastExpr` visit the operand?
unfoldable pub is_known_cast : ExplicitCast → Bool
is_known_cast other_explicit = false
is_known_cast _ = true

-- Does `VisitUnaryOperator` visit the operand of `&`?
unfoldable pub is_plain_ref : Referent → Bool
is_plain_ref no_ref = true
is_plain_ref static_ref = true
is_plain_ref unknown_ref = false
is_plain_ref (member_ref d t) = false

-- Does `VisitUnaryExprOrTypeTraitExpr` call `do_arg`?
unfoldable pub is_known_trait : TypeTrait → Bool
is_known_trait (other_trait k) = false
is_known_trait _ = true

-- Do the operands of a binary operator get the names?
unfoldable pub shares_names : BinaryOp → Bool
shares_names comma = false
shares_names l_and = false
shares_names l_or = false
shares_names _ = true

unfoldable mutual
  unfolding under visited_if framed is_known_cast is_plain_ref is_known_trait shares_names empty
      fresh free find inc_index_count dec_index_count skip put nbsp die keep_depth assert_false done
      unsupported_expr visit_stmt_expr visit_typed visit_recovery visit_unresolved_global
      visit_binary visit_unary visit_addr_of visit_decl_ref visit_unresolved_call visit_pseudo_call
      visit_call visit_operator_method visit_operator_function visit_explicit_cast
      visit_builtin_cast visit_implicit_cast visit_integer visit_character visit_source_int
      visit_source_text visit_source_other visit_string visit_predefined visit_bool visit_floating
      visit_member visit_dependent_member visit_subscript visit_construct visit_inherited_ctor
      visit_member_call visit_pointer_call visit_other_call visit_wrapped visit_conditional
      visit_binary_conditional visit_paren_list visit_transparent visit_union_list visit_init_list
      visit_this visit_trait trait_type_arg trait_expr_arg visit_offset_of visit_new visit_delete
      visit_materialize visit_opaque visit_atomic visit_va_arg visit_lambda visit_scalar_init
      visit_pseudo_destructor visit_known_bool visit_concept visit_array_loop visit_array_index

  -- `Visit`
  pub visit : Context → Expr → OpaqueNames → Visited
  visit c (node m k) names = framed m names (walk c m k names)

  -- The cases of the visitor, with `cprint.printExpr(print, e, names)` for each operand in turn.
  pub walk : Context → Meta → Kind → OpaqueNames → Visited
  walk c m any_expr names = (names, unsupported_expr c m)
  walk c m (stmt_expr s) names = (names, visit_stmt_expr c m s)
  walk c m (rewritten e) names = under keep_depth (visit c e names)
  walk c m gnu_null names = (names, visit_typed c m "Egnu_null" false)
  walk c m recovery names = (names, visit_recovery c m)
  walk c m (unresolved_global n) names = (names, visit_unresolved_global c m n)
  walk c m (binary op same_type is_boolean a b) names =
      let l = visit c a (if shares_names op then names else empty) in
      let r = visit c b (if shares_names op then l.0 else empty) in
      (if shares_names op then r.0 else names, visit_binary c m op same_type is_boolean l.1 r.1)
  walk c m (unary op e) names = under (visit_unary c m op) (visit c e names)
  walk c m (addr_of to e) names =
      let r = visit c e names in (visited_if (is_plain_ref to) names r, visit_addr_of c to r.1)
  walk c m (decl_ref d) names = (names, visit_decl_ref c m d names)
  walk c m (unresolved_call callee args) names =
      let rs = visit_list c args names in (rs.0, visit_unresolved_call c callee rs.1)
  walk c m (pseudo_call arrow t base args) names =
      let r = visit c base names in
      let rs = visit_list c args names in (r.0, visit_pseudo_call c arrow t r.1 rs.1)
  walk c m (call callee args) names =
      let r = visit c callee names in let rs = visit_list c args r.0 in (rs.0, visit_call r.1 rs.1)
  walk c m (operator_method op d is_static is_virtual t object args) names =
      let r = visit c object names in
      let rs = visit_list c args r.0 in
      (rs.0, visit_operator_method c op d is_static is_virtual t r.1 rs.1)
  walk c m (operator_function op d t args) names =
      let rs = visit_list c args names in (rs.0, visit_operator_function c op d t rs.1)
  walk c m operator_other names = (names, die)
  walk c m (explicit_cast form k written e) names =
      let r = visit c e names in
      (visited_if (is_known_cast form) names r, visit_explicit_cast c m form k written r.1)
  walk c m (builtin_cast to t) names = (names, visit_builtin_cast c to t)
  walk c m (implicit_cast k e) names = under (visit_implicit_cast c m k) (visit c e names)
  walk c m any_cast names = (names, assert_false)
  walk c m (integer z) names = (names, visit_integer c m z)
  walk c m (character k) names = (names, visit_character c m k)
  walk c m (source_int text n) names = (names, visit_source_int c m text n)
  walk c m (source_text text e) names = under (visit_source_text text) (visit c e names)
  walk c m (source_other text) names = (names, visit_source_other text)
  walk c m (string width bytes t) names = (names, visit_string c c.is_big width bytes t)
  walk c m (predefined text t) names = (names, visit_predefined c text t)
  walk c m (bool_literal b) names = (names, visit_bool b)
  walk c m (floating k) names = (names, visit_floating c m k)
  walk c m (member arrow base k) names =
      let r = visit c base names in (r.0, visit_member c arrow r.1 k)
  walk c m (dependent_member arrow base n) names =
      let r = visit c base names in (r.0, visit_dependent_member c arrow r.1 n)
  walk c m (subscript a b) names =
      let l = visit_under c a names in
      let r = visit_under c b l.0 in (r.0, visit_subscript c m l.1 r.1)
  walk c m (construct d args) names =
      let rs = visit_list c args names in (rs.0, visit_construct c m d rs.1)
  walk c m (inherited_ctor d ts) names = (names, visit_inherited_ctor c m d ts)
  walk c m (member_call arrow d is_virtual t object args) names =
      let r = visit c object names in
      let rs = visit_list c args r.0 in (rs.0, visit_member_call c arrow d is_virtual t r.1 rs.1)
  walk c m (pointer_call arrow rhs object args) names =
      let l = visit c rhs names in
      let r = visit c object l.0 in
      let rs = visit_list c args r.0 in (rs.0, visit_pointer_call arrow l.1 r.1 rs.1)
  walk c m other_call names = (names, visit_other_call)
  walk c m (default_arg e) names = under (visit_wrapped "Eimplicit") (visit c e names)
  walk c m (conditional a t f) names =
      let l = visit c a names in
      let r = visit c t l.0 in let q = visit c f r.0 in (q.0, visit_conditional c m l.1 r.1 q.1)
  walk c m (binary_conditional value common a t f) names =
      let new_names = fresh value names in
      let x = visit c common new_names.0 in
      let l = visit c a (inc_index_count x.0) in
      let r = visit c t l.0 in
      let q = visit c f r.0 in
      (dec_index_count q.0, visit_binary_conditional c m new_names.1 x.1 l.1 r.1 q.1)
  walk c m (constant e) names = visit c e names
  walk c m (paren e) names = visit c e names
  walk c m (subst_param e) names = visit c e names
  walk c m (paren_list es) names =
      let rs = visit_list c es names in
      (if c.env.templates then rs.0 else names, visit_paren_list c m rs.1)
  walk c m (transparent_list es) names =
      let rs = visit_list c es names in (rs.0, visit_transparent rs.1)
  walk c m (union_list d es has_filler) names =
      let rs = visit_list c es names in (rs.0, visit_union_list c m d rs.1 has_filler)
  walk c m (init_list es filler) names =
      let rs = visit_list c es names in
      let r = visit_opt c filler rs.0 in (r.0, visit_init_list c m rs.1 r.1)
  walk c m this names = (names, visit_this c m c.lambda_class)
  walk c m null_ptr names = (names, do put "Enull"; nbsp)
  walk c m (trait_type k t) names = (names, visit_trait c m k (trait_type_arg c t))
  walk c m (trait_expr k e) names =
      let r = visit c e names in
      (visited_if (is_known_trait k) names r, visit_trait c m k (trait_expr_arg r.1))
  walk c m (trait_none k) names = (names, visit_trait c m k assert_false)
  walk c m (offset_of o) names = (names, visit_offset_of c m o)
  walk c m dependent_new names = (names, unsupported_expr c m)
  walk c m (new w placement size init) names =
      let rs = visit_list c placement names in
      let l = visit_opt c size rs.0 in
      let r = visit_opt c init l.0 in (r.0, visit_new c w rs.1 l.1 r.1)
  walk c m (delete is_array op e t) names =
      let r = visit c e names in (r.0, visit_delete c is_array op r.1 t)
  walk c m (cleanups e) names = under (visit_wrapped "Eandclean") (visit c e names)
  walk c m (materialize is_extended e) names =
      let r = visit c e names in
      (if is_extended then names else r.0, visit_materialize c m is_extended r.1)
  walk c m (bind_temporary e) names = under keep_depth (visit c e names)
  walk c m (opaque_value value) names = (names, visit_opaque c m (find value names))
  walk c m (atomic none es) names = (names, visit_atomic c m none [])
  walk c m (atomic (some op) es) names =
      let rs = visit_list c es names in (rs.0, visit_atomic c m (some op) rs.1)
  walk c m (default_init e) names = under (visit_wrapped "Edefault_init_expr") (visit c e names)
  walk c m (va_arg e) names = under (visit_va_arg c m) (visit c e names)
  walk c m (lambda d es) names = let rs = visit_list c es names in (rs.0, visit_lambda c d rs.1)
  walk c m implicit_init names = (names, visit_typed c m "Eimplicit_init" true)
  walk c m scalar_init names = (names, visit_scalar_init c m)
  walk c m (pseudo_destructor t e) names =
      let r = visit c e names in (r.0, visit_pseudo_destructor c t r.1)
  walk c m (known_bool b) names = (names, visit_known_bool b)
  walk c m (concept n is_dependent is_satisfied) names =
      (names, visit_concept c n is_dependent is_satisfied)
  walk c m (array_loop value size src e) names =
      let new_names = fresh value names in
      let l = visit c src new_names.0 in
      let looped = inc_index_count l.0 in
      let r = visit c e looped in
      (
        free value (dec_index_count r.0),
        visit_array_loop c m new_names.1 looped.index_count size l.1 r.1,
      )
  walk c m array_index names = (names, visit_array_index c m names.index_count)

  pub visit_list : Context → Exprs → OpaqueNames → OpaqueNames × List Printer
  visit_list c no_exprs names = (names, [])
  visit_list c (and_expr e es) names =
      let r = visit c e names in let rs = visit_list c es r.0 in (rs.0, r.1 ∷ rs.1)

  pub visit_opt : Context → OptExpr → OpaqueNames → OpaqueNames × Option Printer
  visit_opt c absent names = (names, none)
  visit_opt c (present e) names = let r = visit c e names in (r.0, some r.1)

  -- The operand of a subscript, `under_cast`.
  pub visit_under : Context → Expr → OpaqueNames → Visited
  visit_under c (node m (implicit_cast (plain array2ptr) e)) names = visit c e names
  visit_under c (node m k) names = framed m names (walk c m k names)

-- `printExpr`, with the names
unfoldable pub print_expr : Context → Expr → OpaqueNames → Visited
unfolding under visit keep_depth
print_expr c e names = under keep_depth (visit c e names)

-- `printExpr`, without
unfoldable pub print_expr_fresh : Context → Expr → Printer
unfolding print_expr empty
print_expr_fresh c e = (print_expr c e empty).1
