-- ===== src/PrintExpr/Objects.antt =====
-- Members, initializers, `new`, `delete` and the other expressions of PrintExpr.cpp that build or look
-- into objects. Operands are given as printers.
use cpp2v.Common.{
  ℕ, String, Bool, true, false, List, [], ◌∷◌, ◌++◌, Option, none, some, codes, ◌==◌, not,
  if◌then◌else◌, length,
}
use cpp2v.Formatter.{Printer, ok, ◌>>◌, put, put_codes, put_bool, nbsp, rparen}
use cpp2v.OpaqueNames.{ℤ}
use cpp2v.CoqPrinter.{
  ctor, end_ctor, with_ctor, with_some, str, boolean, some_, none_, begin_list, end_list,
  begin_tuple, next_tuple, end_tuple, list_loop,
}
use cpp2v.ClangPrinter.{Decl, keep_depth, put_decimal, die}
use cpp2v.PrintType.{QualType, print_qual_type, print_qual_type_option, print_type}
use cpp2v.PrintExpr.Syntax.{
  Meta, Member, field, enumerator, variable, method, other_member, TypeTrait, align_of,
  preferred_align_of, size_of, other_trait, OffsetOf, not_one_component, not_a_field,
  field_component, New, Delete, no_operator, destroying, operator_delete,
}
use cpp2v.PrintExpr.Common.{
  Context, assert_false, assert_that, put_int, put_quoted_parts, done, with_type, with_category,
  with_decl_type, with_both, unsupported_expr, option_or_type,
}
use cpp2v.PrintExpr.Calls.{print_list}

-- `printOptionalExpr`
unfoldable pub print_optional : Option Printer → Printer
unfolding none_ some_ keep_depth end_ctor
print_optional none = none_
print_optional (some p) = do some_; keep_depth p; end_ctor

-- The member of `VisitMemberExpr`.
unfoldable pub print_member : Context → Member → Printer
unfolding with_ctor nbsp boolean print_qual_type assert_that die
print_member c (field d is_mutable t) =
    with_ctor "Field" false
      do c.env.print_field_name d; nbsp; boolean is_mutable; nbsp; print_qual_type c.env c.info t
print_member c (enumerator d) = with_ctor "Enum" false (c.env.print_name d)
print_member c (variable d is_static t) = do
  assert_that is_static
  with_ctor "Static" false do c.env.print_name d; nbsp; print_qual_type c.env c.info t
print_member c (method d t) =
    with_ctor "Static" false do c.env.print_name d; nbsp; print_qual_type c.env c.info t
print_member c other_member = die

-- `VisitMemberExpr`
unfoldable pub visit_member : Context → Bool → Printer → Member → Printer
unfolding ctor boolean nbsp keep_depth print_member end_ctor
visit_member c arrow base k = do
  ctor "Emember" true
  boolean arrow
  nbsp
  keep_depth base
  nbsp
  print_member c k
  end_ctor

-- `VisitCXXDependentScopeMemberExpr`
unfoldable pub visit_dependent_member : Context → Bool → Printer → ℕ → Printer
unfolding with_ctor boolean nbsp keep_depth
visit_dependent_member c arrow base n =
    with_ctor "Eunresolved_member" true
      do boolean arrow; nbsp; keep_depth base; nbsp; c.env.print_unresolved_name n

-- `VisitArraySubscriptExpr`
unfoldable pub visit_subscript : Context → Meta → Printer → Printer → Printer
unfolding ctor keep_depth nbsp done
visit_subscript c m a b = do
  ctor "Esubscript" true
  keep_depth a
  nbsp
  keep_depth b
  done c m (option_or_type c.env)

-- `VisitConditionalOperator`
unfoldable pub visit_conditional : Context → Meta → Printer → Printer → Printer → Printer
unfolding ctor keep_depth nbsp done
visit_conditional c m a t f = do
  ctor "Eif" true
  keep_depth a
  nbsp
  keep_depth t
  nbsp
  keep_depth f
  done c m with_decl_type

-- `VisitBinaryConditionalOperator`, with the number of the opaque value.
unfoldable pub visit_binary_conditional :
    Context → Meta → ℕ → Printer → Printer → Printer → Printer → Printer
unfolding ctor put_decimal keep_depth nbsp done
visit_binary_conditional c m index common a t f = do
  ctor "Eif2" true
  put_decimal c.env index
  nbsp
  keep_depth common
  nbsp
  keep_depth a
  nbsp
  keep_depth t
  nbsp
  keep_depth f
  done c m with_decl_type

-- The loop of `VisitParenListExpr`, and that of `VisitAtomicExpr`.
unfoldable pub print_items : List Printer → Printer
unfolding begin_list list_loop keep_depth end_list
print_items ps = do begin_list; list_loop keep_depth ps; end_list

unfoldable pub print_items_or_nil : List Printer → Printer
unfolding put print_items
print_items_or_nil [] = put "nil"
print_items_or_nil (p ∷ ps) = print_items (p ∷ ps)

-- `VisitParenListExpr`
unfoldable pub visit_paren_list : Context → Meta → List Printer → Printer
unfolding unsupported_expr ctor print_qual_type_option nbsp print_items_or_nil end_ctor
visit_paren_list c m ps = if not c.env.templates then unsupported_expr c m else (do
  ctor "Eunresolved_parenlist" true
  print_qual_type_option c.env c.info m.is_dependent m.type
  nbsp
  print_items_or_nil ps
  end_ctor)

-- The first of the initializers, if it is the only one.
unfoldable pub visit_transparent : List Printer → Printer
unfolding assert_false keep_depth
visit_transparent [] = assert_false
visit_transparent (p ∷ []) = keep_depth p
visit_transparent (p ∷ q ∷ ps) = assert_false

unfoldable pub print_initializer : List Printer → Printer
unfolding none_ with_some keep_depth
print_initializer [] = none_
print_initializer (p ∷ ps) = with_some true (keep_depth p)

unfoldable pub at_most_one : List Printer → Bool
at_most_one [] = true
at_most_one (p ∷ []) = true
at_most_one (p ∷ q ∷ ps) = false

-- The branches of `VisitInitListExpr`.
unfoldable pub visit_union_list : Context → Meta → Decl → List Printer → Bool → Printer
unfolding ctor assert_that at_most_one nbsp print_initializer done
visit_union_list c m d ps has_filler = do
  ctor "Einitlist_union" true
  assert_that (at_most_one ps)
  assert_that (not has_filler)
  c.env.print_field_name d
  nbsp
  print_initializer ps
  done c m with_type

unfoldable pub visit_init_list : Context → Meta → List Printer → Option Printer → Printer
unfolding ctor print_list nbsp print_optional done
visit_init_list c m ps filler = do
  ctor "Einitlist" true
  print_list ps
  nbsp
  print_optional filler
  done c m with_type

abbrev pub trait_name : TypeTrait → String
trait_name align_of = "Ealignof"
trait_name preferred_align_of = "Ealignof_preferred"
trait_name size_of = "Esizeof"
trait_name (other_trait k) = "Eunsupported"

-- `VisitUnaryExprOrTypeTraitExpr`, where `arg` is `do_arg()`. For a trait with no case the quote is closed
-- before the parenthesis, as in the source, so that this parenthesis stands outside of the text.
unfoldable pub visit_trait : Context → Meta → TypeTrait → Printer → Printer
unfolding ctor put_quoted_parts nbsp done
visit_trait c m (other_trait k) arg = do
  ctor "Eunsupported" true
  put_quoted_parts "\"UnaryExprOrTypeTraitExpr(" (c.env.decimal k) "\")"
  nbsp
  done c m with_type
visit_trait c m k arg = do ctor (trait_name k) false; arg; done c m with_type

unfoldable pub trait_type_arg : Context → QualType → Printer
unfolding ctor print_qual_type rparen
trait_type_arg c t = do ctor "inl" false; print_qual_type c.env c.info t; rparen

unfoldable pub trait_expr_arg : Printer → Printer
unfolding ctor keep_depth rparen
trait_expr_arg a = do ctor "inr" false; keep_depth a; rparen

-- `VisitOffsetOfExpr`
unfoldable pub visit_offset_of : Context → Meta → OffsetOf → Printer
unfolding unsupported_expr ctor assert_false print_type nbsp str done
visit_offset_of c m not_one_component = unsupported_expr c m
visit_offset_of c m not_a_field = unsupported_expr c m
visit_offset_of c m (field_component none name) = do ctor "Eoffsetof" true; assert_false
visit_offset_of c m (field_component (some t) name) = do
  ctor "Eoffsetof" true
  print_type c.env c.info t
  nbsp
  str name
  nbsp
  done c m with_type

-- A function and its type, in a tuple.
unfoldable pub print_function : Context → Decl → QualType → Printer
unfolding begin_tuple next_tuple print_qual_type end_tuple
print_function c d t = do
  begin_tuple
  c.env.print_name d
  next_tuple
  print_qual_type c.env c.info t
  end_tuple

-- The form of a `new`, whose placement arguments are `count` many.
unfoldable pub print_new_form : New → ℕ → Printer
unfolding assert_that put nbsp ctor put_bool end_ctor
print_new_form w count =
    if w.is_reserved
    then (do
      assert_that (count == 1)
      assert_that (not w.pass_alignment)
      put "new_form.NonAllocating"
      nbsp)
    else (do ctor "new_form.Allocating" true; put_bool w.pass_alignment; nbsp; end_ctor; nbsp)

abbrev pub is_some : Option Printer → Bool
is_some none = false
is_some (some p) = true

-- `VisitCXXNewExpr`
unfoldable pub visit_new : Context → New → List Printer → Option Printer → Option Printer → Printer
unfolding ctor print_function nbsp print_list print_new_form print_qual_type assert_that
    print_optional end_ctor
visit_new c w placement size init = do
  ctor "Enew" true
  print_function c w.operator_new w.operator_type
  nbsp
  print_list placement
  nbsp
  print_new_form w (length placement)
  print_qual_type c.env c.info w.allocated
  nbsp
  assert_that (if w.is_array then is_some size else not (is_some size))
  print_optional size
  nbsp
  print_optional init
  end_ctor

-- The operator of `VisitCXXDeleteExpr`.
unfoldable pub print_delete : Context → Delete → Printer
unfolding die print_function
print_delete c no_operator = die
print_delete c destroying = die
print_delete c (operator_delete d t) = print_function c d t

-- `VisitCXXDeleteExpr`
unfoldable pub visit_delete : Context → Bool → Delete → Printer → QualType → Printer
unfolding ctor put_bool nbsp print_delete keep_depth print_qual_type end_ctor
visit_delete c is_array op a t = do
  ctor "Edelete" true
  put_bool is_array
  nbsp
  print_delete c op
  nbsp
  keep_depth a
  nbsp
  print_qual_type c.env c.info t
  end_ctor

-- `VisitMaterializeTemporaryExpr`
unfoldable pub visit_materialize : Context → Meta → Bool → Printer → Printer
unfolding unsupported_expr ctor keep_depth done
visit_materialize c m is_extended a =
    if is_extended
    then unsupported_expr c m
    else (do ctor "Ematerialize_temp" true; keep_depth a; done c m with_category)

-- The classes that only wrap their operand: `Eimplicit`, `Eandclean`, `Edefault_init_expr`.
unfoldable pub visit_wrapped : String → Printer → Printer
unfolding ctor keep_depth end_ctor
visit_wrapped name a = do ctor name true; keep_depth a; end_ctor

-- `VisitOpaqueValueExpr`, with the number that was found.
unfoldable pub visit_opaque : Context → Meta → ℤ → Printer
unfolding ctor put_int done
visit_opaque c m z = do ctor "Eopaque_ref" true; put_int c.env z; done c m with_decl_type

-- `VisitAtomicExpr`
unfoldable pub visit_atomic : Context → Meta → Option ℕ → List Printer → Printer
unfolding ctor unsupported_expr put_codes nbsp print_items done
visit_atomic c m none args = do ctor "Eatomic" true; unsupported_expr c m
visit_atomic c m (some op) args = do
  ctor "Eatomic" true
  λ f. ok (put_codes (codes "AO" ++ c.env.atomic_name op) f)
  nbsp
  print_items args
  done c m with_type

-- `VisitVAArgExpr`
unfoldable pub visit_va_arg : Context → Meta → Printer → Printer
unfolding ctor keep_depth done
visit_va_arg c m a = do ctor "Eva_arg" true; keep_depth a; done c m with_type

-- `VisitCXXPseudoDestructorExpr`
unfoldable pub visit_pseudo_destructor : Context → QualType → Printer → Printer
unfolding ctor print_qual_type nbsp keep_depth end_ctor
visit_pseudo_destructor c t base = do
  ctor "Epseudo_destructor" true
  print_qual_type c.env c.info t
  nbsp
  keep_depth base
  end_ctor

-- `VisitConceptSpecializationExpr`
unfoldable pub visit_concept : Context → ℕ → Bool → Bool → Printer
unfolding ctor nbsp with_ctor boolean none_ end_ctor
visit_concept c n is_dependent is_satisfied = do
  ctor "Econcept_specialization" true
  c.env.print_unresolved_name n
  nbsp
  (if is_dependent then with_ctor "Some" false (boolean is_satisfied) else none_)
  end_ctor

-- `VisitCXXScalarValueInitExpr`
unfoldable pub visit_scalar_init : Context → Meta → Printer
unfolding ctor print_qual_type end_ctor
visit_scalar_init c m = do ctor "Eimplicit_init" true; print_qual_type c.env c.info m.type; end_ctor

-- `VisitArrayInitLoopExpr`, with the number of the opaque value and the count of open loops.
unfoldable pub visit_array_loop : Context → Meta → ℕ → ℤ → ℕ → Printer → Printer → Printer
unfolding ctor put_decimal nbsp keep_depth put_int done
visit_array_loop c m index count size src a = do
  ctor "Earrayloop_init" true
  put_decimal c.env index
  nbsp
  keep_depth src
  put_int c.env count
  nbsp
  put_decimal c.env size
  nbsp
  keep_depth a
  done c m with_type

-- `VisitArrayInitIndexExpr`
unfoldable pub visit_array_index : Context → Meta → ℤ → Printer
unfolding ctor put_int nbsp done
visit_array_index c m count = do
  ctor "Earrayloop_index" true
  put_int c.env count
  nbsp
  done c m with_type

-- `VisitStmtExpr`
unfoldable pub visit_stmt_expr : Context → Meta → ℕ → Printer
unfolding with_ctor nbsp print_qual_type
visit_stmt_expr c m s =
    with_ctor "Estmt" true do c.print_stmt s; nbsp; print_qual_type c.env c.info m.type

-- `VisitGNUNullExpr` and `VisitImplicitValueInitExpr`
unfoldable pub visit_typed : Context → Meta → String → Bool → Printer
unfolding ctor done
visit_typed c m name l = do ctor name l; done c m with_type

-- `VisitRecoveryExpr`
unfoldable pub visit_recovery : Context → Meta → Printer
unfolding ctor str done
visit_recovery c m = do ctor "Eunsupported" false; str m.class_name; done c m with_both
