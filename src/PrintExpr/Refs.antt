-- ===== src/PrintExpr/Refs.antt =====
-- References to declarations: `printValueDeclExpr`, `VisitDeclRefExpr`, `VisitCXXThisExpr` and the
-- dependent names of PrintExpr.cpp.
use cpp2v.Common.{
  ℕ, Bool, true, false, List, [], ◌∷◌, Option, none, some, ◌&&◌, ◌||◌, not, if◌then◌else◌,
}
use cpp2v.Formatter.{Printer, ◌>>◌, put, nbsp}
use cpp2v.OpaqueNames.{ℤ, pos, negsuc, OpaqueNames, find_anon}
use cpp2v.CoqPrinter.{ctor, end_ctor, with_ctor, str}
use cpp2v.ClangPrinter.{Decl, Env, put_decimal, print_qualifier, die}
use cpp2v.PrintType.{QualType, print_qual_type}
use cpp2v.PrintExpr.Syntax.{
  Meta, ValueDecl, DeclRef, missing, captured, enum_const, template_param, value, DependentName,
  scope_member, scope_ref, lookup, unresolved_member, other_name,
}
use cpp2v.PrintExpr.Common.{
  Lambda, Context, assert_false, assert_that, done, with_type, unsupported_expr,
}

-- The part of `printValueDeclExpr` before the type.
unfoldable pub print_value_name : Env → ValueDecl → ℤ → Printer
unfolding ctor put put_decimal
print_value_name env v (pos t) = do
  ctor "Evar" false
  put "(localname.anon "
  put_decimal env t
  put ")"
print_value_name env v (negsuc n) =
    if v.is_local && not (v.is_function || v.is_static_local)
    then ctor "Evar" false
      >> (if v.is_param then env.print_param_name v.decl else env.print_unqualified_name v.decl)
    else ctor "Eglobal" false >> env.print_name v.decl

-- `printValueDeclExpr`
unfoldable pub print_value_decl : Context → ValueDecl → OpaqueNames → Printer
unfolding print_value_name find_anon nbsp print_qual_type end_ctor
print_value_decl c v names = do
  print_value_name c.env v (find_anon v.decl names)
  nbsp
  print_qual_type c.env c.info v.type
  end_ctor

unfoldable pub is_empty : List ℕ → Bool
is_empty [] = true
is_empty (_ ∷ _) = false

-- A reference to a variable of an enclosing function.
unfoldable pub visit_captured :
    Context → Meta → Option Lambda → Decl → List ℕ → Option QualType → Printer
unfolding assert_false assert_that ctor end_ctor print_qualifier nbsp is_empty str print_qual_type
    done
visit_captured c m none d name t = assert_false
visit_captured c m (some l) d name none = do
  ctor "Eunevaluated_var" true
  c.env.print_unqualified_name d
  done c m with_type
visit_captured c m (some l) d name (some t) = do
  ctor "Ecapture_var" true
  print_qualifier l.is_const l.is_volatile
  nbsp
  c.env.print_name l.class
  nbsp
  assert_that (not (is_empty name))
  str name
  nbsp
  print_qual_type c.env c.info t
  end_ctor

unfoldable pub visit_enum_const : Context → Meta → Decl → Decl → Bool → Printer
unfolding ctor end_ctor nbsp done
visit_enum_const c m ed ecd true = do
  ctor "Eenum_const" false
  c.env.print_name ed
  nbsp
  c.env.print_unqualified_name ecd
  end_ctor
visit_enum_const c m ed ecd false = do
  ctor "Eenum_const_at" false
  c.env.print_name ed
  nbsp
  c.env.print_unqualified_name ecd
  nbsp
  done c m with_type

unfoldable pub visit_template_param : Env → Decl → ℕ → ℕ → Printer
unfolding with_ctor
visit_template_param env d depth index =
    if env.templates
    then with_ctor "Eparam" false (env.print_unqualified_name d)
    else env.print_non_type_param depth index

-- `VisitDeclRefExpr`
unfoldable pub visit_decl_ref : Context → Meta → DeclRef → OpaqueNames → Printer
unfolding die visit_captured visit_enum_const visit_template_param print_value_decl
visit_decl_ref c m missing names = die
visit_decl_ref c m (captured d name t) names = visit_captured c m c.lambda_class d name t
visit_decl_ref c m (enum_const ed ecd b) names = visit_enum_const c m ed ecd b
visit_decl_ref c m (template_param d depth index) names = visit_template_param c.env d depth index
visit_decl_ref c m (value v) names = print_value_decl c v names

-- The field of a lambda that holds `this`.
unfoldable pub visit_captured_this : Context → Lambda → Option QualType → Printer
unfolding assert_false ctor end_ctor print_qualifier nbsp print_qual_type
visit_captured_this c l none = assert_false
visit_captured_this c l (some t) = do
  ctor "Ecapture_this" false
  print_qualifier l.is_const l.is_volatile
  nbsp
  c.env.print_name l.class
  nbsp
  print_qual_type c.env c.info t
  end_ctor

-- `VisitCXXThisExpr`
unfoldable pub visit_this : Context → Meta → Option Lambda → Printer
unfolding visit_captured_this ctor done
visit_this c m none = do ctor "Ethis" false; done c m with_type
visit_this c m (some l) = visit_captured_this c l l.this_type

-- `PrintDependentName`
unfoldable pub print_dependent_name : Context → DependentName → Printer
unfolding with_ctor ctor str end_ctor put nbsp print_qual_type
print_dependent_name c (scope_member t n) = with_ctor "Ndependent" true (
    with_ctor "Tresult_member" true
      do print_qual_type c.env c.info t; nbsp; c.env.print_unresolved_name n)
print_dependent_name c (scope_ref n) = c.env.print_unresolved_name n
print_dependent_name c (lookup n) = c.env.print_unresolved_name n
print_dependent_name c unresolved_member = put "(Nunsupported \"VisitUnresolvedMemberExpr\")"
print_dependent_name c (other_name text) = do ctor "Nunsupported" true; str text; end_ctor

-- `VisitDependentScopeDeclRefExpr` and `VisitUnresolvedLookupExpr`
unfoldable pub visit_unresolved_global : Context → Meta → ℕ → Printer
unfolding unsupported_expr with_ctor
visit_unresolved_global c m n =
    if not c.env.templates
    then unsupported_expr c m
    else with_ctor "Eunresolved_global" false (c.env.print_unresolved_name n)
