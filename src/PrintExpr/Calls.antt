-- ===== src/PrintExpr/Calls.antt =====
-- The calls of PrintExpr.cpp. Arguments are given as printers.
use cpp2v.Common.{ℕ, suc, Bool, true, false, List, [], ◌∷◌, Option, none, some, not, if◌then◌else◌}
use cpp2v.Formatter.{Printer, ◌>>◌, put, put_bool, nbsp, line, lparen, rparen}
use cpp2v.CoqPrinter.{ctor, end_ctor, with_ctor, list_range}
use cpp2v.ClangPrinter.{Decl, keep_depth, put_decimal}
use cpp2v.PrintType.{QualType, print_qual_type}
use cpp2v.PrintExpr.Syntax.{Meta, Operator, DependentName}
use cpp2v.PrintExpr.Common.{Context, assert_false, assert_that, done, with_type}
use cpp2v.PrintExpr.Refs.{print_dependent_name}
use cpp2v.PrintExpr.Operators.{print_operator}

-- `print.list` of expressions.
unfoldable pub print_list : List Printer → Printer
unfolding list_range keep_depth
print_list ps = list_range keep_depth ps

unfoldable pub no_args : List Printer → Bool
no_args [] = true
no_args (_ ∷ _) = false

-- The branches of `VisitCallExpr`.
unfoldable pub visit_unresolved_call : Context → DependentName → List Printer → Printer
unfolding with_ctor print_dependent_name nbsp print_list
visit_unresolved_call c callee args =
    with_ctor "Eunresolved_call" true do print_dependent_name c callee; nbsp; print_list args

unfoldable pub visit_pseudo_call : Context → Bool → QualType → Printer → List Printer → Printer
unfolding assert_that no_args ctor put_bool nbsp print_qual_type keep_depth end_ctor
visit_pseudo_call c arrow t base args = do
  assert_that (no_args args)
  ctor "Epseudo_destructor" true
  put_bool arrow
  nbsp
  print_qual_type c.env c.info t
  nbsp
  keep_depth base
  end_ctor

unfoldable pub visit_call : Printer → List Printer → Printer
unfolding ctor keep_depth line print_list end_ctor
visit_call callee args = do ctor "Ecall" true; keep_depth callee; line; print_list args; end_ctor

-- `VisitCXXOperatorCallExpr`, for a method: the first argument is the object.
unfoldable pub visit_operator_method :
    Context → Operator → Decl → Bool → Bool → QualType → Printer → List Printer → Printer
unfolding assert_that ctor print_operator nbsp put print_qual_type keep_depth print_list end_ctor
visit_operator_method c op d is_static is_virtual t object args = do
  assert_that (not is_static)
  ctor "Eoperator_member_call" true
  print_operator c.env op
  nbsp
  c.env.print_name d
  nbsp
  put (if is_virtual then "Virtual" else "Direct")
  nbsp
  print_qual_type c.env c.info t
  nbsp
  keep_depth object
  nbsp
  print_list args
  end_ctor

unfoldable pub visit_operator_function :
    Context → Operator → Decl → QualType → List Printer → Printer
unfolding ctor print_operator nbsp print_qual_type print_list end_ctor
visit_operator_function c op d t args = do
  ctor "Eoperator_call" true
  print_operator c.env op
  nbsp
  c.env.print_name d
  nbsp
  print_qual_type c.env c.info t
  nbsp
  print_list args
  end_ctor

-- `VisitCXXConstructExpr`
unfoldable pub visit_construct : Context → Meta → Decl → List Printer → Printer
unfolding ctor nbsp print_list done
visit_construct c m d args = do
  ctor "Econstructor" true
  c.env.print_name d
  nbsp
  print_list args
  done c m with_type

-- A parameter of an inherited constructor, by its index.
unfoldable pub print_forwarded : Context → ℕ × QualType → Printer
unfolding ctor put put_decimal nbsp print_qual_type end_ctor
print_forwarded c (idx, t) = do
  ctor "Evar" false
  put "(localname.anon "
  put_decimal c.env idx
  put ")"
  nbsp
  print_qual_type c.env c.info t
  end_ctor

unfoldable pub number_from : ℕ → List QualType → List (ℕ × QualType)
number_from k [] = []
number_from k (t ∷ ts) = (k, t) ∷ number_from (suc k) ts

-- `VisitCXXInheritedCtorInitExpr`
unfoldable pub visit_inherited_ctor : Context → Meta → Decl → List QualType → Printer
unfolding ctor nbsp list_range print_forwarded number_from done
visit_inherited_ctor c m d ts = do
  ctor "Econstructor" true
  c.env.print_name d
  nbsp
  list_range (print_forwarded c) (number_from 0 ts)
  done c m with_type

unfoldable pub print_method_type : Context → Option QualType → Printer
unfolding assert_false print_qual_type
print_method_type c none = assert_false
print_method_type c (some t) = print_qual_type c.env c.info t

-- `VisitCXXMemberCallExpr`, where the callee is a member.
unfoldable pub visit_member_call :
    Context → Bool → Decl → Bool → Option QualType → Printer → List Printer → Printer
unfolding ctor put_bool nbsp lparen put print_method_type rparen end_ctor keep_depth print_list
visit_member_call c arrow d is_virtual t object args = do
  ctor "Emember_call" true
  put_bool arrow
  nbsp
  ctor "inl" true
  lparen
  c.env.print_name d
  put ","
  nbsp
  put (if is_virtual then "Virtual" else "Direct")
  put ","
  nbsp
  print_method_type c t
  rparen
  end_ctor
  nbsp
  keep_depth object
  nbsp
  print_list args
  end_ctor

-- `VisitCXXMemberCallExpr`, where the callee is `.*` or `->*`.
unfoldable pub visit_pointer_call : Bool → Printer → Printer → List Printer → Printer
unfolding ctor put_bool nbsp keep_depth end_ctor print_list
visit_pointer_call arrow rhs object args = do
  ctor "Emember_call" true
  put_bool arrow
  nbsp
  ctor "inr" true
  keep_depth rhs
  end_ctor
  nbsp
  keep_depth object
  nbsp
  print_list args
  end_ctor

unfoldable pub visit_other_call : Printer
unfolding ctor assert_false
visit_other_call = do ctor "Emember_call" true; assert_false

-- `VisitLambdaExpr`
unfoldable pub visit_lambda : Context → Decl → List Printer → Printer
unfolding ctor nbsp print_list end_ctor
visit_lambda c d captures = do
  ctor "Elambda" true
  c.env.print_name d
  nbsp
  print_list captures
  end_ctor
