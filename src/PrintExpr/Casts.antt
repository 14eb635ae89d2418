-- ===== src/PrintExpr/Casts.antt =====
-- The casts of PrintExpr.cpp. The operand is given as a printer.
use cpp2v.Common.{ℕ, String, Bool, true, false, List, ◌∷◌, Option, none, some}
use cpp2v.Formatter.{Printer, ok, ◌>>◌, put, put_codes, nbsp, line, lparen}
use cpp2v.CoqPrinter.{ctor, end_ctor, with_ctor, str, list_range}
use cpp2v.ClangPrinter.{Decl, Env, keep_depth}
use cpp2v.PrintType.{QualType, Ty, print_qual_type, print_type}
use cpp2v.PrintExpr.Syntax.{
  Meta, PlainCast, l2r, array2ptr, fun2ptr, ptr2bool, int2bool, user, to_void, TypedCast, bitcast,
  lvalue_bitcast, l2r_bitcast, noop, int2ptr, ptr2int, integral, null2ptr, null2memberptr,
  builtin2fun, ctor_conversion, dynamic, float2int, int2float, float, dependent_cast, Cast, plain,
  typed, derived2base, base2derived, other_cast, ExplicitCast, c_style, functional, builtin_bit,
  other_explicit, named,
}
use cpp2v.PrintExpr.Common.{
  Context, assert_false, assert_that, print_decl_type, done, with_decl_type, unsupported_expr,
}

abbrev pub plain_name : PlainCast → String
plain_name l2r = "Cl2r"
plain_name array2ptr = "Carray2ptr"
plain_name fun2ptr = "Cfun2ptr"
plain_name ptr2bool = "Cptr2bool"
plain_name int2bool = "Cint2bool"
plain_name user = "Cuser"
plain_name to_void = "C2void"

abbrev pub typed_name : TypedCast → String
typed_name bitcast = "Cbitcast"
typed_name lvalue_bitcast = "Clvaluebitcast"
typed_name l2r_bitcast = "Cl2r_bitcast"
typed_name noop = "Cnoop"
typed_name int2ptr = "Cint2ptr"
typed_name ptr2int = "Cptr2int"
typed_name integral = "Cintegral"
typed_name null2ptr = "Cnull2ptr"
typed_name null2memberptr = "Cnull2memberptr"
typed_name builtin2fun = "Cbuiltin2fun"
typed_name ctor_conversion = "Cctor"
typed_name dynamic = "Cdynamic"
typed_name float2int = "Cfloat2int"
typed_name int2float = "Cint2float"
typed_name float = "Cfloat"
typed_name dependent_cast = "Cdependent"

unfoldable pub print_step : Context → Option Ty → Printer
unfolding assert_false print_type
print_step c none = assert_false
print_step c (some t) = print_type c.env c.info t

-- A cast along a path of classes.
unfoldable pub print_path : Context → Meta → String → List (Option Ty) → Printer
unfolding ctor list_range print_step nbsp done
print_path c m name path = do
  ctor name true
  list_range (print_step c) path
  nbsp
  done c m with_decl_type

-- `printCast`
unfoldable pub print_cast : Context → Meta → Cast → Printer
unfolding put with_ctor print_decl_type print_path ctor str nbsp done
print_cast c m (plain k) = put (plain_name k)
print_cast c m (typed k) = with_ctor (typed_name k) false (print_decl_type c m)
print_cast c m (derived2base path) = print_path c m "Cderived2base" path
print_cast c m (base2derived path) = print_path c m "Cbase2derived" path
print_cast c m (other_cast name) = do
  ctor "Cunsupported" false
  str name
  nbsp
  done c m with_decl_type

-- What the explicit casts share.
unfoldable pub visit_cast_body : Context → Meta → Cast → QualType → Printer → Printer
unfolding print_cast nbsp print_qual_type keep_depth end_ctor
visit_cast_body c m k written a = do
  print_cast c m k
  nbsp
  print_qual_type c.env c.info written
  nbsp
  keep_depth a
  end_ctor

-- `print.ctor(llvm::Twine("E") + name)`
unfoldable pub open_named_cast : Env → ℕ → Printer
unfolding line lparen put_codes nbsp
open_named_cast env k = do line; lparen; λ f. ok (put_codes (b'E' ∷ env.cast_name k) f); nbsp

-- `VisitExplicitCastExpr`
unfoldable pub visit_explicit_cast :
    Context → Meta → ExplicitCast → Cast → QualType → Printer → Printer
unfolding ctor open_named_cast visit_cast_body unsupported_expr
visit_explicit_cast c m c_style k t a = do ctor "Ecstyle_cast" true; visit_cast_body c m k t a
visit_explicit_cast c m (named n) k t a = do open_named_cast c.env n; visit_cast_body c m k t a
visit_explicit_cast c m functional k t a = do
  ctor "Efunctional_cast" true
  visit_cast_body c m k t a
visit_explicit_cast c m builtin_bit k t a = do
  ctor "Ebuiltin_bit_cast" true
  visit_cast_body c m k t a
visit_explicit_cast c m other_explicit k t a = unsupported_expr c m

-- `VisitImplicitCastExpr`, for a builtin function.
unfoldable pub visit_builtin_cast : Context → Option (Decl × Bool) → QualType → Printer
unfolding assert_false assert_that ctor nbsp print_qual_type end_ctor
visit_builtin_cast c none t = assert_false
visit_builtin_cast c (some (d, is_builtin)) t = do
  assert_that is_builtin
  ctor "Ebuiltin" false
  c.env.print_name d
  nbsp
  print_qual_type c.env c.info t
  end_ctor

-- `VisitImplicitCastExpr`
unfoldable pub visit_implicit_cast : Context → Meta → Cast → Printer → Printer
unfolding with_ctor print_cast nbsp keep_depth
visit_implicit_cast c m k a = with_ctor "Ecast" true do print_cast c m k; nbsp; keep_depth a
