-- ===== src/PrintExpr/Common.antt =====
-- What the cases of PrintExpr.cpp share: `done`, `printDeclType`, `unsupported_expr`, and the context.
use cpp2v.Common.{ℕ, suc, String, Bool, false, List, ◌∷◌, Option, none, some, if◌then◌else◌}
use cpp2v.Formatter.{Printer, ok, err, asserted, ◌>>◌, skip, put, put_codes, nbsp}
use cpp2v.OpaqueNames.{ℤ, pos, negsuc}
use cpp2v.CoqPrinter.{ctor, end_ctor, with_ctor, str}
use cpp2v.ClangPrinter.{Decl, Env}
use cpp2v.PrintType.{QualType, Info, print_qual_type, print_qual_type_option}
use cpp2v.PrintExpr.Syntax.{ValueCategory, lvalue, xvalue, prvalue, Meta}

-- `getLambdaClass()`: the class, the qualifiers of its call operator, and the type of the field that holds
-- `this`, if there is one.
pub record Lambda : Type 0 where
  pub class : Decl
  pub is_const : Bool
  pub is_volatile : Bool
  pub this_type : Option QualType

-- What the printer of expressions reads, with `endianness::native == endianness::big` and the printer of
-- statements.
pub record Context : Type 0 where
  pub env : Env
  pub info : Info
  pub lambda_class : Option Lambda
  pub is_big : Bool
  pub print_stmt : ℕ → Printer

unfoldable pub assert_false : Printer
assert_false f = err asserted

unfoldable pub assert_that : Bool → Printer
unfolding skip assert_false
assert_that b = if b then skip else assert_false

-- `output << n`, for an `int`.
abbrev pub int_text : Env → ℤ → List ℕ
int_text env (pos n) = env.decimal n
int_text env (negsuc n) = b'-' ∷ env.decimal (suc n)

unfoldable pub put_int : Env → ℤ → Printer
unfolding put_codes
put_int env z f = ok (put_codes (int_text env z) f)

-- The texts in quotes that are written in three parts.
unfoldable pub put_quoted_parts : String → List ℕ → String → Printer
unfolding put put_codes
put_quoted_parts opening text closing = do put opening; λ f. ok (put_codes text f); put closing

abbrev pub category_name : ValueCategory → String
category_name lvalue = "Lvalue"
category_name xvalue = "Xvalue"
category_name prvalue = "Prvalue"

unfoldable pub print_category : Option ValueCategory → Printer
unfolding put assert_false
print_category none = assert_false
print_category (some v) = put (category_name v)

-- `ClangPrinter::printValCat`
unfoldable pub print_val_cat : Env → Meta → Printer
unfolding put print_category
print_val_cat env m =
    if env.templates then put (category_name m.category) else print_category m.classified

-- A type, behind the reference that its category stands for.
unfoldable pub print_as : Context → ValueCategory → QualType → Printer
unfolding with_ctor print_qual_type
print_as c lvalue t = with_ctor "Tref" false (print_qual_type c.env c.info t)
print_as c xvalue t = with_ctor "Trv_ref" false (print_qual_type c.env c.info t)
print_as c prvalue t = print_qual_type c.env c.info t

-- `printDeclType`
unfoldable pub print_decl_type : Context → Meta → Printer
unfolding print_as
print_decl_type c m = print_as c m.category m.type

-- The values of `Done` that the cases use.
pub data Done : Type 0 where
  only_close with_category with_type with_option with_both with_decl_type : Done

unfoldable pub done : Context → Meta → Done → Printer
unfolding nbsp end_ctor print_val_cat print_qual_type print_qual_type_option print_decl_type
done c m only_close = end_ctor
done c m with_category = do nbsp; print_val_cat c.env m; end_ctor
done c m with_type = do nbsp; print_qual_type c.env c.info m.type; end_ctor
done c m with_option = do nbsp; print_qual_type_option c.env c.info m.is_dependent m.type; end_ctor
done c m with_both = do
  nbsp
  print_val_cat c.env m
  nbsp
  print_qual_type c.env c.info m.type
  end_ctor
done c m with_decl_type = do print_decl_type c m; end_ctor

-- `print.templates() ? Done::O : Done::T`
abbrev pub option_or_type : Env → Done
option_or_type env = if env.templates then with_option else with_type

-- `unsupported_expr`; the warning goes to the log.
unfoldable pub unsupported_expr : Context → Meta → Printer
unfolding ctor str nbsp done
unsupported_expr c m = do ctor "Eunsupported" false; str m.message; nbsp; done c m with_decl_type

-- The test of `Visit`, and the case of the visitor.
unfoldable pub frame : Meta → Printer → Printer
unfolding ctor str nbsp end_ctor
frame m visited =
    if m.has_errors then (do ctor "Eerror" false; str m.message; nbsp; end_ctor) else visited
