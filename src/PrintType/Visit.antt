-- ===== src/PrintType/Visit.antt =====
-- The visitor of PrintType.cpp, `printType` and `printQualType`.
use cpp2v.Common.{
  ℕ, String, Bool, true, false, List, [], ◌∷◌, ◌++◌, Option, none, some, ◌==◌, if◌then◌else◌, codes,
}
use cpp2v.Formatter.{Printer, ok, err, asserted, ◌>>◌, put, put_codes, nbsp, lparen, rparen}
use cpp2v.CoqPrinter.{ctor, end_ctor, with_ctor, str, list_range, none_, some_}
use cpp2v.ClangPrinter.{Decl, Env, keep_depth, put_decimal, die, print_variadic, print_calling_conv}
use cpp2v.PrintType.Syntax.{
  BuiltinKind, SimpleKind, simple, bool, void, null_ptr, schar, uchar, char_s, char_u, wchar_s,
  wchar_u, char16, char32, char8, short, ushort, int, uint, long, ulong, long_long, ulong_long,
  int128, uint128, float, double, long_double, float16, float128, dependent, sizeless, other,
  Transform, enum_underlying_type, transform, QualType, null, qual, Params, no_params, param, Ty,
  any_type, block_pointer, pack_expansion, attributed, dependent_sized_array,
  sugared_dependent_name, dependent_name, unary_transform, deduced_auto, undeduced_auto, deduced,
  undeduced, template_type_parm, enum_type, record_type, paren, builtin, lvalue_reference,
  rvalue_reference, pointer, typedef, function_proto, elaborated, constant_array,
  subst_template_type_parm, incomplete_array, variable_array, decayed, alias_specialization,
  sugared_specialization, template_specialization, sugared_decltype, decltype, sugared_type_of,
  type_of, injected_class_name, member_pointer, macro_qualified, using_type,
}

-- What the printer of types asks about a node: the name that the cache holds for it, 0 if none, and the
-- text of `loc::describe`.
pub record Info : Type 0 where
  pub cached : Ty → ℕ
  pub describe : Ty → List ℕ

abbrev pub not_null : QualType → Bool
not_null null = false
not_null (qual _ _ _ _) = true

-- `Cache::reference(p)`, where the cache holds the name `n`, and `Visit` otherwise.
unfoldable pub reference_or : Env → ℕ → Printer → Printer
unfolding put_codes
reference_or env n visited =
    if n == 0 then visited else λ f. ok (put_codes (b't' ∷ env.decimal n) f)

-- `printType`, where `visited` is what the visitor does for the node.
unfoldable pub type_frame : Env → ℕ → Printer → Printer
unfolding keep_depth reference_or
type_frame env n visited = keep_depth (reference_or env n visited)

-- `unsupported_type`; the warning goes to the log.
unfoldable pub unsupported : List ℕ → Printer
unfolding with_ctor str
unsupported message = with_ctor "Tunsupported" false (str message)

-- The part of `print.ctor(name, false)`, `body` and `print.end_ctor()`.
unfoldable pub wrapped : String → Printer → Printer
unfolding ctor end_ctor
wrapped name body = do ctor name false; body; end_ctor

unfoldable pub put_sizeless : List ℕ → Printer
unfolding put_codes lparen rparen
put_sizeless name = do
  lparen
  λ f. ok (put_codes (codes "Tarch None " ++ b'"' ∷ []) f)
  λ f. ok (put_codes name f)
  λ f. ok (put_codes (b'"' ∷ []) f)
  rparen

-- The `CASE` lines of `VisitBuiltinType`.
unfoldable pub keyword : SimpleKind → String
keyword bool = "Tbool"
keyword void = "Tvoid"
keyword null_ptr = "Tnullptr"
keyword schar = "Tschar"
keyword uchar = "Tuchar"
keyword char_s = "Tchar"
keyword char_u = "Tchar"
keyword wchar_s = "Twchar"
keyword wchar_u = "Twchar"
keyword char16 = "Tchar16"
keyword char32 = "Tchar32"
keyword char8 = "Tchar8"
keyword short = "Tshort"
keyword ushort = "Tushort"
keyword int = "Tint"
keyword uint = "Tuint"
keyword long = "Tlong"
keyword ulong = "Tulong"
keyword long_long = "Tlonglong"
keyword ulong_long = "Tulonglong"
keyword int128 = "Tint128_t"
keyword uint128 = "Tuint128_t"
keyword float = "Tfloat"
keyword double = "Tdouble"
keyword long_double = "Tlongdouble"
keyword float16 = "Tfloat16"
keyword float128 = "Tfloat128"

-- `VisitBuiltinType`, where `message` describes the type.
unfoldable pub visit_builtin : Env → List ℕ → BuiltinKind → Printer
unfolding put put_sizeless unsupported keyword
visit_builtin env message (simple k) = put (keyword k)
visit_builtin env message dependent =
    if env.templates then put "Tdependent" else unsupported message
visit_builtin env message (sizeless k) = put_sizeless (env.sizeless_name k)
visit_builtin env message other = unsupported message

-- The opening of `VisitUnaryTransformType`.
unfoldable pub open_transform : Transform → Printer
unfolding ctor str put nbsp
open_transform enum_underlying_type = ctor "@Tunderlying" false
open_transform (transform name) = do ctor "@Tunary_xform" false; str name; put "%bs"; nbsp

-- The last case of `VisitTemplateSpecializationType`. `printRiskyTypeComment` prints nothing, since
-- `ClangPrinter::debug` is false.
unfoldable pub visit_specialization : Env → List ℕ → Option Decl → ℕ → Printer
unfolding unsupported with_ctor nbsp
visit_specialization env message none args = unsupported message
visit_specialization env message (some temp) args = do
  nbsp
  with_ctor "Tnamed" false (
      with_ctor "Ninst (* TemplateSpecializationType *)" false
        do env.print_name temp; nbsp; env.print_template_argument_list args)

-- `VisitInjectedClassNameType`
unfoldable pub visit_injected : Env → List ℕ → Option Decl → Printer
unfolding unsupported with_ctor nbsp
visit_injected env message decl = if env.templates then named decl else (λ f. err asserted)
  where
    named : Option Decl → Printer
    named none = unsupported message
    named (some d) = do nbsp; with_ctor "Tnamed" false do env.print_name d; nbsp

-- `printQualType` around the type that `p` prints.
unfoldable pub qualified : Bool → Bool → Bool → Printer → Printer
unfolding wrapped
qualified local_const local_volatile volatile p =
    if local_const
    then (if volatile then wrapped "Qconst_volatile" p else wrapped "Qconst" p)
    else (if local_volatile then wrapped "Qvolatile" p else p)

unfoldable mutual
  unfolding unsupported wrapped with_ctor list_range visit_builtin open_transform
      visit_specialization visit_injected qualified type_frame die put_decimal print_calling_conv
      print_variadic

  pub visit : Env → Info → Ty → Printer
  visit env info any_type = unsupported (info.describe any_type)
  visit env info block_pointer = unsupported (info.describe block_pointer)
  visit env info pack_expansion = unsupported (info.describe pack_expansion)
  visit env info (attributed t) = print_qual_type env info t
  visit env info (dependent_sized_array t e) =
      with_ctor "Tvariable_array" true do print_qual_type env info t; nbsp; env.print_expr e
  visit env info (sugared_dependent_name t) = print_qual_type env info t
  visit env info (dependent_name n) = with_ctor "Tnamed" true (env.print_unresolved_name n)
  visit env info (unary_transform true k b u) =
      unsupported (info.describe (unary_transform true k b u))
  visit env info (unary_transform false k b u) = do
    open_transform k
    print_qual_type env info b
    nbsp
    print_qual_type env info u
    end_ctor
  visit env info (deduced_auto false t) = print_qual_type env info t
  visit env info (deduced_auto true t) =
      if env.templates then put "Tauto" else unsupported (info.describe (deduced_auto true t))
  visit env info undeduced_auto =
      if env.templates then put "Tauto" else unsupported (info.describe undeduced_auto)
  visit env info (deduced t) = print_qual_type env info t
  visit env info undeduced = unsupported (info.describe undeduced)
  visit env info (template_type_parm d i) = env.print_type_template_param d i
  visit env info (enum_type d) = wrapped "Tenum" (env.print_name d)
  visit env info (record_type d) = wrapped "Tnamed" (env.print_name d)
  visit env info (paren t) = print_qual_type env info t
  visit env info (builtin k) = visit_builtin env (info.describe (builtin k)) k
  visit env info (lvalue_reference t) = wrapped "Tref" (print_qual_type env info t)
  visit env info (rvalue_reference t) = wrapped "Trv_ref" (print_qual_type env info t)
  visit env info (pointer t) = wrapped "Tptr" (print_qual_type env info t)
  visit env info (typedef d t) = print_qual_type env info t
  visit env info (function_proto cc va r ps) = with_ctor "Tfunction" true do
    put (if env.templates then "Mtype" else "type")
    nbsp
    print_calling_conv cc
    nbsp
    print_variadic va
    nbsp
    print_qual_type env info r
    nbsp
    list_range (λ p. p) (print_params env info ps)
  visit env info (elaborated t) = print_qual_type env info t
  visit env info (constant_array t n) =
      wrapped "Tarray" do print_qual_type env info t; nbsp; put_decimal env n
  visit env info (subst_template_type_parm t) = print_qual_type env info t
  visit env info (incomplete_array t) = wrapped "Tincomplete_array" (print_qual_type env info t)
  visit env info (variable_array t e) =
      wrapped "Tvariable_array" do print_qual_type env info t; nbsp; env.print_expr e
  visit env info (decayed t u) =
      wrapped "Tdecay_type" do print_qual_type env info t; nbsp; print_qual_type env info u
  visit env info (alias_specialization t) = print_qual_type env info t
  visit env info (sugared_specialization t) = print_qual_type env info t
  visit env info (template_specialization temp args) =
      visit_specialization env (info.describe (template_specialization temp args)) temp args
  visit env info (sugared_decltype t) = print_qual_type env info t
  visit env info (decltype is_ref e) =
      if env.templates
      then with_ctor (if is_ref then "Texprtype" else "Tdecltype") false (env.print_expr e)
      else unsupported (info.describe (decltype is_ref e))
  visit env info (sugared_type_of t) = print_qual_type env info t
  visit env info (type_of t) =
      let printed = print_qual_type env info t in
      if env.templates then printed else unsupported (info.describe (type_of t))
  visit env info (injected_class_name d) =
      visit_injected env (info.describe (injected_class_name d)) d
  visit env info (member_pointer c t) =
      wrapped "Tmember_pointer"
        do type_frame env (info.cached c) (visit env info c); nbsp; print_qual_type env info t
  visit env info (macro_qualified t) = print_qual_type env info t
  visit env info (using_type is_sugared t) =
      let printed = print_qual_type env info t in
      if is_sugared then printed else (λ f. err asserted)

  pub print_qual_type : Env → Info → QualType → Printer
  print_qual_type env info null = die
  print_qual_type env info (qual c v w t) =
      qualified c v w (type_frame env (info.cached t) (visit env info t))

  -- Top-level qualifiers of parameters are not printed.
  pub print_params : Env → Info → Params → List Printer
  print_params env info no_params = []
  print_params env info (param t ps) =
      type_frame env (info.cached t) (visit env info t) ∷ print_params env info ps

-- `printType`
unfoldable pub print_type : Env → Info → Ty → Printer
unfolding visit type_frame
print_type env info t = type_frame env (info.cached t) (visit env info t)

-- `printQualTypeOption`; a dependent type, like a null one, prints as `None`.
unfoldable pub print_qual_type_option : Env → Info → Bool → QualType → Printer
unfolding print_qual_type none_ some_ end_ctor
print_qual_type_option env info is_dependent null = none_
print_qual_type_option env info true (qual _ _ _ _) = none_
print_qual_type_option env info false (qual c v w t) = do
  some_
  print_qual_type env info (qual c v w t)
  end_ctor
