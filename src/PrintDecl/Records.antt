-- ===== src/PrintDecl/Records.antt =====
-- Structures and unions (PrintDecl.cpp).
use cpp2v.Common.{
  ℕ, suc, Bool, true, false, List, [], ◌∷◌, Option, none, some, ◌==◌, ◌||◌, not, codes,
  if◌then◌else◌,
}
use cpp2v.Formatter.{Printer, err, asserted, ◌>>◌, skip, put, put_bool, nbsp, line, cons, tuple_sep}
use cpp2v.CoqPrinter.{
  Maybe, with_ctor, with_some, with_list, str, boolean, none_, list_range, list_range_filter,
}
use cpp2v.ClangPrinter.{Decl, Expr, Env, put_decimal, die, answer}
use cpp2v.PrintType.{Ty, print_qual_type, print_type}
use cpp2v.PrintDecl.Syntax.{
  DeclEnv, Heading, Anonymous, of_record, of_no_record, FieldName, identifier, anonymous,
  capture_this, capture_var, no_capture, Field, Base, Method, Tag, class_tag, struct_tag, union_tag,
  Layout, pod, standard, unspecified, Record,
}
use cpp2v.PrintDecl.Declaration.{silent, print_declaration}

-- `printLayoutInfo`
unfoldable pub print_layout_info : Env → ℕ → Printer
unfolding with_ctor put_decimal
print_layout_info env n = with_ctor "Build_LayoutInfo" true (put_decimal env n)

-- The end of `printAnonymousFieldName`.
unfoldable pub print_anonymous : DeclEnv → Anonymous → Printer
unfolding with_ctor str
print_anonymous c (of_record d) = c.short_name d
print_anonymous c of_no_record =
    with_ctor "field_name.Id" false (str (codes "<anonymous field not of record type>"))

-- `printFieldName`
unfoldable pub print_field_name : DeclEnv → FieldName → Printer
unfolding with_ctor str skip print_anonymous
print_field_name c (identifier name) = with_ctor "field_name.Id" false (str name)
print_field_name c (anonymous a) = print_anonymous c a
print_field_name c capture_this = with_ctor "field_name.CaptureVar" true (str (codes "this"))
print_field_name c (capture_var name) = with_ctor "field_name.CaptureVar" true (str name)
print_field_name c (no_capture a) = do
  with_ctor "field_name.CaptureVar" true skip
  print_anonymous c a

-- `printFieldInitializer`
unfoldable pub print_initializer : Env → Option Expr → Printer
unfolding with_some none_
print_initializer env none = none_
print_initializer env (some e) = with_some true (env.print_expr e)

unfoldable pub language : Bool → Printer
unfolding put
language templates = put (if templates then "lang.temp" else "lang.cpp")

-- A field, with the counter of `printFields`.
unfoldable pub print_field : DeclEnv → Bool → ℕ × Field → Printer
unfolding die with_ctor language nbsp print_field_name print_qual_type boolean print_initializer
    print_layout_info
print_field c has_layout (i, x) =
    if x.is_bit_field
    then die
    else with_ctor "@mkMember" (not (i == 0)) (do
      language c.env.templates
      nbsp
      print_field_name c x.name
      nbsp
      print_qual_type c.env c.info x.type
      nbsp
      boolean x.is_mutable
      nbsp
      print_initializer c.env x.initializer
      nbsp
      print_layout_info c.env (if has_layout then x.offset else 0))

-- The counter goes up where there is a layout.
unfoldable pub counted : Bool → ℕ → List Field → List (ℕ × Field)
counted has_layout i [] = []
counted has_layout i (x ∷ xs) = (i, x) ∷ counted has_layout (if has_layout then suc i else i) xs

-- `printFields`
unfoldable pub print_fields : DeclEnv → Bool → List Field → Printer
unfolding list_range print_field counted
print_fields c has_layout xs = list_range (print_field c has_layout) (counted has_layout 0 xs)

-- A base outside of templates: its class has to be there.
unfoldable pub print_class_base : DeclEnv → ℕ → Option Decl → Printer
unfolding with_ctor nbsp print_layout_info
print_class_base c offset none f = err asserted
print_class_base c offset (some d) f =
    with_ctor "mkBase" true (do c.env.print_name d; nbsp; print_layout_info c.env offset) f

unfoldable pub print_base_type : DeclEnv → Bool → Base → Option Ty → Printer
unfolding die with_ctor nbsp print_type print_layout_info print_class_base
print_base_type c has_layout b none = die
print_base_type c has_layout b (some t) =
    if c.env.templates
    then with_ctor "mkBase" true (do print_type c.env c.info t; nbsp; print_layout_info c.env 0)
    else print_class_base c (if has_layout then b.offset else 0) b.class

unfoldable pub print_base : DeclEnv → Bool → Base → Printer
unfolding die print_base_type
print_base c has_layout b = if b.is_virtual then die else print_base_type c has_layout b b.type

-- `printStructBases`
unfoldable pub print_bases : DeclEnv → Bool → List Base → Printer
unfolding list_range print_base
print_bases c has_layout bs = list_range (print_base c has_layout) bs

unfoldable pub print_virtual : Env → Method → Maybe
unfolding silent answer with_ctor
print_virtual env m =
    if not m.is_virtual
    then silent
    else answer true
        (with_ctor (if m.is_pure then "pure_virt" else "impl_virt") false (env.print_name m.decl))

-- `printStructVirtuals`
unfoldable pub print_virtuals : Env → List Method → Printer
unfolding list_range_filter print_virtual
print_virtuals env ms = list_range_filter (print_virtual env) ms

unfoldable pub print_overridden : Env → Decl → List Decl → Printer
unfolding skip put tuple_sep cons
print_overridden env m [] = skip
print_overridden env m (o ∷ os) = do
  put "("
  env.print_name o
  tuple_sep
  env.print_name m
  put ")"
  cons
  print_overridden env m os

unfoldable pub override_loop : Env → List Method → Printer
unfolding skip print_overridden
override_loop env [] = skip
override_loop env (m ∷ ms) = do
  (if not m.is_virtual || m.is_pure then skip else print_overridden env m.decl m.overridden)
  override_loop env ms

-- `printStructOverrides`
unfoldable pub print_overrides : Env → List Method → Printer
unfolding with_list override_loop
print_overrides env ms = with_list (override_loop env ms)

-- `printDeleteName`
unfoldable pub print_delete_name : Env → Option Decl → Printer
unfolding with_some none_
print_delete_name env none = none_
print_delete_name env (some d) = with_some true (env.print_name d)

-- `printLayoutType`
unfoldable pub print_layout_type : Layout → Printer
unfolding put
print_layout_type pod = put "POD"
print_layout_type standard = put "Standard"
print_layout_type unspecified = put "Unspecified"

-- `printSizeAlign`
unfoldable pub print_size_align : Env → Record → Printer
unfolding put_decimal nbsp
print_size_align env r = do
  put_decimal env (if not r.is_dependent then r.size else 0)
  nbsp
  put_decimal env (if not r.is_dependent then r.alignment else 0)

unfoldable pub is_struct : Tag → Bool
is_struct class_tag = true
is_struct struct_tag = true
is_struct _ = false

unfoldable pub is_union : Tag → Bool
is_union union_tag = true
is_union _ = false

unfoldable pub checked : Bool → Printer → Printer
checked b p f = if b then p f else err asserted

-- `printStruct`
unfoldable pub print_struct : DeclEnv → Record → Printer
unfolding checked is_struct none_ with_some with_ctor print_bases line print_fields nbsp
    print_virtuals print_overrides put_bool print_delete_name print_layout_type print_size_align
print_struct c r = checked (is_struct r.tag) (
    if not r.is_complete
    then none_
    else with_some true (
        with_ctor "Build_Struct" true do
          print_bases c (not r.is_dependent) r.bases
          line
          print_fields c (not r.is_dependent) r.fields
          nbsp
          print_virtuals c.env r.methods
          nbsp
          print_overrides c.env r.methods
          nbsp
          c.dtor_name r.decl
          nbsp
          put_bool r.is_trivial
          nbsp
          print_delete_name c.env r.operator_delete
          line
          print_layout_type r.layout
          nbsp
          print_size_align c.env r))

-- `printUnion`
unfoldable pub print_union : DeclEnv → Record → Printer
unfolding checked is_union none_ with_some with_ctor print_fields nbsp put_bool line
    print_delete_name print_size_align
print_union c r = checked (is_union r.tag) (
    if not r.is_complete
    then none_
    else with_some true (
        with_ctor "Build_Union" true do
          print_fields c (not r.is_dependent) r.fields
          nbsp
          c.dtor_name r.decl
          nbsp
          put_bool r.is_trivial
          nbsp
          print_delete_name c.env r.operator_delete
          line
          print_size_align c.env r))

unfoldable pub unsupported_field : List Field → Option (List ℕ)
unsupported_field [] = none
unsupported_field (x ∷ xs) =
    let rest = unsupported_field xs in
    if x.is_bit_field
    then some (codes "bitfields are not supported")
    else (if x.is_invalid then some (codes "invalid field") else rest)

-- `supportedRecord`
unfoldable pub supported_record : List Base → List Field → Option (List ℕ)
unfolding unsupported_field
supported_record [] xs = unsupported_field xs
supported_record (b ∷ bs) xs =
    let rest = supported_record bs xs in
    if b.is_virtual then some (codes "virtual base classes are not supported") else rest

-- `Dstruct` and `Dunion`
unfoldable pub print_struct_decl : DeclEnv → Heading → Record → Maybe
unfolding print_declaration supported_record print_struct
print_struct_decl c h r =
    print_declaration c h "Dstruct" (supported_record r.bases r.fields) (print_struct c r)

unfoldable pub print_union_decl : DeclEnv → Heading → Record → Maybe
unfolding print_declaration supported_record print_union
print_union_decl c h r =
    print_declaration c h "Dunion" (supported_record r.bases r.fields) (print_union c r)
