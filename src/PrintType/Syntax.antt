-- ===== src/PrintType/Syntax.antt =====
-- The types of clang's AST as PrintType.cpp reads them: a constructor for each class that has a case of
-- its own, with what the case asks of the node. `is_sugared` and `is_deduced` are separate constructors.
use cpp2v.Common.{ℕ, Bool, List, Option}
use cpp2v.ClangPrinter.{Decl, Expr, CallingConv}

-- The values of `BuiltinType::Kind` that print as a word of their own.
pub data SimpleKind : Type 0 where
  bool void null_ptr schar uchar char_s char_u wchar_s wchar_u char16 char32 char8 : SimpleKind
  short ushort int uint long ulong long_long ulong_long int128 uint128 : SimpleKind
  float double long_double float16 float128 : SimpleKind

-- `BuiltinType::Kind`
pub data BuiltinKind : Type 0 where
  simple : SimpleKind → BuiltinKind
  dependent : BuiltinKind
  -- `isSizelessBuiltinType()`
  sizeless : ℕ → BuiltinKind
  other : BuiltinKind

-- `UnaryTransformType::UTTKind`, and the name of any other kind.
pub data Transform : Type 0 where
  enum_underlying_type : Transform
  transform : List ℕ → Transform

mutual
  -- A null type, or a type with `isLocalConstQualified`, `isLocalVolatileQualified` and
  -- `isVolatileQualified`.
  pub data QualType : Type 0 where
    null : QualType
    qual : Bool → Bool → Bool → Ty → QualType

  -- The parameter types of a function.
  pub data Params : Type 0 where
    no_params : Params
    param : Ty → Params → Params

  pub data Ty : Type 0 where
    -- a class with no case of its own
    any_type : Ty
    block_pointer pack_expansion : Ty
    attributed : QualType → Ty
    dependent_sized_array : QualType → Expr → Ty
    sugared_dependent_name : QualType → Ty
    dependent_name : ℕ → Ty
    -- `isDependentType()`, the kind, `getBaseType()`, `getUnderlyingType()`
    unary_transform : Bool → Transform → QualType → QualType → Ty
    -- `isDependentType()`, `getDeducedType()`
    deduced_auto : Bool → QualType → Ty
    undeduced_auto : Ty
    deduced : QualType → Ty
    undeduced : Ty
    -- `getDepth()`, `getIndex()`
    template_type_parm : ℕ → ℕ → Ty
    enum_type record_type : Decl → Ty
    paren : QualType → Ty
    builtin : BuiltinKind → Ty
    lvalue_reference rvalue_reference pointer : QualType → Ty
    -- the declaration, and the underlying type of its canonical declaration
    typedef : Decl → QualType → Ty
    function_proto : CallingConv → Bool → QualType → Params → Ty
    elaborated : QualType → Ty
    constant_array : QualType → ℕ → Ty
    subst_template_type_parm : QualType → Ty
    incomplete_array : QualType → Ty
    variable_array : QualType → Expr → Ty
    decayed : QualType → QualType → Ty
    alias_specialization sugared_specialization : QualType → Ty
    -- the template, if the name is one, and its arguments
    template_specialization : Option Decl → ℕ → Ty
    sugared_decltype : QualType → Ty
    -- whether the expression is a `DeclRefExpr`
    decltype : Bool → Expr → Ty
    sugared_type_of : QualType → Ty
    -- the type of the expression
    type_of : QualType → Ty
    injected_class_name : Option Decl → Ty
    member_pointer : Ty → QualType → Ty
    macro_qualified : QualType → Ty
    -- `isSugared()`
    using_type : Bool → QualType → Ty
