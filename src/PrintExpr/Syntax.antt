-- ===== src/PrintExpr/Syntax.antt =====
-- The expressions of clang's AST as PrintExpr.cpp reads them: a constructor for each class that has a
-- case of its own, with what the case asks of the node. Declarations, unresolved names, statements and
-- opaque values are numbers.
use cpp2v.Common.{ℕ, Bool, List, Option}
use cpp2v.Formatter.{Num}
use cpp2v.OpaqueNames.{ℤ}
use cpp2v.ClangPrinter.{Decl}
use cpp2v.PrintType.{QualType, Ty}

pub data ValueCategory : Type 0 where
  lvalue xvalue prvalue : ValueCategory

-- What every expression has: `containsErrors()`, the value category that the node stores and, if there is
-- one, the one that `Classify` computes, `getType()`, whether that `isDependentType()`, the texts of
-- `loc::describe` and `getStmtClassName`.
pub record Meta : Type 0 where
  pub has_errors : Bool
  pub category : ValueCategory
  pub classified : Option ValueCategory
  pub type : QualType
  pub is_dependent : Bool
  pub message : List ℕ
  pub class_name : List ℕ

pub data ArithOp : Type 0 where
  add and_ div mul or_ rem shl shr sub xor : ArithOp

pub data BinaryOp : Type 0 where
  comma l_and l_or assign : BinaryOp
  arith assign_op : ArithOp → BinaryOp
  cmp eq ge gt le lt ne ptr_mem_d ptr_mem_i : BinaryOp
  -- any other, by its `getOpcodeStr`
  other_binary : ℕ → BinaryOp

pub data UnaryOp : Type 0 where
  extension deref post_inc pre_inc post_dec pre_dec plus minus not_ l_not : UnaryOp
  other_unary : ℕ → UnaryOp

-- The operand of `&`: not a reference to a declaration, or one to a static or other member, or to a
-- declaration that `is_static_member` does not know.
pub data Referent : Type 0 where
  no_ref static_ref unknown_ref : Referent
  member_ref : Decl → QualType → Referent

-- `OverloadedOperatorKind`
pub data Operator : Type 0 where
  oo_new oo_array_new oo_delete oo_array_delete : Operator
  oo_name : ℕ → Operator
  oo_unknown : Operator

-- What `printValueDeclExpr` asks of a declaration.
pub record ValueDecl : Type 0 where
  pub decl : Decl
  -- `getDeclContext()->isFunctionOrMethod()`
  pub is_local : Bool
  pub is_function : Bool
  pub is_static_local : Bool
  pub is_param : Bool
  pub type : QualType

pub data DeclRef : Type 0 where
  missing : DeclRef
  -- the declaration, its name, and the type of the field that captures it, if there is one
  captured : Decl → List ℕ → Option QualType → DeclRef
  -- the enumeration, the constant, and whether the type `isEnumeralType()`
  enum_const : Decl → Decl → Bool → DeclRef
  -- a non-type template parameter, with its depth and index
  template_param : Decl → ℕ → ℕ → DeclRef
  value : ValueDecl → DeclRef

pub data PlainCast : Type 0 where
  l2r array2ptr fun2ptr ptr2bool int2bool user to_void : PlainCast

pub data TypedCast : Type 0 where
  bitcast lvalue_bitcast l2r_bitcast noop int2ptr ptr2int integral null2ptr : TypedCast
  null2memberptr builtin2fun ctor_conversion dynamic float2int int2float float : TypedCast
  dependent_cast : TypedCast

pub data Cast : Type 0 where
  plain : PlainCast → Cast
  typed : TypedCast → Cast
  -- the types of the path, without its last entry; `none` is a null pointer
  derived2base base2derived : List (Option Ty) → Cast
  -- `getCastKindName()`
  other_cast : List ℕ → Cast

pub data ExplicitCast : Type 0 where
  c_style functional builtin_bit other_explicit : ExplicitCast
  named : ℕ → ExplicitCast

pub data Member : Type 0 where
  -- `isMutable()`
  field : Decl → Bool → QualType → Member
  enumerator : Decl → Member
  -- `isStaticDataMember()`
  variable : Decl → Bool → QualType → Member
  method : Decl → QualType → Member
  other_member : Member

pub data DependentName : Type 0 where
  scope_member : QualType → ℕ → DependentName
  scope_ref lookup : ℕ → DependentName
  unresolved_member : DependentName
  other_name : List ℕ → DependentName

pub data TypeTrait : Type 0 where
  align_of preferred_align_of size_of : TypeTrait
  other_trait : ℕ → TypeTrait

pub data OffsetOf : Type 0 where
  not_one_component not_a_field : OffsetOf
  field_component : Option Ty → List ℕ → OffsetOf

-- `getOperatorNew()`, the other answers of a `CXXNewExpr`: is the operator the reserved placement one, is the
-- alignment passed, the allocated type, and `isArray()`.
pub record New : Type 0 where
  pub operator_new : Decl
  pub operator_type : QualType
  pub is_reserved : Bool
  pub pass_alignment : Bool
  pub allocated : QualType
  pub is_array : Bool

-- `getOperatorDelete()`
pub data Delete : Type 0 where
  no_operator destroying : Delete
  operator_delete : Decl → QualType → Delete

mutual
  pub data OptExpr : Type 0 where
    absent : OptExpr
    present : Expr → OptExpr

  pub data Exprs : Type 0 where
    no_exprs : Exprs
    and_expr : Expr → Exprs → Exprs

  pub data Expr : Type 0 where
    node : Meta → Kind → Expr

  pub data Kind : Type 0 where
    -- a class with no case of its own, or one of the `IGNORE` lines
    any_expr : Kind
    stmt_expr : ℕ → Kind
    rewritten : Expr → Kind
    gnu_null recovery : Kind
    -- `DependentScopeDeclRefExpr` and `UnresolvedLookupExpr`
    unresolved_global : ℕ → Kind
    -- whether the type of the second operand is that of the expression, and `isBooleanType()`
    binary : BinaryOp → Bool → Bool → Expr → Expr → Kind
    unary : UnaryOp → Expr → Kind
    addr_of : Referent → Expr → Kind
    decl_ref : DeclRef → Kind
    unresolved_call : DependentName → Exprs → Kind
    -- `isArrow()`, the destroyed type, the base, and the arguments of the call
    pseudo_call : Bool → QualType → Expr → Exprs → Kind
    call : Expr → Exprs → Kind
    -- `isStatic()`, `isVirtual()`
    operator_method : Operator → Decl → Bool → Bool → QualType → Expr → Exprs → Kind
    operator_function : Operator → Decl → QualType → Exprs → Kind
    operator_other : Kind
    -- `getTypeAsWritten()`
    explicit_cast : ExplicitCast → Cast → QualType → Expr → Kind
    -- a `BuiltinFnToFnPtr`: the declaration, if the operand is a reference, whether it is a builtin, and
    -- the type that is printed
    builtin_cast : Option (Decl × Bool) → QualType → Kind
    implicit_cast : Cast → Expr → Kind
    -- a `CastExpr` that is neither explicit nor implicit
    any_cast : Kind
    integer : ℤ → Kind
    character : ℕ → Kind
    -- the text of the builtin, and its value
    source_int : List ℕ → Num → Kind
    source_text : List ℕ → Expr → Kind
    source_other : List ℕ → Kind
    -- `getCharByteWidth()`, the bytes, and the element type if the type is an array
    string : ℕ → List ℕ → Option Ty → Kind
    predefined : List ℕ → Option Ty → Kind
    bool_literal : Bool → Kind
    floating : ℕ → Kind
    member : Bool → Expr → Member → Kind
    dependent_member : Bool → Expr → ℕ → Kind
    subscript : Expr → Expr → Kind
    construct : Decl → Exprs → Kind
    -- the types of the parameters
    inherited_ctor : Decl → List QualType → Kind
    -- `isArrow()`, the method, whether the call is virtual, the type if the member is a method
    member_call : Bool → Decl → Bool → Option QualType → Expr → Exprs → Kind
    -- whether the operator is `->*`, its second operand, the object and the arguments
    pointer_call : Bool → Expr → Expr → Exprs → Kind
    other_call : Kind
    default_arg : Expr → Kind
    conditional : Expr → Expr → Expr → Kind
    -- the opaque value, the common operand, condition, first and second branch
    binary_conditional : ℕ → Expr → Expr → Expr → Expr → Kind
    constant paren subst_param : Expr → Kind
    paren_list : Exprs → Kind
    transparent_list : Exprs → Kind
    -- the field, the initializers, and whether there is an array filler
    union_list : Decl → Exprs → Bool → Kind
    init_list : Exprs → OptExpr → Kind
    this null_ptr : Kind
    trait_type : TypeTrait → QualType → Kind
    trait_expr : TypeTrait → Expr → Kind
    trait_none : TypeTrait → Kind
    offset_of : OffsetOf → Kind
    dependent_new : Kind
    -- the placement arguments, the size and the initializer
    new : New → Exprs → OptExpr → OptExpr → Kind
    -- `isArrayForm()`, the argument and the destroyed type
    delete : Bool → Delete → Expr → QualType → Kind
    cleanups : Expr → Kind
    -- whether a declaration extends the temporary
    materialize : Bool → Expr → Kind
    bind_temporary : Expr → Kind
    opaque_value : ℕ → Kind
    -- the operation, if `Builtins.def` has it
    atomic : Option ℕ → Exprs → Kind
    default_init : Expr → Kind
    va_arg : Expr → Kind
    lambda : Decl → Exprs → Kind
    implicit_init scalar_init : Kind
    pseudo_destructor : QualType → Expr → Kind
    -- `CXXNoexceptExpr` and `TypeTraitExpr`
    known_bool : Bool → Kind
    -- the name, `getDependence()`, `isSatisfied()`
    concept : ℕ → Bool → Bool → Kind
    -- the opaque value, the size, its source and the expression
    array_loop : ℕ → ℕ → Expr → Expr → Kind
    array_index : Kind
