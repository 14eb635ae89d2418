-- ===== src/PrintDecl/Syntax.antt =====
-- What PrintDecl.cpp asks of the declarations of clang's AST, and the printers that it uses. The pointers to
-- fields, methods and parameters that the program finds in a declaration are not null.
use cpp2v.Common.{ℕ, Bool, List, Option}
use cpp2v.Formatter.{Printer}
use cpp2v.Formatter.Balance.{Closed}
use cpp2v.ClangPrinter.{Decl, Expr, Env, IsEnv}
use cpp2v.PrintType.{QualType, Ty, Info}

-- The printers of types and expressions, and those of PrintName.cpp.
pub record DeclEnv : Type 0 where
  pub env : Env
  pub info : Info
  pub name_comment : Decl → Printer
  pub name_key : Decl → Printer
  pub template_parameters : Decl → Printer
  pub template_arguments : Decl → Printer
  pub dtor_name : Decl → Printer
  -- `printName(print, rec, loc, false)`
  pub short_name : Decl → Printer

pub record IsDeclEnv (S : Type 0) (c : DeclEnv) : Type 0 where
  pub env : IsEnv S c.env
  pub comment_closed : (d : Decl) → Closed S (c.name_comment d)
  pub key_closed : (d : Decl) → Closed S (c.name_key d)
  pub parameters_closed : (d : Decl) → Closed S (c.template_parameters d)
  pub arguments_closed : (d : Decl) → Closed S (c.template_arguments d)
  pub dtor_closed : (d : Decl) → Closed S (c.dtor_name d)
  pub short_closed : (d : Decl) → Closed S (c.short_name d)

-- `dyn_cast<DeclContext>`, `isTemplated()`, `isImplicitSpecialMethod`, is it an `EnumConstantDecl`, whether
-- `recoverSpecialization` finds something for the declaration and for each context around it, and
-- `recoverPattern`.
pub record Heading : Type 0 where
  pub decl : Decl
  pub is_context : Bool
  pub is_templated : Bool
  pub is_implicit_special : Bool
  pub is_enum_constant : Bool
  pub specializations : List Bool
  pub pattern : Option Decl

-- The name of a field, by what its type is a record of.
pub data Anonymous : Type 0 where
  of_record : Decl → Anonymous
  of_no_record : Anonymous

pub data FieldName : Type 0 where
  identifier : List ℕ → FieldName
  anonymous : Anonymous → FieldName
  -- A field of a lambda: that of `this`, of a variable, or of nothing that is captured
  capture_this : FieldName
  capture_var : List ℕ → FieldName
  no_capture : Anonymous → FieldName

pub record Field : Type 0 where
  pub name : FieldName
  pub is_bit_field : Bool
  pub is_invalid : Bool
  pub type : QualType
  pub is_mutable : Bool
  pub initializer : Option Expr
  pub offset : ℕ

-- `getType().getTypePtrOrNull()`, `getAsCXXRecordDecl()`, `getBaseClassOffset`
pub record Base : Type 0 where
  pub is_virtual : Bool
  pub type : Option Ty
  pub class : Option Decl
  pub offset : ℕ

pub record Method : Type 0 where
  pub decl : Decl
  pub is_virtual : Bool
  pub is_pure : Bool
  pub overridden : List Decl

pub data Tag : Type 0 where
  class_tag struct_tag union_tag other_tag : Tag

pub data Layout : Type 0 where
  pod standard unspecified : Layout

-- `isCompleteDefinition()`, `isDependentContext()`, `getDestructor()->getOperatorDelete()`,
-- `hasTrivialDestructor()`
pub record Record : Type 0 where
  pub decl : Decl
  pub tag : Tag
  pub is_complete : Bool
  pub is_dependent : Bool
  pub bases : List Base
  pub fields : List Field
  pub methods : List Method
  pub operator_delete : Option Decl
  pub is_trivial : Bool
  pub layout : Layout
  pub size : ℕ
  pub alignment : ℕ
