-- ===== src/ModuleBuilder/Syntax.antt =====
-- The declarations of clang's AST as ModuleBuilder.cpp reads them: a number that `getID` gives, and a
-- constructor for each class that has a case of its own. A declaration that can be reached in two ways
-- stands in both places, with one number.
use cpp2v.Common.{ℕ, Bool}

-- How a declaration stands to its redeclarations: it is the definition (`getDefinition() == decl`), it is
-- the first one and there is no definition, or neither.
pub data Standing : Type 0 where
  defines first_declares redeclares : Standing

mutual
  pub data Decl : Type 0 where
    node : ℕ → Kind → Decl

  pub data Decls : Type 0 where
    no_decls : Decls
    decl : Decl → Decls → Decls

  pub data OptDecl : Type 0 where
    absent : OptDecl
    present : Decl → OptDecl

  pub data Kind : Type 0 where
    -- `VisitDecl` and `VisitTypeDecl`, which only warn
    unsupported : Kind
    -- the classes of the `IGNORE` lines
    ignored : Kind
    static_assert : Kind
    translation_unit : Decls → Kind
    -- `getAnonDeclWithTypedefName(true)` is not null, `isCanonicalDecl()`
    typedef_name : Bool → Bool → Kind
    type_alias_template : Decl → Kind
    -- a tag that is neither a C++ class nor an enumeration
    tag : Standing → Kind
    -- `isImplicit()`, `isLambda()`, `isDependentContext()`, and the members
    cxx_record : Bool → Bool → Bool → Standing → Decls → Kind
    -- the template and its specializations
    class_template function_template var_template : Decl → Decls → Kind
    -- a method for which `isDeleted()`
    deleted_method : Kind
    -- `isDependentContext()`, whether a raw comment stands before it, and its declarations
    function : Bool → Standing → Bool → Decls → Kind
    enum_constant : Kind
    -- `isTemplated()`, and `isStaticLocal() or hasExternalStorage()`
    var : Bool → Standing → Bool → Kind
    namespace linkage_spec : Decls → Kind
    -- `isCanonicalDecl()`, and the enumerators
    enum : Bool → Decls → Kind
    -- `getFriendDecl()`
    friend : OptDecl → Kind
