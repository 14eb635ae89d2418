-- ===== src/PrintLocalDecl.antt =====
-- rocq-bluerock-cpp2v/src/PrintLocalDecl.cpp: the printer of declarations in function bodies.
use cpp2v.Common.{ℕ, String, Bool, true, false, List, [], ◌∷◌, Option, none, some, if◌then◌else◌}
use cpp2v.Formatter.{Formatter, Printer, Result, ok, err, asserted, bind, ◌>>◌, put, put_bool, nbsp}
use cpp2v.CoqPrinter.{Maybe, ctor, end_ctor, with_ctor, with_some, str, list_range, none_}
use cpp2v.OpaqueNames.{OpaqueNames, empty, push_anon, pop_anon}
use cpp2v.ClangPrinter.{Decl, Expr, Env, put_decimal, answer}
use cpp2v.PrintType.{QualType, Info, print_qual_type}
pub mod WellFormed

-- A name bound by a structured binding: held by a variable of its own with a type and, if it has one,
-- an initializer, or standing for an expression.
pub data Binding : Type 0 where
  held : List ℕ → QualType → Option Expr → Binding
  bound : List ℕ → QualType → Expr → Binding

pub data LocalDecl : Type 0 where
  -- `isInvalidDecl()`
  invalid : LocalDecl
  -- `hasExternalStorage()`
  external_var : LocalDecl
  -- `isStaticLocal()`, with the declaration, its type and its initializer
  static_var : Decl → QualType → Option Expr → LocalDecl
  var : List ℕ → QualType → Option Expr → LocalDecl
  type_decl static_assert other_decl : LocalDecl
  decomposition : Decl → Expr → List Binding → LocalDecl

unfoldable pub print_init : Env → OpaqueNames → Option Expr → Printer
unfolding none_ with_some
print_init env names none = none_
print_init env names (some e) = with_some true (env.print_expr_in names.anonymous e)

-- What the two kinds of `VisitVarDecl` share: type, initializer and the closing parenthesis.
unfoldable pub print_var_rest : Env → Info → OpaqueNames → QualType → Option Expr → Printer
unfolding print_qual_type nbsp print_init end_ctor
print_var_rest env info names t init = do
  print_qual_type env info t
  nbsp
  print_init env names init
  end_ctor

-- The third argument is `getLangOpts().ThreadsafeStatics`.
unfoldable pub visit_static_var :
    Env → Info → Bool → OpaqueNames → Decl → QualType → Option Expr → Printer
unfolding ctor put_bool nbsp print_var_rest
visit_static_var env info thread_safe names d t init = do
  ctor "Dinit" true
  put_bool thread_safe
  nbsp
  env.print_name d
  nbsp
  print_var_rest env info names t init

unfoldable pub visit_var : Env → Info → OpaqueNames → List ℕ → QualType → Option Expr → Printer
unfolding ctor str nbsp print_var_rest
visit_var env info names name t init = do
  ctor "Dvar" true
  str name
  nbsp
  print_var_rest env info names t init

unfoldable pub print_binding : Env → Info → OpaqueNames → Binding → Printer
unfolding with_ctor str nbsp print_qual_type
print_binding env info names (held name t (some init)) =
    with_ctor "Bvar" true
      do str name; nbsp; print_qual_type env info t; nbsp; env.print_expr_in names.anonymous init
print_binding env info names (held name t none) = do
  ctor "Bvar" true
  str name
  nbsp
  print_qual_type env info t
  nbsp
  λ f. err asserted
print_binding env info names (bound name t e) =
    with_ctor "Bbind" true
      do str name; nbsp; print_qual_type env info t; nbsp; env.print_expr_in names.anonymous e

-- `names.pop_anon(decl)` has to find the declaration at the back.
unfoldable pub popped : Decl → OpaqueNames → Printer
unfolding pop_anon
popped d names f = bind (pop_anon d names) (λ _. ok f)

-- `VisitDecompositionDecl`. The printers of expressions leave `names.anonymous` alone.
unfoldable pub visit_decomposition : Env → Info → OpaqueNames → Decl → Expr → List Binding → Printer
unfolding ctor end_ctor nbsp put put_decimal list_range print_binding popped push_anon
visit_decomposition env info names d init bindings = do
  ctor "Ddecompose" true
  env.print_expr_in names.anonymous init
  nbsp
  put "(localname.anon "
  put_decimal env (push_anon d names).1
  put ")"
  nbsp
  list_range (print_binding env info (push_anon d names).0) bindings
  popped d (push_anon d names).0
  end_ctor

-- `PrintLocalDecl::Visit`
unfoldable pub visit_local : Env → Info → Bool → OpaqueNames → LocalDecl → Maybe
unfolding answer put visit_static_var visit_var visit_decomposition
visit_local env info ts names invalid = answer true (put "Derror")
visit_local env info ts names external_var = λ f. ok (f, false)
visit_local env info ts names (static_var d t init) =
    answer true (visit_static_var env info ts names d t init)
visit_local env info ts names (var name t init) = answer true (visit_var env info names name t init)
visit_local env info ts names type_decl = λ f. ok (f, false)
visit_local env info ts names static_assert = λ f. ok (f, false)
visit_local env info ts names other_decl = λ f. ok (f, false)
visit_local env info ts names (decomposition d init bindings) =
    answer true (visit_decomposition env info names d init bindings)

-- `printLocalDecl`, which starts with no opaque names.
unfoldable pub print_local_decl : Env → Info → Bool → LocalDecl → Maybe
unfolding visit_local empty
print_local_decl env info ts d = visit_local env info ts empty d
