-- ===== src/ClangPrinter/Params.antt =====
-- The names of parameters of functions and templates (`printParamName`, `printTypeTemplateParam` and
-- `printNonTypeTemplateParam` of ClangPrinter.cpp).
use cpp2v.Common.{
  ℕ, zero, suc, ◌+◌, ◌%◌, ◌^◌, String, Bool, true, false, List, [], ◌∷◌, Option, none, some, ◌==◌,
  ◌&&◌, if◌then◌else◌,
}
use cpp2v.Formatter.{Printer, Num, err, asserted, ◌>>◌, skip, put, put_nobreak, put_num, nbsp}
use cpp2v.CoqPrinter.{with_ctor, str}
use cpp2v.ClangPrinter.{Decl, Expr, Env, put_decimal, die}
use cpp2v.PrintType.{QualType, Info, print_qual_type}

-- A parameter, and its `getIdentifier()`; none is a null pointer.
pub record Param : Type 0 where
  pub decl : Decl
  pub ident : Option ℕ

-- The context of a parameter: not `isFunctionOrMethod()`, not a `FunctionDecl`, or one with its parameters.
pub data ParamContext : Type 0 where
  no_function no_function_decl : ParamContext
  function : List Param → ParamContext

-- `p->getIdentifier() == info`
unfoldable pub is_same : Option ℕ → Option ℕ → Bool
is_same none none = true
is_same none (some k) = false
is_same (some j) none = false
is_same (some j) (some k) = j == k

-- What a parameter is printed as: its identifier, with the number of parameters of that name right before it,
-- or its position.
pub data Label : Type 0 where
  named : ℕ → ℕ → Label
  positioned : ℕ → Label

unfoldable pub label_of : Option ℕ → ℕ → ℕ → Label
label_of none i offset = positioned i
label_of (some k) i offset = named k offset

-- `offset` behind the next parameter; it is an `unsigned`.
unfoldable pub next_offset : Option ℕ → Option ℕ → ℕ → ℕ
unfolding is_same
next_offset ident info offset = if is_same ident info then (offset + 1) % 2 ^ 32 else 0

-- The loop of `printParamName`, with the declaration that is looked for, its counter and what it keeps of the
-- parameter before.
unfoldable pub find_label : Decl → List Param → ℕ → Option ℕ → ℕ → Option Label
unfolding next_offset label_of
find_label d [] i info offset = none
find_label d (p ∷ ps) i info offset =
    let rest = find_label d ps (suc i) p.ident (next_offset p.ident info offset) in
    if p.decl == d then some (label_of p.ident i (next_offset p.ident info offset)) else rest

unfoldable pub put_offset : Env → ℕ → Printer
unfolding skip put put_decimal
put_offset env offset = if offset == 0 then skip else (do put "..."; put_decimal env offset)

-- The end of `printParamName`. `names` is what `printName` writes for an identifier.
unfoldable pub print_label : Env → (ℕ → List ℕ) → Option Label → Printer
unfolding die put put_nobreak put_offset put_decimal
print_label env names none = die
print_label env names (some (named k offset)) = do
  put "\""
  put_nobreak (names k)
  put_offset env offset
  put "\""
print_label env names (some (positioned i)) = do put "(localname.anon "; put_decimal env i; put ")"

-- `printParamName`
unfoldable pub print_param_name : Env → (ℕ → List ℕ) → ParamContext → Decl → Printer
unfolding die print_label find_label
print_param_name env names no_function d f = err asserted
print_param_name env names no_function_decl d f = die f
print_param_name env names (function ps) d f = print_label env names (find_label d ps 0 none 0) f

-- A parameter of a template: its depth, index and name.
pub data TemplateParam : Type 0 where
  type_param value_param : ℕ → ℕ → List ℕ → TemplateParam
  other_param : TemplateParam

-- An argument of a specialization; a type and another kind with `getKind()`.
pub data Argument : Type 0 where
  type_argument : ℕ → QualType → Argument
  integral : Num → QualType → Argument
  expression : Expr → Argument
  other_argument : ℕ → Argument

-- A declaration that encloses the one that is printed: a partial specialization, a function with the arguments
-- of its specialization, a function or class with the parameters of its template, or any other.
pub data Scope : Type 0 where
  partial : List TemplateParam → Scope
  specialized : List Argument → Scope
  templated : List TemplateParam → Scope
  plain_scope : Scope

-- The loops over the parameters of a template: a type parameter of another depth is passed over.
unfoldable pub find_type : ℕ → ℕ → List TemplateParam → Option (List ℕ)
find_type depth index [] = none
find_type depth index (type_param d i name ∷ ps) =
    let rest = find_type depth index ps in if d == depth && i == index then some name else rest
find_type depth index (value_param d i name ∷ ps) = find_type depth index ps
find_type depth index (other_param ∷ ps) = find_type depth index ps

-- A value parameter of another depth ends the loop.
unfoldable pub find_value : ℕ → ℕ → List TemplateParam → Option (List ℕ)
find_value depth index [] = none
find_value depth index (value_param d i name ∷ ps) =
    let rest = find_value depth index ps in
    if d == depth then (if i == index then some name else rest) else none
find_value depth index (type_param d i name ∷ ps) = find_value depth index ps
find_value depth index (other_param ∷ ps) = find_value depth index ps

unfoldable pub nth_argument : ℕ → List Argument → Option Argument
nth_argument index [] = none
nth_argument zero (a ∷ rest) = some a
nth_argument (suc index) (a ∷ rest) = nth_argument index rest

unfoldable pub print_type_argument : Env → Info → Option Argument → Printer
unfolding print_qual_type
print_type_argument env info (some (type_argument k t)) f = print_qual_type env info t f
print_type_argument env info _ f = err asserted

unfoldable pub print_named : String → List ℕ → Printer
unfolding with_ctor str
print_named name text = with_ctor name false (str text)

-- What is printed for a parameter that was found, or the search further out.
unfoldable pub found_or : String → Bool → Option (List ℕ) → Printer → Printer
unfolding print_named
found_or name holds none further f = further f
found_or name holds (some text) further f = if holds then print_named name text f else err asserted

-- `printTypeTemplateParam`, with the enclosing declarations from the inside.
unfoldable pub print_type_param : Env → Info → ℕ → ℕ → List Scope → Printer
unfolding die found_or find_type print_type_argument nth_argument
print_type_param env info depth index [] = die
print_type_param env info depth index (partial ps ∷ scopes) =
    found_or "Tparam" true (find_type depth index ps) (print_type_param env info depth index scopes)
print_type_param env info depth index (specialized args ∷ scopes) =
    print_type_argument env info (nth_argument index args)
print_type_param env info depth index (templated ps ∷ scopes) =
    found_or "Tparam" env.templates (find_type depth index ps)
      (print_type_param env info depth index scopes)
print_type_param env info depth index (plain_scope ∷ scopes) =
    print_type_param env info depth index scopes

unfoldable pub print_kind : Env → ℕ → Printer
unfolding with_ctor put put_decimal
print_kind env k =
    with_ctor "Eunsupported" true do put "\"NonTypeTemplateParam "; put_decimal env k; put "\""

-- The `switch` of `printNonTypeTemplateParam`.
unfoldable pub print_value_argument : Env → Info → Option Argument → Printer
unfolding with_ctor put_num nbsp print_qual_type print_kind
print_value_argument env info none f = err asserted
print_value_argument env info (some (integral n t)) f =
    with_ctor "Eint" true (do put_num n; nbsp; print_qual_type env info t) f
print_value_argument env info (some (expression e)) f = env.print_expr e f
print_value_argument env info (some (type_argument k t)) f = print_kind env k f
print_value_argument env info (some (other_argument k)) f = print_kind env k f

-- `printNonTypeTemplateParam`
unfoldable pub print_value_param : Env → Info → ℕ → ℕ → List Scope → Printer
unfolding die found_or find_value print_value_argument nth_argument
print_value_param env info depth index [] = die
print_value_param env info depth index (partial ps ∷ scopes) =
    found_or "Eparam" true (find_value depth index ps)
      (print_value_param env info depth index scopes)
print_value_param env info depth index (specialized args ∷ scopes) =
    print_value_argument env info (nth_argument index args)
print_value_param env info depth index (templated ps ∷ scopes) =
    found_or "Eparam" env.templates (find_value depth index ps)
      (print_value_param env info depth index scopes)
print_value_param env info depth index (plain_scope ∷ scopes) =
    print_value_param env info depth index scopes
