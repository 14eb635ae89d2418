-- ===== src/ClangPrinter.antt =====
-- rocq-bluerock-cpp2v/include/ClangPrinter.hpp and src/ClangPrinter.cpp: the small printers that types,
-- statements and declarations share, and the interface of the printers for names and expressions.
-- A pointer into clang's AST is a number.
use cpp2v.Common.{[], some, ℕ, Bool, true, false, String, List, ◌≡◌, ◌==◌, if◌then◌else◌, codes}
use cpp2v.Formatter.{
  Num, num_text, Formatter, Printer, Result, ok, err, died, depth_changed, bind, put, put_codes,
}
use cpp2v.CoqPrinter.{Maybe}
use cpp2v.Formatter.Brackets.{scan, quoted}
use cpp2v.Formatter.Balance.{Closed, IsLevel}
pub mod Balance
pub mod Params
pub mod Labels
pub mod Printed
pub mod Lookup

abbrev pub Decl : Type 0
Decl = ℕ

abbrev pub Expr : Type 0
Expr = ℕ

-- The printers that PrintName.cpp, PrintExpr.cpp and ClangPrinter.cpp give for names and expressions,
-- and texts that clang and LLVM make.
pub record Env : Type 0 where
  -- `CoqPrinter::templates()`
  pub templates : Bool
  pub print_name : Decl → Printer
  pub print_unqualified_name : Decl → Printer
  pub print_expr : Expr → Printer
  -- `printExpr(print, e, names)`, by the declarations that `names` holds without a name of their own
  pub print_expr_in : List Decl → Expr → Printer
  -- `EvaluateKnownConstInt`
  pub known_const_int : Expr → Num
  pub print_unresolved_name : ℕ → Printer
  pub print_type_template_param : ℕ → ℕ → Printer
  pub print_template_argument_list : ℕ → Printer
  pub print_param_name : Decl → Printer
  pub print_field_name : Decl → Printer
  pub print_non_type_param : ℕ → ℕ → Printer
  -- `OperatorKinds.def`, the atomic operations of `Builtins.def` and `getCastName`
  pub operator_name : ℕ → List ℕ
  pub atomic_name : ℕ → List ℕ
  pub cast_name : ℕ → List ℕ
  -- `getOpcodeStr`, and what `APFloat::print` writes
  pub opcode : ℕ → List ℕ
  pub float_text : ℕ → List ℕ
  -- An unsigned number as `raw_ostream` writes it.
  pub decimal : ℕ → List ℕ
  -- `BuiltinType::getNameAsCString`, for the builtin types of a fixed target.
  pub sizeless_name : ℕ → List ℕ

-- What the printers of types and statements rely on. `S` is what has to hold where one of these stops.
pub record IsEnv (S : Type 0) (env : Env) : Type 0 where
  pub name_closed : (d : Decl) → Closed S (env.print_name d)
  pub unqualified_closed : (d : Decl) → Closed S (env.print_unqualified_name d)
  pub expr_closed : (e : Expr) → Closed S (env.print_expr e)
  pub expr_in_closed : (names : List Decl) (e : Expr) → Closed S (env.print_expr_in names e)
  pub const_level : (e : Expr) → IsLevel (num_text (env.known_const_int e))
  pub unresolved_closed : (n : ℕ) → Closed S (env.print_unresolved_name n)
  pub template_param_closed : (d i : ℕ) → Closed S (env.print_type_template_param d i)
  pub template_arguments_closed : (n : ℕ) → Closed S (env.print_template_argument_list n)
  pub param_closed : (d : Decl) → Closed S (env.print_param_name d)
  pub field_closed : (d : Decl) → Closed S (env.print_field_name d)
  pub non_type_param_closed : (d i : ℕ) → Closed S (env.print_non_type_param d i)
  pub operator_level : (k : ℕ) → IsLevel (env.operator_name k)
  pub atomic_level : (k : ℕ) → IsLevel (env.atomic_name k)
  pub cast_level : (k : ℕ) → IsLevel (env.cast_name k)
  -- These texts have no quote.
  pub opcode_plain : (k n : ℕ) → scan (env.opcode k) (quoted, n) ≡ some (quoted, n)
  pub float_plain : (k n : ℕ) → scan (env.float_text k) (quoted, n) ≡ some (quoted, n)
  pub decimal_plain : (k n : ℕ) → scan (env.decimal k) (quoted, n) ≡ some (quoted, n)
  pub decimal_level : (n : ℕ) → IsLevel (env.decimal n)
  -- The name has no quote.
  pub sizeless_plain : (k n : ℕ) → scan (env.sizeless_name k) (quoted, n) ≡ some (quoted, n)

-- `always_assert(depth == print.output().get_depth())` around `body`.
unfoldable pub keep_depth : Printer → Printer
keep_depth body f = bind (body f) (λ g. if f.depth == g.depth then ok g else err depth_changed)

unfoldable pub put_decimal : Env → ℕ → Printer
unfolding put_codes
put_decimal env n f = ok (put_codes (env.decimal n) f)

unfoldable pub die : Printer
die f = err died

unfoldable pub print_variadic : Bool → Printer
unfolding put
print_variadic va = put (if va then "Ar_Variadic" else "Ar_Definite")

pub data CallingConv : Type 0 where
  cc_c cc_x86_reg_call cc_win64 cc_other : CallingConv

unfoldable pub print_calling_conv : CallingConv → Printer
unfolding put die
print_calling_conv cc_c = put "CC_C"
print_calling_conv cc_x86_reg_call = put "CC_RegCall"
print_calling_conv cc_win64 = put "CC_MsAbi"
print_calling_conv cc_other = die

-- `printQualifier(print, is_const, is_volatile)`
unfoldable pub print_qualifier : Bool → Bool → Printer
unfolding put
print_qualifier is_const is_volatile =
    if is_const
    then (if is_volatile then put "QCV" else put "QC")
    else (if is_volatile then put "QV" else put "QM")

-- The answer of a printer that returns `bool`.
unfoldable pub answer : Bool → Printer → Maybe
answer b p f = bind (p f) (λ g. ok (g, b))
