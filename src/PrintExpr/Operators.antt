-- ===== src/PrintExpr/Operators.antt =====
-- The unary and binary operators of PrintExpr.cpp. The operands are given as printers.
use cpp2v.Common.{String, Bool, true, false, codes, ◌&&◌, ◌||◌}
use cpp2v.Formatter.{Printer, ok, ◌>>◌, put, put_codes, nbsp}
use cpp2v.CoqPrinter.{ctor, end_ctor, with_ctor, boolean}
use cpp2v.ClangPrinter.{Env, keep_depth, die}
use cpp2v.PrintType.{print_qual_type}
use cpp2v.PrintExpr.Syntax.{
  Meta, ArithOp, add, and_, div, mul, or_, rem, shl, shr, sub, xor, BinaryOp, comma, l_and, l_or,
  assign, arith, assign_op, cmp, eq, ge, gt, le, lt, ne, ptr_mem_d, ptr_mem_i, other_binary,
  UnaryOp, extension, deref, post_inc, pre_inc, post_dec, pre_dec, plus, minus, not_, l_not,
  other_unary, Referent, no_ref, static_ref, unknown_ref, member_ref, Operator, oo_new,
  oo_array_new, oo_delete, oo_array_delete, oo_name, oo_unknown,
}
use cpp2v.PrintExpr.Common.{
  Context, assert_false, assert_that, put_quoted_parts, done, option_or_type,
}

-- `printOverloadableOperator`
unfoldable pub print_operator : Env → Operator → Printer
unfolding with_ctor boolean put_codes die
print_operator env oo_new = with_ctor "OONew" false (boolean false)
print_operator env oo_array_new = with_ctor "OONew" false (boolean true)
print_operator env oo_delete = with_ctor "OODelete" false (boolean false)
print_operator env oo_array_delete = with_ctor "OODelete" false (boolean true)
print_operator env (oo_name k) = do
  λ f. ok (put_codes (codes "OO") f)
  λ f. ok (put_codes (env.operator_name k) f)
print_operator env oo_unknown = die

abbrev pub arith_name : ArithOp → String
arith_name add = "Badd"
arith_name and_ = "Band"
arith_name div = "Bdiv"
arith_name mul = "Bmul"
arith_name or_ = "Bor"
arith_name rem = "Bmod"
arith_name shl = "Bshl"
arith_name shr = "Bshr"
arith_name sub = "Bsub"
arith_name xor = "Bxor"

-- `printBinaryOperator`. The operators that `VisitBinaryOperator` prints itself do not get here; they would
-- print as unsupported.
unfoldable pub print_binary_operator : Env → BinaryOp → Printer
unfolding put put_quoted_parts
print_binary_operator env (arith op) = put (arith_name op)
print_binary_operator env cmp = put "Bcmp"
print_binary_operator env eq = put "Beq"
print_binary_operator env ge = put "Bge"
print_binary_operator env gt = put "Bgt"
print_binary_operator env le = put "Ble"
print_binary_operator env lt = put "Blt"
print_binary_operator env ne = put "Bneq"
print_binary_operator env ptr_mem_d = put "Bdotp"
print_binary_operator env ptr_mem_i = put "Bdotip"
print_binary_operator env (other_binary k) =
    put_quoted_parts "(Bunsupported \"" (env.opcode k) "\")"
print_binary_operator env comma = put "(Bunsupported \",\")"
print_binary_operator env l_and = put "(Bunsupported \"&&\")"
print_binary_operator env l_or = put "(Bunsupported \"||\")"
print_binary_operator env assign = put "(Bunsupported \"=\")"
print_binary_operator env (assign_op op) = put "(Bunsupported \"=\")"

-- What `,`, `&&` and `||` share: no type is printed, and the assertion stands before the end.
unfoldable pub visit_sequenced : String → Bool → Printer → Printer → Printer
unfolding ctor end_ctor keep_depth nbsp assert_that
visit_sequenced name holds a b = do
  ctor name true
  keep_depth a
  nbsp
  keep_depth b
  assert_that holds
  end_ctor

-- The opening of the operators whose type is printed.
unfoldable pub open_binary : Env → BinaryOp → Printer
unfolding ctor put nbsp print_binary_operator
open_binary env assign = ctor "Eassign" true
open_binary env (assign_op op) = do ctor "Eassign_op" true; put (arith_name op); nbsp
open_binary env op = do ctor "Ebinop" true; print_binary_operator env op; nbsp

-- The end of `VisitBinaryOperator`.
unfoldable pub visit_operands : Context → Meta → BinaryOp → Printer → Printer → Printer
unfolding open_binary keep_depth nbsp done
visit_operands c m op a b = do
  open_binary c.env op
  keep_depth a
  nbsp
  keep_depth b
  done c m (option_or_type c.env)

-- `VisitBinaryOperator`
unfoldable pub visit_binary : Context → Meta → BinaryOp → Bool → Bool → Printer → Printer → Printer
unfolding visit_sequenced visit_operands
visit_binary c m comma same_type is_boolean a b =
    visit_sequenced "Ecomma" ((c.env.templates && m.is_dependent) || same_type) a b
visit_binary c m l_and same_type is_boolean a b =
    visit_sequenced "Eseqand" ((c.env.templates && m.is_dependent) || is_boolean) a b
visit_binary c m l_or same_type is_boolean a b =
    visit_sequenced "Eseqor" ((c.env.templates && m.is_dependent) || is_boolean) a b
visit_binary c m op same_type is_boolean a b = visit_operands c m op a b

-- `printUnaryOperator`
unfoldable pub print_unary_operator : Env → UnaryOp → Printer
unfolding put put_quoted_parts
print_unary_operator env plus = put "Uplus"
print_unary_operator env minus = put "Uminus"
print_unary_operator env not_ = put "Ubnot"
print_unary_operator env l_not = put "Unot"
print_unary_operator env post_dec = put "<PostDec>"
print_unary_operator env post_inc = put "<PostInc>"
print_unary_operator env pre_dec = put "<PreDec>"
print_unary_operator env pre_inc = put "<PreInc>"
print_unary_operator env (other_unary k) = put_quoted_parts "(Uunsupported \"" (env.opcode k) "\")"
print_unary_operator env extension = put "(Uunsupported \"__extension__\")"
print_unary_operator env deref = put "(Uunsupported \"*\")"

unfoldable pub open_unary : Env → UnaryOp → Printer
unfolding ctor nbsp print_unary_operator
open_unary env deref = ctor "Ederef" true
open_unary env post_inc = ctor "Epostinc" true
open_unary env pre_inc = ctor "Epreinc" true
open_unary env post_dec = ctor "Epostdec" true
open_unary env pre_dec = ctor "Epredec" true
open_unary env op = do ctor "Eunop" true; print_unary_operator env op; nbsp

-- `VisitUnaryOperator`, but for `&`.
unfoldable pub visit_unary : Context → Meta → UnaryOp → Printer → Printer
unfolding with_ctor open_unary keep_depth done
visit_unary c m extension a = with_ctor "Eextension" true (keep_depth a)
visit_unary c m op a = do open_unary c.env op; keep_depth a; done c m (option_or_type c.env)

-- The `&` of `VisitUnaryOperator`.
unfoldable pub visit_addr_of : Context → Referent → Printer → Printer
unfolding assert_false with_ctor ctor end_ctor nbsp print_qual_type keep_depth
visit_addr_of c unknown_ref a = assert_false
visit_addr_of c (member_ref d t) a =
    with_ctor "Eglobal_member" true do c.env.print_name d; nbsp; print_qual_type c.env c.info t
visit_addr_of c no_ref a = do ctor "Eaddrof" true; keep_depth a; end_ctor
visit_addr_of c static_ref a = do ctor "Eaddrof" true; keep_depth a; end_ctor
