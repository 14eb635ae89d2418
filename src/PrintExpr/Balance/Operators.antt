-- ===== src/PrintExpr/Balance/Operators.antt =====
-- The unary and binary operators keep the depth and the brackets (PrintExpr.cpp).
use cpp2v.Common.{ℕ, suc, String, ◌≡◌, ◌∙◌, refl, Bool, true, false, codes, ◌&&◌, ◌||◌, some}
use cpp2v.Formatter.{Printer, ◌>>◌, nbsp}
use cpp2v.CoqPrinter.{ctor, end_ctor}
use cpp2v.ClangPrinter.{keep_depth}
use cpp2v.Formatter.Brackets.{scan, scan-append, quoted, code}
use cpp2v.Formatter.Balance.{
  Moves, Closed, ◌⟫◌, text-Moves, nbsp-Moves, put_codes-Moves, IsLevel, IsLevel-Brackets,
}
use cpp2v.CoqPrinter.Balance.{up, boolean-Moves, ctor-Moves, end_ctor-Moves, with_ctor-Closed}
use cpp2v.ClangPrinter.Balance.{keep_depth-Closed, die-Moves}
use cpp2v.PrintType.Balance.{Unless}
use cpp2v.PrintType.WellFormed.{QualSupported}
use cpp2v.PrintExpr.{
  put_quoted_parts, Meta, ArithOp, add, BinaryOp, comma, l_and, l_or, assign, arith, assign_op, cmp,
  eq, ge, gt, le, lt, ne, ptr_mem_d, ptr_mem_i, other_binary, UnaryOp, extension, deref, post_inc,
  pre_inc, post_dec, pre_dec, plus, minus, not_, l_not, other_unary, Referent, no_ref, static_ref,
  unknown_ref, member_ref, Operator, oo_new, oo_array_new, oo_delete, oo_array_delete, oo_name,
  oo_unknown, Context, print_operator, arith_name, print_binary_operator, visit_sequenced,
  open_binary, visit_operands, visit_binary, print_unary_operator, open_unary, visit_unary,
  visit_addr_of,
}
use cpp2v.PrintExpr.Balance.{
  IsContext, assert_false-Moves, assert_that-Moves, put_quoted_parts-Moves, qual_type-Closed,
  done_type-Moves,
}

-- An operator with a name.
abbrev pub OperatorSupported : Type 0 → Operator → Type 0
OperatorSupported S oo_unknown = S
OperatorSupported S _ = Unit

-- What is asserted of `,`, `&&` and `||`.
abbrev pub BinarySupported : Type 0 → Bool → Meta → BinaryOp → Bool → Bool → Type 0
BinarySupported S templates m comma same_type is_boolean =
    Unless ((templates && m.is_dependent) || same_type) S
BinarySupported S templates m l_and same_type is_boolean =
    Unless ((templates && m.is_dependent) || is_boolean) S
BinarySupported S templates m l_or same_type is_boolean =
    Unless ((templates && m.is_dependent) || is_boolean) S
BinarySupported S templates m _ same_type is_boolean = Unit

abbrev pub ReferentSupported : Type 0 → Bool → Referent → Type 0
ReferentSupported S templates unknown_ref = S
ReferentSupported S templates (member_ref d t) = QualSupported S templates t
ReferentSupported S templates _ = Unit

arith-IsLevel : (op : ArithOp) → IsLevel (codes (arith_name op))
unfolding scan
arith-IsLevel add n = refl
arith-IsLevel _ n = refl

module _ {S : Type 0} (c : Context) (v : IsContext S c) where
  unsupported_operator :
      (opening : String)
      → ((n : ℕ) → scan (codes opening) (code, n) ≡ some (quoted, suc n))
      → (k : ℕ) {d a : ℕ} → Moves S d a d a (put_quoted_parts opening (c.env.opcode k) "\")")
  unfolding scan
  unsupported_operator opening h k = put_quoted_parts-Moves opening (c.env.opcode k) "\")" λ n.
      scan-append (codes opening) _ (code, n) (quoted, suc n) (h n)
      ∙ scan-append (c.env.opcode k) _ (quoted, suc n) (quoted, suc n)
          (v.env.opcode_plain k (suc n))

  pub operator-Moves :
      (op : Operator) {d a : ℕ} → OperatorSupported S op → Moves S d a d a (print_operator c.env op)
  unfolding print_operator scan
  operator-Moves oo_new h = up (with_ctor-Closed "OONew" (λ n. refl) false (boolean-Moves false))
  operator-Moves oo_array_new h =
      up (with_ctor-Closed "OONew" (λ n. refl) false (boolean-Moves true))
  operator-Moves oo_delete h =
      up (with_ctor-Closed "OODelete" (λ n. refl) false (boolean-Moves false))
  operator-Moves oo_array_delete h =
      up (with_ctor-Closed "OODelete" (λ n. refl) false (boolean-Moves true))
  operator-Moves (oo_name k) {d} {a} h =
      put_codes-Moves d (codes "OO") (IsLevel-Brackets a (λ n. refl))
      ⟫ put_codes-Moves d (c.env.operator_name k) (IsLevel-Brackets a (v.env.operator_level k))
  operator-Moves oo_unknown h = die-Moves h

  binary_operator-Moves :
      (op : BinaryOp) {d a : ℕ} → Moves S d a d a (print_binary_operator c.env op)
  unfolding print_binary_operator scan
  binary_operator-Moves (arith op) = text-Moves (arith_name op) (arith-IsLevel op)
  binary_operator-Moves cmp = text-Moves "Bcmp" (λ n. refl)
  binary_operator-Moves eq = text-Moves "Beq" (λ n. refl)
  binary_operator-Moves ge = text-Moves "Bge" (λ n. refl)
  binary_operator-Moves gt = text-Moves "Bgt" (λ n. refl)
  binary_operator-Moves le = text-Moves "Ble" (λ n. refl)
  binary_operator-Moves lt = text-Moves "Blt" (λ n. refl)
  binary_operator-Moves ne = text-Moves "Bneq" (λ n. refl)
  binary_operator-Moves ptr_mem_d = text-Moves "Bdotp" (λ n. refl)
  binary_operator-Moves ptr_mem_i = text-Moves "Bdotip" (λ n. refl)
  binary_operator-Moves (other_binary k) = unsupported_operator "(Bunsupported \"" (λ n. refl) k
  binary_operator-Moves comma = text-Moves "(Bunsupported \",\")" (λ n. refl)
  binary_operator-Moves l_and = text-Moves "(Bunsupported \"&&\")" (λ n. refl)
  binary_operator-Moves l_or = text-Moves "(Bunsupported \"||\")" (λ n. refl)
  binary_operator-Moves assign = text-Moves "(Bunsupported \"=\")" (λ n. refl)
  binary_operator-Moves (assign_op op) = text-Moves "(Bunsupported \"=\")" (λ n. refl)

  sequenced-Closed :
      (name : String) (b : Bool) {p q : Printer}
      → IsLevel (codes name)
      → Unless b S
      → Closed S p
      → Closed S q
      → Closed S (visit_sequenced name b p q)
  unfolding visit_sequenced
  sequenced-Closed name b n h hp hq =
      ctor-Moves name n true
      ⟫ up (keep_depth-Closed hp)
      ⟫ nbsp-Moves
      ⟫ up (keep_depth-Closed hq)
      ⟫ assert_that-Moves b h
      ⟫ end_ctor-Moves

  open_binop :
      (op : BinaryOp)
      → Moves S 0 0 1 1 (do ctor "Ebinop" true; print_binary_operator c.env op; nbsp)
  unfolding scan
  open_binop op = ctor-Moves "Ebinop" (λ n. refl) true ⟫ binary_operator-Moves op ⟫ nbsp-Moves

  open_binary-Moves : (op : BinaryOp) → Moves S 0 0 1 1 (open_binary c.env op)
  unfolding open_binary scan
  open_binary-Moves assign = ctor-Moves "Eassign" (λ n. refl) true
  open_binary-Moves (assign_op op) =
      ctor-Moves "Eassign_op" (λ n. refl) true
      ⟫ text-Moves (arith_name op) (arith-IsLevel op)
      ⟫ nbsp-Moves
  open_binary-Moves op = open_binop op

  operands-Closed :
      (m : Meta) (op : BinaryOp) {p q : Printer}
      → QualSupported S c.env.templates m.type
      → Closed S p
      → Closed S q
      → Closed S (visit_operands c m op p q)
  unfolding visit_operands
  operands-Closed m op h hp hq =
      open_binary-Moves op
      ⟫ up (keep_depth-Closed hp)
      ⟫ nbsp-Moves
      ⟫ up (keep_depth-Closed hq)
      ⟫ done_type-Moves c v m h

  pub binary-Closed :
      (m : Meta) (op : BinaryOp) (same_type is_boolean : Bool) {p q : Printer}
      → QualSupported S c.env.templates m.type
      → BinarySupported S c.env.templates m op same_type is_boolean
      → Closed S p
      → Closed S q
      → Closed S (visit_binary c m op same_type is_boolean p q)
  unfolding visit_binary scan
  binary-Closed m comma s b hm h hp hq = sequenced-Closed "Ecomma" _ (λ n. refl) h hp hq
  binary-Closed m l_and s b hm h hp hq = sequenced-Closed "Eseqand" _ (λ n. refl) h hp hq
  binary-Closed m l_or s b hm h hp hq = sequenced-Closed "Eseqor" _ (λ n. refl) h hp hq
  binary-Closed m op s b hm h hp hq = operands-Closed m op hm hp hq

  unary_operator-Moves : (op : UnaryOp) {d a : ℕ} → Moves S d a d a (print_unary_operator c.env op)
  unfolding print_unary_operator scan
  unary_operator-Moves plus = text-Moves "Uplus" (λ n. refl)
  unary_operator-Moves minus = text-Moves "Uminus" (λ n. refl)
  unary_operator-Moves not_ = text-Moves "Ubnot" (λ n. refl)
  unary_operator-Moves l_not = text-Moves "Unot" (λ n. refl)
  unary_operator-Moves post_dec = text-Moves "<PostDec>" (λ n. refl)
  unary_operator-Moves post_inc = text-Moves "<PostInc>" (λ n. refl)
  unary_operator-Moves pre_dec = text-Moves "<PreDec>" (λ n. refl)
  unary_operator-Moves pre_inc = text-Moves "<PreInc>" (λ n. refl)
  unary_operator-Moves (other_unary k) = unsupported_operator "(Uunsupported \"" (λ n. refl) k
  unary_operator-Moves extension = text-Moves "(Uunsupported \"__extension__\")" (λ n. refl)
  unary_operator-Moves deref = text-Moves "(Uunsupported \"*\")" (λ n. refl)

  open_unop :
      (op : UnaryOp) → Moves S 0 0 1 1 (do ctor "Eunop" true; print_unary_operator c.env op; nbsp)
  unfolding scan
  open_unop op = ctor-Moves "Eunop" (λ n. refl) true ⟫ unary_operator-Moves op ⟫ nbsp-Moves

  open_unary-Moves : (op : UnaryOp) → Moves S 0 0 1 1 (open_unary c.env op)
  unfolding open_unary scan
  open_unary-Moves deref = ctor-Moves "Ederef" (λ n. refl) true
  open_unary-Moves post_inc = ctor-Moves "Epostinc" (λ n. refl) true
  open_unary-Moves pre_inc = ctor-Moves "Epreinc" (λ n. refl) true
  open_unary-Moves post_dec = ctor-Moves "Epostdec" (λ n. refl) true
  open_unary-Moves pre_dec = ctor-Moves "Epredec" (λ n. refl) true
  open_unary-Moves op = open_unop op

  pub unary-Closed :
      (m : Meta) (op : UnaryOp) {p : Printer}
      → QualSupported S c.env.templates m.type
      → Closed S p
      → Closed S (visit_unary c m op p)
  unfolding visit_unary scan
  unary-Closed m extension hm hp =
      with_ctor-Closed "Eextension" (λ n. refl) true (keep_depth-Closed hp)
  unary-Closed m op hm hp =
      open_unary-Moves op ⟫ up (keep_depth-Closed hp) ⟫ done_type-Moves c v m hm

  addressed-Closed :
      {p : Printer} → Closed S p → Closed S (do ctor "Eaddrof" true; keep_depth p; end_ctor)
  unfolding scan
  addressed-Closed hp =
      ctor-Moves "Eaddrof" (λ n. refl) true ⟫ up (keep_depth-Closed hp) ⟫ end_ctor-Moves

  pub addr_of-Closed :
      (to : Referent) {p : Printer}
      → ReferentSupported S c.env.templates to
      → Closed S p
      → Closed S (visit_addr_of c to p)
  unfolding visit_addr_of scan
  addr_of-Closed unknown_ref h hp = assert_false-Moves h
  addr_of-Closed (member_ref d t) h hp =
      with_ctor-Closed "Eglobal_member" (λ n. refl) true
        (v.env.name_closed d ⟫ nbsp-Moves ⟫ qual_type-Closed c v t h)
  addr_of-Closed no_ref h hp = addressed-Closed hp
  addr_of-Closed static_ref h hp = addressed-Closed hp
