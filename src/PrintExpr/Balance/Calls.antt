-- ===== src/PrintExpr/Balance/Calls.antt =====
-- The calls keep the depth and the brackets (PrintExpr.cpp).
use cpp2v.Common.{
  ℕ, suc, refl, Bool, true, false, List, [], ◌∷◌, Option, none, some, not, All, if◌then◌else◌,
}
use cpp2v.Formatter.{Printer, put}
use cpp2v.Formatter.Brackets.{scan}
use cpp2v.Formatter.Balance.{
  Moves, Closed, ◌⟫◌, text-Moves, nbsp-Moves, line-Moves, lparen-Moves, rparen-Moves,
  put_bool-Moves, put-Moves, Brackets-close,
}
use cpp2v.CoqPrinter.Balance.{up, ctor-Moves, end_ctor-Moves, with_ctor-Closed, list_range-Closed}
use cpp2v.ClangPrinter.{keep_depth}
use cpp2v.ClangPrinter.Balance.{keep_depth-Closed, put_decimal-Moves}
use cpp2v.PrintType.{QualType}
use cpp2v.PrintType.Balance.{Unless}
use cpp2v.PrintType.WellFormed.{QualSupported}
use cpp2v.PrintLocalDecl.WellFormed.{anon-Brackets}
use cpp2v.PrintExpr.{
  Meta, Operator, DependentName, Context, with_type, print_list, no_args, visit_unresolved_call,
  visit_pseudo_call, visit_call, visit_operator_method, visit_operator_function, visit_construct,
  print_forwarded, number_from, visit_inherited_ctor, print_method_type, visit_member_call,
  visit_pointer_call, visit_other_call, visit_lambda,
}
use cpp2v.PrintExpr.Balance.{
  IsContext, assert_false-Moves, assert_that-Moves, list-Closed, qual_type-Closed, done-Moves,
}
use cpp2v.PrintExpr.Balance.Refs.{DependentSupported, dependent_name-Closed}
use cpp2v.PrintExpr.Balance.Operators.{OperatorSupported, operator-Moves}

-- The type of a method.
abbrev pub MethodSupported : Type 0 → Bool → Option QualType → Type 0
MethodSupported S templates none = S
MethodSupported S templates (some t) = QualSupported S templates t

pub print_list-Closed :
    {S : Type 0} (ps : List Printer) → All (Closed S) ps → Closed S (print_list ps)
unfolding print_list
print_list-Closed {S} ps h = list_range-Closed keep_depth ps (list-Closed S ps h)

dispatch-Moves :
    {S : Type 0} (b : Bool) {d a : ℕ} → Moves S d a d a (put (if b then "Virtual" else "Direct"))
unfolding scan
dispatch-Moves true = text-Moves "Virtual" (λ n. refl)
dispatch-Moves false = text-Moves "Direct" (λ n. refl)

pub call-Closed :
    {S : Type 0} {p : Printer} (ps : List Printer)
    → Closed S p
    → All (Closed S) ps
    → Closed S (visit_call p ps)
unfolding visit_call scan
call-Closed ps hp hs =
    ctor-Moves "Ecall" (λ n. refl) true
    ⟫ up (keep_depth-Closed hp)
    ⟫ line-Moves
    ⟫ up (print_list-Closed ps hs)
    ⟫ end_ctor-Moves

pub pointer_call-Closed :
    {S : Type 0} (arrow : Bool) {p q : Printer} (ps : List Printer)
    → Closed S p
    → Closed S q
    → All (Closed S) ps
    → Closed S (visit_pointer_call arrow p q ps)
unfolding visit_pointer_call scan
pointer_call-Closed arrow ps hp hq hs =
    ctor-Moves "Emember_call" (λ n. refl) true
    ⟫ put_bool-Moves arrow
    ⟫ nbsp-Moves
    ⟫ ctor-Moves "inr" (λ n. refl) true
    ⟫ up (keep_depth-Closed hp)
    ⟫ end_ctor-Moves
    ⟫ nbsp-Moves
    ⟫ up (keep_depth-Closed hq)
    ⟫ nbsp-Moves
    ⟫ up (print_list-Closed ps hs)
    ⟫ end_ctor-Moves

pub other_call-Closed : {S : Type 0} → S → Closed S visit_other_call
unfolding visit_other_call scan
other_call-Closed s = ctor-Moves "Emember_call" (λ n. refl) true ⟫ assert_false-Moves s

module _ {S : Type 0} (c : Context) (v : IsContext S c) where
  pub unresolved_call-Closed :
      (callee : DependentName) (ps : List Printer)
      → DependentSupported S c.env.templates callee
      → All (Closed S) ps
      → Closed S (visit_unresolved_call c callee ps)
  unfolding visit_unresolved_call scan
  unresolved_call-Closed callee ps h hs =
      with_ctor-Closed "Eunresolved_call" (λ n. refl) true
        (dependent_name-Closed c v callee h ⟫ nbsp-Moves ⟫ print_list-Closed ps hs)

  pub pseudo_call-Closed :
      (arrow : Bool) (t : QualType) {p : Printer} (ps : List Printer)
      → Unless (no_args ps) S
      → QualSupported S c.env.templates t
      → Closed S p
      → Closed S (visit_pseudo_call c arrow t p ps)
  unfolding visit_pseudo_call scan
  pseudo_call-Closed arrow t ps h ht hp =
      assert_that-Moves (no_args ps) h
      ⟫ ctor-Moves "Epseudo_destructor" (λ n. refl) true
      ⟫ put_bool-Moves arrow
      ⟫ nbsp-Moves
      ⟫ up (qual_type-Closed c v t ht)
      ⟫ nbsp-Moves
      ⟫ up (keep_depth-Closed hp)
      ⟫ end_ctor-Moves

  pub operator_method-Closed :
      (op : Operator) (d : ℕ) (is_static is_virtual : Bool) (t : QualType) {p : Printer}
      (ps : List Printer)
      → OperatorSupported S op
      → Unless (not is_static) S
      → QualSupported S c.env.templates t
      → Closed S p
      → All (Closed S) ps
      → Closed S (visit_operator_method c op d is_static is_virtual t p ps)
  unfolding visit_operator_method scan
  operator_method-Closed op d is_static is_virtual t ps ho hm ht hp hs =
      assert_that-Moves (not is_static) hm
      ⟫ ctor-Moves "Eoperator_member_call" (λ n. refl) true
      ⟫ operator-Moves c v op ho
      ⟫ nbsp-Moves
      ⟫ up (v.env.name_closed d)
      ⟫ nbsp-Moves
      ⟫ dispatch-Moves is_virtual
      ⟫ nbsp-Moves
      ⟫ up (qual_type-Closed c v t ht)
      ⟫ nbsp-Moves
      ⟫ up (keep_depth-Closed hp)
      ⟫ nbsp-Moves
      ⟫ up (print_list-Closed ps hs)
      ⟫ end_ctor-Moves

  pub operator_function-Closed :
      (op : Operator) (d : ℕ) (t : QualType) (ps : List Printer)
      → OperatorSupported S op
      → QualSupported S c.env.templates t
      → All (Closed S) ps
      → Closed S (visit_operator_function c op d t ps)
  unfolding visit_operator_function scan
  operator_function-Closed op d t ps ho ht hs =
      ctor-Moves "Eoperator_call" (λ n. refl) true
      ⟫ operator-Moves c v op ho
      ⟫ nbsp-Moves
      ⟫ up (v.env.name_closed d)
      ⟫ nbsp-Moves
      ⟫ up (qual_type-Closed c v t ht)
      ⟫ nbsp-Moves
      ⟫ up (print_list-Closed ps hs)
      ⟫ end_ctor-Moves

  pub construct-Closed :
      (m : Meta) (d : ℕ) (ps : List Printer)
      → QualSupported S c.env.templates m.type
      → All (Closed S) ps
      → Closed S (visit_construct c m d ps)
  unfolding visit_construct scan
  construct-Closed m d ps hm hs =
      ctor-Moves "Econstructor" (λ n. refl) true
      ⟫ up (v.env.name_closed d)
      ⟫ nbsp-Moves
      ⟫ up (print_list-Closed ps hs)
      ⟫ done-Moves c v m with_type hm

  forwarded-Closed :
      (i : ℕ) (t : QualType)
      → QualSupported S c.env.templates t
      → Closed S (print_forwarded c (i, t))
  unfolding print_forwarded scan
  forwarded-Closed i t h =
      ctor-Moves "Evar" (λ n. refl) false
      ⟫ put-Moves 1 "(localname.anon " anon-Brackets
      ⟫ put_decimal-Moves c.env i v.env
      ⟫ put-Moves 1 ")" (Brackets-close 1)
      ⟫ nbsp-Moves
      ⟫ up (qual_type-Closed c v t h)
      ⟫ end_ctor-Moves

  all_forwarded :
      (k : ℕ) (ts : List QualType)
      → All (QualSupported S c.env.templates) ts
      → All (λ p. Closed S (print_forwarded c p)) (number_from k ts)
  unfolding number_from
  all_forwarded k [] h = tt
  all_forwarded k (t ∷ ts) h = (forwarded-Closed k t h.0, all_forwarded (suc k) ts h.1)

  pub inherited_ctor-Closed :
      (m : Meta) (d : ℕ) (ts : List QualType)
      → QualSupported S c.env.templates m.type
      → All (QualSupported S c.env.templates) ts
      → Closed S (visit_inherited_ctor c m d ts)
  unfolding visit_inherited_ctor scan
  inherited_ctor-Closed m d ts hm hs =
      ctor-Moves "Econstructor" (λ n. refl) true
      ⟫ up (v.env.name_closed d)
      ⟫ nbsp-Moves
      ⟫ up (list_range-Closed (print_forwarded c) (number_from 0 ts) (all_forwarded 0 ts hs))
      ⟫ done-Moves c v m with_type hm

  method_type-Closed :
      (t : Option QualType) → MethodSupported S c.env.templates t → Closed S (print_method_type c t)
  unfolding print_method_type
  method_type-Closed none h = assert_false-Moves h
  method_type-Closed (some t) h = qual_type-Closed c v t h

  pub member_call-Closed :
      (arrow : Bool) (d : ℕ) (is_virtual : Bool) (t : Option QualType) {p : Printer}
      (ps : List Printer)
      → MethodSupported S c.env.templates t
      → Closed S p
      → All (Closed S) ps
      → Closed S (visit_member_call c arrow d is_virtual t p ps)
  unfolding visit_member_call scan
  member_call-Closed arrow d is_virtual t ps h hp hs =
      ctor-Moves "Emember_call" (λ n. refl) true
      ⟫ put_bool-Moves arrow
      ⟫ nbsp-Moves
      ⟫ ctor-Moves "inl" (λ n. refl) true
      ⟫ lparen-Moves
      ⟫ up (v.env.name_closed d)
      ⟫ text-Moves "," (λ n. refl)
      ⟫ nbsp-Moves
      ⟫ dispatch-Moves is_virtual
      ⟫ text-Moves "," (λ n. refl)
      ⟫ nbsp-Moves
      ⟫ up (method_type-Closed t h)
      ⟫ rparen-Moves
      ⟫ end_ctor-Moves
      ⟫ nbsp-Moves
      ⟫ up (keep_depth-Closed hp)
      ⟫ nbsp-Moves
      ⟫ up (print_list-Closed ps hs)
      ⟫ end_ctor-Moves

  pub lambda-Closed :
      (d : ℕ) (ps : List Printer) → All (Closed S) ps → Closed S (visit_lambda c d ps)
  unfolding visit_lambda scan
  lambda-Closed d ps hs =
      ctor-Moves "Elambda" (λ n. refl) true
      ⟫ up (v.env.name_closed d)
      ⟫ nbsp-Moves
      ⟫ up (print_list-Closed ps hs)
      ⟫ end_ctor-Moves
