-- ===== src/PrintStmt/Balance.antt =====
-- The parts of statements that hold no other statement keep the depth and the brackets (PrintStmt.cpp).
use cpp2v.Common.{ℕ, refl, Bool, true, List, [], ◌∷◌, Option, none, some, All}
use cpp2v.Formatter.{Printer}
use cpp2v.Formatter.Brackets.{scan}
use cpp2v.Formatter.Balance.{Closed, ◌⟫◌, nbsp-Moves}
use cpp2v.CoqPrinter.{str}
use cpp2v.CoqPrinter.Balance.{
  up, str-Moves, ctor-Moves, end_ctor-Moves, some-Moves, none-Moves, boolean-Moves,
  begin_list-Moves, end_list-Moves, begin_tuple-Moves, next_tuple-Moves, end_tuple-Moves,
  with_ctor-Closed, list_loop-Moves, filter_loop-Moves, printed,
}
use cpp2v.ClangPrinter.{IsEnv}
use cpp2v.ClangPrinter.Balance.{put_const-Moves}
use cpp2v.PrintLocalDecl.{LocalDecl, print_local_decl}
use cpp2v.PrintLocalDecl.WellFormed.{print_local_decl-Closed, LocalSupported}
use cpp2v.PrintStmt.Visit.{
  Context, in_some, print_expr_option, print_decl, print_condition_variable, visit_decl_stmt,
  print_label, print_operand, visit_asm,
}

abbrev pub VariableSupported : Type 0 → Bool → Option LocalDecl → Type 0
VariableSupported S templates none = Unit
VariableSupported S templates (some d) = LocalSupported S templates d

pub in_some-Closed : {S : Type 0} {body : Printer} → Closed S body → Closed S (in_some body)
unfolding in_some
in_some-Closed b = some-Moves ⟫ up b ⟫ end_ctor-Moves

pub strings-Closed : (S : Type 0) (ss : List (List ℕ)) → All (λ s. Closed S (str s)) ss
strings-Closed S [] = tt
strings-Closed S (s ∷ ss) = (str-Moves s, strings-Closed S ss)

module _ {S : Type 0} (c : Context) (v : IsEnv S c.env) where
  pub expr_option-Closed : (e : Option ℕ) → Closed S (print_expr_option c.env e)
  unfolding print_expr_option
  expr_option-Closed none = none-Moves
  expr_option-Closed (some e) = in_some-Closed (v.expr_closed e)

  decls-Closed :
      (ds : List LocalDecl)
      → All (LocalSupported S c.env.templates) ds
      → All (λ d. Closed S (printed (print_local_decl c.env c.info c.thread_safe d))) ds
  decls-Closed [] h = tt
  decls-Closed (d ∷ ds) h =
      (print_local_decl-Closed S c.env c.info c.thread_safe d v h.0, decls-Closed ds h.1)

  pub condition_variable-Closed :
      (d : Option LocalDecl)
      → VariableSupported S c.env.templates d
      → Closed S (print_condition_variable c d)
  unfolding print_condition_variable print_decl
  condition_variable-Closed none h = none-Moves
  condition_variable-Closed (some d) h =
      in_some-Closed (print_local_decl-Closed S c.env c.info c.thread_safe d v h)

  pub decl_stmt-Closed :
      (ds : List LocalDecl)
      → All (LocalSupported S c.env.templates) ds
      → Closed S (visit_decl_stmt c ds)
  unfolding visit_decl_stmt scan
  decl_stmt-Closed ds h =
      ctor-Moves "Sdecl" (λ n. refl) true
      ⟫ begin_list-Moves
      ⟫ filter_loop-Moves _ ds (decls-Closed ds h)
      ⟫ end_list-Moves
      ⟫ end_ctor-Moves

  pub label-Closed : (lo : ℕ) (hi : Option ℕ) → Closed S (print_label c.env lo hi)
  unfolding print_label scan
  label-Closed lo none = with_ctor-Closed "Exact" (λ n. refl) true (put_const-Moves c.env lo v)
  label-Closed lo (some hi) =
      with_ctor-Closed "Range" (λ n. refl) true
        (put_const-Moves c.env lo v ⟫ nbsp-Moves ⟫ put_const-Moves c.env hi v)

  operand-Closed : (o : List ℕ × ℕ) → Closed S (print_operand c.env o)
  unfolding print_operand
  operand-Closed (constraint, e) =
      begin_tuple-Moves
      ⟫ str-Moves constraint
      ⟫ next_tuple-Moves
      ⟫ up (v.expr_closed e)
      ⟫ end_tuple-Moves

  operands-Closed : (os : List (List ℕ × ℕ)) → All (λ o. Closed S (print_operand c.env o)) os
  operands-Closed [] = tt
  operands-Closed (o ∷ os) = (operand-Closed o, operands-Closed os)

  pub asm-Closed :
      (text : List ℕ) (b : Bool) (ins outs : List (List ℕ × ℕ)) (clobbers : List (List ℕ))
      → Closed S (visit_asm c.env text b ins outs clobbers)
  unfolding visit_asm scan
  asm-Closed text b ins outs clobbers =
      ctor-Moves "Sasm" (λ n. refl) true
      ⟫ str-Moves text
      ⟫ nbsp-Moves
      ⟫ boolean-Moves b
      ⟫ nbsp-Moves
      ⟫ begin_list-Moves
      ⟫ list_loop-Moves _ ins (operands-Closed ins)
      ⟫ end_list-Moves
      ⟫ begin_list-Moves
      ⟫ list_loop-Moves _ outs (operands-Closed outs)
      ⟫ end_list-Moves
      ⟫ begin_list-Moves
      ⟫ list_loop-Moves _ clobbers (strings-Closed _ clobbers)
      ⟫ end_list-Moves
      ⟫ end_ctor-Moves
