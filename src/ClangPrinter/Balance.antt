-- ===== src/ClangPrinter/Balance.antt =====
-- The shared printers of ClangPrinter.cpp keep the depth and the brackets, and the assertion on the
-- depth never fails around a printer that does.
use cpp2v.Common.{
  subst, fun_ext, ℕ, ◌+◌, ◌*◌, ◌≡◌, ◌∙◌, refl, sym, Bool, true, false, ◌==◌, if◌then◌else◌, ==_iff,
}
use cpp2v.Formatter.{put_num, num_text, Formatter, Printer, Result, ok, err, depth_changed, bind}
use cpp2v.Formatter.Brackets.{scan}
use cpp2v.Formatter.Balance.{
  Moves, Closed, Outcome, returned, stopped, dies, text-Moves, put_codes-Moves, IsLevel-Brackets,
  put_nobreak-Moves,
}
use cpp2v.CoqPrinter.Balance.{printed}
use cpp2v.ClangPrinter.{
  Env, IsEnv, keep_depth, put_decimal, die, print_variadic, CallingConv, cc_c, cc_x86_reg_call,
  cc_win64, cc_other, print_calling_conv, print_qualifier, answer,
}

Outcome-keep :
    {S : Type 0} {c a b : ℕ} {f : Formatter} {r : Result Formatter}
    → f.depth ≡ c + 2 * 0
    → Outcome S c 0 a b f r
    → Outcome S c 0 a b f (bind r (λ g. if f.depth == g.depth then ok g else err depth_changed))
Outcome-keep {f = f} e (returned {g} e' l text o w) =
    rw ((==_iff f.depth g.depth).1 (e ∙ sym e')) (returned e' l text o w)
Outcome-keep e (stopped p s) = stopped p s

pub keep_depth-Moves :
    {S : Type 0} {a b : ℕ} {body : Printer}
    → Moves S 0 a 0 b body
    → Moves S 0 a 0 b (keep_depth body)
unfolding keep_depth
keep_depth-Moves h = record { room = h.room; at = λ c f lt e. Outcome-keep e (h.at c f lt e) }

pub keep_depth-Closed : {S : Type 0} {body : Printer} → Closed S body → Closed S (keep_depth body)
keep_depth-Closed h = keep_depth-Moves h

module _ {S : Type 0} {d a : ℕ} where
  pub die-Moves : S → Moves S d a d a die
  unfolding die
  die-Moves s = record { room = 0; at = λ c f h e. stopped s dies }

  pub print_variadic-Moves : (va : Bool) → Moves S d a d a (print_variadic va)
  unfolding print_variadic scan
  print_variadic-Moves true = text-Moves "Ar_Variadic" (λ n. refl)
  print_variadic-Moves false = text-Moves "Ar_Definite" (λ n. refl)

  pub put_decimal-Moves : (env : Env) (n : ℕ) → IsEnv S env → Moves S d a d a (put_decimal env n)
  unfolding put_decimal
  put_decimal-Moves env n v =
      put_codes-Moves d (env.decimal n) (IsLevel-Brackets a (v.decimal_level n))

-- The conventions that are printed; the others need `S`.
abbrev pub IsSupported : Type 0 → CallingConv → Type 0
IsSupported S cc_other = S
IsSupported S _ = Unit

module _ {S : Type 0} {d a : ℕ} where
  pub print_calling_conv-Moves :
      (cc : CallingConv) → IsSupported S cc → Moves S d a d a (print_calling_conv cc)
  unfolding print_calling_conv scan
  print_calling_conv-Moves cc_c h = text-Moves "CC_C" (λ n. refl)
  print_calling_conv-Moves cc_x86_reg_call h = text-Moves "CC_RegCall" (λ n. refl)
  print_calling_conv-Moves cc_win64 h = text-Moves "CC_MsAbi" (λ n. refl)
  print_calling_conv-Moves cc_other h = die-Moves h

  pub print_qualifier-Moves : (c v : Bool) → Moves S d a d a (print_qualifier c v)
  unfolding print_qualifier scan
  print_qualifier-Moves true true = text-Moves "QCV" (λ n. refl)
  print_qualifier-Moves true false = text-Moves "QC" (λ n. refl)
  print_qualifier-Moves false true = text-Moves "QV" (λ n. refl)
  print_qualifier-Moves false false = text-Moves "QM" (λ n. refl)

  pub put_const-Moves :
      (env : Env) (e : ℕ) → IsEnv S env → Moves S d a d a (put_num (env.known_const_int e))
  unfolding put_num
  put_const-Moves env e v =
      put_nobreak-Moves d (num_text (env.known_const_int e)) (IsLevel-Brackets a (v.const_level e))

printed-result :
    (b : Bool) (r : Result Formatter) → bind (bind r (λ g. ok (g, b))) (λ (g, _). ok g) ≡ r
printed-result b (ok g) = refl
printed-result b (err e) = refl

pub answer-Closed :
    {S : Type 0} (b : Bool) {p : Printer} → Closed S p → Closed S (printed (answer b p))
unfolding answer
answer-Closed {S} b {p} h = subst (Closed S) (sym (fun_ext λ f. printed-result b (p f))) h
