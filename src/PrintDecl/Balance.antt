-- ===== src/PrintDecl/Balance.antt =====
-- The frame of declarations keeps the depth and the brackets (`DeclPrinter` of PrintDecl.cpp).
use cpp2v.Common.{
  ℕ, String, ◌≡◌, refl, subst, fun_ext, Bool, true, false, List, Option, none, some, ◌||◌, not,
  codes, if◌then◌else◌,
}
use cpp2v.Formatter.{Formatter, Printer, Result, ok, err, bind, skip}
use cpp2v.Formatter.Brackets.{scan}
use cpp2v.Formatter.Balance.{Closed, IsLevel, ◌⟫◌, skip-Moves, nbsp-Moves}
use cpp2v.CoqPrinter.{Maybe}
use cpp2v.CoqPrinter.Balance.{str-Moves, with_ctor-Closed, printed, answer-Moves}
use cpp2v.ClangPrinter.Balance.{answer-Closed}
use cpp2v.PrintDecl.{
  DeclEnv, IsDeclEnv, Heading, silent, print_pattern, print_specialization, print_plain,
  print_checked, print_with, or_else, print_declaration, is_specialized,
}

pub silent-Closed : {S : Type 0} → Closed S (printed silent)
unfolding silent skip
silent-Closed = skip-Moves

pub if-printed :
    {S : Type 0} (b : Bool) (m n : Maybe)
    → Closed S (printed m)
    → Closed S (printed n)
    → Closed S (printed (if b then m else n))
if-printed true m n hm hn = hm
if-printed false m n hm hn = hn

or_result :
    (r : Result (Formatter × Bool)) (n : Maybe)
    → bind r (λ (g, b). (if b then skip else printed n) g)
      ≡ bind (bind r (λ (g, b). if b then ok (g, true) else n g)) (λ (g, _). ok g)
unfolding skip
or_result (ok (g, true)) n = refl
or_result (ok (g, false)) n = refl
or_result (err e) n = refl

or_else-Closed :
    {S : Type 0} (m n : Maybe)
    → Closed S (printed m)
    → Closed S (printed n)
    → Closed S (printed (or_else m n))
unfolding or_else
or_else-Closed {S} m n hm hn =
    subst (Closed S) (fun_ext λ f. or_result (m f) n)
      (answer-Moves m (λ b. if b then skip else printed n) hm skip-Moves hn)

module _ {S : Type 0} (c : DeclEnv) (v : IsDeclEnv S c) (h : Heading) where
  pattern-Closed : (o : Option ℕ) → Closed S (printed (print_pattern c h o))
  unfolding print_pattern scan
  pattern-Closed none = silent-Closed
  pattern-Closed (some pattern) = answer-Closed true (
      with_ctor-Closed "Dinstantiation" (λ n. refl) true
        (v.comment_closed h.decl
          ⟫ nbsp-Moves
          ⟫ v.key_closed h.decl
          ⟫ nbsp-Moves
          ⟫ v.comment_closed pattern
          ⟫ nbsp-Moves
          ⟫ v.key_closed pattern
          ⟫ nbsp-Moves
          ⟫ v.arguments_closed h.decl))

  specialization-Closed : Closed S (printed (print_specialization c h))
  unfolding print_specialization
  specialization-Closed =
      if-printed (not c.env.templates || not (is_specialized h)) _ _ silent-Closed
        (pattern-Closed h.pattern)

  module _ (name : String) (body : Printer) (n : IsLevel (codes name)) where
    plain-Closed : Closed S body → Closed S (printed (print_plain c h name body))
    unfolding print_plain
    plain-Closed hb =
        if-printed c.env.templates _ _
          (if-printed (not h.is_templated || is_specialized h) _ _ silent-Closed (
            answer-Closed true (
              with_ctor-Closed name n true (
                v.comment_closed h.decl
                ⟫ nbsp-Moves
                ⟫ v.parameters_closed h.decl
                ⟫ nbsp-Moves
                ⟫ v.key_closed h.decl
                ⟫ nbsp-Moves
                ⟫ hb))))
          (answer-Closed true (
            with_ctor-Closed name n true
              (v.comment_closed h.decl ⟫ nbsp-Moves ⟫ v.key_closed h.decl ⟫ nbsp-Moves ⟫ hb)))

    checked-Closed :
        (invalid : Option (List ℕ))
        → (invalid ≡ none → Closed S body)
        → Closed S (printed (print_checked c h name invalid body))
    unfolding print_checked scan
    checked-Closed none hb = plain-Closed (hb refl)
    checked-Closed (some message) hb = answer-Closed true (
        with_ctor-Closed "Dunsupported" (λ k. refl) true
          (v.env.name_closed h.decl ⟫ nbsp-Moves ⟫ str-Moves message))

    with-Closed :
        (b : Bool) (invalid : Option (List ℕ))
        → (b ≡ false → Closed S body)
        → (invalid ≡ none → Closed S body)
        → Closed S
            (printed (if b then print_checked c h name invalid body else print_plain c h name body))
    with-Closed true invalid hf hn = checked-Closed invalid hn
    with-Closed false invalid hf hn = plain-Closed (hf refl)

    -- The body is printed if the declaration is found valid, or if it is not looked at.
    pub declaration-Closed :
        (invalid : Option (List ℕ))
        → (h.is_context ≡ false → Closed S body)
        → (invalid ≡ none → Closed S body)
        → Closed S (printed (print_declaration c h name invalid body))
    unfolding print_declaration print_with
    declaration-Closed invalid hf hn =
        or_else-Closed (print_with c h name invalid body) (print_specialization c h)
          (with-Closed h.is_context invalid hf hn) specialization-Closed
