-- ===== src/PrintExpr/Errors.antt =====
-- Where printing an expression goes wrong (PrintExpr.cpp).
use cpp2v.Common.{
  ℕ, suc, some, ◌+◌, ◌<◌, ◌≡◌, ◌∙◌, refl, ap, sym, subst, fun_ext, true, codes, ◌++◌, Bool, false,
  [], none, ◌==◌, ==_iff, Bool-cases, inl, inr, if◌then◌else◌, arith,
}
use cpp2v.Formatter.{Formatter, Printer, Result, ok, err, depth_changed, bind}
use cpp2v.Formatter.Brackets.{scan, scan-append, quoted, code, Brackets}
use cpp2v.Formatter.Balance.{Moves, Outcome, returned, stopped, ◌⟫◌, nbsp-Moves}
use cpp2v.CoqPrinter.Balance.{up, ctor-Moves}
use cpp2v.OpaqueNames.{OpaqueNames}
use cpp2v.ClangPrinter.{keep_depth}
use cpp2v.ClangPrinter.Balance.{keep_depth-Moves}
use cpp2v.PrintType.{QualType}
use cpp2v.PrintType.WellFormed.{QualSupported}
use cpp2v.PrintExpr.{
  Meta, other_trait, trait_type, visit_trait, with_type, Exprs, node, atomic, Context, frame,
  visit_atomic, under, framed, visit, print_expr,
}
use cpp2v.PrintExpr.Balance.{IsContext, unsupported-Closed, put_parts-Moves, done-Moves}

-- The assertion on the depth fails behind a printer that leaves a constructor open.
keep_depth-open :
    (f : Formatter) (r : Result Formatter)
    → Outcome ⊥ f.depth 1 0 1 f r
    → bind r (λ g. if f.depth == g.depth then ok g else err depth_changed) ≡ err depth_changed
keep_depth-open f r (returned {g} e l text o w) = elim (Bool-cases (f.depth == g.depth)) [
  | inl t ↦ absurd (omega (arith, (==_iff f.depth g.depth).0 t))
  | inr t ↦ rw t refl
]
keep_depth-open f r (stopped s i) = elim s [ ]

without_errors :
    (b : Bool) (p q : Printer) (f : Formatter) → b ≡ false → (if b then p else q) f ≡ q f
without_errors b p q f e = rw e refl

-- An atomic operation that has no name never prints: where the types and names it is about are printed, the
-- assertion on the depth fails, since its constructor stays open. This is from every formatter that is far
-- enough below the end of an `unsigned int`, for an expression without errors.
pub atomic-Fails :
    (c : Context) (m : Meta) (es : Exprs) (names : OpaqueNames)
    → IsContext ⊥ c
    → QualSupported ⊥ c.env.templates m.type
    → m.has_errors ≡ false
    → (room : ℕ) × ((f : Formatter)
        → f.depth + room < f.limit
        → (print_expr c (node m (atomic none es)) names).1 f ≡ err depth_changed)
unfolding print_expr under visit framed frame keep_depth visit_atomic scan
atomic-Fails c m es names v q e =
    let h : Moves ⊥ 0 0 1 1 (visit_atomic c m none []) =
      ctor-Moves "Eatomic" (λ n. refl) true ⟫ up (unsupported-Closed c v m q) in
    (
      h.room,
      λ f lt.
          ap (λ r. bind r (λ g. if f.depth == g.depth then ok g else err depth_changed))
            (without_errors m.has_errors _ _ f e)
          ∙ keep_depth-open f (visit_atomic c m none [] f) (h.at f.depth f lt (omega arith)),
    )

trait_end : (n : ℕ) → scan (codes "\")") (quoted, 2 + n) ≡ some (code, 1 + n)
unfolding scan
trait_end n =
    subst (λ k. scan (codes "\")") (quoted, k) ≡ some (code, 1 + n)) {x = suc (1 + n)} {y = 2 + n}
      (omega arith) refl

-- The quote is closed before the parenthesis.
trait_text :
    (c : Context)
    → IsContext ⊥ c
    → (k : ℕ)
    → Brackets 2 1 (codes "\"UnaryExprOrTypeTraitExpr(" ++ (c.env.decimal k ++ codes "\")"))
unfolding scan
trait_text c v k = record {
  at = λ n.
      scan-append (c.env.decimal k) (codes "\")") (quoted, 2 + n) (quoted, 2 + n)
        (v.env.decimal_plain k (2 + n))
      ∙ trait_end n;
}

-- A type trait with no case of its own is printed with a parenthesis too many: the printer returns at the depth
-- where it started, and the text that it adds closes one parenthesis that was open before. This is from every
-- formatter that is far enough below the end of an `unsigned int`, for an expression without errors whose own
-- type is supported, with a type as the operand, and for printers of names and statements that return with
-- balanced text.
pub trait-Overcloses :
    (c : Context) (m : Meta) (k : ℕ) (t : QualType) (names : OpaqueNames)
    → IsContext ⊥ c
    → QualSupported ⊥ c.env.templates m.type
    → m.has_errors ≡ false
    → Moves ⊥ 0 1 0 0 (print_expr c (node m (trait_type (other_trait k) t)) names).1
unfolding print_expr under visit framed frame visit_trait scan
trait-Overcloses c m k t names v q e = keep_depth-Moves (
    subst (Moves ⊥ 0 1 0 0) (sym (fun_ext λ f. without_errors m.has_errors _ _ f e)) (
      ctor-Moves "Eunsupported" (λ n. refl) true
      ⟫ put_parts-Moves "\"UnaryExprOrTypeTraitExpr(" (c.env.decimal k) "\")" (trait_text c v k)
      ⟫ nbsp-Moves
      ⟫ done-Moves c v m with_type q))
