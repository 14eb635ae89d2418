-- ===== src/ModuleBuilder/Visited.antt =====
-- A declaration is walked at most once (`visited_` in ModuleBuilder.cpp).
use cpp2v.Common.{
  ℕ, ◌≡◌, refl, Bool, true, false, List, ◌∷◌, ==_refl, if◌then◌else◌, arith, subst, ap,
}
use cpp2v.Formatter.{ok}
use cpp2v.ModuleBuilder.Syntax.{Decl, node}
use cpp2v.ModuleBuilder.Module.{
  Flags, State, contains, add_definition, add_declaration, add_assert, add_specification, mark,
}
use cpp2v.ModuleBuilder.Visit.{Config, visit, walk, once}
use cpp2v.ModuleBuilder.Keeps.{Holds, IsKept, walk-Keeps, visit-Keeps}

abbrev pub WasVisited : ℕ → State → Type 0
WasVisited x s = contains x s.visited ≡ true

contains-cons : (x d : ℕ) (ds : List ℕ) → contains x ds ≡ true → contains x (d ∷ ds) ≡ true
unfolding contains
contains-cons x d ds h = ground arith

contains-head : (x : ℕ) (ds : List ℕ) → contains x (x ∷ ds) ≡ true
unfolding contains
contains-head x ds = ground (arith, ==_refl x)

WasVisited-IsKept : (c : Config) (x : ℕ) → IsKept c (λ _. Unit {0}) (WasVisited x)
unfolding add_definition add_declaration add_assert add_specification mark
WasVisited-IsKept c x = record {
  definition_kept = λ d fl s _ e h. h;
  declaration_kept = λ d fl s _ e h. h;
  assert_kept = λ d s h. h;
  specification_kept = λ d s h. h;
  mark_kept = λ d s h. contains-cons x d s.visited h;
  template_flags = λ fl e f. tt;
  specialization_flags = λ fl f. tt;
}

abbrev pub number : Decl → ℕ
number (node d k) = d

-- A visit leaves the declaration marked.
visit-WasVisited :
    (c : Config) (t : Decl) (fl : Flags) (s : State)
    → Holds (WasVisited (number t)) (visit c t fl s)
unfolding visit once mark
visit-WasVisited c (node d k) fl s = by_mark (contains d s.visited) refl
  where
    by_mark :
        (b : Bool)
        → contains d s.visited ≡ b
        → Holds (WasVisited d) (if b then ok s else walk c d k fl (mark d s))
    by_mark true e = e
    by_mark false e =
        (walk-Keeps c (WasVisited-IsKept c d) d k fl tt).at (mark d s) (contains-head d s.visited)

again :
    (c : Config) (t : Decl) (fl : Flags) (s : State)
    → WasVisited (number t) s
    → visit c t fl s ≡ ok s
unfolding visit once
again c (node d k) fl s h = ap (λ b. if b then ok s else walk c d k fl (mark d s)) h

-- After a visit of a declaration that returns, and one more visit that returns, of whatever declaration,
-- the first one is still marked as visited: a visit of it changes nothing, under whatever flags.
pub visit_twice :
    (c : Config) (t u : Decl) (fl fl' fl'' : Flags) (s s' s'' : State)
    → visit c t fl s ≡ ok s'
    → visit c u fl' s' ≡ ok s''
    → visit c t fl'' s'' ≡ ok s''
visit_twice c t u fl fl' fl'' s s' s'' e e' =
    let first : WasVisited (number t) s' =
      subst (Holds (WasVisited (number t))) e (visit-WasVisited c t fl s) in
    let later : WasVisited (number t) s'' =
      subst (Holds (WasVisited (number t))) e'
        ((visit-Keeps c (WasVisited-IsKept c (number t)) u fl' tt).at s' first) in
    again c t fl'' s'' later
