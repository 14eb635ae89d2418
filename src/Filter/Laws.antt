-- ===== src/Filter/Laws.antt =====
-- Combined filters (Filter.hpp) are least upper and greatest lower bounds of their parts.
use cpp2v.Common.{ℕ, ◌≤◌, ◌↔◌, List, [], ◌∷◌, arith, All}
use cpp2v.Filter.{What, nothing, definition, rank, min, max, Filter, combine_loop, combine_filter}

max-least : (a b c : What) → (rank (max a b) ≤ rank c) ↔ ((rank a ≤ rank c) × (rank b ≤ rank c))
unfolding max
max-least a b c = ground arith

min-greatest : (a b c : What) → (rank c ≤ rank (min a b)) ↔ ((rank c ≤ rank a) × (rank c ≤ rank b))
unfolding min
min-greatest a b c = ground arith

max-loop :
    (r : What) (fs : List Filter) (d : ℕ) (c : What)
    → (rank (combine_loop max r fs d) ≤ rank c)
      ↔ ((rank r ≤ rank c) × All (λ f. rank (f d) ≤ rank c) fs)
unfolding combine_loop
max-loop r [] d c = ((λ h. (h, tt)), λ h. h.0)
max-loop r (f ∷ fs) d c = (
  λ h.
      let (p, q) = (max-loop (max r (f d)) fs d c).0 h in
      let (x, y) = (max-least r (f d) c).0 p in (x, (y, q)),
  λ h. (max-loop (max r (f d)) fs d c).1 ((max-least r (f d) c).1 (h.0, h.1.0), h.1.1),
)

min-loop :
    (r : What) (fs : List Filter) (d : ℕ) (c : What)
    → (rank c ≤ rank (combine_loop min r fs d))
      ↔ ((rank c ≤ rank r) × All (λ f. rank c ≤ rank (f d)) fs)
unfolding combine_loop
min-loop r [] d c = ((λ h. (h, tt)), λ h. h.0)
min-loop r (f ∷ fs) d c = (
  λ h.
      let (p, q) = (min-loop (min r (f d)) fs d c).0 h in
      let (x, y) = (min-greatest r (f d) c).0 p in (x, (y, q)),
  λ h. (min-loop (min r (f d)) fs d c).1 ((min-greatest r (f d) c).1 (h.0, h.1.0), h.1.1),
)

-- A union of filters keeps a declaration in at most the form `c` exactly when each of them does.
pub combine_filter-max :
    (fs : List Filter) (d : ℕ) (c : What)
    → (rank (combine_filter nothing max fs d) ≤ rank c) ↔ All (λ f. rank (f d) ≤ rank c) fs
unfolding combine_filter
combine_filter-max fs d c =
    (λ h. ((max-loop nothing fs d c).0 h).1, λ h. (max-loop nothing fs d c).1 (omega arith, h))

-- An intersection of filters keeps a declaration in at least the form `c` exactly when each of them does.
pub combine_filter-min :
    (fs : List Filter) (d : ℕ) (c : What)
    → (rank c ≤ rank (combine_filter definition min fs d)) ↔ All (λ f. rank c ≤ rank (f d)) fs
unfolding combine_filter
combine_filter-min fs d c = (
  λ h. ((min-loop definition fs d c).0 h).1,
  λ h. (min-loop definition fs d c).1 (ground arith, h),
)
