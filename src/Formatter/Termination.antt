-- ===== src/Formatter/Termination.antt =====
-- Printers that nothing stops: they return, and what they add is balanced.
use cpp2v.Common.{ℕ, ◌+◌, ◌<◌, ◌≡◌, refl, List, ◌++◌, arith}
use cpp2v.Formatter.{Formatter, Printer, Result, ok}
use cpp2v.Formatter.Brackets.{Brackets}
use cpp2v.Formatter.Balance.{Outcome, returned, stopped, Closed}

-- `p` returns from `f`, at the depth of `f`, and has added a balanced text.
abbrev pub IsPrinted : Printer → Formatter → Type 0
IsPrinted p f =
    (g : Formatter) × (text : List ℕ) × (p f ≡ ok g)
    × (g.depth ≡ f.depth)
    × (g.out ≡ f.out ++ text)
    × Brackets 0 0 text

-- `p` does so from every formatter that is far enough below the end of an `unsigned int`.
abbrev pub Returns : Printer → Type 0
Returns p = (room : ℕ) × ((f : Formatter) → f.depth + room < f.limit → IsPrinted p f)

Outcome-IsPrinted :
    (p : Printer) (f : Formatter) (r : Result Formatter)
    → p f ≡ r
    → Outcome ⊥ f.depth 0 0 0 f r
    → IsPrinted p f
Outcome-IsPrinted p f r eq (returned {g} e l text o w) = (g, text, eq, omega arith, o, w)
Outcome-IsPrinted p f r eq (stopped s i) = elim s [ ]

pub Closed-Returns : (p : Printer) → Closed ⊥ p → Returns p
Closed-Returns p h =
    (h.room, λ f lt. Outcome-IsPrinted p f (p f) refl (h.at f.depth f lt (omega arith)))
