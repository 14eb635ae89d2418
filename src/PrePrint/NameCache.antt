-- ===== src/PrePrint/NameCache.antt =====
-- `Cache::NameCache` (PrePrint.hpp): the numbers of the pointers that have one.
use cpp2v.Common.{ℕ, ◌+◌, ◌%◌, true, false, List, [], ◌∷◌, Option, none, some, ◌==◌, if◌then◌else◌}
use cpp2v.Formatter.{Result, ok, err, asserted, put_codes}
use cpp2v.CoqPrinter.{Maybe}

-- The newest entry stands first.
pub record NameCache : Type 0 where
  pub entries : List (ℕ × ℕ)
  pub next : ℕ

unfoldable pub empty : NameCache
empty = record { entries = []; next = 1 }

unfoldable pub find_entry : ℕ → List (ℕ × ℕ) → Option ℕ
find_entry p [] = none
find_entry p ((q, n) ∷ es) = let rest = find_entry p es in if p == q then some n else rest

-- `++next_`, where `limit` is one more than the largest `unsigned int`.
unfoldable pub fresh : ℕ → NameCache → NameCache × ℕ
fresh limit c = let n = (c.next + 1) % limit in (record c { next = n }, n)

unfoldable pub store : ℕ → ℕ → NameCache → Result NameCache
unfolding find_entry
store p n c = elim (find_entry p c.entries) [
  | none ↦ ok (record c { entries = (p, n) ∷ c.entries })
  | some m ↦ err asserted
]

unfoldable pub lookup : ℕ → NameCache → ℕ
unfolding find_entry
lookup p c = elim (find_entry p c.entries) [ none ↦ 0 | some n ↦ n ]

-- `output << PREFIX << x`, for the decimal text of `x`.
unfoldable pub reference : (ℕ → List ℕ) → ℕ → ℕ → NameCache → Maybe
unfolding lookup put_codes
reference decimal prefix p c f =
    let x = lookup p c in
    if x == 0 then ok (f, false) else ok (put_codes (decimal x) (put_codes (prefix ∷ []) f), true)
