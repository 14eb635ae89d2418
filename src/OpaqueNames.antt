-- ===== src/OpaqueNames.antt =====
-- rocq-bluerock-cpp2v/include/OpaqueNames.hpp: the expressions and declarations that are printed by
-- number. A pointer into clang's AST is a number.
use cpp2v.Common.{
  ℕ, zero, suc, ◌+◌, Bool, true, false, List, [], ◌∷◌, ◌++◌, Option, none, some, ◌==◌,
  if◌then◌else◌, length,
}
use cpp2v.Formatter.{Result, ok, err, asserted}
pub mod Laws

-- `int`; `negsuc n` is -(n + 1).
pub data ℤ : Type 0 where
  pos : ℕ → ℤ
  negsuc : ℕ → ℤ

pub record OpaqueNames : Type 0 where
  pub indexes : List ℕ
  pub anonymous : List ℕ
  pub index_count : ℤ

unfoldable pub empty : OpaqueNames
empty = record { indexes = []; anonymous = []; index_count = negsuc 0 }

unfoldable pub fresh : ℕ → OpaqueNames → OpaqueNames × ℕ
fresh e n = (record n { indexes = n.indexes ++ e ∷ [] }, length n.indexes)

unfoldable pub free : ℕ → OpaqueNames → OpaqueNames
free e n = n

-- The loop of `find` and `find_anon`, with its counter.
unfoldable pub find_from : ℕ → List ℕ → ℕ → ℤ
find_from e [] result = negsuc 0
find_from e (i ∷ is) result =
    let rest = find_from e is (suc result) in if i == e then pos result else rest

unfoldable pub find : ℕ → OpaqueNames → ℤ
unfolding find_from
find e n = find_from e n.indexes 0

unfoldable pub push_anon : ℕ → OpaqueNames → OpaqueNames × ℕ
push_anon e n = (record n { anonymous = n.anonymous ++ e ∷ [] }, length n.anonymous)

unfoldable pub find_anon : ℕ → OpaqueNames → ℤ
unfolding find_from
find_anon e n = find_from e n.anonymous 0

-- The last entry of a vector, and the vector without it.
unfoldable pub split_back : List ℕ → Option (List ℕ × ℕ)
split_back [] = none
split_back (x ∷ xs) = elim (split_back xs) [
  | none ↦ some ([], x)
  | some (front, back) ↦ some (x ∷ front, back)
]

-- The two assertions of `pop_anon`: the vector is not empty, and ends with `e`.
unfoldable pub pop_anon : ℕ → OpaqueNames → Result OpaqueNames
unfolding split_back
pop_anon e n = elim (split_back n.anonymous) [
  | none ↦ err asserted
  | some (front, back) ↦ if e == back then ok (record n { anonymous = front }) else err asserted
]

abbrev inc : ℤ → ℤ
inc (pos n) = pos (suc n)
inc (negsuc zero) = pos 0
inc (negsuc (suc n)) = negsuc n

abbrev dec : ℤ → ℤ
dec (pos zero) = negsuc 0
dec (pos (suc n)) = pos n
dec (negsuc n) = negsuc (suc n)

unfoldable pub inc_index_count : OpaqueNames → OpaqueNames
inc_index_count n = record n { index_count = inc n.index_count }

unfoldable pub dec_index_count : OpaqueNames → OpaqueNames
dec_index_count n = record n { index_count = dec n.index_count }
