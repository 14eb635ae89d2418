-- ===== src/OpaqueNames/Laws.antt =====
-- Numbers handed out by OpaqueNames.hpp stand for what they were handed out for.
use cpp2v.Common.{
  ℕ, suc, ◌+◌, ◌≡◌, ◌≢◌, refl, ap, List, [], ◌∷◌, ◌++◌, some, ◌==◌, ==_iff, ==_refl, if◌then◌else◌,
  length, arith, All, ◌∙◌,
}
use cpp2v.Formatter.{ok, err, asserted}
use cpp2v.OpaqueNames.{
  pos, OpaqueNames, fresh, find_from, find, push_anon, find_anon, split_back, pop_anon,
  inc_index_count, dec_index_count,
}

find_from-new :
    (e : ℕ) (is : List ℕ) (k : ℕ)
    → All (λ i. i ≢ e) is
    → find_from e (is ++ e ∷ []) k ≡ pos (k + length is)
unfolding find_from
find_from-new e [] k h = ground (arith, ==_refl e)
find_from-new e (i ∷ is) k h = ground (arith, ==_iff i e, find_from-new e is (suc k) h.1)

find_from-old :
    (e d : ℕ) (is : List ℕ) (k r : ℕ)
    → find_from e is k ≡ pos r
    → find_from e (is ++ d ∷ []) k ≡ pos r
unfolding find_from
find_from-old e d [] k r h = cc
find_from-old e d (i ∷ is) k r h = ground (arith, find_from-old e d is (suc k) r)

-- An expression that has no number yet is found under the number that `fresh` gives it, and every expression
-- that was found before keeps its number.
pub find-fresh :
    (e : ℕ) (n : OpaqueNames)
    → All (λ i. i ≢ e) n.indexes
    → (find e (fresh e n).0 ≡ pos (fresh e n).1)
      × ((d r : ℕ) → find d n ≡ pos r → find d (fresh e n).0 ≡ pos r)
unfolding find fresh
find-fresh e n h = (
  find_from-new e n.indexes 0 h ∙ ap pos (omega arith),
  λ d r p. find_from-old d e n.indexes 0 r p,
)

-- A declaration that is not yet on the stack of nameless ones is found under the number that `push_anon`
-- gives it, and every declaration that was found before keeps its number.
pub find_anon-push_anon :
    (e : ℕ) (n : OpaqueNames)
    → All (λ i. i ≢ e) n.anonymous
    → (find_anon e (push_anon e n).0 ≡ pos (push_anon e n).1)
      × ((d r : ℕ) → find_anon d n ≡ pos r → find_anon d (push_anon e n).0 ≡ pos r)
unfolding find_anon push_anon
find_anon-push_anon e n h = (
  find_from-new e n.anonymous 0 h ∙ ap pos (omega arith),
  λ d r p. find_from-old d e n.anonymous 0 r p,
)

split_back-append : (xs : List ℕ) (x : ℕ) → split_back (xs ++ x ∷ []) ≡ some (xs, x)
unfolding split_back
split_back-append [] x = refl
split_back-append (y ∷ xs) x = rw (split_back-append xs x)

-- `pop_anon` undoes `push_anon` of the same declaration, and asserts on any other.
pub pop_anon-push_anon :
    (e d : ℕ) (n : OpaqueNames)
    → pop_anon d (push_anon e n).0 ≡ (if d == e then ok n else err asserted)
unfolding pop_anon push_anon
pop_anon-push_anon e d n = rw (pop_anon, split_back-append n.anonymous e)

pub dec-inc_index_count : (n : OpaqueNames) → dec_index_count (inc_index_count n) ≡ n
unfolding dec_index_count inc_index_count
dec-inc_index_count n = ground arith
