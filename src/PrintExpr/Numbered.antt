-- ===== src/PrintExpr/Numbered.antt =====
-- The numbers under which `?:` without middle operand and loops over arrays print an opaque value, and its
-- occurrences in their operands (PrintExpr.cpp).
use cpp2v.Common.{ℕ, ◌≡◌, length}
use cpp2v.OpaqueNames.{pos, OpaqueNames, fresh, find, inc_index_count}
use cpp2v.PrintExpr.{
  Meta, Expr, node, binary_conditional, array_loop, Context, frame, visit_binary_conditional,
  visit_array_loop, visit,
}
use cpp2v.PrintExpr.Names.{Grows}

-- Names in which the opaque value `value` has a number, and one loop is open more than in `names`.
pub record Numbered (value : ℕ) (names inside : OpaqueNames) : Type 0 where
  pub grows : Grows (inc_index_count (fresh value names).0) inside
  pub number : find value inside ≡ pos (length names.indexes)

module _ (c : Context) (m : Meta) (value : ℕ) where
  -- `?:` prints the number of opaque values so far and the common operand, and then its condition and both
  -- branches, each with names in which the opaque value is found under that number.
  abbrev pub ConditionalNumbered : Expr → Expr → Expr → Expr → OpaqueNames → Type 0
  ConditionalNumbered common a t f names =
      (xs ys zs : OpaqueNames) × Numbered value names xs
      × Numbered value names ys
      × Numbered value names zs
      × ((visit c (node m (binary_conditional value common a t f)) names).1
          ≡ frame m (
              visit_binary_conditional c m (length names.indexes)
                (visit c common (fresh value names).0).1 (visit c a xs).1 (visit c t ys).1
                (visit c f zs).1))

  -- The loop prints the number of opaque values so far, the array, the number of the loop and its length, and
  -- then its element with names in which the opaque value is found under the first of these.
  abbrev pub LoopNumbered : ℕ → Expr → Expr → OpaqueNames → Type 0
  LoopNumbered size src e names =
      (xs : OpaqueNames) × Numbered value names xs
      × ((visit c (node m (array_loop value size src e)) names).1
          ≡ frame m (
              visit_array_loop c m (length names.indexes) (inc_index_count names).index_count size
                (visit c src (fresh value names).0).1 (visit c e xs).1))
