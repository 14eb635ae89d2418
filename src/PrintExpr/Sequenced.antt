-- ===== src/PrintExpr/Sequenced.antt =====
-- Which operands of a binary operator share the names of the declaration around it (PrintExpr.cpp).
use cpp2v.Common.{ℕ, ◌≡◌, refl, Bool, false}
use cpp2v.OpaqueNames.{negsuc, OpaqueNames, empty, find, find_from}
use cpp2v.PrintExpr.{
  Meta, BinaryOp, comma, l_and, l_or, assign, arith as arith_op, assign_op, cmp, eq, ge, gt, le, lt,
  ne, ptr_mem_d, ptr_mem_i, other_binary, Expr, node, binary, opaque_value, Context, frame,
  visit_binary, visit_opaque, shares_names, framed, visit,
}

-- The operators whose operands are evaluated one after the other: `,`, `&&` and `||`.
abbrev pub IsSequenced : BinaryOp → Type 0
IsSequenced comma = Unit
IsSequenced l_and = Unit
IsSequenced l_or = Unit
IsSequenced _ = ⊥

IsSequenced-shares_names : (op : BinaryOp) → IsSequenced op → shares_names op ≡ false
unfolding shares_names
IsSequenced-shares_names comma h = refl
IsSequenced-shares_names l_and h = refl
IsSequenced-shares_names l_or h = refl
IsSequenced-shares_names assign h = elim h [ ]
IsSequenced-shares_names (arith_op op) h = elim h [ ]
IsSequenced-shares_names (assign_op op) h = elim h [ ]
IsSequenced-shares_names cmp h = elim h [ ]
IsSequenced-shares_names eq h = elim h [ ]
IsSequenced-shares_names ge h = elim h [ ]
IsSequenced-shares_names gt h = elim h [ ]
IsSequenced-shares_names le h = elim h [ ]
IsSequenced-shares_names lt h = elim h [ ]
IsSequenced-shares_names ne h = elim h [ ]
IsSequenced-shares_names ptr_mem_d h = elim h [ ]
IsSequenced-shares_names ptr_mem_i h = elim h [ ]
IsSequenced-shares_names (other_binary k) h = elim h [ ]

-- The operands of `,`, `&&` and `||` do not get the names: what is printed is the same for all names, and an
-- opaque value on either side is printed as -1 even if it has a number.
pub sequenced-Forgets :
    (c : Context) (m k l : Meta) (op : BinaryOp) (same_type is_boolean : Bool) (x y : Expr)
    (left right : ℕ) (names other : OpaqueNames)
    → IsSequenced op
    → ((visit c (node m (binary op same_type is_boolean x y)) names).1
        ≡ (visit c (node m (binary op same_type is_boolean x y)) other).1)
      × ((visit c
            (node m (
              binary op same_type is_boolean
                (node k (opaque_value left))
                (node l (opaque_value right))))
            names).1
          ≡ frame m (
              visit_binary c m op same_type is_boolean
                (frame k (visit_opaque c k (negsuc 0)))
                (frame l (visit_opaque c l (negsuc 0)))))
unfolding visit framed find find_from empty
sequenced-Forgets c m k l op same_type is_boolean x y left right names other h =
    let e = IsSequenced-shares_names op h in (rw e refl, rw e refl)
