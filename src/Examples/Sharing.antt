-- ===== src/Examples/Sharing.antt =====
-- The names that are handed out for a function and a class, and a cache that runs out of names.
use cpp2v.Common.{ℕ, ◌≡◌, refl, List, [], ◌∷◌, some, arith}
use cpp2v.Formatter.{ok, err, asserted}
use cpp2v.PrePrint.{
  Decl, function_decl, record_decl, no_tys, and_ty, to, Ty, ty, tag, pointer, reference_type,
  other_type, elaborated, present, no_stmts, statement, compound, State, initial, lookup,
  pre_print_all,
}
use cpp2v.PrePrint.Keeps.{Holds}
use cpp2v.PrePrint.Numbers.{IsSound, pre_print_all-IsSound, pre_print_all-injective}

-- `struct S { int x; S* next; }`, where the pointer is type 3
abbrev class_type : Ty
class_type = ty 1 (tag (some 100))

abbrev pointer_type : Ty
pointer_type = ty 3 (pointer (to (ty 4 (elaborated (to class_type)))))

abbrev class : Decl
class = record_decl 100 (and_ty (to (ty 2 other_type)) (and_ty (to pointer_type) no_tys))

-- `S* f(S&)`
abbrev procedure : Decl
procedure =
    function_decl (and_ty (to (ty 5 (reference_type (to class_type)))) no_tys) (to pointer_type) 101
      (present (statement (compound no_stmts)))

abbrev both : List Decl
both = class ∷ procedure ∷ []

abbrev shared : State
shared = record {
  types = record { entries = (5, 4) ∷ (3, 3) ∷ (1, 2) ∷ []; next = 4 };
  names = record { entries = (101, 3) ∷ (100, 2) ∷ []; next = 3 };
  calls =
      record { prefix = b'n'; name = 3; pointee = 101 }
      ∷ record { prefix = b't'; name = 4; pointee = 5 }
      ∷ record { prefix = b't'; name = 3; pointee = 3 }
      ∷ record { prefix = b't'; name = 2; pointee = 1 }
      ∷ record { prefix = b'n'; name = 2; pointee = 100 }
      ∷ [];
  limit = 4294967296;
}

run : pre_print_all both (initial 4294967296) ≡ ok shared
unfolding pre_print_all initial
run = refl

-- With two-bit names the third type is named 0, is taken for a type without a name when it is met
-- again, and fails to be stored a second time.
abbrev many : List Decl
many =
    record_decl 100 (
      and_ty (to (ty 1 (pointer (to (ty 9 other_type))))) (
        and_ty (to (ty 2 (pointer (to (ty 9 other_type))))) (
          and_ty (to (ty 3 (pointer (to (ty 9 other_type)))))
            (and_ty (to (ty 3 (pointer (to (ty 9 other_type))))) no_tys))))
    ∷ []

run_out : pre_print_all many (initial 4) ≡ err asserted
unfolding pre_print_all initial
run_out = refl

pre_print_all-IsSound_example : Holds (IsSound 4294967296) (pre_print_all both (initial 4294967296))
pre_print_all-IsSound_example = pre_print_all-IsSound 4294967296 both

pre_print_all-injective_example :
    ((p q : ℕ)
      → (lookup p shared.types ≡ 0 → ⊥)
      → lookup p shared.types ≡ lookup q shared.types
      → p ≡ q)
    × ((p q : ℕ)
        → (lookup p shared.names ≡ 0 → ⊥)
        → lookup p shared.names ≡ lookup q shared.names
        → p ≡ q)
pre_print_all-injective_example =
    pre_print_all-injective 4294967296 both shared run (omega arith) (omega arith)
