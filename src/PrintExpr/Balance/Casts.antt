-- ===== src/PrintExpr/Balance/Casts.antt =====
-- The casts keep the depth and the brackets (PrintExpr.cpp).
use cpp2v.Common.{ℕ, refl, Bool, true, false, List, [], ◌∷◌, Option, none, some, codes, All, String}
use cpp2v.Formatter.{Printer}
use cpp2v.Formatter.Brackets.{scan}
use cpp2v.Formatter.Balance.{
  Moves, Closed, ◌⟫◌, text-Moves, nbsp-Moves, line-Moves, lparen-Moves, put_codes-Moves, IsLevel,
  IsLevel-Brackets,
}
use cpp2v.CoqPrinter.Balance.{
  up, str-Moves, ctor-Moves, end_ctor-Moves, with_ctor-Closed, list_range-Closed,
}
use cpp2v.ClangPrinter.Balance.{keep_depth-Closed}
use cpp2v.PrintType.{QualType, Ty}
use cpp2v.PrintType.Balance.{Unless}
use cpp2v.PrintType.WellFormed.{Supported, QualSupported}
use cpp2v.PrintExpr.{
  Meta, PlainCast, l2r, TypedCast, bitcast, Cast, plain, typed, derived2base, base2derived,
  other_cast, ExplicitCast, c_style, functional, builtin_bit, other_explicit, named, Context,
  with_decl_type, plain_name, typed_name, print_step, print_path, print_cast, visit_cast_body,
  open_named_cast, visit_explicit_cast, visit_builtin_cast, visit_implicit_cast,
}
use cpp2v.PrintExpr.Balance.{
  IsContext, assert_false-Moves, assert_that-Moves, qual_type-Closed, type-Closed, decl_type-Closed,
  done-Moves, unsupported-Closed,
}

-- A type that has to be there.
abbrev pub TypeSupported : Type 0 → Bool → Option Ty → Type 0
TypeSupported S templates none = S
TypeSupported S templates (some t) = Supported S templates t

abbrev pub CastSupported : Type 0 → Bool → Cast → Type 0
CastSupported S templates (derived2base path) = All (TypeSupported S templates) path
CastSupported S templates (base2derived path) = All (TypeSupported S templates) path
CastSupported S templates _ = Unit

abbrev pub BuiltinSupported : Type 0 → Option (ℕ × Bool) → Type 0
BuiltinSupported S none = S
BuiltinSupported S (some (d, is_builtin)) = Unless is_builtin S

plain-IsLevel : (k : PlainCast) → IsLevel (codes (plain_name k))
unfolding scan
plain-IsLevel l2r n = refl
plain-IsLevel _ n = refl

typed-IsLevel : (k : TypedCast) → IsLevel (codes (typed_name k))
unfolding scan
typed-IsLevel bitcast n = refl
typed-IsLevel _ n = refl

module _ {S : Type 0} (c : Context) (v : IsContext S c) where
  steps-Closed :
      (path : List (Option Ty))
      → All (TypeSupported S c.env.templates) path
      → All (λ o. Closed S (print_step c o)) path
  unfolding print_step
  steps-Closed [] h = tt
  steps-Closed (none ∷ path) h = (assert_false-Moves h.0, steps-Closed path h.1)
  steps-Closed (some t ∷ path) h = (type-Closed c v t h.0, steps-Closed path h.1)

  path-Closed :
      (m : Meta) (name : String) (path : List (Option Ty))
      → IsLevel (codes name)
      → QualSupported S c.env.templates m.type
      → All (TypeSupported S c.env.templates) path
      → Closed S (print_path c m name path)
  unfolding print_path
  path-Closed m name path n hm h =
      ctor-Moves name n true
      ⟫ up (list_range-Closed (print_step c) path (steps-Closed path h))
      ⟫ nbsp-Moves
      ⟫ done-Moves c v m with_decl_type hm

  cast-Closed :
      (m : Meta) (k : Cast)
      → QualSupported S c.env.templates m.type
      → CastSupported S c.env.templates k
      → Closed S (print_cast c m k)
  unfolding print_cast scan
  cast-Closed m (plain k) hm h = text-Moves (plain_name k) (plain-IsLevel k)
  cast-Closed m (typed k) hm h =
      with_ctor-Closed (typed_name k) (typed-IsLevel k) false (decl_type-Closed c v m hm)
  cast-Closed m (derived2base path) hm h = path-Closed m "Cderived2base" path (λ n. refl) hm h
  cast-Closed m (base2derived path) hm h = path-Closed m "Cbase2derived" path (λ n. refl) hm h
  cast-Closed m (other_cast name) hm h =
      ctor-Moves "Cunsupported" (λ n. refl) false
      ⟫ str-Moves name
      ⟫ nbsp-Moves
      ⟫ done-Moves c v m with_decl_type hm

  cast_body-Moves :
      (m : Meta) (k : Cast) (written : QualType) {p : Printer}
      → QualSupported S c.env.templates m.type
      → CastSupported S c.env.templates k
      → QualSupported S c.env.templates written
      → Closed S p
      → Moves S 1 1 0 0 (visit_cast_body c m k written p)
  unfolding visit_cast_body
  cast_body-Moves m k written hm hk hw hp =
      up (cast-Closed m k hm hk)
      ⟫ nbsp-Moves
      ⟫ up (qual_type-Closed c v written hw)
      ⟫ nbsp-Moves
      ⟫ up (keep_depth-Closed hp)
      ⟫ end_ctor-Moves

  pub explicit_cast-Closed :
      (m : Meta) (form : ExplicitCast) (k : Cast) (written : QualType) {p : Printer}
      → QualSupported S c.env.templates m.type
      → CastSupported S c.env.templates k
      → QualSupported S c.env.templates written
      → Closed S p
      → Closed S (visit_explicit_cast c m form k written p)
  unfolding visit_explicit_cast open_named_cast scan
  explicit_cast-Closed m c_style k written hm hk hw hp =
      ctor-Moves "Ecstyle_cast" (λ n. refl) true ⟫ cast_body-Moves m k written hm hk hw hp
  explicit_cast-Closed m (named name) k written hm hk hw hp =
      (line-Moves
        ⟫ lparen-Moves
        ⟫ put_codes-Moves 1 _ (IsLevel-Brackets 1 (v.env.cast_level name))
        ⟫ nbsp-Moves)
      ⟫ cast_body-Moves m k written hm hk hw hp
  explicit_cast-Closed m functional k written hm hk hw hp =
      ctor-Moves "Efunctional_cast" (λ n. refl) true ⟫ cast_body-Moves m k written hm hk hw hp
  explicit_cast-Closed m builtin_bit k written hm hk hw hp =
      ctor-Moves "Ebuiltin_bit_cast" (λ n. refl) true ⟫ cast_body-Moves m k written hm hk hw hp
  explicit_cast-Closed m other_explicit k written hm hk hw hp = unsupported-Closed c v m hm

  pub builtin_cast-Closed :
      (to : Option (ℕ × Bool)) (t : QualType)
      → BuiltinSupported S to
      → QualSupported S c.env.templates t
      → Closed S (visit_builtin_cast c to t)
  unfolding visit_builtin_cast scan
  builtin_cast-Closed none t h ht = assert_false-Moves h
  builtin_cast-Closed (some (d, is_builtin)) t h ht =
      assert_that-Moves is_builtin h
      ⟫ ctor-Moves "Ebuiltin" (λ n. refl) false
      ⟫ up (v.env.name_closed d)
      ⟫ nbsp-Moves
      ⟫ up (qual_type-Closed c v t ht)
      ⟫ end_ctor-Moves

  pub implicit_cast-Closed :
      (m : Meta) (k : Cast) {p : Printer}
      → QualSupported S c.env.templates m.type
      → CastSupported S c.env.templates k
      → Closed S p
      → Closed S (visit_implicit_cast c m k p)
  unfolding visit_implicit_cast scan
  implicit_cast-Closed m k hm hk hp =
      with_ctor-Closed "Ecast" (λ n. refl) true
        (cast-Closed m k hm hk ⟫ nbsp-Moves ⟫ keep_depth-Closed hp)
