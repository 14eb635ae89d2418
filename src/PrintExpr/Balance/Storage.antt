-- ===== src/PrintExpr/Balance/Storage.antt =====
-- Type traits, `new`, `delete`, temporaries, loops over arrays and the other expressions of PrintExpr.cpp
-- keep the depth and the brackets.
use cpp2v.Common.{
  ℕ, String, refl, Bool, true, false, List, Option, none, some, not, codes, All, length, ◌==◌,
  if◌then◌else◌,
}
use cpp2v.Formatter.{Printer, put, nbsp, ◌>>◌, put_bool}
use cpp2v.Formatter.Brackets.{scan}
use cpp2v.Formatter.Balance.{
  Moves, Closed, ◌⟫◌, text-Moves, nbsp-Moves, rparen-Moves, put_bool-Moves, put_codes-Moves,
  IsLevel, IsLevel-Brackets,
}
use cpp2v.CoqPrinter.{ctor, end_ctor}
use cpp2v.CoqPrinter.Balance.{
  up, str-Moves, boolean-Moves, ctor-Moves, end_ctor-Moves, none-Moves, begin_tuple-Moves,
  next_tuple-Moves, end_tuple-Moves, with_ctor-Closed,
}
use cpp2v.OpaqueNames.{ℤ}
use cpp2v.ClangPrinter.Balance.{keep_depth-Closed, put_decimal-Moves, die-Moves}
use cpp2v.PrintType.{QualType}
use cpp2v.PrintType.Balance.{Unless, if-Closed}
use cpp2v.PrintType.WellFormed.{QualSupported}
use cpp2v.PrintExpr.{
  assert_that, done, Meta, TypeTrait, align_of, preferred_align_of, size_of, other_trait, OffsetOf,
  not_one_component, not_a_field, field_component, New, Delete, no_operator, destroying,
  operator_delete, Context, with_type, with_category, with_both, with_decl_type, visit_trait,
  trait_type_arg, trait_expr_arg, visit_offset_of, print_function, print_new_form, is_some,
  visit_new, print_delete, visit_delete, visit_materialize, visit_opaque, visit_atomic,
  visit_va_arg, visit_pseudo_destructor, visit_concept, visit_scalar_init, visit_array_loop,
  visit_array_index, visit_stmt_expr, visit_typed, visit_recovery,
}
use cpp2v.PrintExpr.Balance.{
  IsContext, ClassSupported, assert_false-Moves, assert_that-Moves, qual_type-Closed, type-Closed,
  put_int-Moves, done-Moves, unsupported-Closed,
}
use cpp2v.PrintExpr.Balance.Casts.{TypeSupported}
use cpp2v.PrintExpr.Balance.Calls.{print_list-Closed}
use cpp2v.PrintExpr.Balance.Objects.{OptClosed, optional-Closed, items-Closed}

abbrev pub OffsetSupported : Type 0 → Bool → OffsetOf → Type 0
OffsetSupported S templates (field_component t name) = TypeSupported S templates t
OffsetSupported S templates _ = Unit

-- A trait with no case of its own is printed with a parenthesis too many, wherever it stands.
abbrev pub TraitSupported : TypeTrait → Type 0
TraitSupported (other_trait k) = ⊥
TraitSupported _ = Unit

abbrev pub DeleteSupported : Type 0 → Bool → Delete → Type 0
DeleteSupported S templates (operator_delete d t) = QualSupported S templates t
DeleteSupported S templates _ = S

pub trait_expr-Moves :
    {S : Type 0} {p : Printer} → Closed S p → {d a : ℕ} → Moves S d a d a (trait_expr_arg p)
unfolding trait_expr_arg scan
trait_expr-Moves hp = ctor-Moves "inr" (λ n. refl) false ⟫ up (keep_depth-Closed hp) ⟫ rparen-Moves

-- What is asserted of the reserved placement `new`: that it has one argument, and does not pass the
-- alignment.
abbrev pub FormSupported : Type 0 → Bool → Bool → Bool → Type 0
FormSupported S true is_single passes = Unless is_single S × Unless (not passes) S
FormSupported S false is_single passes = Unit

-- A `new` has a size if it is of an array.
abbrev pub NewSupported : Type 0 → Bool → New → Bool → Bool → Type 0
NewSupported S templates w is_single has_size =
    FormSupported S w.is_reserved is_single w.pass_alignment
    × (Unless (if w.is_array then has_size else not has_size) S
        × (QualSupported S templates w.operator_type × QualSupported S templates w.allocated))

module _ {S : Type 0} (c : Context) (v : IsContext S c) where
  pub trait_type-Moves :
      (t : QualType)
      → QualSupported S c.env.templates t
      → {d a : ℕ} → Moves S d a d a (trait_type_arg c t)
  unfolding trait_type_arg scan
  trait_type-Moves t h =
      ctor-Moves "inl" (λ n. refl) false ⟫ up (qual_type-Closed c v t h) ⟫ rparen-Moves

  trait_with :
      (m : Meta) (name : String) {p : Printer}
      → IsLevel (codes name)
      → QualSupported S c.env.templates m.type
      → Closed S p
      → Closed S (do ctor name false; p; done c m with_type)
  trait_with m name n h hp = ctor-Moves name n false ⟫ up hp ⟫ done-Moves c v m with_type h

  pub trait-Closed :
      (m : Meta) (k : TypeTrait) {p : Printer}
      → QualSupported S c.env.templates m.type
      → TraitSupported k
      → Closed S p
      → Closed S (visit_trait c m k p)
  unfolding visit_trait scan
  trait-Closed m (other_trait k) h hk hp = elim hk [ ]
  trait-Closed m align_of h hk hp = trait_with m "Ealignof" (λ n. refl) h hp
  trait-Closed m preferred_align_of h hk hp = trait_with m "Ealignof_preferred" (λ n. refl) h hp
  trait-Closed m size_of h hk hp = trait_with m "Esizeof" (λ n. refl) h hp

  pub offset_of-Closed :
      (m : Meta) (o : OffsetOf)
      → QualSupported S c.env.templates m.type
      → OffsetSupported S c.env.templates o
      → Closed S (visit_offset_of c m o)
  unfolding visit_offset_of scan
  offset_of-Closed m not_one_component hm h = unsupported-Closed c v m hm
  offset_of-Closed m not_a_field hm h = unsupported-Closed c v m hm
  offset_of-Closed m (field_component none name) hm h =
      ctor-Moves "Eoffsetof" (λ n. refl) true ⟫ assert_false-Moves h
  offset_of-Closed m (field_component (some t) name) hm h =
      ctor-Moves "Eoffsetof" (λ n. refl) true
      ⟫ up (type-Closed c v t h)
      ⟫ nbsp-Moves
      ⟫ str-Moves name
      ⟫ nbsp-Moves
      ⟫ done-Moves c v m with_type hm

  function-Closed :
      (d : ℕ) (t : QualType) → QualSupported S c.env.templates t → Closed S (print_function c d t)
  unfolding print_function
  function-Closed d t h =
      begin_tuple-Moves
      ⟫ up (v.env.name_closed d)
      ⟫ next_tuple-Moves
      ⟫ up (qual_type-Closed c v t h)
      ⟫ end_tuple-Moves

  allocating-Closed :
      (b : Bool) → Closed S (do ctor "new_form.Allocating" true; put_bool b; nbsp; end_ctor; nbsp)
  unfolding scan
  allocating-Closed b =
      ctor-Moves "new_form.Allocating" (λ n. refl) true
      ⟫ put_bool-Moves b
      ⟫ nbsp-Moves
      ⟫ end_ctor-Moves
      ⟫ nbsp-Moves

  form-Moves :
      (is_reserved is_single passes : Bool)
      → FormSupported S is_reserved is_single passes
      → Closed S (
          if is_reserved
          then (do
            assert_that is_single
            assert_that (not passes)
            put "new_form.NonAllocating"
            nbsp)
          else (do ctor "new_form.Allocating" true; put_bool passes; nbsp; end_ctor; nbsp))
  unfolding scan
  form-Moves true is_single passes h =
      assert_that-Moves is_single h.0
      ⟫ assert_that-Moves (not passes) h.1
      ⟫ text-Moves "new_form.NonAllocating" (λ n. refl)
      ⟫ nbsp-Moves
  form-Moves false is_single passes h = allocating-Closed passes

  pub new-Closed :
      (w : New) (placement : List Printer) (size init : Option Printer)
      → NewSupported S c.env.templates w (length placement == 1) (is_some size)
      → All (Closed S) placement
      → OptClosed S size
      → OptClosed S init
      → Closed S (visit_new c w placement size init)
  unfolding visit_new print_new_form scan
  new-Closed w placement size init h hs hz hi =
      ctor-Moves "Enew" (λ n. refl) true
      ⟫ up (function-Closed w.operator_new w.operator_type h.1.1.0)
      ⟫ nbsp-Moves
      ⟫ up (print_list-Closed placement hs)
      ⟫ nbsp-Moves
      ⟫ up (form-Moves w.is_reserved (length placement == 1) w.pass_alignment h.0)
      ⟫ up (qual_type-Closed c v w.allocated h.1.1.1)
      ⟫ nbsp-Moves
      ⟫ assert_that-Moves _ h.1.0
      ⟫ up (optional-Closed size hz)
      ⟫ nbsp-Moves
      ⟫ up (optional-Closed init hi)
      ⟫ end_ctor-Moves

  delete_name-Closed :
      (op : Delete) → DeleteSupported S c.env.templates op → Closed S (print_delete c op)
  unfolding print_delete
  delete_name-Closed no_operator h = die-Moves h
  delete_name-Closed destroying h = die-Moves h
  delete_name-Closed (operator_delete d t) h = function-Closed d t h

  pub delete-Closed :
      (is_array : Bool) (op : Delete) {p : Printer} (t : QualType)
      → DeleteSupported S c.env.templates op
      → Closed S p
      → QualSupported S c.env.templates t
      → Closed S (visit_delete c is_array op p t)
  unfolding visit_delete scan
  delete-Closed is_array op t ho hp ht =
      ctor-Moves "Edelete" (λ n. refl) true
      ⟫ put_bool-Moves is_array
      ⟫ nbsp-Moves
      ⟫ up (delete_name-Closed op ho)
      ⟫ nbsp-Moves
      ⟫ up (keep_depth-Closed hp)
      ⟫ nbsp-Moves
      ⟫ up (qual_type-Closed c v t ht)
      ⟫ end_ctor-Moves

  pub materialize-Closed :
      (m : Meta) (is_extended : Bool) {p : Printer}
      → QualSupported S c.env.templates m.type
      → ClassSupported S c.env.templates m.classified
      → Closed S p
      → Closed S (visit_materialize c m is_extended p)
  unfolding visit_materialize scan
  materialize-Closed m is_extended h hc hp = if-Closed is_extended (unsupported-Closed c v m h) (
      ctor-Moves "Ematerialize_temp" (λ n. refl) true
      ⟫ up (keep_depth-Closed hp)
      ⟫ done-Moves c v m with_category hc)

  pub opaque-Closed :
      (m : Meta) (z : ℤ) → QualSupported S c.env.templates m.type → Closed S (visit_opaque c m z)
  unfolding visit_opaque scan
  opaque-Closed m z h =
      ctor-Moves "Eopaque_ref" (λ n. refl) true
      ⟫ put_int-Moves c v z
      ⟫ done-Moves c v m with_decl_type h

  pub atomic-Closed :
      (m : Meta) (op : ℕ) (ps : List Printer)
      → QualSupported S c.env.templates m.type
      → All (Closed S) ps
      → Closed S (visit_atomic c m (some op) ps)
  unfolding visit_atomic scan
  atomic-Closed m op ps h hs =
      ctor-Moves "Eatomic" (λ n. refl) true
      ⟫ put_codes-Moves 1 _ (IsLevel-Brackets 1 (v.env.atomic_level op))
      ⟫ nbsp-Moves
      ⟫ up (items-Closed ps hs)
      ⟫ done-Moves c v m with_type h

  pub va_arg-Closed :
      (m : Meta) {p : Printer}
      → QualSupported S c.env.templates m.type
      → Closed S p
      → Closed S (visit_va_arg c m p)
  unfolding visit_va_arg scan
  va_arg-Closed m h hp =
      ctor-Moves "Eva_arg" (λ n. refl) true
      ⟫ up (keep_depth-Closed hp)
      ⟫ done-Moves c v m with_type h

  pub pseudo_destructor-Closed :
      (t : QualType) {p : Printer}
      → QualSupported S c.env.templates t
      → Closed S p
      → Closed S (visit_pseudo_destructor c t p)
  unfolding visit_pseudo_destructor scan
  pseudo_destructor-Closed t h hp =
      ctor-Moves "Epseudo_destructor" (λ n. refl) true
      ⟫ up (qual_type-Closed c v t h)
      ⟫ nbsp-Moves
      ⟫ up (keep_depth-Closed hp)
      ⟫ end_ctor-Moves

  pub concept-Closed :
      (n : ℕ) (is_dependent is_satisfied : Bool)
      → Closed S (visit_concept c n is_dependent is_satisfied)
  unfolding visit_concept scan
  concept-Closed n is_dependent is_satisfied =
      ctor-Moves "Econcept_specialization" (λ k. refl) true
      ⟫ up (v.env.unresolved_closed n)
      ⟫ nbsp-Moves
      ⟫ up (
          if-Closed is_dependent
            (with_ctor-Closed "Some" (λ k. refl) false (boolean-Moves is_satisfied)) none-Moves)
      ⟫ end_ctor-Moves

  pub scalar_init-Closed :
      (m : Meta) → QualSupported S c.env.templates m.type → Closed S (visit_scalar_init c m)
  unfolding visit_scalar_init scan
  scalar_init-Closed m h =
      ctor-Moves "Eimplicit_init" (λ n. refl) true
      ⟫ up (qual_type-Closed c v m.type h)
      ⟫ end_ctor-Moves

  pub array_loop-Closed :
      (m : Meta) (index : ℕ) (count : ℤ) (size : ℕ) {p q : Printer}
      → QualSupported S c.env.templates m.type
      → Closed S p
      → Closed S q
      → Closed S (visit_array_loop c m index count size p q)
  unfolding visit_array_loop scan
  array_loop-Closed m index count size h hp hq =
      ctor-Moves "Earrayloop_init" (λ n. refl) true
      ⟫ put_decimal-Moves c.env index v.env
      ⟫ nbsp-Moves
      ⟫ up (keep_depth-Closed hp)
      ⟫ put_int-Moves c v count
      ⟫ nbsp-Moves
      ⟫ put_decimal-Moves c.env size v.env
      ⟫ nbsp-Moves
      ⟫ up (keep_depth-Closed hq)
      ⟫ done-Moves c v m with_type h

  pub array_index-Closed :
      (m : Meta) (z : ℤ)
      → QualSupported S c.env.templates m.type
      → Closed S (visit_array_index c m z)
  unfolding visit_array_index scan
  array_index-Closed m z h =
      ctor-Moves "Earrayloop_index" (λ n. refl) true
      ⟫ put_int-Moves c v z
      ⟫ nbsp-Moves
      ⟫ done-Moves c v m with_type h

  pub stmt_expr-Closed :
      (m : Meta) (s : ℕ) → QualSupported S c.env.templates m.type → Closed S (visit_stmt_expr c m s)
  unfolding visit_stmt_expr scan
  stmt_expr-Closed m s h =
      with_ctor-Closed "Estmt" (λ n. refl) true
        (v.stmt_closed s ⟫ nbsp-Moves ⟫ qual_type-Closed c v m.type h)

  pub typed-Closed :
      (m : Meta) (name : String) (l : Bool)
      → IsLevel (codes name)
      → QualSupported S c.env.templates m.type
      → Closed S (visit_typed c m name l)
  unfolding visit_typed
  typed-Closed m name l n h = ctor-Moves name n l ⟫ done-Moves c v m with_type h

  pub recovery-Closed :
      (m : Meta)
      → QualSupported S c.env.templates m.type
      → ClassSupported S c.env.templates m.classified
      → Closed S (visit_recovery c m)
  unfolding visit_recovery scan
  recovery-Closed m h hc =
      ctor-Moves "Eunsupported" (λ n. refl) false
      ⟫ str-Moves m.class_name
      ⟫ done-Moves c v m with_both (hc, h)
