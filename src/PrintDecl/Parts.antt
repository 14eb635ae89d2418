-- ===== src/PrintDecl/Parts.antt =====
-- The parts of structures and unions keep the depth and the brackets (PrintDecl.cpp).
use cpp2v.Common.{
  ℕ, ◌≡◌, refl, Bool, true, false, List, [], ◌∷◌, Option, none, some, ◌==◌, ◌||◌, not, codes, All,
  if◌then◌else◌,
}
use cpp2v.Formatter.{Printer, ◌>>◌, nbsp}
use cpp2v.Formatter.Brackets.{scan}
use cpp2v.Formatter.Balance.{
  Closed, IsLevel, stopped, asserts, ◌⟫◌, skip-Moves, text-Moves, nbsp-Moves, cons-Moves,
  tuple_sep-Moves, put-Moves, Brackets-open, Brackets-close,
}
use cpp2v.CoqPrinter.{with_some, with_ctor}
use cpp2v.CoqPrinter.Balance.{
  up, str-Moves, boolean-Moves, none-Moves, with_ctor-Closed, with_list-Closed, list_range-Closed,
  list_range_filter-Closed, printed,
}
use cpp2v.ClangPrinter.Balance.{put_decimal-Moves, die-Moves, answer-Closed}
use cpp2v.PrintType.{QualType, Ty, print_qual_type, print_type}
use cpp2v.PrintType.Balance.{if-Closed}
use cpp2v.PrintType.WellFormed.{Supported, QualSupported, print_type-Closed, print_qual_type-Closed}
use cpp2v.PrintDecl.{
  DeclEnv, IsDeclEnv, Anonymous, of_record, of_no_record, FieldName, identifier, anonymous,
  capture_this, capture_var, no_capture, Field, Base, Method, Layout, pod, standard, unspecified,
  Record, print_layout_info, print_anonymous, print_field_name, print_initializer, language,
  print_field, counted, print_fields, print_class_base, print_base_type, print_base, print_bases,
  print_virtual, print_virtuals, print_overridden, override_loop, print_overrides,
  print_delete_name, print_layout_type, print_size_align,
}
use cpp2v.PrintDecl.Balance.{silent-Closed, if-printed}
use cpp2v.PrintDecl.Supported.{
  ClassSupported, BaseSupported, BasesSupported, FieldsSupported, AllPlain, NoBits,
}

without :
    {S : Type 0} (b : Bool) (p q : Printer) → b ≡ false → Closed S q → Closed S (if b then p else q)
without b p q e hq = rw e hq

module _ {S : Type 0} (c : DeclEnv) (v : IsDeclEnv S c) where
  type-Closed :
      (t : QualType) → QualSupported S c.env.templates t → Closed S (print_qual_type c.env c.info t)
  type-Closed t h = print_qual_type-Closed c.env c.info t v.env h

  layout_info-Closed : (n : ℕ) → Closed S (print_layout_info c.env n)
  unfolding print_layout_info scan
  layout_info-Closed n =
      with_ctor-Closed "Build_LayoutInfo" (λ k. refl) true (put_decimal-Moves c.env n v.env)

  anonymous-Closed : (a : Anonymous) → Closed S (print_anonymous c a)
  unfolding print_anonymous scan
  anonymous-Closed (of_record d) = v.short_closed d
  anonymous-Closed of_no_record =
      with_ctor-Closed "field_name.Id" (λ n. refl) false
        (str-Moves (codes "<anonymous field not of record type>"))

  field_name-Closed : (x : FieldName) → Closed S (print_field_name c x)
  unfolding print_field_name scan
  field_name-Closed (identifier name) =
      with_ctor-Closed "field_name.Id" (λ n. refl) false (str-Moves name)
  field_name-Closed (anonymous a) = anonymous-Closed a
  field_name-Closed capture_this =
      with_ctor-Closed "field_name.CaptureVar" (λ n. refl) true (str-Moves (codes "this"))
  field_name-Closed (capture_var name) =
      with_ctor-Closed "field_name.CaptureVar" (λ n. refl) true (str-Moves name)
  field_name-Closed (no_capture a) =
      with_ctor-Closed "field_name.CaptureVar" (λ n. refl) true skip-Moves ⟫ anonymous-Closed a

  initializer-Closed : (e : Option ℕ) → Closed S (print_initializer c.env e)
  unfolding print_initializer with_some scan
  initializer-Closed none = none-Moves
  initializer-Closed (some e) = with_ctor-Closed "Some" (λ n. refl) true (v.env.expr_closed e)

  language-Closed : (b : Bool) → Closed S (language b)
  unfolding language scan
  language-Closed true = text-Moves "lang.temp" (λ n. refl)
  language-Closed false = text-Moves "lang.cpp" (λ n. refl)

  field-Closed :
      (has_layout : Bool) (i : ℕ) (x : Field)
      → x.is_bit_field ≡ false
      → QualSupported S c.env.templates x.type
      → Closed S (print_field c has_layout (i, x))
  unfolding print_field scan
  field-Closed has_layout i x e h = without x.is_bit_field _ _ e (
      with_ctor-Closed "@mkMember" (λ n. refl) (not (i == 0))
        (language-Closed c.env.templates
          ⟫ nbsp-Moves
          ⟫ field_name-Closed x.name
          ⟫ nbsp-Moves
          ⟫ type-Closed x.type h
          ⟫ nbsp-Moves
          ⟫ boolean-Moves x.is_mutable
          ⟫ nbsp-Moves
          ⟫ initializer-Closed x.initializer
          ⟫ nbsp-Moves
          ⟫ layout_info-Closed _))

  counted-Closed :
      (has_layout : Bool) (i : ℕ) (xs : List Field)
      → NoBits xs
      → FieldsSupported S c.env.templates xs
      → All (λ p. Closed S (print_field c has_layout p)) (counted has_layout i xs)
  unfolding counted
  counted-Closed has_layout i [] e h = tt
  counted-Closed has_layout i (x ∷ xs) e h =
      (field-Closed has_layout i x e.0 h.0, counted-Closed has_layout _ xs e.1 h.1)

  pub fields-Closed :
      (has_layout : Bool) (xs : List Field)
      → NoBits xs
      → FieldsSupported S c.env.templates xs
      → Closed S (print_fields c has_layout xs)
  unfolding print_fields
  fields-Closed has_layout xs e h =
      list_range-Closed (print_field c has_layout) (counted has_layout 0 xs)
        (counted-Closed has_layout 0 xs e h)

  class_base-Closed :
      (offset : ℕ) (d : Option ℕ) → ClassSupported S d → Closed S (print_class_base c offset d)
  unfolding print_class_base scan
  class_base-Closed offset none h = record { room = 0; at = λ k f l e. stopped h asserts }
  class_base-Closed offset (some d) h =
      with_ctor-Closed "mkBase" (λ n. refl) true
        (v.env.name_closed d ⟫ nbsp-Moves ⟫ layout_info-Closed offset)

  templated_base :
      (b : Bool) (t : Ty) (d : Option ℕ) (offset : ℕ)
      → (b ≡ true → Supported S c.env.templates t)
      → (b ≡ false → ClassSupported S d)
      → Closed S (
          if b
          then with_ctor "mkBase" true
              (do print_type c.env c.info t; nbsp; print_layout_info c.env 0)
          else print_class_base c offset d)
  unfolding scan
  templated_base true t d offset ht hd =
      with_ctor-Closed "mkBase" (λ n. refl) true
        (print_type-Closed S c.env c.info t v.env (ht refl) ⟫ nbsp-Moves ⟫ layout_info-Closed 0)
  templated_base false t d offset ht hd = class_base-Closed offset d (hd refl)

  base_type-Closed :
      (has_layout : Bool) (b : Base) (t : Option Ty)
      → BaseSupported S c.env.templates t b.class
      → Closed S (print_base_type c has_layout b t)
  unfolding print_base_type
  base_type-Closed has_layout b none h = die-Moves h
  base_type-Closed has_layout b (some t) h = templated_base c.env.templates t b.class _ h.0 h.1

  bases-All :
      (has_layout : Bool) (bs : List Base)
      → AllPlain bs
      → BasesSupported S c.env.templates bs
      → All (λ b. Closed S (print_base c has_layout b)) bs
  unfolding print_base
  bases-All has_layout [] e h = tt
  bases-All has_layout (b ∷ bs) e h = (
    without b.is_virtual _ _ e.0 (base_type-Closed has_layout b b.type h.0),
    bases-All has_layout bs e.1 h.1,
  )

  pub bases-Closed :
      (has_layout : Bool) (bs : List Base)
      → AllPlain bs
      → BasesSupported S c.env.templates bs
      → Closed S (print_bases c has_layout bs)
  unfolding print_bases
  bases-Closed has_layout bs e h =
      list_range-Closed (print_base c has_layout) bs (bases-All has_layout bs e h)

  virtual_name : (b : Bool) → IsLevel (codes (if b then "pure_virt" else "impl_virt"))
  unfolding scan
  virtual_name true n = refl
  virtual_name false n = refl

  virtuals-All : (ms : List Method) → All (λ m. Closed S (printed (print_virtual c.env m))) ms
  unfolding print_virtual
  virtuals-All [] = tt
  virtuals-All (m ∷ ms) = (
    if-printed (not m.is_virtual) _ _ silent-Closed (
        answer-Closed true (
          with_ctor-Closed (if m.is_pure then "pure_virt" else "impl_virt") (virtual_name m.is_pure)
            false (v.env.name_closed m.decl))),
    virtuals-All ms,
  )

  pub virtuals-Closed : (ms : List Method) → Closed S (print_virtuals c.env ms)
  unfolding print_virtuals
  virtuals-Closed ms = list_range_filter-Closed (print_virtual c.env) ms (virtuals-All ms)

  overridden-Closed : (m : ℕ) (os : List ℕ) → Closed S (print_overridden c.env m os)
  unfolding print_overridden scan
  overridden-Closed m [] = skip-Moves
  overridden-Closed m (o ∷ os) =
      put-Moves 0 "(" (Brackets-open 0)
      ⟫ up (v.env.name_closed o)
      ⟫ tuple_sep-Moves
      ⟫ up (v.env.name_closed m)
      ⟫ put-Moves 0 ")" (Brackets-close 0)
      ⟫ cons-Moves
      ⟫ overridden-Closed m os

  override_loop-Closed : (ms : List Method) → Closed S (override_loop c.env ms)
  unfolding override_loop
  override_loop-Closed [] = skip-Moves
  override_loop-Closed (m ∷ ms) =
      if-Closed (not m.is_virtual || m.is_pure) skip-Moves (overridden-Closed m.decl m.overridden)
      ⟫ override_loop-Closed ms

  pub overrides-Closed : (ms : List Method) → Closed S (print_overrides c.env ms)
  unfolding print_overrides
  overrides-Closed ms = with_list-Closed (override_loop-Closed ms)

  pub delete_name-Closed : (d : Option ℕ) → Closed S (print_delete_name c.env d)
  unfolding print_delete_name with_some scan
  delete_name-Closed none = none-Moves
  delete_name-Closed (some d) = with_ctor-Closed "Some" (λ n. refl) true (v.env.name_closed d)

  pub layout_type-Closed : (l : Layout) → Closed S (print_layout_type l)
  unfolding print_layout_type scan
  layout_type-Closed pod = text-Moves "POD" (λ n. refl)
  layout_type-Closed standard = text-Moves "Standard" (λ n. refl)
  layout_type-Closed unspecified = text-Moves "Unspecified" (λ n. refl)

  pub size_align-Closed : (r : Record) → Closed S (print_size_align c.env r)
  unfolding print_size_align
  size_align-Closed r =
      put_decimal-Moves c.env _ v.env ⟫ nbsp-Moves ⟫ put_decimal-Moves c.env _ v.env
