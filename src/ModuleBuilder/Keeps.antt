-- ===== src/ModuleBuilder/Keeps.antt =====
-- Invariants of the walk in ModuleBuilder.cpp: what every update of the module keeps, the whole walk
-- keeps.
use cpp2v.Common.{ℕ, ◌≡◌, refl, Bool, true, false, ◌&&◌, not, if◌then◌else◌}
use cpp2v.Formatter.{Result, ok, err}
use cpp2v.Filter.{What, nothing, declaration, definition}
use cpp2v.ModuleBuilder.Syntax.{
  Standing, defines, first_declares, redeclares, Decl, node, Decls, no_decls, decl, absent, present,
  Kind, unsupported, ignored, static_assert, translation_unit, typedef_name, type_alias_template,
  tag, cxx_record, class_template, function_template, var_template, deleted_method, function,
  enum_constant, var, namespace, linkage_spec, enum, friend,
}
use cpp2v.ModuleBuilder.Module.{
  Flags, set_template, set_specialization, no_flags, State, Action, bind, ◌>>◌, pass, assert_none,
  contains, add_definition, add_declaration, add_assert, add_specification, mark,
}
use cpp2v.ModuleBuilder.Visit.{
  Config, go_by, go, visit_tag, visit_var, visit_typedef, specify, once, visit_function,
  visit_template, visit, walk, visit_all, visit_lifted, go_all,
}

-- `P` holds of the state that an action returns, if it returns one.
abbrev pub Holds : (State → Type 0) → Result State → Type 0
Holds P (ok s) = P s
Holds P (err e) = Unit

-- `P` is kept by every update that the walk makes under flags that satisfy `F`.
pub record IsKept (c : Config) (F : Flags → Type 0) (P : State → Type 0) : Type 0 where
  pub definition_kept :
      (d : ℕ) (fl : Flags) (s : State)
      → F fl
      → c.filter d ≡ definition
      → P s
      → P (add_definition d fl s)
  pub declaration_kept :
      (d : ℕ) (fl : Flags) (s : State)
      → F fl
      → (c.filter d ≡ nothing → ⊥)
      → P s
      → P (add_declaration d fl s)
  pub assert_kept : (d : ℕ) (s : State) → P s → P (add_assert d s)
  pub specification_kept : (d : ℕ) (s : State) → P s → P (add_specification d s)
  pub mark_kept : (d : ℕ) (s : State) → P s → P (mark d s)
  pub template_flags : (fl : Flags) → c.templates ≡ true → F fl → F (set_template fl)
  pub specialization_flags : (fl : Flags) → F fl → F (set_specialization fl)

-- An action that keeps `P`.
pub record Keeps (P : State → Type 0) (a : Action) : Type 0 where
  pub at : (s : State) → P s → Holds P (a s)

Holds-if :
    (P : State → Type 0) (b : Bool) (x y : Result State)
    → Holds P x
    → Holds P y
    → Holds P (if b then x else y)
Holds-if P true x y hx hy = hx
Holds-if P false x y hx hy = hy

module _ {P : State → Type 0} where
  Holds-bind : (r : Result State) {k : Action} → Holds P r → Keeps P k → Holds P (bind r k)
  Holds-bind (ok s) h k = k.at s h
  Holds-bind (err e) h k = tt

  infixr 5 ◌⟫◌
  ◌⟫◌ : {a b : Action} → Keeps P a → Keeps P b → Keeps P (a >> b)
  ◌⟫◌ {a} {b} ha hb = record { at = λ s h. Holds-bind (a s) (ha.at s h) hb }

  pass-Keeps : Keeps P pass
  unfolding pass
  pass-Keeps = record { at = λ s h. h }

  if-Keeps :
      (b : Bool) {x y : Action}
      → (b ≡ true → Keeps P x)
      → (b ≡ false → Keeps P y)
      → Keeps P (if b then x else y)
  if-Keeps true hx hy = hx refl
  if-Keeps false hx hy = hy refl

  assert_none-Keeps : (fl : Flags) → Keeps P (assert_none fl)
  unfolding assert_none
  assert_none-Keeps fl = record { at = λ s h. Holds-if P (no_flags fl) _ _ h tt }

module _ (c : Config) {F : Flags → Type 0} {P : State → Type 0} (kept : IsKept c F P) where
  go_by-kept :
      (w : What) (d : ℕ) (fl : Flags) (b : Bool) (s : State)
      → F fl
      → c.filter d ≡ w
      → P s
      → P (go_by w d fl b s)
  unfolding go_by
  go_by-kept definition d fl true s f e h = kept.definition_kept d fl s f e h
  go_by-kept definition d fl false s f e h = kept.declaration_kept d fl s f (λ n. cc) h
  go_by-kept declaration d fl b s f e h = kept.declaration_kept d fl s f (λ n. cc) h
  go_by-kept nothing d fl b s f e h = h

  go-Keeps : (d : ℕ) (fl : Flags) (b : Bool) → F fl → Keeps P (go c d fl b)
  unfolding go
  go-Keeps d fl b f = record { at = λ s h. go_by-kept (c.filter d) d fl b s f refl h }

  tag-Keeps : (d : ℕ) (st : Standing) (fl : Flags) → F fl → Keeps P (visit_tag c d st fl)
  unfolding visit_tag
  tag-Keeps d defines fl f = go-Keeps d fl true f
  tag-Keeps d first_declares fl f = go-Keeps d fl false f
  tag-Keeps d redeclares fl f = pass-Keeps

  var-Keeps :
      (d : ℕ) (t : Bool) (st : Standing) (fl : Flags) → F fl → Keeps P (visit_var c d t st fl)
  unfolding visit_var
  var-Keeps d t defines fl f =
      if-Keeps (t && not c.templates) (λ _. pass-Keeps) (λ _. go-Keeps d fl true f)
  var-Keeps d t first_declares fl f =
      if-Keeps (t && not c.templates) (λ _. pass-Keeps) (λ _. go-Keeps d fl true f)
  var-Keeps d t redeclares fl f =
      if-Keeps (t && not c.templates) (λ _. pass-Keeps) (λ _. pass-Keeps)

  typedef-Keeps : (d : ℕ) (n k : Bool) (fl : Flags) → F fl → Keeps P (visit_typedef c d n k fl)
  unfolding visit_typedef
  typedef-Keeps d n k fl f =
      if-Keeps n (λ _. pass-Keeps)
        (λ _. if-Keeps (not k) (λ _. pass-Keeps) (λ _. go-Keeps d fl true f))

  specify-Keeps : (d : ℕ) (b : Bool) → Keeps P (specify d b)
  unfolding specify
  specify-Keeps d true = record { at = kept.specification_kept d }
  specify-Keeps d false = record { at = λ s h. h }

  once-Keeps : (d : ℕ) {a : Action} → Keeps P a → Keeps P (once d a)
  unfolding once
  once-Keeps d {a} ha = record {
    at = λ s h. Holds-if P (contains d s.visited) _ _ h (ha.at (mark d s) (kept.mark_kept d s h));
  }

  function-Keeps :
      (d : ℕ) (dep : Bool) (st : Standing) (hc : Bool) (fl : Flags) {lifted : Action}
      → F fl
      → Keeps P lifted
      → Keeps P (visit_function c d dep st hc fl lifted)
  unfolding visit_function
  function-Keeps d dep defines hc fl f hl =
      if-Keeps (dep && not c.templates) (λ _. pass-Keeps)
        (λ _. specify-Keeps d hc ⟫ go-Keeps d fl true f ⟫ if-Keeps _ (λ _. hl) (λ _. pass-Keeps))
  function-Keeps d dep first_declares hc fl f hl =
      if-Keeps (dep && not c.templates) (λ _. pass-Keeps) (λ _. go-Keeps d fl false f)
  function-Keeps d dep redeclares hc fl f hl =
      if-Keeps (dep && not c.templates) (λ _. pass-Keeps) (λ _. pass-Keeps)

  template-Keeps :
      {t ds : Action}
      → (c.templates ≡ true → Keeps P t)
      → Keeps P ds
      → Keeps P (visit_template c t ds)
  unfolding visit_template
  template-Keeps ht hds = if-Keeps c.templates ht (λ _. pass-Keeps) ⟫ hds

mutual
  unfolding visit

  pub visit-Keeps :
      (c : Config) {F : Flags → Type 0} {P : State → Type 0} (kept : IsKept c F P) (d : Decl)
      (fl : Flags)
      → F fl
      → Keeps P (visit c d fl)
  visit-Keeps c kept (node d k) fl f = once-Keeps c kept d (walk-Keeps c kept d k fl f)

  pub walk-Keeps :
      (c : Config) {F : Flags → Type 0} {P : State → Type 0} (kept : IsKept c F P) (d : ℕ)
      (k : Kind) (fl : Flags)
      → F fl
      → Keeps P (walk c d k fl)
  walk-Keeps c kept d unsupported fl f = pass-Keeps
  walk-Keeps c kept d ignored fl f = pass-Keeps
  walk-Keeps c kept d static_assert fl f = record { at = kept.assert_kept d }
  walk-Keeps c kept d (translation_unit ds) fl f = assert_none-Keeps fl ⟫ all-Keeps c kept ds fl f
  walk-Keeps c kept d (typedef_name n k) fl f = typedef-Keeps c kept d n k fl f
  walk-Keeps c kept d (type_alias_template t) fl f =
      if-Keeps c.templates
        (λ e. visit-Keeps c kept t (set_template fl) (kept.template_flags fl e f)) (λ _. pass-Keeps)
  walk-Keeps c kept d (tag st) fl f = tag-Keeps c kept d st fl f
  walk-Keeps c kept d (cxx_record i l dep st ds) fl f =
      if-Keeps (i && not l) (λ _. pass-Keeps)
        (λ _.
          if-Keeps _ (λ _. tag-Keeps c kept d st fl f ⟫ all-Keeps c kept ds fl f) (λ _. pass-Keeps))
  walk-Keeps c kept d (class_template t ds) fl f =
      template-Keeps c kept
        (λ e. visit-Keeps c kept t (set_template fl) (kept.template_flags fl e f))
        (all-Keeps c kept ds (set_specialization fl) (kept.specialization_flags fl f))
  walk-Keeps c kept d (function_template t ds) fl f =
      template-Keeps c kept
        (λ e. visit-Keeps c kept t (set_template fl) (kept.template_flags fl e f))
        (all-Keeps c kept ds (set_specialization fl) (kept.specialization_flags fl f))
  walk-Keeps c kept d (var_template t ds) fl f =
      template-Keeps c kept
        (λ e. visit-Keeps c kept t (set_template fl) (kept.template_flags fl e f))
        (all-Keeps c kept ds (set_specialization fl) (kept.specialization_flags fl f))
  walk-Keeps c kept d deleted_method fl f = pass-Keeps
  walk-Keeps c kept d (function dep st hc ds) fl f =
      function-Keeps c kept d dep st hc fl f (lifted-Keeps c kept ds fl f)
  walk-Keeps c kept d enum_constant fl f = go-Keeps c kept d fl true f
  walk-Keeps c kept d (var t st l) fl f = var-Keeps c kept d t st fl f
  walk-Keeps c kept d (namespace ds) fl f = assert_none-Keeps fl ⟫ all-Keeps c kept ds fl f
  walk-Keeps c kept d (linkage_spec ds) fl f = assert_none-Keeps fl ⟫ all-Keeps c kept ds fl f
  walk-Keeps c kept d (enum k ds) fl f =
      if-Keeps (not k) (λ _. pass-Keeps)
        (λ _. go-Keeps c kept d fl true f ⟫ go_all-Keeps c kept ds fl f)
  walk-Keeps c kept d (friend absent) fl f = pass-Keeps
  walk-Keeps c kept d (friend (present t)) fl f = visit-Keeps c kept t fl f

  all-Keeps :
      (c : Config) {F : Flags → Type 0} {P : State → Type 0} (kept : IsKept c F P) (ds : Decls)
      (fl : Flags)
      → F fl
      → Keeps P (visit_all c ds fl)
  all-Keeps c kept no_decls fl f = pass-Keeps
  all-Keeps c kept (decl t ds) fl f = visit-Keeps c kept t fl f ⟫ all-Keeps c kept ds fl f

  lifted-Keeps :
      (c : Config) {F : Flags → Type 0} {P : State → Type 0} (kept : IsKept c F P) (ds : Decls)
      (fl : Flags)
      → F fl
      → Keeps P (visit_lifted c ds fl)
  lifted-Keeps c kept no_decls fl f = pass-Keeps
  lifted-Keeps c kept (decl (node d (var t st l)) ds) fl f =
      if-Keeps l (λ _. once-Keeps c kept d (var-Keeps c kept d t st fl f)) (λ _. pass-Keeps)
      ⟫ lifted-Keeps c kept ds fl f
  lifted-Keeps c kept (decl (node d k) ds) fl f =
      once-Keeps c kept d (walk-Keeps c kept d k fl f) ⟫ lifted-Keeps c kept ds fl f

  go_all-Keeps :
      (c : Config) {F : Flags → Type 0} {P : State → Type 0} (kept : IsKept c F P) (ds : Decls)
      (fl : Flags)
      → F fl
      → Keeps P (go_all c ds fl)
  go_all-Keeps c kept no_decls fl f = pass-Keeps
  go_all-Keeps c kept (decl (node d k) ds) fl f =
      go-Keeps c kept d fl true f ⟫ go_all-Keeps c kept ds fl f
