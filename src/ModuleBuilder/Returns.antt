-- ===== src/ModuleBuilder/Returns.antt =====
-- The walk in ModuleBuilder.cpp returns: its assertions on the flags hold where namespaces stand outside
-- of templates.
use cpp2v.Common.{ℕ, ◌≡◌, refl, Bool, true, false, ◌&&◌, not, if◌then◌else◌}
use cpp2v.Formatter.{Result, ok, err}
use cpp2v.ModuleBuilder.Syntax.{
  Standing, defines, first_declares, redeclares, Decl, node, Decls, no_decls, decl, absent, present,
  Kind, unsupported, ignored, static_assert, translation_unit, typedef_name, type_alias_template,
  tag, cxx_record, class_template, function_template, var_template, deleted_method, function,
  enum_constant, var, namespace, linkage_spec, enum, friend,
}
use cpp2v.ModuleBuilder.Module.{
  Flags, set_template, set_specialization, no_flags, State, Action, bind, ◌>>◌, pass, assert_none,
  contains, unset, start, mark,
}
use cpp2v.ModuleBuilder.Visit.{
  Config, go, visit_tag, visit_var, visit_typedef, specify, once, visit_function, visit_template,
  visit, walk, visit_all, visit_lifted, go_all, build_module,
}

abbrev pub Outside : Bool → Type 0
Outside true = ⊥
Outside false = Unit

-- No translation unit, namespace or linkage specification stands in a template or a specialization;
-- `inside` says whether the place itself is in one.
abbrev mutual
  pub Placed : Bool → Decl → Type 0
  Placed inside (node d k) = KindPlaced inside k

  pub KindPlaced : Bool → Kind → Type 0
  KindPlaced inside (translation_unit ds) = Outside inside × AllPlaced inside ds
  KindPlaced inside (namespace ds) = Outside inside × AllPlaced inside ds
  KindPlaced inside (linkage_spec ds) = Outside inside × AllPlaced inside ds
  KindPlaced inside (type_alias_template t) = Placed true t
  KindPlaced inside (cxx_record i l dep st ds) = AllPlaced inside ds
  KindPlaced inside (class_template t ds) = Placed true t × AllPlaced true ds
  KindPlaced inside (function_template t ds) = Placed true t × AllPlaced true ds
  KindPlaced inside (var_template t ds) = Placed true t × AllPlaced true ds
  KindPlaced inside (function dep st hc ds) = AllPlaced inside ds
  KindPlaced inside (friend (present t)) = Placed inside t
  KindPlaced inside _ = Unit

  pub AllPlaced : Bool → Decls → Type 0
  AllPlaced inside no_decls = Unit
  AllPlaced inside (decl t ds) = Placed inside t × AllPlaced inside ds

-- The flags outside of templates and specializations are not set.
abbrev FlagsAt : Bool → Flags → Type 0
FlagsAt true fl = Unit
FlagsAt false fl = no_flags fl ≡ true

record Returns (a : Action) : Type 0 where
  pub at : (s : State) → (s' : State) × (a s ≡ ok s')

bind-ok :
    (r : Result State) {k : Action}
    → (s : State) × (r ≡ ok s)
    → Returns k
    → (s' : State) × (bind r k ≡ ok s')
bind-ok (ok s) h k = k.at s
bind-ok (err e) h k = cc

infixr 5 ◌⟫◌
◌⟫◌ : {a b : Action} → Returns a → Returns b → Returns (a >> b)
◌⟫◌ {a} {b} ha hb = record { at = λ s. bind-ok (a s) (ha.at s) hb }

pass-Returns : Returns pass
unfolding pass
pass-Returns = record { at = λ s. (s, refl) }

if-Returns : (b : Bool) {x y : Action} → Returns x → Returns y → Returns (if b then x else y)
if-Returns true hx hy = hx
if-Returns false hx hy = hy

assert_none-Returns :
    (inside : Bool) (fl : Flags) → FlagsAt inside fl → Outside inside → Returns (assert_none fl)
unfolding assert_none
assert_none-Returns true fl f o = elim o [ ]
assert_none-Returns false fl f o = record { at = λ s. (s, rw f refl) }

go-Returns : (c : Config) (d : ℕ) (fl : Flags) (b : Bool) → Returns (go c d fl b)
unfolding go
go-Returns c d fl b = record { at = λ s. (_, refl) }

tag-Returns : (c : Config) (d : ℕ) (st : Standing) (fl : Flags) → Returns (visit_tag c d st fl)
unfolding visit_tag
tag-Returns c d defines fl = go-Returns c d fl true
tag-Returns c d first_declares fl = go-Returns c d fl false
tag-Returns c d redeclares fl = pass-Returns

var-Returns :
    (c : Config) (d : ℕ) (t : Bool) (st : Standing) (fl : Flags) → Returns (visit_var c d t st fl)
unfolding visit_var
var-Returns c d t defines fl =
    if-Returns (t && not c.templates) pass-Returns (go-Returns c d fl true)
var-Returns c d t first_declares fl =
    if-Returns (t && not c.templates) pass-Returns (go-Returns c d fl true)
var-Returns c d t redeclares fl = if-Returns (t && not c.templates) pass-Returns pass-Returns

typedef-Returns :
    (c : Config) (d : ℕ) (n k : Bool) (fl : Flags) → Returns (visit_typedef c d n k fl)
unfolding visit_typedef
typedef-Returns c d n k fl =
    if-Returns n pass-Returns (if-Returns (not k) pass-Returns (go-Returns c d fl true))

specify-Returns : (d : ℕ) (b : Bool) → Returns (specify d b)
unfolding specify
specify-Returns d b = record { at = λ s. (_, refl) }

if-ok :
    (b : Bool) (x y : Result State)
    → (s : State) × (x ≡ ok s)
    → (s : State) × (y ≡ ok s)
    → (s : State) × ((if b then x else y) ≡ ok s)
if-ok true x y hx hy = hx
if-ok false x y hx hy = hy

once-Returns : (d : ℕ) {a : Action} → Returns a → Returns (once d a)
unfolding once
once-Returns d ha = record {
  at = λ s. if-ok (contains d s.visited) _ _ (s, refl) (ha.at (mark d s));
}

function-Returns :
    (c : Config) (d : ℕ) (dep : Bool) (st : Standing) (hc : Bool) (fl : Flags) {lifted : Action}
    → Returns lifted
    → Returns (visit_function c d dep st hc fl lifted)
unfolding visit_function
function-Returns c d dep defines hc fl hl =
    if-Returns (dep && not c.templates) pass-Returns
      (specify-Returns d hc ⟫ go-Returns c d fl true ⟫ if-Returns _ hl pass-Returns)
function-Returns c d dep first_declares hc fl hl =
    if-Returns (dep && not c.templates) pass-Returns (go-Returns c d fl false)
function-Returns c d dep redeclares hc fl hl =
    if-Returns (dep && not c.templates) pass-Returns pass-Returns

template-Returns :
    (c : Config) {t ds : Action} → Returns t → Returns ds → Returns (visit_template c t ds)
unfolding visit_template
template-Returns c ht hds = if-Returns c.templates ht pass-Returns ⟫ hds

mutual
  unfolding visit

  visit-Returns :
      (c : Config) (b : Bool) (d : Decl) (fl : Flags)
      → FlagsAt b fl
      → Placed b d
      → Returns (visit c d fl)
  visit-Returns c b (node d k) fl f h = once-Returns d (walk-Returns c b d k fl f h)

  walk-Returns :
      (c : Config) (b : Bool) (d : ℕ) (k : Kind) (fl : Flags)
      → FlagsAt b fl
      → KindPlaced b k
      → Returns (walk c d k fl)
  walk-Returns c b d unsupported fl f h = pass-Returns
  walk-Returns c b d ignored fl f h = pass-Returns
  walk-Returns c b d static_assert fl f h = record { at = λ s. (_, refl) }
  walk-Returns c b d (translation_unit ds) fl f h =
      assert_none-Returns b fl f h.0 ⟫ all-Returns c b ds fl f h.1
  walk-Returns c b d (typedef_name n k) fl f h = typedef-Returns c d n k fl
  walk-Returns c b d (type_alias_template t) fl f h =
      if-Returns c.templates (visit-Returns c true t (set_template fl) tt h) pass-Returns
  walk-Returns c b d (tag st) fl f h = tag-Returns c d st fl
  walk-Returns c b d (cxx_record i l dep st ds) fl f h =
      if-Returns (i && not l) pass-Returns
        (if-Returns _ (tag-Returns c d st fl ⟫ all-Returns c b ds fl f h) pass-Returns)
  walk-Returns c b d (class_template t ds) fl f h =
      template-Returns c (visit-Returns c true t (set_template fl) tt h.0)
        (all-Returns c true ds (set_specialization fl) tt h.1)
  walk-Returns c b d (function_template t ds) fl f h =
      template-Returns c (visit-Returns c true t (set_template fl) tt h.0)
        (all-Returns c true ds (set_specialization fl) tt h.1)
  walk-Returns c b d (var_template t ds) fl f h =
      template-Returns c (visit-Returns c true t (set_template fl) tt h.0)
        (all-Returns c true ds (set_specialization fl) tt h.1)
  walk-Returns c b d deleted_method fl f h = pass-Returns
  walk-Returns c b d (function dep st hc ds) fl f h =
      function-Returns c d dep st hc fl (lifted-Returns c b ds fl f h)
  walk-Returns c b d enum_constant fl f h = go-Returns c d fl true
  walk-Returns c b d (var t st l) fl f h = var-Returns c d t st fl
  walk-Returns c b d (namespace ds) fl f h =
      assert_none-Returns b fl f h.0 ⟫ all-Returns c b ds fl f h.1
  walk-Returns c b d (linkage_spec ds) fl f h =
      assert_none-Returns b fl f h.0 ⟫ all-Returns c b ds fl f h.1
  walk-Returns c b d (enum k ds) fl f h =
      if-Returns (not k) pass-Returns (go-Returns c d fl true ⟫ go_all-Returns c ds fl)
  walk-Returns c b d (friend absent) fl f h = pass-Returns
  walk-Returns c b d (friend (present t)) fl f h = visit-Returns c b t fl f h

  all-Returns :
      (c : Config) (b : Bool) (ds : Decls) (fl : Flags)
      → FlagsAt b fl
      → AllPlaced b ds
      → Returns (visit_all c ds fl)
  all-Returns c b no_decls fl f h = pass-Returns
  all-Returns c b (decl t ds) fl f h = visit-Returns c b t fl f h.0 ⟫ all-Returns c b ds fl f h.1

  lifted-Returns :
      (c : Config) (b : Bool) (ds : Decls) (fl : Flags)
      → FlagsAt b fl
      → AllPlaced b ds
      → Returns (visit_lifted c ds fl)
  lifted-Returns c b no_decls fl f h = pass-Returns
  lifted-Returns c b (decl (node d (var t st l)) ds) fl f h =
      if-Returns l (once-Returns d (var-Returns c d t st fl)) pass-Returns
      ⟫ lifted-Returns c b ds fl f h.1
  lifted-Returns c b (decl (node d k) ds) fl f h =
      once-Returns d (walk-Returns c b d k fl f h.0) ⟫ lifted-Returns c b ds fl f h.1

  go_all-Returns : (c : Config) (ds : Decls) (fl : Flags) → Returns (go_all c ds fl)
  go_all-Returns c no_decls fl = pass-Returns
  go_all-Returns c (decl (node d k) ds) fl = go-Returns c d fl true ⟫ go_all-Returns c ds fl

-- The walk of a translation unit returns a module if no namespace or linkage specification in it stands
-- in a template or a specialization: the assertions on the flags then hold.
pub build_module_returns :
    (c : Config) (d : ℕ) (ds : Decls)
    → AllPlaced false ds
    → (s : State) × (build_module c d ds ≡ ok s)
unfolding build_module no_flags
build_module_returns c d ds h =
    (walk-Returns c false d (translation_unit ds) unset refl (tt, h)).at start
