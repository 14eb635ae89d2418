-- ===== src/ModuleBuilder/Templates.antt =====
-- What becomes of the lists for templates when templates are not kept (ModuleBuilder.cpp).
use cpp2v.Common.{
  ℕ, ◌≡◌, refl, sym, ◌∙◌, Bool, true, false, List, [], ◌∷◌, ◌++◌, All, ==_refl, if◌then◌else◌,
  arith,
}
use cpp2v.ModuleBuilder.Syntax.{Decls, translation_unit}
use cpp2v.ModuleBuilder.Module.{
  Flags, State, start, contains, add_decl, add_definition, add_declaration, add_assert,
  add_specification, mark, unset, set_template, set_specialization,
}
use cpp2v.ModuleBuilder.Visit.{Config, build_module}
use cpp2v.ModuleBuilder.Keeps.{Holds, IsKept, walk-Keeps}

-- Every entry of the lists for templates stands in the other lists too.
pub record IsMirrored (s : State) : Type 0 where
  pub definitions_in : All (λ d. contains d s.definitions ≡ true) s.template_definitions
  pub declarations_in : All (λ d. contains d s.declarations ≡ true) s.template_declarations

contains-append : (x : ℕ) (ds es : List ℕ) → contains x ds ≡ true → contains x (ds ++ es) ≡ true
unfolding contains
contains-append x [] es h = cc
contains-append x (d ∷ ds) es h = ground (arith, contains-append x ds es)

contains-snoc : (x : ℕ) (ds : List ℕ) → contains x (ds ++ x ∷ []) ≡ true
unfolding contains
contains-snoc x [] = ground (arith, ==_refl x)
contains-snoc x (d ∷ ds) = ground (arith, contains-snoc x ds)

All-more :
    (ts ds : List ℕ) (d : ℕ)
    → All (λ x. contains x ds ≡ true) ts
    → All (λ x. contains x (ds ++ d ∷ []) ≡ true) ts
All-more [] ds d h = tt
All-more (t ∷ ts) ds d h = (contains-append t ds (d ∷ []) h.0, All-more ts ds d h.1)

All-both :
    (ts ds : List ℕ) (d : ℕ)
    → All (λ x. contains x ds ≡ true) ts
    → All (λ x. contains x (ds ++ d ∷ []) ≡ true) (ts ++ d ∷ [])
All-both [] ds d h = (contains-snoc d ds, tt)
All-both (t ∷ ts) ds d h = (contains-append t ds (d ∷ []) h.0, All-both ts ds d h.1)

add_decl-mirrored :
    (ds ts : List ℕ) (d : ℕ) (fl : Flags)
    → fl.in_template ≡ false
    → All (λ x. contains x ds ≡ true) ts
    → All (λ x. contains x (add_decl ds ts d fl).0 ≡ true) (add_decl ds ts d fl).1
unfolding add_decl
add_decl-mirrored ds ts d fl e h = rw e (by_specialization fl.in_specialization)
  where
    by_specialization :
        (b : Bool)
        → let r : List ℕ × List ℕ =
            if b then (ds ++ d ∷ [], ts ++ d ∷ []) else (ds ++ d ∷ [], ts) in
          All (λ x. contains x r.0 ≡ true) r.1
    by_specialization true = All-both ts ds d h
    by_specialization false = All-more ts ds d h

IsMirrored-IsKept :
    (c : Config) → c.templates ≡ false → IsKept c (λ fl. fl.in_template ≡ false) IsMirrored
unfolding add_definition add_declaration add_assert add_specification mark set_template
    set_specialization
IsMirrored-IsKept c off = record {
  definition_kept = λ d fl s f e h. record {
    definitions_in = add_decl-mirrored s.definitions s.template_definitions d fl f h.definitions_in;
    declarations_in = h.declarations_in;
  };
  declaration_kept = λ d fl s f e h. record {
    definitions_in = h.definitions_in;
    declarations_in =
        add_decl-mirrored s.declarations s.template_declarations d fl f h.declarations_in;
  };
  assert_kept =
      λ d s h. record { definitions_in = h.definitions_in; declarations_in = h.declarations_in };
  specification_kept =
      λ d s h. record { definitions_in = h.definitions_in; declarations_in = h.declarations_in };
  mark_kept =
      λ d s h. record { definitions_in = h.definitions_in; declarations_in = h.declarations_in };
  template_flags = λ fl on f. sym on ∙ off;
  specialization_flags = λ fl f. f;
}

-- When templates are not kept and the walk returns, every definition that is listed for a template is among
-- the plain definitions as well, and every declaration so listed among the plain declarations.
pub build_module-IsMirrored :
    (c : Config) (d : ℕ) (ds : Decls) → c.templates ≡ false → Holds IsMirrored (build_module c d ds)
unfolding build_module
build_module-IsMirrored c d ds off =
    (walk-Keeps c (IsMirrored-IsKept c off) d (translation_unit ds) unset refl).at start started
  where
    started : IsMirrored start
    started = record { definitions_in = tt; declarations_in = tt }
