-- ===== src/ModuleBuilder/Filtered.antt =====
-- What a module keeps is what its filter lets through (ModuleBuilder.cpp).
use cpp2v.Common.{ℕ, ◌≡◌, Bool, true, false, List, [], ◌∷◌, ◌++◌, All}
use cpp2v.Filter.{nothing, definition}
use cpp2v.ModuleBuilder.Syntax.{Decls, translation_unit}
use cpp2v.ModuleBuilder.Module.{
  Flags, State, start, add_decl, add_definition, add_declaration, add_assert, add_specification,
  mark, unset,
}
use cpp2v.ModuleBuilder.Visit.{Config, build_module}
use cpp2v.ModuleBuilder.Keeps.{Holds, IsKept, walk-Keeps}

-- Every definition that was kept passed the filter as one, and no declaration was to be left out.
pub record IsFiltered (c : Config) (s : State) : Type 0 where
  pub definitions_pass : All (λ d. c.filter d ≡ definition) s.definitions
  pub template_definitions_pass : All (λ d. c.filter d ≡ definition) s.template_definitions
  pub declarations_pass : All (λ d. c.filter d ≡ nothing → ⊥) s.declarations
  pub template_declarations_pass : All (λ d. c.filter d ≡ nothing → ⊥) s.template_declarations

module _ (Q : ℕ → Type 0) where
  All-snoc : (ds : List ℕ) {d : ℕ} → All Q ds → Q d → All Q (ds ++ d ∷ [])
  All-snoc [] h p = (p, tt)
  All-snoc (x ∷ ds) h p = (h.0, All-snoc ds h.1 p)

  -- `add_decl` adds nothing but the declaration to either list.
  add_decl-All :
      (ds ts : List ℕ) (d : ℕ) (t p : Bool)
      → All Q ds
      → All Q ts
      → Q d
      → let fl : Flags = record { in_template = t; in_specialization = p } in
        All Q (add_decl ds ts d fl).0 × All Q (add_decl ds ts d fl).1
  unfolding add_decl
  add_decl-All ds ts d true p hd ht q = (hd, All-snoc ts ht q)
  add_decl-All ds ts d false true hd ht q = (All-snoc ds hd q, All-snoc ts ht q)
  add_decl-All ds ts d false false hd ht q = (All-snoc ds hd q, ht)

IsFiltered-IsKept : (c : Config) → IsKept c (λ _. Unit {0}) (IsFiltered c)
unfolding add_definition add_declaration add_assert add_specification mark
IsFiltered-IsKept c = record {
  definition_kept = λ d fl s _ e h.
      let added =
        add_decl-All (λ x. c.filter x ≡ definition) s.definitions s.template_definitions d
          fl.in_template fl.in_specialization h.definitions_pass h.template_definitions_pass e in
      record {
        definitions_pass = added.0;
        template_definitions_pass = added.1;
        declarations_pass = h.declarations_pass;
        template_declarations_pass = h.template_declarations_pass;
      };
  declaration_kept = λ d fl s _ e h.
      let added =
        add_decl-All (λ x. c.filter x ≡ nothing → ⊥) s.declarations s.template_declarations d
          fl.in_template fl.in_specialization h.declarations_pass h.template_declarations_pass e in
      record {
        definitions_pass = h.definitions_pass;
        template_definitions_pass = h.template_definitions_pass;
        declarations_pass = added.0;
        template_declarations_pass = added.1;
      };
  assert_kept = λ d s h. record {
    definitions_pass = h.definitions_pass;
    template_definitions_pass = h.template_definitions_pass;
    declarations_pass = h.declarations_pass;
    template_declarations_pass = h.template_declarations_pass;
  };
  specification_kept = λ d s h. record {
    definitions_pass = h.definitions_pass;
    template_definitions_pass = h.template_definitions_pass;
    declarations_pass = h.declarations_pass;
    template_declarations_pass = h.template_declarations_pass;
  };
  mark_kept = λ d s h. record {
    definitions_pass = h.definitions_pass;
    template_definitions_pass = h.template_definitions_pass;
    declarations_pass = h.declarations_pass;
    template_declarations_pass = h.template_declarations_pass;
  };
  template_flags = λ fl e f. tt;
  specialization_flags = λ fl f. tt;
}

-- If the walk returns, every definition in the module, of a template or not, is one that the filter wants as
-- a definition, and no declaration is one that the filter leaves out.
pub build_module-IsFiltered :
    (c : Config) (d : ℕ) (ds : Decls) → Holds (IsFiltered c) (build_module c d ds)
unfolding build_module
build_module-IsFiltered c d ds =
    (walk-Keeps c (IsFiltered-IsKept c) d (translation_unit ds) unset tt).at start started
  where
    started : IsFiltered c start
    started = record {
      definitions_pass = tt;
      template_definitions_pass = tt;
      declarations_pass = tt;
      template_declarations_pass = tt;
    }
