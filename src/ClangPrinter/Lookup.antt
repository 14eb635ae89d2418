-- ===== src/ClangPrinter/Lookup.antt =====
-- Both kinds of template parameters are found alike (ClangPrinter.cpp).
use cpp2v.Common.{
  ℕ, ◌≡◌, ◌∙◌, refl, sym, ap, false, List, [], ◌∷◌, map, none, ◌==◌, All, Bool-cases, inl, inr,
}
use cpp2v.ClangPrinter.Params.{
  TemplateParam, type_param, value_param, other_param, find_type, find_value,
}

-- A value parameter as a type parameter, and no type parameters.
abbrev as_type : TemplateParam → TemplateParam
as_type (value_param d i name) = type_param d i name
as_type _ = other_param

-- Value parameters have this depth.
abbrev HasDepth : ℕ → TemplateParam → Type 0
HasDepth d (value_param depth i name) = depth ≡ d
HasDepth d _ = Unit

other_depth :
    (depth index d : ℕ) (ps : List TemplateParam)
    → (d == depth) ≡ false
    → All (HasDepth d) ps
    → find_type depth index (map as_type ps) ≡ none
unfolding find_type
other_depth depth index d [] n h = refl
other_depth depth index d (type_param e i name ∷ ps) n h = other_depth depth index d ps n h.1
other_depth depth index d (other_param ∷ ps) n h = other_depth depth index d ps n h.1
other_depth depth index d (value_param e i name ∷ ps) n h =
    rw (ap (λ k. k == depth) h.0 ∙ n) (other_depth depth index d ps n h.1)

-- The value parameters of a template are looked up as its type parameters are, if they are all of one depth:
-- that the one loop ends at a parameter of another depth, and the other passes it over, makes no difference.
pub find_value-find_type :
    (depth index d : ℕ) (ps : List TemplateParam)
    → All (HasDepth d) ps
    → find_value depth index ps ≡ find_type depth index (map as_type ps)
unfolding find_value find_type
find_value-find_type depth index d [] h = refl
find_value-find_type depth index d (type_param e i name ∷ ps) h =
    find_value-find_type depth index d ps h.1
find_value-find_type depth index d (other_param ∷ ps) h = find_value-find_type depth index d ps h.1
find_value-find_type depth index d (value_param e i name ∷ ps) h = elim (Bool-cases (e == depth)) [
  | inl t ↦ rw (t, find_value-find_type depth index d ps h.1) refl
  | inr t ↦ rw t (sym (other_depth depth index d ps (ap (λ k. k == depth) (sym h.0) ∙ t) h.1))
]
