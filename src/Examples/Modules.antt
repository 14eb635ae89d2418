-- ===== src/Examples/Modules.antt =====
-- A translation unit with a template, walked with and without templates, and filters combined.
use cpp2v.Common.{
  ℕ, ◌≡◌, ◌≤◌, ◌↔◌, refl, Bool, true, false, List, [], ◌∷◌, All, if◌then◌else◌, ◌==◌, arith,
}
use cpp2v.Formatter.{ok, err, asserted}
use cpp2v.Filter.{
  nothing, declaration, definition, Filter, rank, min, max, default_filter, combine_filter,
}
use cpp2v.Filter.Laws.{combine_filter-max, combine_filter-min}
use cpp2v.OpaqueNames.{pos, OpaqueNames, fresh, find, push_anon, find_anon, pop_anon}
use cpp2v.OpaqueNames.Laws.{find-fresh, find_anon-push_anon, pop_anon-push_anon}
use cpp2v.ModuleBuilder.{
  Decl, node, Decls, no_decls, decl, cxx_record, class_template, namespace, function, var, defines,
  first_declares, State, unset, Config, build_module, visit,
}
use cpp2v.ModuleBuilder.Keeps.{Holds}
use cpp2v.ModuleBuilder.Filtered.{IsFiltered, build_module-IsFiltered}
use cpp2v.ModuleBuilder.Returns.{build_module_returns}
use cpp2v.ModuleBuilder.Templates.{IsMirrored, build_module-IsMirrored}
use cpp2v.ModuleBuilder.Visited.{visit_twice}

abbrev method : Decl
method = node 12 (function true defines false no_decls)

-- `namespace { template<class T> struct S { void f() {} }; extern int v; void g() { static int w; } }`,
-- with one specialization of the template.
abbrev unit : Decls
unit =
    decl
      (node 1 (
        namespace (
          decl
            (node 2 (
              class_template (node 3 (cxx_record false false true defines (decl method no_decls)))
                (decl (node 4 (cxx_record false false false defines no_decls)) no_decls)))
            (decl (node 5 (var false first_declares true)) (
              decl
                (node 6
                  (function false defines true (decl (node 7 (var false defines true)) no_decls)))
                no_decls)))))
      no_decls

abbrev all_kept : Bool → Config
all_kept templates = record { filter = default_filter definition; templates = templates }

-- Only the function is wanted as a definition.
abbrev some_kept : Config
some_kept = record { filter = λ d. if d == 6 then definition else declaration; templates = false }

with_templates :
    build_module (all_kept true) 0 unit
    ≡ ok (record {
      declarations = [];
      definitions = 4 ∷ 5 ∷ 6 ∷ 7 ∷ [];
      template_declarations = [];
      template_definitions = 3 ∷ 12 ∷ 4 ∷ [];
      asserts = [];
      visited = 7 ∷ 6 ∷ 5 ∷ 4 ∷ 12 ∷ 3 ∷ 2 ∷ 1 ∷ [];
      specs = 6 ∷ [];
    })
unfolding build_module default_filter
with_templates = refl

build_module-IsFiltered_example : Holds (IsFiltered some_kept) (build_module some_kept 0 unit)
build_module-IsFiltered_example = build_module-IsFiltered some_kept 0 unit

build_module-IsMirrored_example : Holds IsMirrored (build_module some_kept 0 unit)
build_module-IsMirrored_example = build_module-IsMirrored some_kept 0 unit refl

abbrev before : State
before = record {
  declarations = [];
  definitions = [];
  template_declarations = [];
  template_definitions = [];
  asserts = [];
  visited = [];
  specs = [];
}

abbrev between : State
between = record before { definitions = 12 ∷ []; visited = 12 ∷ [] }

abbrev after : State
after = record before { definitions = 12 ∷ 4 ∷ []; visited = 4 ∷ 12 ∷ [] }

abbrev specialization : Decl
specialization = node 4 (cxx_record false false false defines no_decls)

first_visit : visit (all_kept true) method unset before ≡ ok between
unfolding visit default_filter
first_visit = refl

second_visit : visit (all_kept true) specialization unset between ≡ ok after
unfolding visit default_filter
second_visit = refl

visit_twice_example : visit (all_kept true) method unset after ≡ ok after
visit_twice_example =
    visit_twice (all_kept true) method specialization unset unset unset before between after
      first_visit second_visit

abbrev two_filters : List Filter
two_filters = (λ d. declaration) ∷ default_filter definition ∷ []

combine_filter-max_example :
    (rank (combine_filter nothing max two_filters 3) ≤ rank declaration)
    ↔ All (λ f. rank (f 3) ≤ rank declaration) two_filters
combine_filter-max_example = combine_filter-max two_filters 3 declaration

combine_filter-min_example :
    (rank declaration ≤ rank (combine_filter definition min two_filters 3))
    ↔ All (λ f. rank declaration ≤ rank (f 3)) two_filters
combine_filter-min_example = combine_filter-min two_filters 3 declaration

abbrev names : OpaqueNames
names = record { indexes = 10 ∷ 20 ∷ []; anonymous = 30 ∷ []; index_count = pos 0 }

find-fresh_example :
    (find 25 (fresh 25 names).0 ≡ pos (fresh 25 names).1)
    × ((d r : ℕ) → find d names ≡ pos r → find d (fresh 25 names).0 ≡ pos r)
find-fresh_example = find-fresh 25 names (ground arith, (ground arith, tt))

find_anon-push_anon_example :
    (find_anon 40 (push_anon 40 names).0 ≡ pos (push_anon 40 names).1)
    × ((d r : ℕ) → find_anon d names ≡ pos r → find_anon d (push_anon 40 names).0 ≡ pos r)
find_anon-push_anon_example = find_anon-push_anon 40 names (ground arith, tt)

pop_anon-push_anon_example :
    pop_anon 30 (push_anon 40 names).0 ≡ (if 30 == 40 then ok names else err asserted)
pop_anon-push_anon_example = pop_anon-push_anon 40 30 names

build_module_returns_example : (s : State) × (build_module some_kept 0 unit ≡ ok s)
build_module_returns_example =
    build_module_returns some_kept 0 unit ((tt, (((tt, tt), (tt, tt)), (tt, ((tt, tt), tt)))), tt)
