-- ===== src/ModuleBuilder/Visit.antt =====
-- The visitor `BuildModule` of ModuleBuilder.cpp.
use cpp2v.Common.{ℕ, Bool, true, false, ◌&&◌, ◌||◌, not, if◌then◌else◌, leb}
use cpp2v.Formatter.{Result, ok}
use cpp2v.Filter.{What, nothing, declaration, definition, Filter, rank}
use cpp2v.ModuleBuilder.Syntax.{
  Standing, defines, first_declares, redeclares, Decl, node, Decls, no_decls, decl, absent, present,
  Kind, unsupported, ignored, static_assert, translation_unit, typedef_name, type_alias_template,
  tag, cxx_record, class_template, function_template, var_template, deleted_method, function,
  enum_constant, var, namespace, linkage_spec, enum, friend,
}
use cpp2v.ModuleBuilder.Module.{
  Flags, set_template, set_specialization, State, Action, ◌>>◌, pass, assert_none, contains,
  add_definition, add_declaration, add_assert, add_specification, mark, start, unset,
}

-- The filter, and whether templates are kept.
pub record Config : Type 0 where
  pub filter : Filter
  pub templates : Bool

-- The entry that `go` adds for a filter's answer.
unfoldable pub go_by : What → ℕ → Flags → Bool → State → State
unfolding add_definition add_declaration
go_by definition d flags true s = add_definition d flags s
go_by definition d flags false s = add_declaration d flags s
go_by declaration d flags is_definition s = add_declaration d flags s
go_by nothing d flags is_definition s = s

-- The answer of `go`.
unfoldable pub went : What → Bool → What
went definition true = definition
went definition false = declaration
went declaration is_definition = declaration
went nothing is_definition = nothing

unfoldable pub go : Config → ℕ → Flags → Bool → Action
unfolding go_by
go c d flags is_definition s = ok (go_by (c.filter d) d flags is_definition s)

-- `VisitTagDecl`
unfoldable pub visit_tag : Config → ℕ → Standing → Flags → Action
unfolding go pass
visit_tag c d defines flags = go c d flags true
visit_tag c d first_declares flags = go c d flags false
visit_tag c d redeclares flags = pass

-- `VisitVarDecl`
unfoldable pub visit_var : Config → ℕ → Bool → Standing → Flags → Action
unfolding go pass
visit_var c d templated standing flags =
    if templated && not c.templates then pass else declared standing
  where
    declared : Standing → Action
    declared defines = go c d flags true
    declared first_declares = go c d flags true
    declared redeclares = pass

unfoldable pub visit_typedef : Config → ℕ → Bool → Bool → Flags → Action
unfolding go pass
visit_typedef c d names_anon canonical flags =
    if names_anon then pass else if not canonical then pass else go c d flags true

-- `specs_.add_specification`, if a comment stands before the definition.
unfoldable pub specify : ℕ → Bool → Action
unfolding add_specification
specify d has_comment s = ok (if has_comment then add_specification d s else s)

-- The guard of `Visit(d, flags)`: a declaration is walked once.
unfoldable pub once : ℕ → Action → Action
unfolding contains mark
once d walk s = if contains d s.visited then ok s else walk (mark d s)

-- `VisitFunctionDecl`, where `lifted` walks the declarations of the body.
unfoldable pub visit_function : Config → ℕ → Bool → Standing → Bool → Flags → Action → Action
unfolding go pass specify went
visit_function c d dependent standing has_comment flags lifted =
    if dependent && not c.templates then pass else declared standing
  where
    declared : Standing → Action
    declared defines = do
      specify d has_comment
      go c d flags true
      (if leb (rank definition) (rank (went (c.filter d) true)) then lifted else pass)
    declared first_declares = go c d flags false
    declared redeclares = pass

-- The walk of the template itself, if templates are kept, and then that of its specializations.
unfoldable pub visit_template : Config → Action → Action → Action
unfolding pass
visit_template c pattern_walk specializations =
    (if c.templates then pattern_walk else pass) >> specializations

unfoldable mutual
  unfolding once go pass visit_tag visit_var visit_typedef visit_function visit_template assert_none
      set_template set_specialization add_assert

  pub visit : Config → Decl → Flags → Action
  visit c (node d k) flags = once d (walk c d k flags)

  pub walk : Config → ℕ → Kind → Flags → Action
  walk c d unsupported flags = pass
  walk c d ignored flags = pass
  walk c d static_assert flags = λ s. ok (add_assert d s)
  walk c d (translation_unit ds) flags = do assert_none flags; visit_all c ds flags
  walk c d (typedef_name names_anon canonical) flags = visit_typedef c d names_anon canonical flags
  walk c d (type_alias_template t) flags =
      let inner = visit c t (set_template flags) in if c.templates then inner else pass
  walk c d (tag standing) flags = visit_tag c d standing flags
  walk c d (cxx_record implicit lambda dependent standing ds) flags =
      let members = visit_all c ds flags in
      if implicit && not lambda
      then pass
      else if not dependent || c.templates
      then visit_tag c d standing flags >> members
      else pass
  walk c d (class_template t ds) flags =
      visit_template c (visit c t (set_template flags)) (visit_all c ds (set_specialization flags))
  walk c d (function_template t ds) flags =
      visit_template c (visit c t (set_template flags)) (visit_all c ds (set_specialization flags))
  walk c d (var_template t ds) flags =
      visit_template c (visit c t (set_template flags)) (visit_all c ds (set_specialization flags))
  walk c d deleted_method flags = pass
  walk c d (function dependent standing has_comment ds) flags =
      visit_function c d dependent standing has_comment flags (visit_lifted c ds flags)
  walk c d enum_constant flags = go c d flags true
  walk c d (var templated standing lifted) flags = visit_var c d templated standing flags
  walk c d (namespace ds) flags = do assert_none flags; visit_all c ds flags
  walk c d (linkage_spec ds) flags = do assert_none flags; visit_all c ds flags
  walk c d (enum canonical ds) flags =
      let constants = go_all c ds flags in
      if not canonical then pass else go c d flags true >> constants
  walk c d (friend absent) flags = pass
  walk c d (friend (present t)) flags = visit c t flags

  pub visit_all : Config → Decls → Flags → Action
  visit_all c no_decls flags = pass
  visit_all c (decl t ds) flags = do visit c t flags; visit_all c ds flags

  -- Of the variables in a function, those that live outside of it.
  pub visit_lifted : Config → Decls → Flags → Action
  visit_lifted c no_decls flags = pass
  visit_lifted c (decl (node d (var templated standing lifted)) ds) flags =
      (if lifted then once d (visit_var c d templated standing flags) else pass)
      >> visit_lifted c ds flags
  visit_lifted c (decl (node d k) ds) flags = do once d (walk c d k flags); visit_lifted c ds flags

  -- `go` for each enumerator, which `Visit` does not see.
  pub go_all : Config → Decls → Flags → Action
  go_all c no_decls flags = pass
  go_all c (decl (node d k) ds) flags = do go c d flags true; go_all c ds flags

-- `build_module`, on the declarations of the translation unit, which is not itself marked as visited.
unfoldable pub build_module : Config → ℕ → Decls → Result State
unfolding walk start
build_module c d ds = walk c d (translation_unit ds) unset start
