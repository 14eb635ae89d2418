-- ===== src/PrintType/WellFormed.antt =====
-- The printed form of every type keeps the depth and the brackets (PrintType.cpp), by induction on the
-- type.
use cpp2v.Formatter.Termination.{Returns, Closed-Returns}
use cpp2v.Common.{refl, Bool, true, false, All}
use cpp2v.Formatter.Brackets.{scan}
use cpp2v.Formatter.Balance.{Closed, ◌⟫◌, text-Moves, nbsp-Moves}
use cpp2v.CoqPrinter.Balance.{
  up, end_ctor-Moves, some-Moves, none-Moves, with_ctor-Closed, list_range-Closed,
}
use cpp2v.ClangPrinter.{Env, IsEnv}
use cpp2v.ClangPrinter.Balance.{
  IsSupported, die-Moves, print_variadic-Moves, put_decimal-Moves, print_calling_conv-Moves,
}
use cpp2v.PrintType.Syntax.{
  QualType, null, qual, Params, no_params, param, Ty, any_type, block_pointer, pack_expansion,
  attributed, dependent_sized_array, sugared_dependent_name, dependent_name, unary_transform,
  deduced_auto, undeduced_auto, deduced, undeduced, template_type_parm, enum_type, record_type,
  paren, builtin, lvalue_reference, rvalue_reference, pointer, typedef, function_proto, elaborated,
  constant_array, subst_template_type_parm, incomplete_array, variable_array, decayed,
  alias_specialization, sugared_specialization, template_specialization, sugared_decltype, decltype,
  sugared_type_of, type_of, injected_class_name, member_pointer, macro_qualified, using_type,
}
use cpp2v.PrintType.Visit.{
  Info, visit, print_qual_type, print_params, print_type, print_qual_type_option,
}
use cpp2v.PrintType.Balance.{
  if-Closed, Unless, unless-Closed, wrapped-Closed, unsupported-Closed, type_frame-Closed,
  builtin-Closed, open_transform-Moves, specialization-Closed, injected-Closed, qualified-Closed,
  decltype_name, sort-Closed,
}

-- `S` holds if the printer stops on the type, or on one in it: on a null type, a calling convention with no
-- name, and on what it asserts not to see. With `⊥` for `S` there is no such place.
abbrev mutual
  pub Supported : Type 0 → Bool → Ty → Type 0
  Supported S templates (attributed t) = QualSupported S templates t
  Supported S templates (dependent_sized_array t e) = QualSupported S templates t
  Supported S templates (sugared_dependent_name t) = QualSupported S templates t
  Supported S templates (unary_transform true k b u) = Unit
  Supported S templates (unary_transform false k b u) =
      QualSupported S templates b × QualSupported S templates u
  Supported S templates (deduced_auto false t) = QualSupported S templates t
  Supported S templates (deduced_auto true t) = Unit
  Supported S templates (deduced t) = QualSupported S templates t
  Supported S templates (paren t) = QualSupported S templates t
  Supported S templates (lvalue_reference t) = QualSupported S templates t
  Supported S templates (rvalue_reference t) = QualSupported S templates t
  Supported S templates (pointer t) = QualSupported S templates t
  Supported S templates (typedef d t) = QualSupported S templates t
  Supported S templates (function_proto cc va r ps) =
      IsSupported S cc × (QualSupported S templates r × ParamsSupported S templates ps)
  Supported S templates (elaborated t) = QualSupported S templates t
  Supported S templates (constant_array t n) = QualSupported S templates t
  Supported S templates (subst_template_type_parm t) = QualSupported S templates t
  Supported S templates (incomplete_array t) = QualSupported S templates t
  Supported S templates (variable_array t e) = QualSupported S templates t
  Supported S templates (decayed t u) = QualSupported S templates t × QualSupported S templates u
  Supported S templates (alias_specialization t) = QualSupported S templates t
  Supported S templates (sugared_specialization t) = QualSupported S templates t
  Supported S templates (sugared_decltype t) = QualSupported S templates t
  Supported S templates (sugared_type_of t) = QualSupported S templates t
  Supported S templates (type_of t) = QualSupported S templates t
  Supported S templates (injected_class_name d) = Unless templates S
  Supported S templates (member_pointer c t) = Supported S templates c × QualSupported S templates t
  Supported S templates (macro_qualified t) = QualSupported S templates t
  Supported S templates (using_type s t) = Unless s S × QualSupported S templates t
  Supported S templates _ = Unit

  pub QualSupported : Type 0 → Bool → QualType → Type 0
  QualSupported S templates null = S
  QualSupported S templates (qual c l w t) = Supported S templates t

  pub ParamsSupported : Type 0 → Bool → Params → Type 0
  ParamsSupported S templates no_params = Unit
  ParamsSupported S templates (param t ps) =
      Supported S templates t × ParamsSupported S templates ps

mutual
  unfolding visit scan

  visit-Closed :
      {S : Type 0} (env : Env) (v : IsEnv S env) (info : Info) (t : Ty)
      → Supported S env.templates t
      → Closed S (visit env info t)
  visit-Closed env v info any_type h = unsupported-Closed (info.describe any_type)
  visit-Closed env v info block_pointer h = unsupported-Closed (info.describe block_pointer)
  visit-Closed env v info pack_expansion h = unsupported-Closed (info.describe pack_expansion)
  visit-Closed env v info (attributed t) h = qual-Closed env v info t h
  visit-Closed env v info (dependent_sized_array t e) h =
      with_ctor-Closed "Tvariable_array" (λ n. refl) true
        (qual-Closed env v info t h ⟫ nbsp-Moves ⟫ v.expr_closed e)
  visit-Closed env v info (sugared_dependent_name t) h = qual-Closed env v info t h
  visit-Closed env v info (dependent_name n) h =
      with_ctor-Closed "Tnamed" (λ k. refl) true (v.unresolved_closed n)
  visit-Closed env v info (unary_transform true k b u) h =
      unsupported-Closed (info.describe (unary_transform true k b u))
  visit-Closed env v info (unary_transform false k b u) h =
      open_transform-Moves env v k
      ⟫ up (qual-Closed env v info b h.0)
      ⟫ nbsp-Moves
      ⟫ up (qual-Closed env v info u h.1)
      ⟫ end_ctor-Moves
  visit-Closed env v info (deduced_auto false t) h = qual-Closed env v info t h
  visit-Closed env v info (deduced_auto true t) h =
      if-Closed env.templates (text-Moves "Tauto" (λ n. refl))
        (unsupported-Closed (info.describe (deduced_auto true t)))
  visit-Closed env v info undeduced_auto h =
      if-Closed env.templates (text-Moves "Tauto" (λ n. refl))
        (unsupported-Closed (info.describe undeduced_auto))
  visit-Closed env v info (deduced t) h = qual-Closed env v info t h
  visit-Closed env v info undeduced h = unsupported-Closed (info.describe undeduced)
  visit-Closed env v info (template_type_parm d i) h = v.template_param_closed d i
  visit-Closed env v info (enum_type d) h = wrapped-Closed "Tenum" (λ n. refl) (v.name_closed d)
  visit-Closed env v info (record_type d) h = wrapped-Closed "Tnamed" (λ n. refl) (v.name_closed d)
  visit-Closed env v info (paren t) h = qual-Closed env v info t h
  visit-Closed env v info (builtin k) h = builtin-Closed env v (info.describe (builtin k)) k
  visit-Closed env v info (lvalue_reference t) h =
      wrapped-Closed "Tref" (λ n. refl) (qual-Closed env v info t h)
  visit-Closed env v info (rvalue_reference t) h =
      wrapped-Closed "Trv_ref" (λ n. refl) (qual-Closed env v info t h)
  visit-Closed env v info (pointer t) h =
      wrapped-Closed "Tptr" (λ n. refl) (qual-Closed env v info t h)
  visit-Closed env v info (typedef d t) h = qual-Closed env v info t h
  visit-Closed env v info (function_proto cc va r ps) h =
      with_ctor-Closed "Tfunction" (λ n. refl) true
        (sort-Closed env v
          ⟫ nbsp-Moves
          ⟫ print_calling_conv-Moves cc h.0
          ⟫ nbsp-Moves
          ⟫ print_variadic-Moves va
          ⟫ nbsp-Moves
          ⟫ qual-Closed env v info r h.1.0
          ⟫ nbsp-Moves
          ⟫ list_range-Closed (λ p. p) (print_params env info ps)
              (params-Closed env v info ps h.1.1))
  visit-Closed env v info (elaborated t) h = qual-Closed env v info t h
  visit-Closed env v info (constant_array t n) h =
      wrapped-Closed "Tarray" (λ k. refl)
        (qual-Closed env v info t h ⟫ nbsp-Moves ⟫ put_decimal-Moves env n v)
  visit-Closed env v info (subst_template_type_parm t) h = qual-Closed env v info t h
  visit-Closed env v info (incomplete_array t) h =
      wrapped-Closed "Tincomplete_array" (λ n. refl) (qual-Closed env v info t h)
  visit-Closed env v info (variable_array t e) h =
      wrapped-Closed "Tvariable_array" (λ n. refl)
        (qual-Closed env v info t h ⟫ nbsp-Moves ⟫ v.expr_closed e)
  visit-Closed env v info (decayed t u) h =
      wrapped-Closed "Tdecay_type" (λ n. refl)
        (qual-Closed env v info t h.0 ⟫ nbsp-Moves ⟫ qual-Closed env v info u h.1)
  visit-Closed env v info (alias_specialization t) h = qual-Closed env v info t h
  visit-Closed env v info (sugared_specialization t) h = qual-Closed env v info t h
  visit-Closed env v info (template_specialization temp args) h =
      specialization-Closed env v (info.describe (template_specialization temp args)) temp args
  visit-Closed env v info (sugared_decltype t) h = qual-Closed env v info t h
  visit-Closed env v info (decltype is_ref e) h =
      if-Closed env.templates
        (with_ctor-Closed _ (decltype_name env v is_ref) false (v.expr_closed e))
        (unsupported-Closed (info.describe (decltype is_ref e)))
  visit-Closed env v info (sugared_type_of t) h = qual-Closed env v info t h
  visit-Closed env v info (type_of t) h =
      if-Closed env.templates (qual-Closed env v info t h)
        (unsupported-Closed (info.describe (type_of t)))
  visit-Closed env v info (injected_class_name d) h =
      injected-Closed env v (info.describe (injected_class_name d)) d h
  visit-Closed env v info (member_pointer c t) h =
      wrapped-Closed "Tmember_pointer" (λ n. refl)
        (type_frame-Closed env v (info.cached c) (visit-Closed env v info c h.0)
          ⟫ nbsp-Moves
          ⟫ qual-Closed env v info t h.1)
  visit-Closed env v info (macro_qualified t) h = qual-Closed env v info t h
  visit-Closed env v info (using_type s t) h = unless-Closed s (qual-Closed env v info t h.1) h.0

  qual-Closed :
      {S : Type 0} (env : Env) (v : IsEnv S env) (info : Info) (q : QualType)
      → QualSupported S env.templates q
      → Closed S (print_qual_type env info q)
  qual-Closed env v info null h = die-Moves h
  qual-Closed env v info (qual c l w t) h =
      qualified-Closed env v c l w
        (type_frame-Closed env v (info.cached t) (visit-Closed env v info t h))

  params-Closed :
      {S : Type 0} (env : Env) (v : IsEnv S env) (info : Info) (ps : Params)
      → ParamsSupported S env.templates ps
      → All (λ p. Closed S p) (print_params env info ps)
  params-Closed env v info no_params h = tt
  params-Closed env v info (param t ps) h = (
    type_frame-Closed env v (info.cached t) (visit-Closed env v info t h.0),
    params-Closed env v info ps h.1,
  )

-- Printing a type leaves the indentation as it was and adds a text whose parentheses and quotes are
-- balanced; if `S` has no proof it is sure to return, and else it may stop, for a reason that is not the
-- depth, where the type is not supported or a printer of names and expressions stops. This holds from
-- every formatter that is far enough below the end of an `unsigned int`, for printers of names and
-- expressions that do so too.
pub print_type-Closed :
    (S : Type 0) (env : Env) (info : Info) (t : Ty)
    → IsEnv S env
    → Supported S env.templates t
    → Closed S (print_type env info t)
unfolding print_type
print_type-Closed S env info t v h =
    type_frame-Closed env v (info.cached t) (visit-Closed env v info t h)

pub print_qual_type-Closed :
    {S : Type 0} (env : Env) (info : Info) (q : QualType)
    → IsEnv S env
    → QualSupported S env.templates q
    → Closed S (print_qual_type env info q)
print_qual_type-Closed env info q v h = qual-Closed env v info q h

-- A null type is printed as `None`.
abbrev pub OptionSupported : Type 0 → Bool → QualType → Type 0
OptionSupported S templates null = Unit
OptionSupported S templates (qual c l w t) = Supported S templates t

-- What is printed for a type that may be null or dependent, for the printers of expressions.
pub print_qual_type_option-Closed :
    (S : Type 0) (env : Env) (info : Info) (b : Bool) (q : QualType)
    → IsEnv S env
    → OptionSupported S env.templates q
    → Closed S (print_qual_type_option env info b q)
unfolding print_qual_type_option
print_qual_type_option-Closed S env info b null v h = none-Moves
print_qual_type_option-Closed S env info true (qual _ _ _ _) v h = none-Moves
print_qual_type_option-Closed S env info false (qual c l w t) v h =
    some-Moves ⟫ up (qual-Closed env v info (qual c l w t) h) ⟫ end_ctor-Moves

-- The printer returns on every supported type, from every formatter that is far enough below the end of
-- an `unsigned int`, if the printers of names and expressions do. It returns at the depth where it started
-- and adds a text whose parentheses and quotes are balanced.
pub print_type-Returns :
    (env : Env) (info : Info) (t : Ty)
    → IsEnv ⊥ env
    → Supported ⊥ env.templates t
    → Returns (print_type env info t)
print_type-Returns env info t v h =
    Closed-Returns (print_type env info t) (print_type-Closed ⊥ env info t v h)
