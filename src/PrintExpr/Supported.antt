-- ===== src/PrintExpr/Supported.antt =====
-- The expressions that PrintExpr.cpp prints without an assertion that fails, and how many operands there are.
use cpp2v.Common.{◌≡◌, refl, Bool, true, false, none, some, not, All, ◌==◌, length, arith}
use cpp2v.Formatter.{num_text}
use cpp2v.Formatter.Balance.{IsLevel}
use cpp2v.OpaqueNames.{OpaqueNames}
use cpp2v.PrintType.Balance.{Unless}
use cpp2v.PrintType.WellFormed.{QualSupported}
use cpp2v.PrintExpr.Syntax.{
  Meta, array2ptr, plain, OptExpr, absent, present, Exprs, no_exprs, and_expr, Expr, node, Kind,
  rewritten, recovery, binary, unary, addr_of, decl_ref, unresolved_call, pseudo_call, call,
  operator_method, operator_function, operator_other, explicit_cast, builtin_cast, implicit_cast,
  any_cast, source_int, source_text, source_other, string, predefined, member, dependent_member,
  subscript, construct, inherited_ctor, member_call, pointer_call, other_call, default_arg,
  conditional, binary_conditional, constant, paren, subst_param, paren_list, transparent_list,
  union_list, init_list, this, trait_type, trait_expr, trait_none, offset_of, new, delete, cleanups,
  materialize, bind_temporary, atomic, default_init, va_arg, lambda, pseudo_destructor, array_loop,
}
use cpp2v.PrintExpr.{Context, no_args, at_most_one, is_some, visit_list, visit_opt}
use cpp2v.PrintExpr.Balance.{ClassSupported}
use cpp2v.PrintExpr.Balance.Refs.{RefSupported, ThisSupported, DependentSupported}
use cpp2v.PrintExpr.Balance.Operators.{OperatorSupported, BinarySupported, ReferentSupported}
use cpp2v.PrintExpr.Balance.Casts.{TypeSupported, CastSupported, BuiltinSupported}
use cpp2v.PrintExpr.Balance.Calls.{MethodSupported}
use cpp2v.PrintExpr.Balance.Objects.{MemberSupported, is_one}
use cpp2v.PrintExpr.Balance.Storage.{TraitSupported, OffsetSupported, DeleteSupported, NewSupported}

-- How many operands are there?
abbrev pub has_none : Exprs → Bool
has_none no_exprs = true
has_none (and_expr e es) = false

abbrev pub has_one : Exprs → Bool
has_one (and_expr e no_exprs) = true
has_one _ = false

abbrev pub has_at_most_one : Exprs → Bool
has_at_most_one no_exprs = true
has_at_most_one (and_expr e es) = has_none es

abbrev pub is_present : OptExpr → Bool
is_present absent = false
is_present (present e) = true

-- `S` holds if the printer stops on the expression or on one in it: where it asserts what does not hold, on a
-- declaration, type or operator that it dies on. With `⊥` for `S` there is no such place. An atomic operation
-- with no name and a type trait with no case are never supported: they are printed with a constructor that
-- stays open and with a parenthesis too many. What is asked of an operand is asked even if it is not printed.
abbrev mutual
  pub ExprSupported : Type 0 → Context → Expr → Type 0
  ExprSupported S c (node m k) =
      Unless m.has_errors (QualSupported S c.env.templates m.type × KindSupported S c m k)

  pub KindSupported : Type 0 → Context → Meta → Kind → Type 0
  KindSupported S c m (rewritten e) = ExprSupported S c e
  KindSupported S c m recovery = ClassSupported S c.env.templates m.classified
  KindSupported S c m (binary op same_type is_boolean a b) =
      BinarySupported S c.env.templates m op same_type is_boolean
      × (ExprSupported S c a × ExprSupported S c b)
  KindSupported S c m (unary op e) = ExprSupported S c e
  KindSupported S c m (addr_of to e) = ReferentSupported S c.env.templates to × ExprSupported S c e
  KindSupported S c m (decl_ref d) = RefSupported S c.env.templates c.lambda_class d
  KindSupported S c m (unresolved_call callee args) =
      DependentSupported S c.env.templates callee × AllSupported S c args
  KindSupported S c m (pseudo_call arrow t base args) =
      Unless (has_none args) S × (QualSupported S c.env.templates t × ExprSupported S c base)
  KindSupported S c m (call callee args) = ExprSupported S c callee × AllSupported S c args
  KindSupported S c m (operator_method op d is_static is_virtual t object args) =
      (OperatorSupported S op × Unless (not is_static) S)
      × (QualSupported S c.env.templates t × (ExprSupported S c object × AllSupported S c args))
  KindSupported S c m (operator_function op d t args) =
      OperatorSupported S op × (QualSupported S c.env.templates t × AllSupported S c args)
  KindSupported S c m operator_other = S
  KindSupported S c m (explicit_cast form k written e) =
      CastSupported S c.env.templates k
      × (QualSupported S c.env.templates written × ExprSupported S c e)
  KindSupported S c m (builtin_cast to t) =
      BuiltinSupported S to × QualSupported S c.env.templates t
  KindSupported S c m (implicit_cast k e) = CastSupported S c.env.templates k × ExprSupported S c e
  KindSupported S c m any_cast = S
  KindSupported S c m (source_int text n) = IsLevel (num_text n)
  KindSupported S c m (source_text text e) = ExprSupported S c e
  KindSupported S c m (source_other text) = S
  KindSupported S c m (string width bytes t) = TypeSupported S c.env.templates t
  KindSupported S c m (predefined text t) = TypeSupported S c.env.templates t
  KindSupported S c m (member arrow base k) =
      ExprSupported S c base × MemberSupported S c.env.templates k
  KindSupported S c m (dependent_member arrow base n) = ExprSupported S c base
  KindSupported S c m (subscript a b) = UnderSupported S c a × UnderSupported S c b
  KindSupported S c m (construct d args) = AllSupported S c args
  KindSupported S c m (inherited_ctor d ts) = All (QualSupported S c.env.templates) ts
  KindSupported S c m (member_call arrow d is_virtual t object args) =
      MethodSupported S c.env.templates t × (ExprSupported S c object × AllSupported S c args)
  KindSupported S c m (pointer_call arrow rhs object args) =
      ExprSupported S c rhs × (ExprSupported S c object × AllSupported S c args)
  KindSupported S c m other_call = S
  KindSupported S c m (default_arg e) = ExprSupported S c e
  KindSupported S c m (conditional a t f) =
      ExprSupported S c a × (ExprSupported S c t × ExprSupported S c f)
  KindSupported S c m (binary_conditional value common a t f) =
      ExprSupported S c common × (ExprSupported S c a × (ExprSupported S c t × ExprSupported S c f))
  KindSupported S c m (constant e) = ExprSupported S c e
  KindSupported S c m (paren e) = ExprSupported S c e
  KindSupported S c m (subst_param e) = ExprSupported S c e
  KindSupported S c m (paren_list es) = AllSupported S c es
  KindSupported S c m (transparent_list es) = Unless (has_one es) S × AllSupported S c es
  KindSupported S c m (union_list d es has_filler) =
      Unless (has_at_most_one es) S × (Unless (not has_filler) S × AllSupported S c es)
  KindSupported S c m (init_list es filler) = AllSupported S c es × OptSupported S c filler
  KindSupported S c m this = ThisSupported S c.env.templates c.lambda_class
  KindSupported S c m (trait_type k t) = TraitSupported k × QualSupported S c.env.templates t
  KindSupported S c m (trait_expr k e) = TraitSupported k × ExprSupported S c e
  KindSupported S c m (trait_none k) = TraitSupported k × S
  KindSupported S c m (offset_of o) = OffsetSupported S c.env.templates o
  KindSupported S c m (new w placement size init) =
      NewSupported S c.env.templates w (has_one placement) (is_present size)
      × (AllSupported S c placement × (OptSupported S c size × OptSupported S c init))
  KindSupported S c m (delete is_array op e t) =
      DeleteSupported S c.env.templates op
      × (ExprSupported S c e × QualSupported S c.env.templates t)
  KindSupported S c m (cleanups e) = ExprSupported S c e
  KindSupported S c m (materialize is_extended e) =
      ClassSupported S c.env.templates m.classified × ExprSupported S c e
  KindSupported S c m (bind_temporary e) = ExprSupported S c e
  KindSupported S c m (atomic none es) = ⊥
  KindSupported S c m (atomic (some op) es) = AllSupported S c es
  KindSupported S c m (default_init e) = ExprSupported S c e
  KindSupported S c m (va_arg e) = ExprSupported S c e
  KindSupported S c m (lambda d es) = AllSupported S c es
  KindSupported S c m (pseudo_destructor t e) =
      QualSupported S c.env.templates t × ExprSupported S c e
  KindSupported S c m (array_loop value size src e) = ExprSupported S c src × ExprSupported S c e
  KindSupported S c m _ = Unit

  pub AllSupported : Type 0 → Context → Exprs → Type 0
  AllSupported S c no_exprs = Unit
  AllSupported S c (and_expr e es) = ExprSupported S c e × AllSupported S c es

  pub OptSupported : Type 0 → Context → OptExpr → Type 0
  OptSupported S c absent = Unit
  OptSupported S c (present e) = ExprSupported S c e

  -- The operand of a subscript, under its cast
  pub UnderSupported : Type 0 → Context → Expr → Type 0
  UnderSupported S c (node m (implicit_cast (plain array2ptr) e)) = ExprSupported S c e
  UnderSupported S c (node m k) =
      Unless m.has_errors (QualSupported S c.env.templates m.type × KindSupported S c m k)

module _ (c : Context) where
  pub no_args-visit_list :
      (es : Exprs) (names : OpaqueNames) → has_none es ≡ no_args (visit_list c es names).1
  unfolding visit_list no_args
  no_args-visit_list no_exprs names = refl
  no_args-visit_list (and_expr e es) names = refl

  pub is_one-visit_list :
      (es : Exprs) (names : OpaqueNames) → has_one es ≡ is_one (visit_list c es names).1
  unfolding visit_list is_one
  is_one-visit_list no_exprs names = refl
  is_one-visit_list (and_expr e no_exprs) names = refl
  is_one-visit_list (and_expr e (and_expr e' es)) names = refl

  pub length-visit_list :
      (es : Exprs) (names : OpaqueNames) → has_one es ≡ (length (visit_list c es names).1 == 1)
  unfolding visit_list
  length-visit_list no_exprs names = refl
  length-visit_list (and_expr e no_exprs) names = refl
  length-visit_list (and_expr e (and_expr e' es)) names = ground arith

  pub at_most_one-visit_list :
      (es : Exprs) (names : OpaqueNames)
      → has_at_most_one es ≡ at_most_one (visit_list c es names).1
  unfolding visit_list at_most_one
  at_most_one-visit_list no_exprs names = refl
  at_most_one-visit_list (and_expr e no_exprs) names = refl
  at_most_one-visit_list (and_expr e (and_expr e' es)) names = refl

  pub is_some-visit_opt :
      (o : OptExpr) (names : OpaqueNames) → is_present o ≡ is_some (visit_opt c o names).1
  unfolding visit_opt
  is_some-visit_opt absent names = refl
  is_some-visit_opt (present e) names = refl
