-- ===== src/PrintExpr/Names.antt =====
-- What printing an expression does to the names it shares with the rest of the declaration
-- (`OpaqueNames& names` of PrintExpr.cpp).
use cpp2v.Common.{
  ℕ, suc, ◌≡◌, ◌∙◌, refl, ap, sym, Bool, true, false, List, [], ◌∷◌, ◌++◌, append-nil, append_assoc,
  none, some, if◌then◌else◌, arith,
}
use cpp2v.OpaqueNames.{
  pos, OpaqueNames, empty, find_from, find, fresh, free, inc_index_count, dec_index_count,
}
use cpp2v.OpaqueNames.Laws.{dec-inc_index_count}
use cpp2v.PrintExpr.Syntax.{
  Meta, array2ptr, plain, OptExpr, absent, present, Exprs, no_exprs, and_expr, Expr, node, Kind,
  rewritten, binary, unary, addr_of, unresolved_call, pseudo_call, call, operator_method,
  operator_function, explicit_cast, implicit_cast, source_text, member, dependent_member, subscript,
  construct, member_call, pointer_call, default_arg, conditional, binary_conditional, constant,
  paren, subst_param, paren_list, transparent_list, union_list, init_list, trait_expr, new, delete,
  cleanups, materialize, bind_temporary, atomic, default_init, va_arg, lambda, pseudo_destructor,
  array_loop,
}
use cpp2v.PrintExpr.Common.{Context}
use cpp2v.PrintExpr.Visit.{
  Visited, under, visited_if, framed, is_known_cast, is_plain_ref, is_known_trait, shares_names,
  visit, walk, visit_list, visit_opt, visit_under, print_expr,
}

-- `b` has the stack of nameless declarations and the count of open loops that `a` has, and the opaque values
-- of `a` with further ones behind them.
pub record Grows (a b : OpaqueNames) : Type 0 where
  pub anonymous : b.anonymous ≡ a.anonymous
  pub index_count : b.index_count ≡ a.index_count
  pub added : List ℕ
  pub indexes : b.indexes ≡ a.indexes ++ added

pub Grows-same : {a : OpaqueNames} → Grows a a
Grows-same {a} = record {
  anonymous = refl;
  index_count = refl;
  added = [];
  indexes = sym (append-nil a.indexes);
}

infixr 5 ◌▸◌
pub ◌▸◌ : {a b c : OpaqueNames} → Grows a b → Grows b c → Grows a c
◌▸◌ {a} g h = record {
  anonymous = h.anonymous ∙ g.anonymous;
  index_count = h.index_count ∙ g.index_count;
  added = g.added ++ h.added;
  indexes = h.indexes ∙ ap (λ is. is ++ h.added) g.indexes ∙ append_assoc a.indexes g.added h.added;
}

Grows-if : (b : Bool) {a x y : OpaqueNames} → Grows a x → Grows a y → Grows a (if b then x else y)
Grows-if true g h = g
Grows-if false g h = h

Grows-fresh : (e : ℕ) {a : OpaqueNames} → Grows a (fresh e a).0
unfolding fresh
Grows-fresh e = record { anonymous = refl; index_count = refl; added = e ∷ []; indexes = refl }

-- What happens between `inc_index_count` and `dec_index_count`.
Grows-loop : {a b : OpaqueNames} → Grows (inc_index_count a) b → Grows a (dec_index_count b)
unfolding inc_index_count dec_index_count
Grows-loop {a} g = record {
  anonymous = g.anonymous;
  index_count =
      ap (λ z. (dec_index_count (record a { index_count = z })).index_count) g.index_count
      ∙ ap (λ n. n.index_count) (dec-inc_index_count a);
  added = g.added;
  indexes = g.indexes;
}

-- The operands of a binary operator, which share the names or start without any.
Grows-binary :
    (b : Bool) (f g : OpaqueNames → Visited) (names : OpaqueNames)
    → ((n : OpaqueNames) → Grows n (f n).0)
    → ((n : OpaqueNames) → Grows n (g n).0)
    → Grows names
        (if b then (g (if b then (f (if b then names else empty)).0 else empty)).0 else names)
Grows-binary true f g names hf hg = hf names ▸ hg _
Grows-binary false f g names hf hg = Grows-same

mutual
  unfolding visit under visited_if framed free

  pub visit-Grows : (c : Context) (e : Expr) (names : OpaqueNames) → Grows names (visit c e names).0
  visit-Grows c (node m k) names = Grows-if m.has_errors Grows-same (walk-Grows c m k names)

  walk-Grows :
      (c : Context) (m : Meta) (k : Kind) (names : OpaqueNames) → Grows names (walk c m k names).0
  walk-Grows c m (rewritten e) names = visit-Grows c e names
  walk-Grows c m (binary op same_type is_boolean a b) names =
      Grows-binary (shares_names op) (visit c a) (visit c b) names (visit-Grows c a)
        (visit-Grows c b)
  walk-Grows c m (unary op e) names = visit-Grows c e names
  walk-Grows c m (addr_of to e) names =
      Grows-if (is_plain_ref to) (visit-Grows c e names) Grows-same
  walk-Grows c m (unresolved_call callee args) names = list-Grows c args names
  walk-Grows c m (pseudo_call arrow t base args) names = visit-Grows c base names
  walk-Grows c m (call callee args) names = visit-Grows c callee names ▸ list-Grows c args _
  walk-Grows c m (operator_method op d is_static is_virtual t object args) names =
      visit-Grows c object names ▸ list-Grows c args _
  walk-Grows c m (operator_function op d t args) names = list-Grows c args names
  walk-Grows c m (explicit_cast form k written e) names =
      Grows-if (is_known_cast form) (visit-Grows c e names) Grows-same
  walk-Grows c m (implicit_cast k e) names = visit-Grows c e names
  walk-Grows c m (source_text text e) names = visit-Grows c e names
  walk-Grows c m (member arrow base k) names = visit-Grows c base names
  walk-Grows c m (dependent_member arrow base n) names = visit-Grows c base names
  walk-Grows c m (subscript a b) names = under-Grows c a names ▸ under-Grows c b _
  walk-Grows c m (construct d args) names = list-Grows c args names
  walk-Grows c m (member_call arrow d is_virtual t object args) names =
      visit-Grows c object names ▸ list-Grows c args _
  walk-Grows c m (pointer_call arrow rhs object args) names =
      visit-Grows c rhs names ▸ visit-Grows c object _ ▸ list-Grows c args _
  walk-Grows c m (default_arg e) names = visit-Grows c e names
  walk-Grows c m (conditional a t f) names =
      visit-Grows c a names ▸ visit-Grows c t _ ▸ visit-Grows c f _
  walk-Grows c m (binary_conditional value common a t f) names =
      Grows-fresh value
      ▸ visit-Grows c common _
      ▸ Grows-loop (visit-Grows c a _ ▸ visit-Grows c t _ ▸ visit-Grows c f _)
  walk-Grows c m (constant e) names = visit-Grows c e names
  walk-Grows c m (paren e) names = visit-Grows c e names
  walk-Grows c m (subst_param e) names = visit-Grows c e names
  walk-Grows c m (paren_list es) names = Grows-if c.env.templates (list-Grows c es names) Grows-same
  walk-Grows c m (transparent_list es) names = list-Grows c es names
  walk-Grows c m (union_list d es has_filler) names = list-Grows c es names
  walk-Grows c m (init_list es filler) names = list-Grows c es names ▸ opt-Grows c filler _
  walk-Grows c m (trait_expr k e) names =
      Grows-if (is_known_trait k) (visit-Grows c e names) Grows-same
  walk-Grows c m (new w placement size init) names =
      list-Grows c placement names ▸ opt-Grows c size _ ▸ opt-Grows c init _
  walk-Grows c m (delete is_array op e t) names = visit-Grows c e names
  walk-Grows c m (cleanups e) names = visit-Grows c e names
  walk-Grows c m (materialize is_extended e) names =
      Grows-if is_extended Grows-same (visit-Grows c e names)
  walk-Grows c m (bind_temporary e) names = visit-Grows c e names
  walk-Grows c m (atomic none es) names = Grows-same
  walk-Grows c m (atomic (some op) es) names = list-Grows c es names
  walk-Grows c m (default_init e) names = visit-Grows c e names
  walk-Grows c m (va_arg e) names = visit-Grows c e names
  walk-Grows c m (lambda d es) names = list-Grows c es names
  walk-Grows c m (pseudo_destructor t e) names = visit-Grows c e names
  walk-Grows c m (array_loop value size src e) names =
      Grows-fresh value ▸ visit-Grows c src _ ▸ Grows-loop (visit-Grows c e _)
  walk-Grows c m _ names = Grows-same

  list-Grows :
      (c : Context) (es : Exprs) (names : OpaqueNames) → Grows names (visit_list c es names).0
  list-Grows c no_exprs names = Grows-same
  list-Grows c (and_expr e es) names = visit-Grows c e names ▸ list-Grows c es _

  opt-Grows :
      (c : Context) (e : OptExpr) (names : OpaqueNames) → Grows names (visit_opt c e names).0
  opt-Grows c absent names = Grows-same
  opt-Grows c (present e) names = visit-Grows c e names

  under-Grows :
      (c : Context) (e : Expr) (names : OpaqueNames) → Grows names (visit_under c e names).0
  under-Grows c (node m (implicit_cast (plain array2ptr) e)) names = visit-Grows c e names
  under-Grows c (node m k) names = Grows-if m.has_errors Grows-same (walk-Grows c m k names)

find_from-append :
    (e : ℕ) (is js : List ℕ) (k r : ℕ) → find_from e is k ≡ pos r → find_from e (is ++ js) k ≡ pos r
unfolding find_from
find_from-append e [] js k r h = cc
find_from-append e (i ∷ is) js k r h = ground (arith, find_from-append e is js (suc k) r)

-- An opaque value keeps its number while names are added.
pub Grows-find : {a b : OpaqueNames} (d r : ℕ) → Grows a b → find d a ≡ pos r → find d b ≡ pos r
unfolding find
Grows-find {a} d r g h = rw g.indexes (find_from-append d a.indexes g.added 0 r h)

-- Printing an expression leaves the stack of nameless declarations and the count of open array loops and
-- `?:` without middle operand as they were, and only adds opaque values behind those that there are.
pub print_expr-Grows :
    (c : Context) (e : Expr) (names : OpaqueNames) → Grows names (print_expr c e names).0
unfolding print_expr under
print_expr-Grows c e names = visit-Grows c e names

-- An opaque value that has a number keeps it while other expressions are printed.
pub find-print_expr :
    (c : Context) (e : Expr) (names : OpaqueNames) (d r : ℕ)
    → find d names ≡ pos r
    → find d (print_expr c e names).0 ≡ pos r
find-print_expr c e names d r h = Grows-find d r (print_expr-Grows c e names) h
