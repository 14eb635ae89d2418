-- ===== src/PrintLocalDecl/WellFormed.antt =====
-- The printed form of every local declaration keeps the depth and the brackets (PrintLocalDecl.cpp).
use cpp2v.Common.{
  codes, arith, ap, sym, subst, fun_ext, ◌∙◌, ℕ, ◌≡◌, refl, Bool, true, false, List, [], ◌∷◌,
  Option, none, some, All, ==_refl, if◌then◌else◌,
}
use cpp2v.Formatter.{ok, err, asserted, skip, bind}
use cpp2v.Formatter.Brackets.{scan, code, Brackets}
use cpp2v.Formatter.Balance.{
  Moves, Closed, stopped, asserts, ◌⟫◌, skip-Moves, text-Moves, nbsp-Moves, put_bool-Moves,
  put-Moves, Brackets-close,
}
use cpp2v.CoqPrinter.Balance.{
  up, str-Moves, ctor-Moves, end_ctor-Moves, none-Moves, with_ctor-Closed, list_range-Closed,
  printed,
}
use cpp2v.OpaqueNames.{OpaqueNames, push_anon, pop_anon}
use cpp2v.OpaqueNames.Laws.{pop_anon-push_anon}
use cpp2v.ClangPrinter.{Env, IsEnv}
use cpp2v.ClangPrinter.Balance.{put_decimal-Moves, answer-Closed}
use cpp2v.PrintType.{QualType, Info}
use cpp2v.PrintType.WellFormed.{print_qual_type-Closed, QualSupported}
use cpp2v.PrintLocalDecl.{
  Binding, held, bound, LocalDecl, invalid, static_var, var, decomposition, print_init,
  print_var_rest, visit_static_var, visit_var, print_binding, popped, visit_decomposition,
  visit_local, print_local_decl,
}

popped_self : (d : ℕ) (names : OpaqueNames) → pop_anon d (push_anon d names).0 ≡ ok names
popped_self d names =
    pop_anon-push_anon d d names ∙ ap (λ b. if b then ok names else err asserted) (==_refl d)

pub anon-Brackets : Brackets 1 2 (codes "(localname.anon ")
unfolding scan
anon-Brackets = record { at = λ n. ap (λ k. some (code, k)) (omega arith) }

-- A variable of a structured binding has an initializer, or `S` holds.
abbrev pub BindingSupported : Type 0 → Bool → Binding → Type 0
BindingSupported S templates (held name t (some e)) = QualSupported S templates t
BindingSupported S templates (held name t none) = QualSupported S templates t × S
BindingSupported S templates (bound name t e) = QualSupported S templates t

-- The types in a local declaration are supported, and it can be printed.
abbrev pub LocalSupported : Type 0 → Bool → LocalDecl → Type 0
LocalSupported S templates (static_var d t e) = QualSupported S templates t
LocalSupported S templates (var name t e) = QualSupported S templates t
LocalSupported S templates (decomposition d e bs) = All (BindingSupported S templates) bs
LocalSupported S templates _ = Unit

module _ {S : Type 0} (env : Env) (v : IsEnv S env) (info : Info) where
  print_init-Closed : (names : OpaqueNames) (e : Option ℕ) → Closed S (print_init env names e)
  unfolding print_init scan
  print_init-Closed names none = none-Moves
  print_init-Closed names (some e) =
      with_ctor-Closed "Some" (λ n. refl) true (v.expr_in_closed names.anonymous e)

  var_rest-Moves :
      (names : OpaqueNames) (t : QualType) (e : Option ℕ)
      → QualSupported S env.templates t
      → Moves S 1 1 0 0 (print_var_rest env info names t e)
  unfolding print_var_rest
  var_rest-Moves names t e h =
      up (print_qual_type-Closed env info t v h)
      ⟫ nbsp-Moves
      ⟫ up (print_init-Closed names e)
      ⟫ end_ctor-Moves

  static_var-Closed :
      (ts : Bool) (names : OpaqueNames) (d : ℕ) (t : QualType) (e : Option ℕ)
      → QualSupported S env.templates t
      → Closed S (visit_static_var env info ts names d t e)
  unfolding visit_static_var scan
  static_var-Closed ts names d t e h =
      ctor-Moves "Dinit" (λ n. refl) true
      ⟫ put_bool-Moves ts
      ⟫ nbsp-Moves
      ⟫ up (v.name_closed d)
      ⟫ nbsp-Moves
      ⟫ var_rest-Moves names t e h

  var-Closed :
      (names : OpaqueNames) (name : List ℕ) (t : QualType) (e : Option ℕ)
      → QualSupported S env.templates t
      → Closed S (visit_var env info names name t e)
  unfolding visit_var scan
  var-Closed names name t e h =
      ctor-Moves "Dvar" (λ n. refl) true ⟫ str-Moves name ⟫ nbsp-Moves ⟫ var_rest-Moves names t e h

  binding-Closed :
      (names : OpaqueNames) (b : Binding)
      → BindingSupported S env.templates b
      → Closed S (print_binding env info names b)
  unfolding print_binding scan
  binding-Closed names (held name t (some e)) h =
      with_ctor-Closed "Bvar" (λ n. refl) true
        (str-Moves name
          ⟫ nbsp-Moves
          ⟫ print_qual_type-Closed env info t v h
          ⟫ nbsp-Moves
          ⟫ v.expr_in_closed names.anonymous e)
  binding-Closed names (held name t none) h =
      ctor-Moves "Bvar" (λ n. refl) true
      ⟫ str-Moves name
      ⟫ nbsp-Moves
      ⟫ up (print_qual_type-Closed env info t v h.0)
      ⟫ nbsp-Moves
      ⟫ assert-Moves h.1
    where
      assert-Moves : S → Moves S 1 1 0 0 (λ f. err asserted)
      assert-Moves p = record { room = 0; at = λ c f h e. stopped p asserts }
  binding-Closed names (bound name t e) h =
      with_ctor-Closed "Bbind" (λ n. refl) true
        (str-Moves name
          ⟫ nbsp-Moves
          ⟫ print_qual_type-Closed env info t v h
          ⟫ nbsp-Moves
          ⟫ v.expr_in_closed names.anonymous e)

  bindings-Closed :
      (names : OpaqueNames) (bs : List Binding)
      → All (BindingSupported S env.templates) bs
      → All (λ b. Closed S (print_binding env info names b)) bs
  bindings-Closed names [] h = tt
  bindings-Closed names (b ∷ bs) h = (binding-Closed names b h.0, bindings-Closed names bs h.1)

  -- What was pushed last is what is popped, so the assertion holds.
  popped-Closed : (d : ℕ) (names : OpaqueNames) → Closed S (popped d (push_anon d names).0)
  unfolding popped skip
  popped-Closed d names =
      subst (Closed S) (fun_ext λ f. ap (λ r. bind r (λ _. ok f)) (sym (popped_self d names)))
        skip-Moves

  decomposition-Closed :
      (names : OpaqueNames) (d e : ℕ) (bs : List Binding)
      → All (BindingSupported S env.templates) bs
      → Closed S (visit_decomposition env info names d e bs)
  unfolding visit_decomposition scan
  decomposition-Closed names d e bs h =
      ctor-Moves "Ddecompose" (λ n. refl) true
      ⟫ up (v.expr_in_closed names.anonymous e)
      ⟫ nbsp-Moves
      ⟫ put-Moves 1 "(localname.anon " anon-Brackets
      ⟫ put_decimal-Moves env _ v
      ⟫ put-Moves 1 ")" (Brackets-close 1)
      ⟫ nbsp-Moves
      ⟫ up (list_range-Closed _ bs (bindings-Closed (push_anon d names).0 bs h))
      ⟫ up (popped-Closed d names)
      ⟫ end_ctor-Moves

  silent-Closed : Closed S (printed (λ f. ok (f, false)))
  unfolding skip
  silent-Closed = skip-Moves

  visit_local-Closed :
      (ts : Bool) (names : OpaqueNames) (d : LocalDecl)
      → LocalSupported S env.templates d
      → Closed S (printed (visit_local env info ts names d))
  unfolding visit_local scan
  visit_local-Closed ts names invalid h = answer-Closed true (text-Moves "Derror" (λ n. refl))
  visit_local-Closed ts names (static_var d t e) h =
      answer-Closed true (static_var-Closed ts names d t e h)
  visit_local-Closed ts names (var name t e) h = answer-Closed true (var-Closed names name t e h)
  visit_local-Closed ts names (decomposition d e bs) h =
      answer-Closed true (decomposition-Closed names d e bs h)
  visit_local-Closed ts names _ h = silent-Closed

-- A local declaration, printed or passed over, leaves the depth and the brackets as they were, and the
-- assertions on the stack of nameless declarations hold. The printer is sure to return if `S` has no
-- proof; else it may stop, for a reason that is not the depth, where a type is not supported, a variable
-- of a structured binding has no initializer, or a printer of names and expressions stops. This holds
-- from every formatter that is far enough below the end of an `unsigned int`, for printers of names and
-- expressions that do so too.
pub print_local_decl-Closed :
    (S : Type 0) (env : Env) (info : Info) (ts : Bool) (d : LocalDecl)
    → IsEnv S env
    → LocalSupported S env.templates d
    → Closed S (printed (print_local_decl env info ts d))
unfolding print_local_decl
print_local_decl-Closed S env info ts d v h = visit_local-Closed env v info ts _ d h
