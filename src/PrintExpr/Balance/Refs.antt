-- ===== src/PrintExpr/Balance/Refs.antt =====
-- References to declarations keep the depth and the brackets (PrintExpr.cpp).
use cpp2v.Common.{
  ℕ, refl, Bool, true, false, List, Option, none, some, ◌&&◌, ◌||◌, not, if◌then◌else◌,
}
use cpp2v.Formatter.{Printer}
use cpp2v.Formatter.Brackets.{scan}
use cpp2v.Formatter.Balance.{Moves, Closed, ◌⟫◌, text-Moves, nbsp-Moves, put-Moves, Brackets-close}
use cpp2v.CoqPrinter.Balance.{up, str-Moves, ctor-Moves, end_ctor-Moves, with_ctor-Closed}
use cpp2v.OpaqueNames.{ℤ, pos, negsuc, OpaqueNames, find_anon}
use cpp2v.ClangPrinter.Balance.{put_decimal-Moves, print_qualifier-Moves, die-Moves}
use cpp2v.PrintType.{QualType}
use cpp2v.PrintType.Balance.{Unless, if-Closed}
use cpp2v.PrintType.WellFormed.{QualSupported}
use cpp2v.PrintLocalDecl.WellFormed.{anon-Brackets}
use cpp2v.PrintExpr.{
  Meta, ValueDecl, DeclRef, missing, captured, enum_const, template_param, value, DependentName,
  scope_member, scope_ref, lookup, unresolved_member, other_name, Lambda, Context, with_type,
  print_value_name, print_value_decl, is_empty, visit_captured, visit_enum_const,
  visit_template_param, visit_decl_ref, visit_captured_this, visit_this, print_dependent_name,
  visit_unresolved_global,
}
use cpp2v.PrintExpr.Balance.{
  IsContext, assert_false-Moves, assert_that-Moves, qual_type-Closed, done-Moves,
  unsupported-Closed,
}

-- A captured variable has a name, and stands in a lambda.
abbrev pub CaptureSupported : Type 0 → Bool → Option Lambda → List ℕ → Option QualType → Type 0
CaptureSupported S templates none name t = S
CaptureSupported S templates (some l) name none = Unit
CaptureSupported S templates (some l) name (some t) =
    Unless (not (is_empty name)) S × QualSupported S templates t

abbrev pub RefSupported : Type 0 → Bool → Option Lambda → DeclRef → Type 0
RefSupported S templates l missing = S
RefSupported S templates l (captured d name t) = CaptureSupported S templates l name t
RefSupported S templates l (value v) = QualSupported S templates v.type
RefSupported S templates l _ = Unit

-- A lambda that uses `this` captures it.
abbrev pub ThisSupported : Type 0 → Bool → Option Lambda → Type 0
ThisSupported S templates none = Unit
ThisSupported S templates (some l) = by_field l.this_type
  where
    by_field : Option QualType → Type 0
    by_field none = S
    by_field (some t) = QualSupported S templates t

abbrev pub DependentSupported : Type 0 → Bool → DependentName → Type 0
DependentSupported S templates (scope_member t n) = QualSupported S templates t
DependentSupported S templates _ = Unit

module _ {S : Type 0} (c : Context) (v : IsContext S c) where
  name-Moves :
      (b : Bool) (d : ℕ)
      → Moves S 1 1 1 1 (if b then c.env.print_param_name d else c.env.print_unqualified_name d)
  name-Moves true d = up (v.env.param_closed d)
  name-Moves false d = up (v.env.unqualified_closed d)

  local-Moves :
      (b : Bool) {p q : Printer}
      → Moves S 0 0 1 1 p
      → Moves S 0 0 1 1 q
      → Moves S 0 0 1 1 (if b then p else q)
  local-Moves true hp hq = hp
  local-Moves false hp hq = hq

  value_name-Moves : (w : ValueDecl) (z : ℤ) → Moves S 0 0 1 1 (print_value_name c.env w z)
  unfolding print_value_name scan
  value_name-Moves w (pos t) =
      ctor-Moves "Evar" (λ n. refl) false
      ⟫ put-Moves 1 "(localname.anon " anon-Brackets
      ⟫ put_decimal-Moves c.env t v.env
      ⟫ put-Moves 1 ")" (Brackets-close 1)
  value_name-Moves w (negsuc n) =
      local-Moves (w.is_local && not (w.is_function || w.is_static_local))
        (ctor-Moves "Evar" (λ n. refl) false ⟫ name-Moves w.is_param w.decl)
        (ctor-Moves "Eglobal" (λ n. refl) false ⟫ up (v.env.name_closed w.decl))

  pub value_decl-Closed :
      (w : ValueDecl) (names : OpaqueNames)
      → QualSupported S c.env.templates w.type
      → Closed S (print_value_decl c w names)
  unfolding print_value_decl
  value_decl-Closed w names h =
      value_name-Moves w (find_anon w.decl names)
      ⟫ nbsp-Moves
      ⟫ up (qual_type-Closed c v w.type h)
      ⟫ end_ctor-Moves

  captured-Closed :
      (m : Meta) (l : Option Lambda) (d : ℕ) (name : List ℕ) (t : Option QualType)
      → QualSupported S c.env.templates m.type
      → CaptureSupported S c.env.templates l name t
      → Closed S (visit_captured c m l d name t)
  unfolding visit_captured scan
  captured-Closed m none d name t hm h = assert_false-Moves h
  captured-Closed m (some l) d name none hm h =
      ctor-Moves "Eunevaluated_var" (λ n. refl) true
      ⟫ up (v.env.unqualified_closed d)
      ⟫ done-Moves c v m with_type hm
  captured-Closed m (some l) d name (some t) hm h =
      ctor-Moves "Ecapture_var" (λ n. refl) true
      ⟫ print_qualifier-Moves l.is_const l.is_volatile
      ⟫ nbsp-Moves
      ⟫ up (v.env.name_closed l.class)
      ⟫ nbsp-Moves
      ⟫ assert_that-Moves (not (is_empty name)) h.0
      ⟫ str-Moves name
      ⟫ nbsp-Moves
      ⟫ up (qual_type-Closed c v t h.1)
      ⟫ end_ctor-Moves

  enum_const-Closed :
      (m : Meta) (ed ecd : ℕ) (b : Bool)
      → QualSupported S c.env.templates m.type
      → Closed S (visit_enum_const c m ed ecd b)
  unfolding visit_enum_const scan
  enum_const-Closed m ed ecd true h =
      ctor-Moves "Eenum_const" (λ n. refl) false
      ⟫ up (v.env.name_closed ed)
      ⟫ nbsp-Moves
      ⟫ up (v.env.unqualified_closed ecd)
      ⟫ end_ctor-Moves
  enum_const-Closed m ed ecd false h =
      ctor-Moves "Eenum_const_at" (λ n. refl) false
      ⟫ up (v.env.name_closed ed)
      ⟫ nbsp-Moves
      ⟫ up (v.env.unqualified_closed ecd)
      ⟫ nbsp-Moves
      ⟫ done-Moves c v m with_type h

  pub decl_ref-Closed :
      (m : Meta) (d : DeclRef) (names : OpaqueNames)
      → QualSupported S c.env.templates m.type
      → RefSupported S c.env.templates c.lambda_class d
      → Closed S (visit_decl_ref c m d names)
  unfolding visit_decl_ref visit_template_param scan
  decl_ref-Closed m missing names hm h = die-Moves h
  decl_ref-Closed m (captured d name t) names hm h = captured-Closed m c.lambda_class d name t hm h
  decl_ref-Closed m (enum_const ed ecd b) names hm h = enum_const-Closed m ed ecd b hm
  decl_ref-Closed m (template_param d depth index) names hm h =
      if-Closed c.env.templates
        (with_ctor-Closed "Eparam" (λ n. refl) false (v.env.unqualified_closed d))
        (v.env.non_type_param_closed depth index)
  decl_ref-Closed m (value w) names hm h = value_decl-Closed w names h

  captured_this-Closed :
      (l : Lambda) (t : Option QualType)
      → ThisSupported S c.env.templates (some (record l { this_type = t }))
      → Closed S (visit_captured_this c l t)
  unfolding visit_captured_this scan
  captured_this-Closed l none h = assert_false-Moves h
  captured_this-Closed l (some t) h =
      ctor-Moves "Ecapture_this" (λ n. refl) false
      ⟫ print_qualifier-Moves l.is_const l.is_volatile
      ⟫ nbsp-Moves
      ⟫ up (v.env.name_closed l.class)
      ⟫ nbsp-Moves
      ⟫ up (qual_type-Closed c v t h)
      ⟫ end_ctor-Moves

  pub this-Closed :
      (m : Meta) (l : Option Lambda)
      → QualSupported S c.env.templates m.type
      → ThisSupported S c.env.templates l
      → Closed S (visit_this c m l)
  unfolding visit_this scan
  this-Closed m none hm h = ctor-Moves "Ethis" (λ n. refl) false ⟫ done-Moves c v m with_type hm
  this-Closed m (some l) hm h = captured_this-Closed l l.this_type h

  pub dependent_name-Closed :
      (n : DependentName)
      → DependentSupported S c.env.templates n
      → Closed S (print_dependent_name c n)
  unfolding print_dependent_name scan
  dependent_name-Closed (scope_member t n) h =
      with_ctor-Closed "Ndependent" (λ k. refl) true
        (with_ctor-Closed "Tresult_member" (λ k. refl) true
          (qual_type-Closed c v t h ⟫ nbsp-Moves ⟫ v.env.unresolved_closed n))
  dependent_name-Closed (scope_ref n) h = v.env.unresolved_closed n
  dependent_name-Closed (lookup n) h = v.env.unresolved_closed n
  dependent_name-Closed unresolved_member h =
      text-Moves "(Nunsupported \"VisitUnresolvedMemberExpr\")" (λ n. refl)
  dependent_name-Closed (other_name text) h =
      ctor-Moves "Nunsupported" (λ n. refl) true ⟫ str-Moves text ⟫ end_ctor-Moves

  pub unresolved_global-Closed :
      (m : Meta) (n : ℕ)
      → QualSupported S c.env.templates m.type
      → Closed S (visit_unresolved_global c m n)
  unfolding visit_unresolved_global scan
  unresolved_global-Closed m n h =
      if-Closed (not c.env.templates) (unsupported-Closed c v m h)
        (with_ctor-Closed "Eunresolved_global" (λ k. refl) false (v.env.unresolved_closed n))
