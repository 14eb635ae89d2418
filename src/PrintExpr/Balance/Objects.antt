-- ===== src/PrintExpr/Balance/Objects.antt =====
-- Members, initializers, `new`, `delete` and the like keep the depth and the brackets (PrintExpr.cpp).
use cpp2v.Common.{
  ℕ, String, refl, Bool, true, false, List, [], ◌∷◌, Option, none, some, not, codes, All,
}
use cpp2v.Formatter.{Printer}
use cpp2v.Formatter.Brackets.{scan}
use cpp2v.Formatter.Balance.{Closed, ◌⟫◌, text-Moves, nbsp-Moves, IsLevel}
use cpp2v.CoqPrinter.{with_some}
use cpp2v.CoqPrinter.Balance.{
  up, boolean-Moves, ctor-Moves, end_ctor-Moves, some-Moves, none-Moves, begin_list-Moves,
  end_list-Moves, with_ctor-Closed, list_loop-Moves,
}
use cpp2v.ClangPrinter.{keep_depth}
use cpp2v.ClangPrinter.Balance.{keep_depth-Closed, put_decimal-Moves, die-Moves}
use cpp2v.PrintType.Balance.{Unless, if-Closed}
use cpp2v.PrintType.WellFormed.{QualSupported}
use cpp2v.PrintExpr.{
  Meta, Member, field, enumerator, variable, method, other_member, Context, with_type,
  with_decl_type, print_optional, print_member, visit_member, visit_dependent_member,
  visit_subscript, visit_conditional, visit_binary_conditional, print_items, print_items_or_nil,
  visit_paren_list, visit_transparent, print_initializer, at_most_one, visit_union_list,
  visit_init_list, visit_wrapped,
}
use cpp2v.PrintExpr.Balance.{
  IsContext, assert_false-Moves, assert_that-Moves, list-Closed, qual_type-Closed,
  qual_option-Closed, done-Moves, done_type-Moves, unsupported-Closed,
}
use cpp2v.PrintExpr.Balance.Calls.{print_list-Closed}

abbrev pub MemberSupported : Type 0 → Bool → Member → Type 0
MemberSupported S templates (field d b t) = QualSupported S templates t
MemberSupported S templates (enumerator d) = Unit
MemberSupported S templates (variable d is_static t) =
    Unless is_static S × QualSupported S templates t
MemberSupported S templates (method d t) = QualSupported S templates t
MemberSupported S templates other_member = S

-- The printer of an operand that may be absent.
abbrev pub OptClosed : Type 0 → Option Printer → Type 0
OptClosed S none = Unit
OptClosed S (some p) = Closed S p

module _ {S : Type 0} where
  pub optional-Closed : (o : Option Printer) → OptClosed S o → Closed S (print_optional o)
  unfolding print_optional
  optional-Closed none h = none-Moves
  optional-Closed (some p) h = some-Moves ⟫ up (keep_depth-Closed h) ⟫ end_ctor-Moves

  pub items-Closed : (ps : List Printer) → All (Closed S) ps → Closed S (print_items ps)
  unfolding print_items
  items-Closed ps hs =
      begin_list-Moves ⟫ list_loop-Moves keep_depth ps (list-Closed S ps hs) ⟫ end_list-Moves

  items_or_nil-Closed : (ps : List Printer) → All (Closed S) ps → Closed S (print_items_or_nil ps)
  unfolding print_items_or_nil scan
  items_or_nil-Closed [] hs = text-Moves "nil" (λ n. refl)
  items_or_nil-Closed (p ∷ ps) hs = items-Closed (p ∷ ps) hs

  pub wrapped-Closed :
      (name : String) {p : Printer}
      → IsLevel (codes name)
      → Closed S p
      → Closed S (visit_wrapped name p)
  unfolding visit_wrapped
  wrapped-Closed name n hp = ctor-Moves name n true ⟫ up (keep_depth-Closed hp) ⟫ end_ctor-Moves

  initializer-Closed : (ps : List Printer) → All (Closed S) ps → Closed S (print_initializer ps)
  unfolding print_initializer with_some scan
  initializer-Closed [] hs = none-Moves
  initializer-Closed (p ∷ ps) hs = with_ctor-Closed "Some" (λ n. refl) true (keep_depth-Closed hs.0)

-- Is there one operand?
unfoldable pub is_one : List Printer → Bool
is_one [] = false
is_one (p ∷ []) = true
is_one (p ∷ q ∷ ps) = false

pub transparent-Closed :
    {S : Type 0} (ps : List Printer)
    → All (Closed S) ps
    → Unless (is_one ps) S
    → Closed S (visit_transparent ps)
unfolding visit_transparent is_one
transparent-Closed [] hs h = assert_false-Moves h
transparent-Closed (p ∷ []) hs h = keep_depth-Closed hs.0
transparent-Closed (p ∷ q ∷ ps) hs h = assert_false-Moves h

module _ {S : Type 0} (c : Context) (v : IsContext S c) where
  member_name-Closed :
      (k : Member) → MemberSupported S c.env.templates k → Closed S (print_member c k)
  unfolding print_member scan
  member_name-Closed (field d b t) h =
      with_ctor-Closed "Field" (λ n. refl) false
        (v.env.field_closed d
          ⟫ nbsp-Moves
          ⟫ boolean-Moves b
          ⟫ nbsp-Moves
          ⟫ qual_type-Closed c v t h)
  member_name-Closed (enumerator d) h =
      with_ctor-Closed "Enum" (λ n. refl) false (v.env.name_closed d)
  member_name-Closed (variable d is_static t) h =
      assert_that-Moves is_static h.0
      ⟫ with_ctor-Closed "Static" (λ n. refl) false
          (v.env.name_closed d ⟫ nbsp-Moves ⟫ qual_type-Closed c v t h.1)
  member_name-Closed (method d t) h =
      with_ctor-Closed "Static" (λ n. refl) false
        (v.env.name_closed d ⟫ nbsp-Moves ⟫ qual_type-Closed c v t h)
  member_name-Closed other_member h = die-Moves h

  pub member-Closed :
      (arrow : Bool) {p : Printer} (k : Member)
      → Closed S p
      → MemberSupported S c.env.templates k
      → Closed S (visit_member c arrow p k)
  unfolding visit_member scan
  member-Closed arrow k hp h =
      ctor-Moves "Emember" (λ n. refl) true
      ⟫ boolean-Moves arrow
      ⟫ nbsp-Moves
      ⟫ up (keep_depth-Closed hp)
      ⟫ nbsp-Moves
      ⟫ up (member_name-Closed k h)
      ⟫ end_ctor-Moves

  pub dependent_member-Closed :
      (arrow : Bool) {p : Printer} (n : ℕ)
      → Closed S p
      → Closed S (visit_dependent_member c arrow p n)
  unfolding visit_dependent_member scan
  dependent_member-Closed arrow n hp =
      with_ctor-Closed "Eunresolved_member" (λ k. refl) true
        (boolean-Moves arrow
          ⟫ nbsp-Moves
          ⟫ keep_depth-Closed hp
          ⟫ nbsp-Moves
          ⟫ v.env.unresolved_closed n)

  pub subscript-Closed :
      (m : Meta) {p q : Printer}
      → QualSupported S c.env.templates m.type
      → Closed S p
      → Closed S q
      → Closed S (visit_subscript c m p q)
  unfolding visit_subscript scan
  subscript-Closed m h hp hq =
      ctor-Moves "Esubscript" (λ n. refl) true
      ⟫ up (keep_depth-Closed hp)
      ⟫ nbsp-Moves
      ⟫ up (keep_depth-Closed hq)
      ⟫ done_type-Moves c v m h

  pub conditional-Closed :
      (m : Meta) {p q r : Printer}
      → QualSupported S c.env.templates m.type
      → Closed S p
      → Closed S q
      → Closed S r
      → Closed S (visit_conditional c m p q r)
  unfolding visit_conditional scan
  conditional-Closed m h hp hq hr =
      ctor-Moves "Eif" (λ n. refl) true
      ⟫ up (keep_depth-Closed hp)
      ⟫ nbsp-Moves
      ⟫ up (keep_depth-Closed hq)
      ⟫ nbsp-Moves
      ⟫ up (keep_depth-Closed hr)
      ⟫ done-Moves c v m with_decl_type h

  pub binary_conditional-Closed :
      (m : Meta) (index : ℕ) {p q r t : Printer}
      → QualSupported S c.env.templates m.type
      → Closed S p
      → Closed S q
      → Closed S r
      → Closed S t
      → Closed S (visit_binary_conditional c m index p q r t)
  unfolding visit_binary_conditional scan
  binary_conditional-Closed m index h hp hq hr ht =
      ctor-Moves "Eif2" (λ n. refl) true
      ⟫ put_decimal-Moves c.env index v.env
      ⟫ nbsp-Moves
      ⟫ up (keep_depth-Closed hp)
      ⟫ nbsp-Moves
      ⟫ up (keep_depth-Closed hq)
      ⟫ nbsp-Moves
      ⟫ up (keep_depth-Closed hr)
      ⟫ nbsp-Moves
      ⟫ up (keep_depth-Closed ht)
      ⟫ done-Moves c v m with_decl_type h

  pub paren_list-Closed :
      (m : Meta) (ps : List Printer)
      → QualSupported S c.env.templates m.type
      → All (Closed S) ps
      → Closed S (visit_paren_list c m ps)
  unfolding visit_paren_list scan
  paren_list-Closed m ps h hs = if-Closed (not c.env.templates) (unsupported-Closed c v m h) (
      ctor-Moves "Eunresolved_parenlist" (λ n. refl) true
      ⟫ up (qual_option-Closed c v m h)
      ⟫ nbsp-Moves
      ⟫ up (items_or_nil-Closed ps hs)
      ⟫ end_ctor-Moves)

  pub union_list-Closed :
      (m : Meta) (d : ℕ) (ps : List Printer) (has_filler : Bool)
      → QualSupported S c.env.templates m.type
      → Unless (at_most_one ps) S
      → Unless (not has_filler) S
      → All (Closed S) ps
      → Closed S (visit_union_list c m d ps has_filler)
  unfolding visit_union_list scan
  union_list-Closed m d ps has_filler h h1 h2 hs =
      ctor-Moves "Einitlist_union" (λ n. refl) true
      ⟫ assert_that-Moves (at_most_one ps) h1
      ⟫ assert_that-Moves (not has_filler) h2
      ⟫ up (v.env.field_closed d)
      ⟫ nbsp-Moves
      ⟫ up (initializer-Closed ps hs)
      ⟫ done-Moves c v m with_type h

  pub init_list-Closed :
      (m : Meta) (ps : List Printer) (o : Option Printer)
      → QualSupported S c.env.templates m.type
      → All (Closed S) ps
      → OptClosed S o
      → Closed S (visit_init_list c m ps o)
  unfolding visit_init_list scan
  init_list-Closed m ps o h hs ho =
      ctor-Moves "Einitlist" (λ n. refl) true
      ⟫ up (print_list-Closed ps hs)
      ⟫ nbsp-Moves
      ⟫ up (optional-Closed o ho)
      ⟫ done-Moves c v m with_type h
