-- ===== src/PrintDecl/WellFormed.antt =====
-- The printed form of structures and unions keeps the depth and the brackets, and what the program dies on in
-- them is found before (PrintDecl.cpp).
use cpp2v.Common.{◌≡◌, ◌≢◌, refl, Bool, true, false, not}
use cpp2v.Formatter.{Printer}
use cpp2v.Formatter.Brackets.{scan}
use cpp2v.Formatter.Balance.{Closed, stopped, asserts, ◌⟫◌, nbsp-Moves, line-Moves, put_bool-Moves}
use cpp2v.CoqPrinter.{with_some}
use cpp2v.CoqPrinter.Balance.{none-Moves, with_ctor-Closed, printed}
use cpp2v.PrintType.Balance.{Unless, if-Closed}
use cpp2v.PrintDecl.{
  DeclEnv, IsDeclEnv, Heading, Record, is_struct, is_union, checked, print_struct, print_union,
  supported_record, print_struct_decl, print_union_decl,
}
use cpp2v.PrintDecl.Balance.{declaration-Closed}
use cpp2v.PrintDecl.Supported.{
  BasesSupported, FieldsSupported, AllPlain, NoBits, supported_record-AllPlain,
}
use cpp2v.PrintDecl.Parts.{
  fields-Closed, bases-Closed, virtuals-Closed, overrides-Closed, delete_name-Closed,
  layout_type-Closed, size_align-Closed,
}

checked-Closed :
    {S : Type 0} (b : Bool) {p : Printer} → Unless b S → Closed S p → Closed S (checked b p)
unfolding checked
checked-Closed true h hp = hp
checked-Closed false h hp = record { room = 0; at = λ k f l e. stopped h asserts }

module _ {S : Type 0} (c : DeclEnv) (v : IsDeclEnv S c) (r : Record) where
  some-Closed : {p : Printer} → Closed S p → Closed S (with_some true p)
  unfolding with_some scan
  some-Closed hp = with_ctor-Closed "Some" (λ n. refl) true hp

  -- The structure has no virtual bases and no bit fields.
  struct-Closed :
      AllPlain r.bases
      → NoBits r.fields
      → Unless (is_struct r.tag) S
      → BasesSupported S c.env.templates r.bases
      → FieldsSupported S c.env.templates r.fields
      → Closed S (print_struct c r)
  unfolding print_struct scan
  struct-Closed e n t hb hf = checked-Closed (is_struct r.tag) t (
      if-Closed (not r.is_complete) none-Moves (
        some-Closed (
          with_ctor-Closed "Build_Struct" (λ k. refl) true
            (bases-Closed c v _ r.bases e hb
              ⟫ line-Moves
              ⟫ fields-Closed c v _ r.fields n hf
              ⟫ nbsp-Moves
              ⟫ virtuals-Closed c v r.methods
              ⟫ nbsp-Moves
              ⟫ overrides-Closed c v r.methods
              ⟫ nbsp-Moves
              ⟫ v.dtor_closed r.decl
              ⟫ nbsp-Moves
              ⟫ put_bool-Moves r.is_trivial
              ⟫ nbsp-Moves
              ⟫ delete_name-Closed c v r.operator_delete
              ⟫ line-Moves
              ⟫ layout_type-Closed c v r.layout
              ⟫ nbsp-Moves
              ⟫ size_align-Closed c v r))))

  union-Closed :
      NoBits r.fields
      → Unless (is_union r.tag) S
      → FieldsSupported S c.env.templates r.fields
      → Closed S (print_union c r)
  unfolding print_union scan
  union-Closed n t hf = checked-Closed (is_union r.tag) t (
      if-Closed (not r.is_complete) none-Moves (
        some-Closed (
          with_ctor-Closed "Build_Union" (λ k. refl) true
            (fields-Closed c v _ r.fields n hf
              ⟫ nbsp-Moves
              ⟫ v.dtor_closed r.decl
              ⟫ nbsp-Moves
              ⟫ put_bool-Moves r.is_trivial
              ⟫ nbsp-Moves
              ⟫ delete_name-Closed c v r.operator_delete
              ⟫ line-Moves
              ⟫ size_align-Closed c v r))))

true_not_false : {b : Bool} → b ≡ true → b ≢ false
true_not_false e f = absurd cc

-- A structure is printed, or refused, or passed over, with depth and brackets as they were. The program does
-- not die on its virtual bases and bit fields: it refuses the structure before. It may stop only where a base
-- has no type or, outside of templates, no class, where a type in the structure is not supported, where the
-- declaration is neither a class nor a structure, or where a printer of names and expressions stops. This
-- holds from every formatter that is far enough below the end of an `unsigned int`, for a declaration that is
-- a context, and printers of names and expressions that do so too.
pub print_struct_decl-Closed :
    (S : Type 0) (c : DeclEnv) (h : Heading) (r : Record)
    → IsDeclEnv S c
    → h.is_context ≡ true
    → Unless (is_struct r.tag) S
    → BasesSupported S c.env.templates r.bases
    → FieldsSupported S c.env.templates r.fields
    → Closed S (printed (print_struct_decl c h r))
unfolding print_struct_decl scan
print_struct_decl-Closed S c h r v e t hb hf =
    declaration-Closed c v h "Dstruct" (print_struct c r) (λ n. refl)
      (supported_record r.bases r.fields) (λ n. absurd (true_not_false e n))
      (λ n.
        let q = supported_record-AllPlain r.bases r.fields n in struct-Closed c v r q.0 q.1 t hb hf)

-- The same of a union, which has no bases to be printed.
pub print_union_decl-Closed :
    (S : Type 0) (c : DeclEnv) (h : Heading) (r : Record)
    → IsDeclEnv S c
    → h.is_context ≡ true
    → Unless (is_union r.tag) S
    → FieldsSupported S c.env.templates r.fields
    → Closed S (printed (print_union_decl c h r))
unfolding print_union_decl scan
print_union_decl-Closed S c h r v e t hf =
    declaration-Closed c v h "Dunion" (print_union c r) (λ n. refl)
      (supported_record r.bases r.fields) (λ n. absurd (true_not_false e n))
      (λ n. union-Closed c v r (supported_record-AllPlain r.bases r.fields n).1 t hf)
