-- ===== src/PrintDecl/Supported.antt =====
-- What the program refuses in a structure or union before it prints it, and where it may stop all the same
-- (`supportedRecord` of PrintDecl.cpp).
use cpp2v.Common.{
  ℕ, ◌≡◌, refl, Bool, true, false, List, [], ◌∷◌, Option, none, some, All, if◌then◌else◌,
}
use cpp2v.PrintType.{Ty}
use cpp2v.PrintType.WellFormed.{Supported, QualSupported}
use cpp2v.PrintDecl.{Field, Base, unsupported_field, supported_record}

-- A base has a type, and outside of templates a class.
abbrev pub ClassSupported : Type 0 → Option ℕ → Type 0
ClassSupported S none = S
ClassSupported S (some d) = Unit

abbrev pub BaseSupported : Type 0 → Bool → Option Ty → Option ℕ → Type 0
BaseSupported S templates none class = S
BaseSupported S templates (some t) class =
    (templates ≡ true → Supported S templates t) × (templates ≡ false → ClassSupported S class)

abbrev pub BasesSupported : Type 0 → Bool → List Base → Type 0
BasesSupported S templates bs = All (λ b. BaseSupported S templates b.type b.class) bs

abbrev pub FieldsSupported : Type 0 → Bool → List Field → Type 0
FieldsSupported S templates xs = All (λ x. QualSupported S templates x.type) xs

abbrev pub AllPlain : List Base → Type 0
AllPlain bs = All (λ b. b.is_virtual ≡ false) bs

abbrev pub NoBits : List Field → Type 0
NoBits xs = All (λ x. x.is_bit_field ≡ false) xs

-- A test whose message was not given did not hold.
no_message :
    (b : Bool) (message : List ℕ) (rest : Option (List ℕ))
    → (if b then some message else rest) ≡ none
    → (b ≡ false) × (rest ≡ none)
no_message true message rest h = absurd cc
no_message false message rest h = (refl, h)

-- What is not refused has no virtual bases and no bit fields.
unsupported_field-NoBits : (xs : List Field) → unsupported_field xs ≡ none → NoBits xs
unfolding unsupported_field
unsupported_field-NoBits [] h = tt
unsupported_field-NoBits (x ∷ xs) h =
    let r = no_message x.is_bit_field _ _ h in
    (r.0, unsupported_field-NoBits xs (no_message x.is_invalid _ _ r.1).1)

pub supported_record-AllPlain :
    (bs : List Base) (xs : List Field) → supported_record bs xs ≡ none → AllPlain bs × NoBits xs
unfolding supported_record
supported_record-AllPlain [] xs h = (tt, unsupported_field-NoBits xs h)
supported_record-AllPlain (b ∷ bs) xs h =
    let r = no_message b.is_virtual _ _ h in
    let q = supported_record-AllPlain bs xs r.1 in ((r.0, q.0), q.1)
