-- ===== src/PrintExpr/Bytes.antt =====
-- The characters of a string literal as numbers (`VisitStringLiteral` of PrintExpr.cpp).
use Prim.Native.Nat.{max, digits, bit_or, bit_or-bitwise}
use native.Mathlib.Nat.{mod-eq_of_lt}
use mathlib.Core.List.{reverse_aux}
use cpp2v.Common.{
  ℕ, zero, suc, ◌+◌, ◌*◌, ◌/◌, ◌%◌, ◌≤◌, ◌<◌, ◌≡◌, ◌∙◌, refl, sym, ap, Bool, List, [], ◌∷◌, ◌++◌,
  map, if◌then◌else◌, length, length-append, All, arith, subst,
}
use cpp2v.PrintExpr.{push_byte, big_endian, little_endian, take, drop, char_loop, chars}

-- The law of `|` for the lowest digit, from the definition that the native operation stands for.
abbrev or_digits : ℕ → ℕ → ℕ → ℕ
or_digits n a b = digits (λ b. b) max n a b

or_digits_fuel : (n m a b : ℕ) → a ≤ n → a ≤ m → or_digits n a b ≡ or_digits m a b
or_digits_fuel zero zero a b p q = refl
or_digits_fuel zero (suc m) zero b p q = refl
or_digits_fuel zero (suc m) (suc a) b p q = absurd (omega arith)
or_digits_fuel (suc n) zero zero b p q = refl
or_digits_fuel (suc n) zero (suc a) b p q = absurd (omega arith)
or_digits_fuel (suc n) (suc m) zero b p q = refl
or_digits_fuel (suc n) (suc m) (suc a) b p q =
    omega (arith, or_digits_fuel n m (suc a / 2) (b / 2) (omega arith) (omega arith))

zero-bit_or : (b : ℕ) → bit_or 0 b ≡ b
zero-bit_or b = bit_or-bitwise 0 b

bit_or_step : (a b : ℕ) → bit_or a b ≡ bit_or (a / 2) (b / 2) * 2 + max (a % 2) (b % 2)
bit_or_step zero b = omega (arith, zero-bit_or b, zero-bit_or (b / 2))
bit_or_step (suc a) b = omega (
  arith,
  bit_or-bitwise (suc a) b,
  bit_or-bitwise (suc a / 2) (b / 2),
  or_digits_fuel a (suc a / 2) (suc a / 2) (b / 2) (omega arith) (omega arith),
)

bit_or-zero_fuel : (n a : ℕ) → a ≤ n → bit_or a 0 ≡ a
bit_or-zero_fuel n zero h = refl
bit_or-zero_fuel zero (suc a) h = absurd (omega arith)
bit_or-zero_fuel (suc n) (suc a) h =
    omega (arith, bit_or_step (suc a) 0, bit_or-zero_fuel n (suc a / 2) (omega arith))

-- `x` shifted to the left.
abbrev shifted : ℕ → ℕ → ℕ
shifted zero x = x
shifted (suc k) x = shifted k x * 2

bit_or-double : (y b : ℕ) → bit_or y (b / 2) ≡ y + b / 2 → bit_or (y * 2) b ≡ y * 2 + b
bit_or-double y b h = omega (arith, bit_or_step (y * 2) b, halved (y * 2 / 2) (omega arith))
  where
    halved : (z : ℕ) → z ≡ y → bit_or z (b / 2) ≡ y + b / 2
    halved z e = ap (λ z. bit_or z (b / 2)) e ∙ h

bit_or-shifted : (k x b : ℕ) → b < shifted k 1 → bit_or (shifted k x) b ≡ shifted k x + b
bit_or-shifted zero x zero h = omega (arith, bit_or-zero_fuel x x (omega arith))
bit_or-shifted zero x (suc b) h = absurd (omega arith)
bit_or-shifted (suc k) x b h =
    bit_or-double (shifted k x) b (bit_or-shifted k x (b / 2) (omega arith))

bit_or-byte : (x b : ℕ) → b < 256 → bit_or (x * 256) b ≡ x * 256 + b
bit_or-byte x b h =
    ap (λ z. bit_or z b) (omega arith) ∙ bit_or-shifted 8 x b (omega arith) ∙ omega arith

-- The number that bytes are, the last one first: the reference for the loops of `VisitStringLiteral`.
abbrev of_bytes : List ℕ → ℕ
of_bytes [] = 0
of_bytes (b ∷ bs) = of_bytes bs * 256 + b

abbrev IsByte : ℕ → Type 0
IsByte b = b < 256

-- The end of the numbers of `n` bytes.
abbrev limit : ℕ → ℕ
limit zero = 1
limit (suc n) = limit n * 256

limit-positive : (n : ℕ) → 0 < limit n
limit-positive zero = omega arith
limit-positive (suc n) = omega (arith, limit-positive n)

limit_mono : (n k : ℕ) → n ≤ k → limit n ≤ limit k
limit_mono zero k h = omega (arith, limit-positive k)
limit_mono (suc n) zero h = absurd (omega arith)
limit_mono (suc n) (suc k) h = omega (arith, limit_mono n k (omega arith))

-- Bytes are a number of as many bytes.
pub of_bytes-bound : (bs : List ℕ) → All IsByte bs → of_bytes bs < limit (length bs)
of_bytes-bound [] h = omega arith
of_bytes-bound (b ∷ bs) h = omega (arith, of_bytes-bound bs h.1, h.0)

-- Up to eight bytes, nothing is lost.
push_byte-of_bytes :
    (bs : List ℕ) (b : ℕ)
    → length bs < 8
    → All IsByte bs
    → IsByte b
    → push_byte (of_bytes bs) b ≡ of_bytes (b ∷ bs)
unfolding push_byte
push_byte-of_bytes bs b l hs h =
    ap (λ z. bit_or z b)
      (mod-eq_of_lt (omega (arith, of_bytes-bound bs hs, limit_mono (length bs) 7 (omega arith))))
    ∙ bit_or-byte (of_bytes bs) b h

-- On a little-endian machine the inner loop computes the number that the bytes of a character are, with the
-- last byte as the highest, for up to eight bytes.
pub little_endian-of_bytes :
    (bs : List ℕ) → length bs ≤ 8 → All IsByte bs → little_endian bs ≡ of_bytes bs
unfolding little_endian
little_endian-of_bytes [] l h = refl
little_endian-of_bytes (b ∷ bs) l h =
    ap (λ z. push_byte z b) (little_endian-of_bytes bs (omega arith) h.1)
    ∙ push_byte-of_bytes bs b (omega arith) h.1 h.0

big_endian-of_bytes :
    (cs bs : List ℕ)
    → length cs + length bs ≤ 8
    → All IsByte cs
    → All IsByte bs
    → big_endian (of_bytes cs) bs ≡ of_bytes (reverse_aux bs cs)
unfolding big_endian
big_endian-of_bytes cs [] l hc h = refl
big_endian-of_bytes cs (b ∷ bs) l hc h =
    ap (λ z. big_endian z bs) (push_byte-of_bytes cs b (omega arith) hc h.0)
    ∙ big_endian-of_bytes (b ∷ cs) bs (omega arith) (h.0, hc) h.1

All-reverse_aux : (bs cs : List ℕ) → All IsByte bs → All IsByte cs → All IsByte (reverse_aux bs cs)
All-reverse_aux [] cs h hc = hc
All-reverse_aux (b ∷ bs) cs h hc = All-reverse_aux bs (b ∷ cs) h.1 (h.0, hc)

length-reverse_aux : (bs cs : List ℕ) → length (reverse_aux bs cs) ≡ length bs + length cs
length-reverse_aux [] cs = omega arith
length-reverse_aux (b ∷ bs) cs = omega (arith, length-reverse_aux bs (b ∷ cs))

-- The two inner loops agree up to the order of the bytes: what the one computes of a character of up to
-- eight bytes, the other computes of its bytes in reverse.
pub big_endian-little_endian :
    (bs : List ℕ)
    → length bs ≤ 8
    → All IsByte bs
    → big_endian 0 bs ≡ little_endian (reverse_aux bs [])
big_endian-little_endian bs l h =
    big_endian-of_bytes [] bs (omega arith) tt h
    ∙ sym (
        little_endian-of_bytes (reverse_aux bs []) (omega (arith, length-reverse_aux bs []))
          (All-reverse_aux bs [] h tt))

-- A character of `n` bytes, up to eight, is a number below 256 to the `n`, on either kind of machine.
pub character-bound :
    (bs : List ℕ)
    → length bs ≤ 8
    → All IsByte bs
    → (little_endian bs < limit (length bs)) × (big_endian 0 bs < limit (length bs))
character-bound bs l h = (
  subst (λ z. z < limit (length bs)) (sym (little_endian-of_bytes bs l h)) (of_bytes-bound bs h),
  subst (λ z. z < limit (length bs)) (sym (big_endian-of_bytes [] bs (omega arith) tt h))
      (subst (λ n. of_bytes (reverse_aux bs []) < limit n) (length-reverse_aux bs [] ∙ omega arith)
        (of_bytes-bound (reverse_aux bs []) (All-reverse_aux bs [] h tt))),
)

length-drop : (n : ℕ) (bs : List ℕ) → length (drop n bs) ≤ length bs
unfolding drop
length-drop zero bs = omega arith
length-drop (suc n) [] = omega arith
length-drop (suc n) (b ∷ bs) = omega (arith, length-drop n bs)

-- More fuel than there are bytes makes no difference.
char_loop_fuel :
    (is_big : Bool) (w f g : ℕ) (bs : List ℕ)
    → length bs ≤ f
    → length bs ≤ g
    → char_loop is_big (suc w) f bs ≡ char_loop is_big (suc w) g bs
unfolding char_loop drop
char_loop_fuel is_big w f g [] hf hg = refl
char_loop_fuel is_big w zero g (b ∷ bs) hf hg = absurd (omega arith)
char_loop_fuel is_big w (suc f) zero (b ∷ bs) hf hg = absurd (omega arith)
char_loop_fuel is_big w (suc f) (suc g) (b ∷ bs) hf hg =
    ap
      (λ ks.
        (if is_big
          then big_endian 0 (take (suc w) (b ∷ bs))
          else little_endian (take (suc w) (b ∷ bs)))
        ∷ ks)
      (char_loop_fuel is_big w f g (drop w bs) (omega (arith, length-drop w bs))
        (omega (arith, length-drop w bs)))

take-append : (xs ys : List ℕ) → take (length xs) (xs ++ ys) ≡ xs
unfolding take
take-append [] ys = refl
take-append (x ∷ xs) ys = ap (λ zs. x ∷ zs) (take-append xs ys)

drop-append : (xs ys : List ℕ) → drop (length xs) (xs ++ ys) ≡ ys
unfolding drop
drop-append [] ys = refl
drop-append (x ∷ xs) ys = drop-append xs ys

abbrev character : Bool → List ℕ → ℕ
character is_big bs = if is_big then big_endian 0 bs else little_endian bs

abbrev concat : List (List ℕ) → List ℕ
concat [] = []
concat (bs ∷ bss) = bs ++ concat bss

chars-append :
    (is_big : Bool) (w b : ℕ) (bs ys : List ℕ)
    → length bs ≡ w
    → chars is_big (suc w) (b ∷ (bs ++ ys)) ≡ character is_big (b ∷ bs) ∷ chars is_big (suc w) ys
unfolding chars char_loop take drop
chars-append is_big w b bs ys e =
    subst
      (λ k.
        chars is_big (suc k) (b ∷ (bs ++ ys)) ≡ character is_big (b ∷ bs) ∷ chars is_big (suc k) ys)
      e
      (rw (take-append bs ys, drop-append bs ys)
        (ap (λ ks. character is_big (b ∷ bs) ∷ ks)
          (char_loop_fuel is_big (length bs) (length (bs ++ ys)) (length ys) ys
            (omega (arith, length-append bs ys)) (omega arith))))

chars-nil : (is_big : Bool) (w : ℕ) → chars is_big w [] ≡ []
unfolding chars char_loop
chars-nil is_big w = refl

-- The loop over a string literal reads it character by character: the bytes of characters that have `w + 1`
-- bytes each are read as the numbers of these characters. The number of bytes is fuel enough.
pub chars-concat :
    (is_big : Bool) (w : ℕ) (bss : List (List ℕ))
    → All (λ bs. length bs ≡ suc w) bss
    → chars is_big (suc w) (concat bss) ≡ map (character is_big) bss
chars-concat is_big w [] h = chars-nil is_big (suc w)
chars-concat is_big w ([] ∷ bss) h = absurd (omega (arith, h.0))
chars-concat is_big w ((b ∷ bs) ∷ bss) h =
    chars-append is_big w b bs (concat bss) (omega (arith, h.0))
    ∙ ap (λ ks. character is_big (b ∷ bs) ∷ ks) (chars-concat is_big w bss h.1)
