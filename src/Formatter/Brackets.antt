-- ===== src/Formatter/Brackets.antt =====
-- A reading of the printed text as Coq tokens: string literals and parentheses. It is independent
-- of the printers, and says what it means that their output is well bracketed.
use cpp2v.Common.{
  ℕ, zero, suc, ◌+◌, ◌≡◌, refl, Option, none, some, List, [], ◌∷◌, ◌++◌, ◌==◌, if◌then◌else◌, arith,
  replicate, ◌∙◌,
}

-- Outside of a string literal, or in one.
pub data Mode : Type 0 where
  code quoted : Mode

-- The state of a reader: its mode, and the number of parentheses that are open.
abbrev pub Reader : Type 0
Reader = Mode × ℕ

-- A closing parenthesis needs an open one.
unfoldable pub close : ℕ → Option Reader
close zero = none
close (suc n) = some (code, n)

-- A doubled quote in a literal leaves it and enters it again.
unfoldable pub read : ℕ → Reader → Option Reader
unfolding close
read c (quoted, n) = some (if c == b'"' then code else quoted, n)
read c (code, n) =
    if c == b'"'
    then some (quoted, n)
    else if c == b'('
    then some (code, suc n)
    else if c == b')'
    then close n
    else some (code, n)

abbrev and_then : Option Reader → (Reader → Option Reader) → Option Reader
and_then none k = none
and_then (some r) k = k r

unfoldable pub scan : List ℕ → Reader → Option Reader
unfolding read
scan [] r = some r
scan (c ∷ cs) r = and_then (read c r) (scan cs)

-- From `a` open parentheses beyond those that were open before, to `b`.
pub record Brackets (a b : ℕ) (text : List ℕ) : Type 0 where
  pub at : (n : ℕ) → scan text (code, a + n) ≡ some (code, b + n)

and_then-append :
    (s t : List ℕ) (r' : Reader) (o : Option Reader)
    → ((r : Reader) → scan s r ≡ some r' → scan (s ++ t) r ≡ scan t r')
    → and_then o (scan s) ≡ some r'
    → and_then o (scan (s ++ t)) ≡ scan t r'
and_then-append s t r' none ih h = cc
and_then-append s t r' (some r) ih h = ih r h

pub scan-append : (s t : List ℕ) (r r' : Reader) → scan s r ≡ some r' → scan (s ++ t) r ≡ scan t r'
unfolding scan
scan-append [] t r r' h = ground arith
scan-append (c ∷ s) t r r' h = and_then-append s t r' (read c r) (λ q. scan-append s t q r') h

pub scan-spaces : (k : ℕ) (r : Reader) → scan (replicate k b' ') r ≡ some r
unfolding scan
scan-spaces zero r = refl
scan-spaces (suc k) (code, n) = scan-spaces k (code, n)
scan-spaces (suc k) (quoted, n) = scan-spaces k (quoted, n)

pub Brackets-append :
    {a b c : ℕ} {s t : List ℕ} → Brackets a b s → Brackets b c t → Brackets a c (s ++ t)
Brackets-append {a} {b} {c} {s} {t} hs ht = record {
  at = λ n. scan-append s t (code, a + n) (code, b + n) (hs.at n) ∙ ht.at n;
}

pub Brackets-spaces : (k a : ℕ) → Brackets a a (replicate k b' ')
Brackets-spaces k a = record { at = λ n. scan-spaces k (code, a + n) }
