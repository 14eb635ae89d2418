-- ===== src/ClangPrinter/Labels.antt =====
-- The parameters of a function are told apart by what they are printed as (`printParamName`).
use native.Mathlib.Nat.{mod-eq_of_lt}
use cpp2v.Common.{
  ℕ, suc, ◌+◌, ◌%◌, ◌^◌, ◌≤◌, ◌<◌, ◌≡◌, ◌≢◌, ◌⊎◌, inl, inr, refl, sym, ◌∙◌, ap, Bool, true, false,
  List, [], ◌∷◌, Option, none, some, ◌==◌, ==_iff, ==_refl, if◌then◌else◌, length, All, arith,
}
use cpp2v.ClangPrinter.Params.{
  Param, is_same, Label, named, positioned, label_of, next_offset, find_label,
}

-- No parameter has the identifier.
abbrev pub Absent : ℕ → List Param → Type 0
Absent k ps = All (λ p. p.ident ≢ some k) ps

-- The parameters with the identifier stand at the front.
abbrev pub Run : ℕ → List Param → Type 0
Run k [] = Unit
Run k (p ∷ ps) = ((p.ident ≡ some k) × Run k ps) ⊎ Absent k (p ∷ ps)

-- Parameters with the same identifier stand side by side, as those of a pack do.
abbrev pub Contiguous : List Param → Type 0
Contiguous [] = Unit
Contiguous (p ∷ ps) = ((k : ℕ) → p.ident ≡ some k → Run k ps) × Contiguous ps

-- The head is the declaration, or the search goes on.
split :
    {P : Type 0} (b : Bool) (x y r : Option Label)
    → (if b then x else y) ≡ r
    → (b ≡ true → x ≡ r → P)
    → (b ≡ false → y ≡ r → P)
    → P
split true x y r h f g = f refl h
split false x y r h f g = g refl h

label_of-named :
    (o : Option ℕ) (i offset k m : ℕ)
    → some (label_of o i offset) ≡ some (named k m)
    → (o ≡ some k) × (offset ≡ m)
unfolding label_of
label_of-named none i offset k m h = absurd (cc)
label_of-named (some j) i offset k m h = (cc, cc)

label_of-positioned :
    (o : Option ℕ) (i offset n : ℕ) → some (label_of o i offset) ≡ some (positioned n) → i ≡ n
unfolding label_of
label_of-positioned none i offset n h = cc
label_of-positioned (some j) i offset n h = absurd cc

next_offset-bound :
    (o info : Option ℕ) (offset : ℕ) → offset + 1 < 2 ^ 32 → next_offset o info offset ≤ offset + 1
unfolding next_offset
next_offset-bound o info offset h = by_test (is_same o info)
  where
    by_test : (b : Bool) → (if b then (offset + 1) % 2 ^ 32 else 0) ≤ offset + 1
    by_test true = omega (arith, mod-eq_of_lt h)
    by_test false = omega arith

next_offset-same :
    (k offset : ℕ) → offset + 1 < 2 ^ 32 → next_offset (some k) (some k) offset ≡ offset + 1
unfolding next_offset is_same
next_offset-same k offset h = rw (==_refl k) (mod-eq_of_lt h)

find_label-positioned :
    (d : ℕ) (ps : List Param) (j : ℕ) (info : Option ℕ) (offset n : ℕ)
    → find_label d ps j info offset ≡ some (positioned n)
    → j ≤ n
unfolding find_label
find_label-positioned d [] j info offset n h = absurd cc
find_label-positioned d (p ∷ ps) j info offset n h =
    split (p.decl == d) _ _ _ h (λ e q. omega (arith, label_of-positioned p.ident j _ n q))
      (λ e q. omega (arith, find_label-positioned d ps (suc j) p.ident _ n q))

find_label-Absent :
    (d k : ℕ) (ps : List Param) (j : ℕ) (info : Option ℕ) (offset m : ℕ)
    → Absent k ps
    → find_label d ps j info offset ≢ some (named k m)
unfolding find_label
find_label-Absent d k [] j info offset m a h = absurd cc
find_label-Absent d k (p ∷ ps) j info offset m a h =
    split (p.decl == d) _ _ _ h (λ e q. a.0 (label_of-named p.ident j _ k m q).0)
      (λ e q. find_label-Absent d k ps (suc j) p.ident _ m a.1 q)

-- In a run, the offsets count up.
find_label-Run :
    (d k : ℕ) (ps : List Param) (j offset m : ℕ)
    → Run k ps
    → offset + length ps < 2 ^ 32
    → find_label d ps j (some k) offset ≡ some (named k m)
    → offset < m
unfolding find_label
find_label-Run d k [] j offset m a l h = absurd cc
find_label-Run d k (p ∷ ps) j offset m (inr a) l h =
    absurd (find_label-Absent d k (p ∷ ps) j (some k) offset m a h)
find_label-Run d k (p ∷ ps) j offset m (inl (e, a)) l h =
    split (p.decl == d) _ _ _ h
      (λ t q. omega (arith, (label_of-named p.ident j _ k m q).1, counted))
      (λ t q. omega (
        arith,
        counted,
        find_label-Run d k ps (suc j) (next_offset p.ident (some k) offset) m a
            (omega (arith, counted))
            (ap (λ o. find_label d ps (suc j) o (next_offset p.ident (some k) offset)) (sym e) ∙ q),
      ))
  where
    counted : next_offset p.ident (some k) offset ≡ offset + 1
    counted = ap (λ o. next_offset o (some k) offset) e ∙ next_offset-same k offset (omega arith)

-- What the head is printed as is no label of a later parameter.
head-Distinct :
    (o : Option ℕ) (e : ℕ) (ps : List Param) (i offset : ℕ) (b : Label)
    → ((k : ℕ) → o ≡ some k → Run k ps)
    → offset + length ps < 2 ^ 32
    → find_label e ps (suc i) o offset ≡ some b
    → label_of o i offset ≢ b
unfolding label_of
head-Distinct none e ps i offset b h l q r =
    let n = find_label-positioned e ps (suc i) none offset i (q ∙ ap some (sym r)) in
    absurd (omega (arith, n))
head-Distinct (some k) e ps i offset b h l q r =
    let n = find_label-Run e k ps (suc i) offset offset (h k refl) l (q ∙ ap some (sym r)) in
    absurd (omega (arith, n))

labels-Distinct :
    (d e : ℕ) (ps : List Param) (i : ℕ) (info : Option ℕ) (offset : ℕ) (a b : Label)
    → d ≢ e
    → Contiguous ps
    → offset + length ps < 2 ^ 32
    → find_label d ps i info offset ≡ some a
    → find_label e ps i info offset ≡ some b
    → a ≢ b
unfolding find_label
labels-Distinct d e [] i info offset a b ne h l hd he r = absurd cc
labels-Distinct d e (p ∷ ps) i info offset a b ne h l hd he r =
    split (p.decl == d) _ _ _ hd
      (λ t q.
        split (p.decl == e) _ _ _ he
          (λ u s. ne (sym ((==_iff p.decl d).0 t) ∙ (==_iff p.decl e).0 u))
          (λ u s. head-Distinct p.ident e ps i next b h.0 bounded s (injected q ∙ r)))
      (λ t q.
        split (p.decl == e) _ _ _ he
          (λ u s. head-Distinct p.ident d ps i next a h.0 bounded q (injected s ∙ sym r))
          (λ u s. labels-Distinct d e ps (suc i) p.ident next a b ne h.1 bounded q s r))
  where
    next : ℕ
    next = next_offset p.ident info offset

    bounded : next_offset p.ident info offset + length ps < 2 ^ 32
    bounded = omega (arith, next_offset-bound p.ident info offset (omega arith))

    injected : {x y : Label} → some x ≡ some y → x ≡ y
    injected z = cc

-- Two parameters of a function are printed as different labels, if parameters with the same identifier stand
-- side by side, and there are fewer parameters than an `unsigned` can count.
pub find_label-Distinct :
    (ps : List Param) (d e : ℕ) (a b : Label)
    → d ≢ e
    → Contiguous ps
    → length ps < 2 ^ 32
    → find_label d ps 0 none 0 ≡ some a
    → find_label e ps 0 none 0 ≡ some b
    → a ≢ b
find_label-Distinct ps d e a b ne h l hd he =
    labels-Distinct d e ps 0 none 0 a b ne h (omega arith) hd he
