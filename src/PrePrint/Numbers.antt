-- ===== src/PrePrint/Numbers.antt =====
-- The names that the traversal hands out (PrePrint.cpp): no two types share one, no two declarations do,
-- and the definitions printed are those of the cache.
use cpp2v.Common.{
  ℕ, ◌+◌, ◌%◌, ◌<◌, ◌≤◌, ◌≡◌, refl, ◌∙◌, sym, ap, subst, inl, inr, List, [], ◌∷◌, none, some,
  Option-cases, ◌==◌, ==_iff, if◌then◌else◌, length, arith,
}
use native.Mathlib.Nat.{mod-eq_of_lt}
use cpp2v.Formatter.{ok}
use cpp2v.PrePrint.NameCache.{NameCache, find_entry, fresh, store, lookup}
use cpp2v.PrePrint.Syntax.{Decl}
use cpp2v.PrePrint.Traverse.{Call, State, initial, define_type, define_name, pre_print_all}
use cpp2v.PrePrint.Keeps.{Holds, IsKept, all-Keeps}

-- The names of the entries count up from 2, and no pointer has two.
abbrev pub Numbered : List (ℕ × ℕ) → Type 0
Numbered [] = Unit
Numbered ((p, n) ∷ es) = (n ≡ length es + 2) × ((find_entry p es ≡ none) × Numbered es)

-- This holds as long as the names have not used up `unsigned int`.
pub record IsNumbered (limit : ℕ) (c : NameCache) : Type 0 where
  pub at : length c.entries + 1 < limit → (c.next ≡ length c.entries + 1) × Numbered c.entries

-- A name that is handed out and stored keeps the cache numbered.
store-fresh :
    (limit p : ℕ) (c : NameCache)
    → IsNumbered limit c
    → find_entry p c.entries ≡ none
    → IsNumbered limit
        (record c { entries = (p, (fresh limit c).1) ∷ c.entries; next = (fresh limit c).1 })
unfolding fresh
store-fresh limit p c h e = record {
  at = λ lt.
      let (n, es) = h.at (omega arith) in
      let m : (c.next + 1) % limit ≡ length c.entries + 2 =
        mod-eq_of_lt (omega arith) ∙ omega arith in
      (m ∙ omega arith, (m, (e, es)));
}

-- An entry has a name from 2 to one more than the number of entries.
find-range :
    (es : List (ℕ × ℕ)) (p n : ℕ)
    → Numbered es
    → find_entry p es ≡ some n
    → (2 ≤ n) × (n < length es + 2)
unfolding find_entry
find-range [] p n h e = cc
find-range ((q, m) ∷ es) p n h e = ground (arith, find-range es p n h.1.1)

find-injective :
    (es : List (ℕ × ℕ)) (p q n : ℕ)
    → Numbered es
    → find_entry p es ≡ some n
    → find_entry q es ≡ some n
    → p ≡ q
unfolding find_entry
find-injective [] p q n h e e' = cc
find-injective ((r, m) ∷ es) p q n h e e' = ground (
  arith,
  find-range es p n h.1.1,
  find-range es q n h.1.1,
  find-injective es p q n h.1.1,
  ==_iff p r,
  ==_iff q r,
)

lookup-none : (p : ℕ) (c : NameCache) → find_entry p c.entries ≡ none → lookup p c ≡ 0
unfolding lookup
lookup-none p c e = rw (lookup, e)

lookup-some : (p n : ℕ) (c : NameCache) → find_entry p c.entries ≡ some n → lookup p c ≡ n
unfolding lookup
lookup-some p n c e = rw (lookup, e)

lookup-injective :
    (limit : ℕ) (c : NameCache) (p q : ℕ)
    → IsNumbered limit c
    → length c.entries + 1 < limit
    → (lookup p c ≡ 0 → ⊥)
    → lookup p c ≡ lookup q c
    → p ≡ q
lookup-injective limit c p q h lt ne e = elim (Option-cases (find_entry p c.entries)) [
  | inl ep ↦ elim (ne (lookup-none p c ep)) [ ]
  | inr (n, ep) ↦ elim (Option-cases (find_entry q c.entries)) [
    | inl eq ↦ elim (ne (e ∙ lookup-none q c eq)) [ ]
    | inr (m, eq) ↦
        find-injective c.entries p q n (h.at lt).1 ep
          (eq ∙ ap some (sym (lookup-some q m c eq) ∙ sym e ∙ lookup-some p n c ep))
  ]
]

-- The pointers and names of the calls with one prefix.
abbrev pub selected : ℕ → List Call → List (ℕ × ℕ)
selected x [] = []
selected x (c ∷ cs) = if c.prefix == x then (c.pointee, c.name) ∷ selected x cs else selected x cs

-- Both caches are numbered, and their entries are what the printers were called for, in that order.
pub record IsSound (limit : ℕ) (s : State) : Type 0 where
  pub same_limit : s.limit ≡ limit
  pub types_numbered : IsNumbered s.limit s.types
  pub names_numbered : IsNumbered s.limit s.names
  pub types_called : selected b't' s.calls ≡ s.types.entries
  pub names_called : selected b'n' s.calls ≡ s.names.entries

IsSound-IsKept : (limit : ℕ) → IsKept (IsSound limit)
unfolding define_type define_name store
IsSound-IsKept limit = record {
  type_kept = λ p s h. elim (Option-cases (find_entry p s.types.entries)) [
    | inl e ↦ rw e (record {
      same_limit = h.same_limit;
      types_numbered = store-fresh s.limit p s.types h.types_numbered e;
      names_numbered = h.names_numbered;
      types_called = ap (λ es. (p, (fresh s.limit s.types).1) ∷ es) h.types_called;
      names_called = h.names_called;
    })
    | inr (n, e) ↦ rw e tt
  ];
  name_kept = λ p s h. elim (Option-cases (find_entry p s.names.entries)) [
    | inl e ↦ rw e (record {
      same_limit = h.same_limit;
      types_numbered = h.types_numbered;
      names_numbered = store-fresh s.limit p s.names h.names_numbered e;
      types_called = h.types_called;
      names_called = ap (λ es. (p, (fresh s.limit s.names).1) ∷ es) h.names_called;
    })
    | inr (n, e) ↦ rw e tt
  ];
}

initial-IsSound : (limit : ℕ) → IsSound limit (initial limit)
unfolding initial
initial-IsSound limit = record {
  same_limit = refl;
  types_numbered = record { at = λ lt. (refl, tt) };
  names_numbered = record { at = λ lt. (refl, tt) };
  types_called = refl;
  names_called = refl;
}

-- When the declarations of a module have been traversed, from an empty cache and without a failing
-- `store`, the printers have been called exactly for the entries of the caches, in that order and with
-- their names. As long as there are fewer names than an `unsigned int` can count, no pointer has two
-- entries, and the names count up from 2.
pub pre_print_all-IsSound :
    (limit : ℕ) (ds : List Decl) → Holds (IsSound limit) (pre_print_all ds (initial limit))
pre_print_all-IsSound limit ds =
    (all-Keeps (IsSound-IsKept limit) ds).at (initial limit) (initial-IsSound limit)

-- After such a traversal no two types have the same name, and no two declarations, if there are fewer
-- names than an `unsigned int` can count: where `lookup` finds a name, it is the name of that pointer only.
pub pre_print_all-injective :
    (limit : ℕ) (ds : List Decl) (s : State)
    → pre_print_all ds (initial limit) ≡ ok s
    → length s.types.entries + 1 < limit
    → length s.names.entries + 1 < limit
    → ((p q : ℕ) → (lookup p s.types ≡ 0 → ⊥) → lookup p s.types ≡ lookup q s.types → p ≡ q)
      × ((p q : ℕ) → (lookup p s.names ≡ 0 → ⊥) → lookup p s.names ≡ lookup q s.names → p ≡ q)
pre_print_all-injective limit ds s e lt lt' =
    let h : IsSound limit s = subst (Holds (IsSound limit)) e (pre_print_all-IsSound limit ds) in
    (
      λ p q.
          lookup-injective s.limit s.types p q h.types_numbered
            (subst (λ l. length s.types.entries + 1 < l) (sym h.same_limit) lt),
      λ p q.
          lookup-injective s.limit s.names p q h.names_numbered
            (subst (λ l. length s.names.entries + 1 < l) (sym h.same_limit) lt'),
    )
