-- ===== src/Formatter/Balance.antt =====
-- Printers that keep the indentation and the brackets in step: one rule for each primitive of
-- Formatter.cpp and for sequencing.
use cpp2v.Common.{
  sym, le→leb, ℕ, suc, ◌+◌, ◌*◌, ◌<◌, String, ◌≡◌, ◌∙◌, refl, ap, Bool, true, false, List, [], ◌∷◌,
  ◌++◌, append_assoc, append-nil, arith, replicate, codes, if◌then◌else◌, some,
}
use native.Mathlib.Nat.{mod-eq_of_lt, zero-add}
use cpp2v.Formatter.{
  Formatter, Printer, Result, ok, err, Failure, died, asserted, ◌>>◌, bind, skip, put, put_codes,
  put_nobreak, margin, nbsp, line, indent, outdent, clear_spaces, lparen, rparen, tuple_sep, cons,
  put_bool,
}
use Prim.Native.Nat.add
use cpp2v.Formatter.Brackets.{code, Brackets, Brackets-append, Brackets-spaces, scan}

-- The ways to end early that have nothing to do with the depth.
pub data IsStop : Failure → Type 0 where
  dies : IsStop died
  asserts : IsStop asserted

-- From `f`, the printer stops for a reason of its own, or returns with the depth at `c + 2 * d` after it
-- has added text that takes `a` further open parentheses to `b`.
pub data Outcome (S : Type 0) (c d a b : ℕ) (f : Formatter) : Result Formatter → Type 0 where
  returned :
      {g : Formatter}
      → g.depth ≡ c + 2 * d
      → g.limit ≡ f.limit
      → (text : List ℕ) → g.out ≡ f.out ++ text
      → Brackets a b text
      → Outcome S c d a b f (ok g)
  stopped : {e : Failure} → S → IsStop e → Outcome S c d a b f (err e)

-- `room` is how far below the end of an `unsigned int` the depth has to start. It does not depend on
-- the formatter, nor on where that end is.
pub record Moves (S : Type 0) (d a d' a' : ℕ) (p : Printer) : Type 0 where
  pub room : ℕ
  pub at :
      (c : ℕ) (f : Formatter)
      → c + room < f.limit
      → f.depth ≡ c + 2 * d
      → Outcome S c d' a a' f (p f)

-- `p` leaves the depth and the open parentheses as they were.
abbrev pub Closed : Type 0 → Printer → Type 0
Closed S p = Moves S 0 0 0 0 p

-- What a later printer adds stands behind what was added before.
Outcome-after :
    {S : Type 0} {c d a b b' : ℕ} (f g : Formatter) {r : Result Formatter} (text : List ℕ)
    → g.limit ≡ f.limit
    → g.out ≡ f.out ++ text
    → Brackets a b text
    → Outcome S c d b b' g r
    → Outcome S c d a b' f r
Outcome-after f g text l o w (returned e l' text' o' w') =
    returned e (l' ∙ l) (text ++ text')
      (o' ∙ ap (λ t. t ++ text') o ∙ append_assoc f.out text text') (Brackets-append w w')
Outcome-after f g text l o w (stopped p s) = stopped p s

pub Outcome-bind :
    {S : Type 0} {c d d' a b b' : ℕ} {f : Formatter} {r : Result Formatter} (q : Printer)
    → Outcome S c d a b f r
    → ((g : Formatter) → g.depth ≡ c + 2 * d → g.limit ≡ f.limit → Outcome S c d' b b' g (q g))
    → Outcome S c d' a b' f (bind r q)
Outcome-bind {f = f} q (returned {g} e l text o w) k = Outcome-after f g text l o w (k g e l)
Outcome-bind q (stopped p s) k = stopped p s

infixr 5 ◌⟫◌
pub ◌⟫◌ :
    {S : Type 0} {d a d' a' d'' a'' : ℕ} {p q : Printer}
    → Moves S d a d' a' p
    → Moves S d' a' d'' a'' q
    → Moves S d a d'' a'' (p >> q)
◌⟫◌ {p} {q} hp hq = record {
  room = hp.room + hq.room;
  at = λ c f h e. Outcome-bind q (hp.at c f (omega arith) e) λ g e' l. hq.at c g (omega arith) e';
}

Brackets-nil : (a : ℕ) → Brackets a a []
unfolding scan
Brackets-nil a = record { at = λ n. refl }

Brackets-margin :
    (f : Formatter) (a : ℕ) {b : ℕ} {text : List ℕ}
    → Brackets a b text
    → Brackets a b (margin f ++ (replicate f.spaces b' ' ++ text))
unfolding margin
Brackets-margin f a w =
    Brackets-append (margin-Brackets f.blank) (Brackets-append (Brackets-spaces f.spaces a) w)
  where
    margin-Brackets : (b : Bool) → Brackets a a (if b then replicate f.depth b' ' else [])
    margin-Brackets true = Brackets-spaces f.depth a
    margin-Brackets false = Brackets-nil a

-- `unfolding` the reader, the text of a parenthesis.
pub Brackets-open : (a : ℕ) → Brackets a (suc a) (codes "(")
unfolding scan
Brackets-open a = record { at = λ n. ap (λ k. some (code, k)) (omega arith) }

pub Brackets-close : (a : ℕ) → Brackets (suc a) a (codes ")")
unfolding scan
Brackets-close a = record { at = λ n. simp add.suc }

module _ {S : Type 0} {a b : ℕ} (d : ℕ) where
  pub put_codes-Moves :
      (text : List ℕ) → Brackets a b text → Moves S d a d b (λ f. ok (put_codes text f))
  unfolding put_codes
  put_codes-Moves text w = record {
    room = 0;
    at = λ c f h e.
        returned e refl (margin f ++ (replicate f.spaces b' ' ++ text))
          (append_assoc f.out _ text ∙ ap (λ t. f.out ++ t) (append_assoc (margin f) _ text))
          (Brackets-margin f a w);
  }

  pub put_nobreak-Moves : (text : List ℕ) → Brackets a b text → Moves S d a d b (put_nobreak text)
  unfolding put_nobreak
  put_nobreak-Moves text w = record {
    room = 0;
    at = λ c f h e.
        returned e refl (margin f ++ (replicate f.spaces b' ' ++ text))
          (append_assoc f.out _ text ∙ ap (λ t. f.out ++ t) (append_assoc (margin f) _ text))
          (Brackets-margin f a w);
  }

  pub put-Moves : (s : String) → Brackets a b (codes s) → Moves S d a d b (put s)
  unfolding put
  put-Moves s w = put_codes-Moves (codes s) w

module _ {S : Type 0} {d a : ℕ} where
  pub skip-Moves : Moves S d a d a skip
  unfolding skip
  skip-Moves = record {
    room = 0;
    at = λ c f h e. returned e refl [] (sym (append-nil f.out)) (Brackets-nil a);
  }

  pub nbsp-Moves : Moves S d a d a nbsp
  unfolding nbsp
  nbsp-Moves = record {
    room = 0;
    at = λ c f h e. returned e refl [] (sym (append-nil f.out)) (Brackets-nil a);
  }

  pub clear_spaces-Moves : Moves S d a d a clear_spaces
  unfolding clear_spaces
  clear_spaces-Moves = record {
    room = 0;
    at = λ c f h e. returned e refl [] (sym (append-nil f.out)) (Brackets-nil a);
  }

  pub line-Moves : Moves S d a d a line
  unfolding line scan
  line-Moves = record {
    room = 0;
    at = λ c f h e. returned e refl (b'\n' ∷ []) refl (record { at = λ n. refl });
  }

  pub indent-Moves : Moves S d a (suc d) a indent
  unfolding indent
  indent-Moves = record {
    room = 2 * d + 2;
    at = λ c f h e.
        returned (mod-eq_of_lt (omega arith) ∙ omega arith) refl [] (sym (append-nil f.out))
          (Brackets-nil a);
  }

  pub outdent-Moves : Moves S (suc d) a d a outdent
  unfolding outdent
  outdent-Moves = record {
    room = 0;
    at = λ c f h e.
        rw (le→leb 2 f.depth (omega arith))
          (returned (omega arith) refl [] (sym (append-nil f.out)) (Brackets-nil a));
  }

module _ {S : Type 0} {d a : ℕ} where
  pub lparen-Moves : Moves S d a (suc d) (suc a) lparen
  unfolding lparen
  lparen-Moves = put_nobreak-Moves d (codes "(") (Brackets-open a) ⟫ indent-Moves

  pub rparen-Moves : Moves S (suc d) (suc a) d a rparen
  unfolding rparen
  rparen-Moves =
      outdent-Moves ⟫ clear_spaces-Moves ⟫ put_nobreak-Moves d (codes ")") (Brackets-close a)

-- A closed printer may stand anywhere.
Outcome-lift :
    {S : Type 0} {c : ℕ} (d a : ℕ) {f : Formatter} {r : Result Formatter}
    → Outcome S (c + 2 * d) 0 0 0 f r
    → Outcome S c d a a f r
Outcome-lift d a (returned e l text o w) =
    returned (omega arith) l text o (record { at = λ n. simp zero-add at w.at (a + n) })
Outcome-lift d a (stopped p s) = stopped p s

pub Closed-Moves : {S : Type 0} (d a : ℕ) {p : Printer} → Closed S p → Moves S d a d a p
Closed-Moves d a hp = record {
  room = hp.room + 2 * d;
  at = λ c f h e. Outcome-lift d a (hp.at (c + 2 * d) f (omega arith) (omega arith));
}

-- The literal texts of the program: `IsLevel` is proved by evaluation.
abbrev pub IsLevel : List ℕ → Type 0
IsLevel text = (n : ℕ) → scan text (code, n) ≡ some (code, n)

pub IsLevel-Brackets : (a : ℕ) {text : List ℕ} → IsLevel text → Brackets a a text
IsLevel-Brackets a h = record { at = λ n. h (a + n) }

module _ {S : Type 0} {d a : ℕ} where
  pub text-Moves : (s : String) → IsLevel (codes s) → Moves S d a d a (put s)
  text-Moves s h = put-Moves d s (IsLevel-Brackets a h)

  pub tuple_sep-Moves : Moves S d a d a tuple_sep
  unfolding tuple_sep scan
  tuple_sep-Moves = text-Moves "," (λ n. refl) ⟫ nbsp-Moves

  pub cons-Moves : Moves S d a d a cons
  unfolding cons scan
  cons-Moves = nbsp-Moves ⟫ text-Moves "::" (λ n. refl) ⟫ nbsp-Moves

  pub put_bool-Moves : (b : Bool) → Moves S d a d a (put_bool b)
  unfolding put_bool scan
  put_bool-Moves true = put_nobreak-Moves d (codes "true") (record { at = λ n. refl })
  put_bool-Moves false = put_nobreak-Moves d (codes "false") (record { at = λ n. refl })
