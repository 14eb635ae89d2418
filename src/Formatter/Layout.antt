-- ===== src/Formatter/Layout.antt =====
-- Layout laws of the formatter (Formatter.cpp): indentation, pending space and octal escapes.
use cpp2v.Common.{
  ℕ, ◌+◌, ◌-◌, ◌*◌, ◌<◌, ◌≤◌, All, length, String, ◌≡◌, refl, false, List, ◌∷◌, ◌++◌, append_assoc,
  append-nil, arith, replicate, codes,
}
use native.Mathlib.Nat.{mod-eq_of_lt}
use cpp2v.Formatter.{Formatter, ok, ◌>>◌, put, nbsp, line, indent, outdent, lparen, octal}

-- A line break followed by text writes the newline, exactly `depth` spaces and the text, and drops
-- whatever space was pending.
pub put-line :
    (f : Formatter) (s : String)
    → (line >> put s) f
      ≡ ok (record f {
        out = f.out ++ b'\n' ∷ (replicate f.depth b' ' ++ codes s);
        spaces = 0;
        blank = false;
      })
unfolding line put
put-line f s = simp (append_assoc, append-nil)

-- Text after an opening parenthesis and a line break stands two spaces deeper than the depth at which the
-- parenthesis was opened. If that parenthesis starts a line, this is two spaces deeper than the parenthesis.
-- Both are as long as the depth does not reach the end of an `unsigned int`.
pub put-line-lparen :
    (f : Formatter) (s : String)
    → f.depth + 2 < f.limit
    → ((g : Formatter) × ((lparen >> line) f ≡ ok g)
        × (put s g
            ≡ ok (record g {
              out = g.out ++ (replicate (f.depth + 2) b' ' ++ codes s);
              spaces = 0;
              blank = false;
            })))
      × ((line >> lparen >> line >> put s) f
          ≡ ok (record f {
            out =
                f.out
                ++ b'\n'
                  ∷ (replicate f.depth b' '
                      ++ b'(' ∷ b'\n' ∷ (replicate (f.depth + 2) b' ' ++ codes s));
            depth = f.depth + 2;
            spaces = 0;
            blank = false;
          }))
unfolding lparen line put
put-line-lparen f s h = (
  (_, refl, simp (append_assoc, append-nil, mod-eq_of_lt h)),
  simp (append_assoc, append-nil, mod-eq_of_lt h),
)

-- Indenting and outdenting again restores the formatter, as long as the depth does not reach the end of an
-- `unsigned int`.
pub outdent-indent : (f : Formatter) → f.depth + 2 < f.limit → (indent >> outdent) f ≡ ok f
unfolding indent outdent
outdent-indent f h = ground (arith, mod-eq_of_lt h)

-- Pending space is dropped by a line break.
pub line-nbsp : (f : Formatter) → (nbsp >> line) f ≡ line f
unfolding nbsp line
line-nbsp f = refl

-- The value that three octal digits stand for.
abbrev pub octal_value : List ℕ → ℕ
octal_value (a ∷ b ∷ c ∷ _) = 64 * (a - b'0') + 8 * (b - b'0') + (c - b'0')
octal_value _ = 0

-- A digit from `0` to `7`.
abbrev pub IsOctal : ℕ → Type 0
IsOctal x = (b'0' ≤ x) × (x < b'0' + 8)

-- A character code below 256 is written as three characters, which are octal digits, and which stand for it
-- when they are read with the highest digit first.
pub octal_value-octal :
    (c : ℕ) → c < 256 → (length (octal c) ≡ 3) × All IsOctal (octal c) × (octal_value (octal c) ≡ c)
unfolding octal
octal_value-octal c h = (
  refl,
  ((omega arith, omega arith), ((omega arith, omega arith), ((omega arith, omega arith), tt))),
  omega arith,
)
