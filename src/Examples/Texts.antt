-- ===== src/Examples/Texts.antt =====
-- Literals, comments and layout on concrete texts.
use cpp2v.Common.{
  ℕ, All, length, ◌+◌, ◌≡◌, refl, Bool, true, false, some, List, [], ◌∷◌, ◌++◌, codes, replicate,
  arith, if◌then◌else◌, ◌==◌,
}
use cpp2v.Formatter.{
  Formatter, ok, ◌>>◌, put, put_codes, line, lparen, skip, indent, outdent, octal,
}
use cpp2v.Formatter.Layout.{
  put-line, put-line-lparen, outdent-indent, IsOctal, octal_value, octal_value-octal,
}
use cpp2v.Formatter.Balance.{Closed, text-Moves, skip-Moves}
use cpp2v.Formatter.Brackets.{scan}
use cpp2v.CoqPrinter.{Maybe, str, cmt, list_range_filter}
use cpp2v.CoqPrinter.Balance.{list_range_filter-Closed, printed}
use cpp2v.CoqPrinter.Text.{read_literal, read_literal-str, skip_comment, skip_comment-cmt}
use cpp2v.ClangPrinter.{answer}
use cpp2v.ClangPrinter.Balance.{answer-Closed}
use cpp2v.Examples.Environment.{page}

abbrev deep : Formatter
deep = record page { depth = 6; spaces = 1; blank = false }

read_literal-str_example :
    (body : List ℕ) × (str (codes "say \"hi\"") deep ≡ ok (put_codes (b'"' ∷ body) deep))
    × (read_literal false (body ++ codes ")") ≡ some (codes "say \"hi\"", codes ")"))
read_literal-str_example = read_literal-str (codes "say \"hi\"") (codes ")") deep refl

skip_comment-cmt_example :
    (body : List ℕ) × (cmt (codes "a *) (* b") deep ≡ ok (put_codes (codes "(*" ++ body) deep))
    × (skip_comment 0 (body ++ codes " Tint") ≡ some (codes " Tint"))
skip_comment-cmt_example = skip_comment-cmt (codes "a *) (* b") (codes " Tint") deep

put-line-lparen_example :
    ((g : Formatter) × ((lparen >> line) deep ≡ ok g)
      × (put "x" g
          ≡ ok (record g {
            out = g.out ++ (replicate (deep.depth + 2) b' ' ++ codes "x");
            spaces = 0;
            blank = false;
          })))
    × ((line >> lparen >> line >> put "x") deep
        ≡ ok (record deep {
          out =
              deep.out
              ++ b'\n'
                ∷ (replicate deep.depth b' '
                    ++ b'(' ∷ b'\n' ∷ (replicate (deep.depth + 2) b' ' ++ codes "x"));
          depth = deep.depth + 2;
          spaces = 0;
          blank = false;
        }))
put-line-lparen_example = put-line-lparen deep "x" (omega arith)

put-line_example :
    (line >> put "x") deep
    ≡ ok (record deep {
      out = deep.out ++ b'\n' ∷ (replicate deep.depth b' ' ++ codes "x");
      spaces = 0;
      blank = false;
    })
put-line_example = put-line deep "x"

outdent-indent_example : (indent >> outdent) deep ≡ ok deep
outdent-indent_example = outdent-indent deep (omega arith)

octal_value-octal_example :
    (length (octal 200) ≡ 3) × All IsOctal (octal 200) × (octal_value (octal 200) ≡ 200)
octal_value-octal_example = octal_value-octal 200 (omega arith)

-- Prints 2 and passes over the other numbers.
abbrev only_two : ℕ → Maybe
only_two n = answer (n == 2) (if n == 2 then put "two" else skip)

only_two-Closed : (b : Bool) → Closed ⊥ (printed (answer b (if b then put "two" else skip)))
unfolding scan
only_two-Closed true = answer-Closed true (text-Moves "two" (λ n. refl))
only_two-Closed false = answer-Closed false skip-Moves

list_range_filter-Closed_example : Closed ⊥ (list_range_filter only_two (1 ∷ 2 ∷ []))
list_range_filter-Closed_example =
    list_range_filter-Closed only_two (1 ∷ 2 ∷ [])
      (only_two-Closed false, (only_two-Closed true, tt))
