-- ===== src/CoqPrinter/Text.antt =====
-- String literals and comments (StringPrettyPrinter.cpp), read back the way Coq's lexer does.
use cpp2v.Common.{
  ℕ, zero, suc, ◌≡◌, refl, Bool, true, false, List, [], ◌∷◌, ◌++◌, append_assoc, append-nil, arith,
  codes, Option, none, some, ◌==◌, if◌then◌else◌, ◌∙◌, Bool-cases, inl, inr, ◌&&◌, not,
}
use cpp2v.Formatter.{Formatter, ok, put_codes}
use cpp2v.CoqPrinter.{put_quoted, str, needs_blank, is_comment_mark, put_comment, cmt}

-- Two writes in a row are one.
pub put_codes-put_codes :
    (s t : List ℕ) (f : Formatter) → put_codes t (put_codes s f) ≡ put_codes (s ++ t) f
unfolding put_codes
put_codes-put_codes s t f = simp (append_assoc, append-nil)

-- The text of a literal between its quotes.
abbrev pub doubled : List ℕ → List ℕ
doubled [] = []
doubled (c ∷ cs) = c ∷ (if c == b'"' then c ∷ doubled cs else doubled cs)

put_quoted_lem :
    (text s : List ℕ) (f : Formatter)
    → put_quoted text (put_codes s f) ≡ ok (put_codes (s ++ doubled text) f)
unfolding put_quoted
put_quoted_lem [] s f = rw append-nil
put_quoted_lem (c ∷ cs) s f = elim (Bool-cases (c == b'"')) [
  | inl e ↦
      rw (e, put_codes-put_codes, put_codes-put_codes, put_quoted_lem cs (s ++ c ∷ c ∷ []) f)
        (simp append_assoc)
  | inr e ↦ rw (e, put_codes-put_codes, put_quoted_lem cs (s ++ c ∷ []) f) (simp append_assoc)
]

-- A literal is written in one piece: its quotes, and every quote of the text twice.
pub str_lem :
    (text : List ℕ) (f : Formatter)
    → str text f ≡ ok (put_codes (b'"' ∷ (doubled text ++ b'"' ∷ [])) f)
unfolding str
str_lem text f = rw (put_quoted_lem text (b'"' ∷ []) f) (simp put_codes-put_codes)

-- What stands between the quotes of a Coq literal, and what follows it: Coq reads a doubled quote
-- as a quote, and ends the literal at a single one.
abbrev pub Read : Type 0
Read = Option (List ℕ × List ℕ)

abbrev also : ℕ → Read → Read
also c none = none
also c (some (text, rest)) = some (c ∷ text, rest)

-- `pending` says that a quote has been read, which ends the literal unless another follows.
unfoldable pub read_literal : Bool → List ℕ → Read
read_literal false [] = none
read_literal true [] = some ([], [])
read_literal false (c ∷ cs) =
    let plain = also c (read_literal false cs) in if c == b'"' then read_literal true cs else plain
read_literal true (c ∷ cs) = if c == b'"' then also c (read_literal false cs) else some ([], c ∷ cs)

-- The text that follows a literal does not go on with a quote.
abbrev pub ends_literal : List ℕ → Bool
ends_literal [] = true
ends_literal (c ∷ _) = not (c == b'"')

read_literal-twice :
    (c : ℕ) (cs : List ℕ)
    → (c == b'"') ≡ true
    → read_literal false (c ∷ c ∷ cs) ≡ also c (read_literal false cs)
unfolding read_literal
read_literal-twice c cs e = rw e

read_literal-plain :
    (c : ℕ) (cs : List ℕ)
    → (c == b'"') ≡ false
    → read_literal false (c ∷ cs) ≡ also c (read_literal false cs)
unfolding read_literal
read_literal-plain c cs e = rw e

read_literal-end :
    (rest : List ℕ) → ends_literal rest ≡ true → read_literal false (b'"' ∷ rest) ≡ some ([], rest)
unfolding read_literal
read_literal-end [] h = refl
read_literal-end (c ∷ rest) h = ground arith

read_literal-doubled :
    (text rest : List ℕ)
    → ends_literal rest ≡ true
    → read_literal false (doubled text ++ b'"' ∷ rest) ≡ some (text, rest)
read_literal-doubled [] rest h = read_literal-end rest h
read_literal-doubled (c ∷ text) rest h = elim (Bool-cases (c == b'"')) [
  | inl e ↦ rw (e, read_literal-twice c _ e, read_literal-doubled text rest h)
  | inr e ↦ rw (e, read_literal-plain c _ e, read_literal-doubled text rest h)
]

-- A printed literal reads back as the text it was made from, whatever follows it on the page, unless that
-- begins with a quote.
pub read_literal-str :
    (text rest : List ℕ) (f : Formatter)
    → ends_literal rest ≡ true
    → (body : List ℕ) × (str text f ≡ ok (put_codes (b'"' ∷ body) f))
      × (read_literal false (body ++ rest) ≡ some (text, rest))
read_literal-str text rest f h =
    (doubled text ++ b'"' ∷ [], str_lem text f, rw append_assoc (read_literal-doubled text rest h))

-- The text of a comment between its marks.
abbrev pub spaced : List ℕ → List ℕ
spaced [] = []
spaced (c ∷ cs) = c ∷ (if needs_blank c cs then b' ' ∷ spaced cs else spaced cs)

put_comment_lem :
    (text s : List ℕ) (f : Formatter)
    → put_comment text (put_codes s f) ≡ ok (put_codes (s ++ spaced text) f)
unfolding put_comment
put_comment_lem [] s f = rw append-nil
put_comment_lem (c ∷ cs) s f = elim (Bool-cases (needs_blank c cs)) [
  | inl e ↦
      rw (e, put_codes-put_codes, put_codes-put_codes, put_comment_lem cs (s ++ c ∷ b' ' ∷ []) f)
        (simp append_assoc)
  | inr e ↦ rw (e, put_codes-put_codes, put_comment_lem cs (s ++ c ∷ []) f) (simp append_assoc)
]

pub cmt_lem :
    (text : List ℕ) (f : Formatter)
    → cmt text f ≡ ok (put_codes (codes "(* " ++ (spaced text ++ codes " *)")) f)
unfolding cmt
cmt_lem text f = rw (put_comment_lem text (codes "(* ") f) (simp append_assoc)

-- What follows a Coq comment, whose opening mark is behind: comments nest, and `n` counts the inner
-- ones that are open. String literals in comments are not read.
unfoldable pub skip_comment : ℕ → List ℕ → Option (List ℕ)
skip_comment n [] = none
skip_comment n (c ∷ []) = none
skip_comment zero (c ∷ d ∷ rest) =
    let inner = skip_comment 1 rest in
    let next = skip_comment 0 (d ∷ rest) in
    if c == b'(' && d == b'*' then inner else if c == b'*' && d == b')' then some rest else next
skip_comment (suc n) (c ∷ d ∷ rest) =
    let inner = skip_comment (suc (suc n)) rest in
    let outer = skip_comment n rest in
    let next = skip_comment (suc n) (d ∷ rest) in
    if c == b'(' && d == b'*' then inner else if c == b'*' && d == b')' then outer else next

skip_comment-plain :
    (c d : ℕ) (rest : List ℕ)
    → is_comment_mark c d ≡ false
    → skip_comment 0 (c ∷ d ∷ rest) ≡ skip_comment 0 (d ∷ rest)
unfolding skip_comment
skip_comment-plain c d rest h = ground arith

needs_blank_lem : (c d : ℕ) (cs : List ℕ) → needs_blank c (d ∷ cs) ≡ is_comment_mark c d
needs_blank_lem c d cs = ground arith

blank_before : (d : ℕ) → is_comment_mark b' ' d ≡ false
blank_before d = ground arith

blank_behind : (c : ℕ) → is_comment_mark c b' ' ≡ false
blank_behind c = ground arith

skip_comment-spaced :
    (text rest : List ℕ) → skip_comment 0 (spaced text ++ (codes " *)" ++ rest)) ≡ some rest
skip_comment-spaced [] rest = unfold skip_comment in refl
skip_comment-spaced (c ∷ []) rest =
    skip_comment-plain c b' ' _ (blank_behind c) ∙ skip_comment-spaced [] rest
skip_comment-spaced (c ∷ d ∷ cs) rest = elim (Bool-cases (is_comment_mark c d)) [
  | inl e ↦
      rw
        (
          needs_blank_lem c d cs ∙ e,
          skip_comment-plain c b' ' _ (blank_behind c),
          skip_comment-plain b' ' d _ (blank_before d),
        )
        (skip_comment-spaced (d ∷ cs) rest)
  | inr e ↦
      rw (needs_blank_lem c d cs ∙ e, skip_comment-plain c d _ e)
        (skip_comment-spaced (d ∷ cs) rest)
]

skip_comment-blank :
    (text rest : List ℕ)
    → skip_comment 0 (b' ' ∷ (spaced text ++ (codes " *)" ++ rest))) ≡ some rest
skip_comment-blank [] rest = unfold skip_comment in refl
skip_comment-blank (c ∷ cs) rest =
    skip_comment-plain b' ' c _ (blank_before c) ∙ skip_comment-spaced (c ∷ cs) rest

-- A printed comment ends at its own closing mark: no text opens an inner comment or closes it early. The
-- reader does not look for string literals in comments.
pub skip_comment-cmt :
    (text rest : List ℕ) (f : Formatter)
    → (body : List ℕ) × (cmt text f ≡ ok (put_codes (codes "(*" ++ body) f))
      × (skip_comment 0 (body ++ rest) ≡ some rest)
skip_comment-cmt text rest f = (
  b' ' ∷ (spaced text ++ codes " *)"),
  cmt_lem text f,
  rw append_assoc (skip_comment-blank text rest),
)
