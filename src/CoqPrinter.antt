-- ===== src/CoqPrinter.antt =====
-- rocq-bluerock-cpp2v/include/CoqPrinter.hpp and src/StringPrettyPrinter.cpp: the pieces of Coq
-- syntax that the printers are built from, and the guards that close what they open.
use cpp2v.Common.{
  ℕ, ◌+◌, ◌<◌, String, Bool, true, false, List, [], ◌∷◌, ltb, ◌==◌, if◌then◌else◌, codes, ◌&&◌,
  ◌||◌, not,
}
use cpp2v.Formatter.{
  Formatter, Printer, Result, ok, err, asserted, bind, ◌>>◌, skip, put, put_codes, nbsp, line,
  lparen, rparen, tuple_sep, cons, ascii,
}
use Prim.Native.Nat.{bit_and}
pub mod Text
pub mod Balance

-- A printer that also says whether it printed anything.
abbrev pub Maybe : Type 0
Maybe = Formatter → Result (Formatter × Bool)

-- `CoqPrinter::type`, by the mode that `templates()` gives.
unfoldable pub type_sort : Bool → Printer
unfolding put
type_sort templates = put (if templates then "Mtype" else "type")

unfoldable pub begin_tuple : Printer
unfolding put
begin_tuple = put "("

unfoldable pub end_tuple : Printer
unfolding put
end_tuple = put ")"

unfoldable pub next_tuple : Printer
unfolding tuple_sep
next_tuple = tuple_sep

unfoldable pub line_if : Bool → Printer
unfolding line skip
line_if b = if b then line else skip

-- `ctor(name, line)`
unfoldable pub ctor : String → Bool → Printer
unfolding line_if lparen put nbsp
ctor name l = do line_if l; lparen; put name; nbsp

unfoldable pub end_ctor : Printer
unfolding rparen
end_ctor = rparen

unfoldable pub begin_record : Bool → Printer
unfolding line_if put nbsp
begin_record l = do line_if l; put "{|"; nbsp

unfoldable pub end_record : Bool → Printer
unfolding line_if put nbsp
end_record l = do line_if l; nbsp; put "|}"

unfoldable pub record_field : String → Printer
unfolding put nbsp
record_field field = do put field; nbsp; put ":="; nbsp

unfoldable pub some_ : Printer
unfolding ctor
some_ = ctor "Some" true

unfoldable pub none_ : Printer
unfolding put
none_ = put "None"

unfoldable pub boolean : Bool → Printer
unfolding put
boolean b = put (if b then "true" else "false")

unfoldable pub begin_list : Printer
unfolding lparen
begin_list = lparen

unfoldable pub end_list : Printer
unfolding put rparen
end_list = do put "nil"; rparen

unfoldable pub put_char : ℕ → Printer
unfolding put_codes
put_char c f = ok (put_codes (c ∷ []) f)

-- `os << c`, with `"` written twice.
unfoldable pub put_quoted : List ℕ → Printer
unfolding put_char skip
put_quoted [] = skip
put_quoted (c ∷ cs) = do put_char c; (if c == b'"' then put_char c else skip); put_quoted cs

-- `CoqPrinter::str`
unfoldable pub str : List ℕ → Printer
unfolding put_quoted
str text = do put_char b'"'; put_quoted text; put_char b'"'

-- The test `(c == '(' && d == '*') || (c == '*' && d == ')')`.
abbrev pub is_comment_mark : ℕ → ℕ → Bool
is_comment_mark c d = (c == b'(' && d == b'*') || (c == b'*' && d == b')')

-- Whether the character that is printed needs a blank behind it.
abbrev pub needs_blank : ℕ → List ℕ → Bool
needs_blank c [] = false
needs_blank c (d ∷ _) = (c == b'(' || c == b'*') && is_comment_mark c d

unfoldable pub put_comment : List ℕ → Printer
unfolding put_char skip
put_comment [] = skip
put_comment (c ∷ cs) = do
  put_char c
  (if needs_blank c cs then put_char b' ' else skip)
  put_comment cs

-- `CoqPrinter::cmt`
unfoldable pub cmt : List ℕ → Printer
unfolding put put_comment
cmt text = do put "(* "; put_comment text; put " *)"

-- `if (fn(*begin)) cons();`
unfoldable pub cons_if : Maybe → Printer
unfolding cons skip
cons_if m f = bind (m f) (λ (g, printed). (if printed then cons else skip) g)

module _ {ℓ} {A : Type ℓ} where
  -- The loops of `list_range` and `list_range_filter`, from an iterator to the end.
  unfoldable pub list_loop : (A → Printer) → List A → Printer
  unfolding skip cons
  list_loop fn [] = skip
  list_loop fn (x ∷ xs) = do fn x; cons; list_loop fn xs

  unfoldable pub list_range : (A → Printer) → List A → Printer
  unfolding list_loop put begin_list end_list
  list_range fn [] = put "nil"
  list_range fn (x ∷ xs) = do begin_list; list_loop fn (x ∷ xs); end_list

  unfoldable pub filter_loop : (A → Maybe) → List A → Printer
  unfolding skip cons_if
  filter_loop fn [] = skip
  filter_loop fn (x ∷ xs) = do cons_if (fn x); filter_loop fn xs

  unfoldable pub list_range_filter : (A → Maybe) → List A → Printer
  unfolding filter_loop put begin_list end_list
  list_range_filter fn [] = put "nil"
  list_range_filter fn (x ∷ xs) = do begin_list; filter_loop fn (x ∷ xs); end_list

-- `guard::ctor`: the constructor opens, the destructor closes when the scope ends.
unfoldable pub with_ctor : String → Bool → Printer → Printer
unfolding ctor end_ctor
with_ctor name l body = do ctor name l; body; end_ctor

unfoldable pub with_some : Bool → Printer → Printer
unfolding with_ctor
with_some l body = with_ctor "Some" l body

unfoldable pub with_tuple : Printer → Printer
unfolding begin_tuple end_tuple
with_tuple body = do begin_tuple; body; end_tuple

unfoldable pub with_list : Printer → Printer
unfolding begin_list end_list
with_list body = do begin_list; body; end_list

-- `guard::record::Line`, whose values are 0, 1, 2 and `Begin | End`.
pub data Line : Type 0 where
  none begin end both : Line

abbrev pub line_bits : Line → ℕ
line_bits none = 0
line_bits begin = 1
line_bits end = 2
line_bits both = 3

unfoldable pub want : Line → Line → Bool
want wantlines b = not (bit_and (line_bits wantlines) (line_bits b) == 0)

unfoldable pub with_record : Line → Printer → Printer
unfolding want begin_record end_record
with_record l body = do begin_record (want l begin); body; end_record (want l end)
