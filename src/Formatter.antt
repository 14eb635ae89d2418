-- ===== src/Formatter.antt =====
-- rocq-bluerock-cpp2v/include/Formatter.hpp and src/Formatter.cpp: the pretty-printing stream that
-- every printer writes to. The wrapped `raw_ostream` is the list of the characters written so far.
use cpp2v.Common.{
  ℕ, zero, suc, ◌+◌, ◌-◌, ◌/◌, ◌%◌, ◌^◌, String, Bool, true, false, Option, none, some, List, [],
  ◌∷◌, ◌++◌, leb, if◌then◌else◌, replicate, codes,
}
pub mod Layout
pub mod Balance
pub mod Termination
pub mod Brackets

-- How a run of the program ends early: `logging::die`, or an `always_assert` that does not hold.
pub data Failure : Type 0 where
  died : Failure
  -- `always_assert(this->depth >= 2)` in `Formatter::outdent`
  outdent_below_zero : Failure
  -- `always_assert(depth == print.output().get_depth())` in the printers
  depth_changed : Failure
  -- an assertion about clang's AST or about the printer's mode
  asserted : Failure

pub data Result {ℓ} (A : Type ℓ) : Type ℓ where
  ok : A → Result A
  err : Failure → Result A

abbrev pub bind {ℓ κ} : {A : Type ℓ} {B : Type κ} → Result A → (A → Result B) → Result B
bind (ok a) f = f a
bind (err e) f = err e

-- `depth` is an `unsigned int`; `limit`, one more than the largest value of that type, is the
-- platform's. `spaces` is only ever set to 0 and 1.
pub record Formatter : Type 0 where
  pub out : List ℕ
  pub depth : ℕ
  pub spaces : ℕ
  pub blank : Bool
  pub limit : ℕ

-- `Formatter::Formatter(llvm::raw_ostream&)` over a stream that holds `text`.
unfoldable pub init : ℕ → List ℕ → Formatter
init limit text = record { out = text; depth = 0; spaces = 0; blank = true; limit = limit }

-- A statement that writes to the formatter.
abbrev pub Printer : Type 0
Printer = Formatter → Result Formatter

infixl 5 ◌>>◌
abbrev pub ◌>>◌ : Printer → Printer → Printer
◌>>◌ p q f = bind (p f) q

-- The statement that does nothing.
unfoldable pub skip : Printer
skip f = ok f

unfoldable pub newline : Formatter → Formatter
newline f = record f { out = f.out ++ b'\n' ∷ []; blank = true; spaces = 0 }

-- The indentation that `nobreak` writes at the start of a line.
unfoldable pub margin : Formatter → List ℕ
margin f = if f.blank then replicate f.depth b' ' else []

unfoldable pub nobreak : Formatter → Formatter
unfolding margin
nobreak f = record f {
  out = f.out ++ (margin f ++ replicate f.spaces b' ');
  blank = false;
  spaces = 0;
}

-- `operator<<(T val)`, for a value whose text is `text`.
unfoldable pub put_codes : List ℕ → Formatter → Formatter
unfolding nobreak
put_codes text f = let g = nobreak f in record g { out = g.out ++ text; blank = false }

unfoldable pub put : String → Printer
unfolding put_codes
put s f = ok (put_codes (codes s) f)

-- `out << fmt::nbsp`
unfoldable pub nbsp : Printer
nbsp f = ok (record f { spaces = 1 })

-- `out << fmt::line`
unfoldable pub line : Printer
unfolding newline
line f = ok (newline f)

unfoldable pub indent : Printer
indent f = ok (record f { depth = (f.depth + 2) % f.limit })

unfoldable pub outdent : Printer
outdent f = if leb 2 f.depth then ok (record f { depth = f.depth - 2 }) else err outdent_below_zero

unfoldable pub clear_spaces : Printer
clear_spaces f = ok (record f { spaces = 0 })

-- `out.nobreak() << text`, which leaves `blank` as `nobreak` set it.
unfoldable pub put_nobreak : List ℕ → Printer
unfolding nobreak
put_nobreak text f = let g = nobreak f in ok (record g { out = g.out ++ text })

unfoldable pub lparen : Printer
unfolding put_nobreak indent
lparen = do put_nobreak (codes "("); indent

unfoldable pub rparen : Printer
unfolding put_nobreak outdent clear_spaces
rparen = do outdent; clear_spaces; put_nobreak (codes ")")

-- `out << fmt::tuple_sep`
unfoldable pub tuple_sep : Printer
unfolding put nbsp
tuple_sep = do put ","; nbsp

-- `out << fmt::cons`
unfoldable pub cons : Printer
unfolding put nbsp
cons = do nbsp; put "::"; nbsp

unfoldable pub put_bool : Bool → Printer
unfolding put_nobreak
put_bool b = put_nobreak (codes (if b then "true" else "false"))

-- The octal digits that `Formatter::ascii` writes: `(val >> 6)`, `(val >> 3) & 7` and `val & 7`.
unfoldable pub octal : ℕ → List ℕ
octal c = (c / 64 + b'0') ∷ (c / 8 % 8 + b'0') ∷ (c % 8 + b'0') ∷ []

-- `Formatter::ascii`, which writes to the stream itself and so ignores pending space.
unfoldable pub ascii : ℕ → Printer
unfolding octal
ascii c f = ok (record f { out = f.out ++ b'"' ∷ (octal c ++ b'"' ∷ []) })

-- `NUM`: a number with its sign and the scope that its notation names. `digits` is the text that
-- `llvm::APInt::print` gives it.
pub record Num : Type 0 where
  pub digits : List ℕ
  pub is_negative : Bool
  pub scope : Option String

scope_suffix : Option String → List ℕ
scope_suffix none = []
scope_suffix (some s) = b'%' ∷ codes s

unfoldable pub num_text : Num → List ℕ
unfolding scope_suffix
num_text n =
    (if n.is_negative then codes "(" else [])
    ++ (n.digits ++ ((if n.is_negative then codes ")" else []) ++ scope_suffix n.scope))

unfoldable pub put_num : Num → Printer
unfolding put_nobreak num_text
put_num n = put_nobreak (num_text n)
