-- ===== src/Examples/Environment.antt =====
-- Concrete printers for names and expressions, and a proof that they are what types and statements need.
use cpp2v.Common.{
  ℕ, zero, suc, ◌+◌, ◌/◌, ◌%◌, ◌≡◌, refl, ◌∙◌, Bool, true, false, List, [], ◌∷◌, ◌++◌, codes, ltb,
  if◌then◌else◌, arith, some,
}
use cpp2v.Formatter.{Printer, Formatter, put, num_text}
use cpp2v.Formatter.Brackets.{scan, scan-append, code, quoted}
use cpp2v.Formatter.Balance.{Closed, IsLevel, text-Moves}
use cpp2v.CoqPrinter.{with_ctor}
use cpp2v.CoqPrinter.Balance.{with_ctor-Closed}
use cpp2v.ClangPrinter.{Env, IsEnv}
use cpp2v.PrintType.{Info}

digit : ℕ → List ℕ
digit k = (k % 10 + b'0') ∷ []

-- The decimal digits of a number, by fuel.
unfoldable digits : ℕ → ℕ → List ℕ
unfolding digit
digits zero n = digit n
digits (suc k) n = let rest = digits k (n / 10) in if ltb n 10 then digit n else rest ++ digit n

digit-IsLevel : (k : ℕ) → IsLevel (digit k)
unfolding digit scan
digit-IsLevel k n = ground arith

if-IsLevel : (b : Bool) (s t : List ℕ) → IsLevel s → IsLevel t → IsLevel (if b then s else t)
if-IsLevel true s t hs ht = hs
if-IsLevel false s t hs ht = ht

digits-IsLevel : (k n : ℕ) → IsLevel (digits k n)
unfolding digits
digits-IsLevel zero n = digit-IsLevel n
digits-IsLevel (suc k) n =
    if-IsLevel (ltb n 10) _ _ (digit-IsLevel n)
      (λ r. scan-append _ _ (code, r) (code, r) (digits-IsLevel k (n / 10) r) ∙ digit-IsLevel n r)

digit-plain : (k n : ℕ) → scan (digit k) (quoted, n) ≡ some (quoted, n)
unfolding digit scan
digit-plain k n = ground arith

if-plain :
    (b : Bool) (s t : List ℕ) (n : ℕ)
    → scan s (quoted, n) ≡ some (quoted, n)
    → scan t (quoted, n) ≡ some (quoted, n)
    → scan (if b then s else t) (quoted, n) ≡ some (quoted, n)
if-plain true s t n hs ht = hs
if-plain false s t n hs ht = ht

digits-plain : (j k n : ℕ) → scan (digits j k) (quoted, n) ≡ some (quoted, n)
unfolding digits
digits-plain zero k n = digit-plain k n
digits-plain (suc j) k n =
    if-plain (ltb k 10) _ _ n (digit-plain k n)
      (scan-append _ _ (quoted, n) (quoted, n) (digits-plain j (k / 10) n) ∙ digit-plain k n)

unfoldable named : Printer
unfolding with_ctor
named = with_ctor "Nglobal" false (put "x")

named-Closed : {S : Type 0} → Closed S named
unfolding named scan
named-Closed = with_ctor-Closed "Nglobal" (λ n. refl) false (text-Moves "x" (λ n. refl))

unfoldable pub environment : Env
unfolding digits named with_ctor put
environment = record {
  templates = false;
  print_name = λ d. named;
  print_unqualified_name = λ d. named;
  print_expr = λ e. with_ctor "Evar" true (put "e");
  print_expr_in = λ ds e. with_ctor "Evar" true (put "e");
  known_const_int = λ e. record { digits = codes "-7"; is_negative = true; scope = some "Z" };
  print_unresolved_name = λ n. named;
  print_type_template_param = λ d i. named;
  print_template_argument_list = λ n. put "nil";
  print_param_name = λ d. named;
  print_field_name = λ d. named;
  print_non_type_param = λ d i. named;
  operator_name = λ k. codes "Plus";
  atomic_name = λ k. codes "__atomic_load";
  cast_name = λ k. codes "static_cast";
  opcode = λ k. codes "<=>";
  float_text = λ k. codes "1.5E+1";
  decimal = λ n. digits n n;
  sizeless_name = λ k. codes "__SVInt8_t";
}

-- None of these printers ever stops.
pub environment-IsEnv : (S : Type 0) → IsEnv S environment
unfolding environment num_text scan
environment-IsEnv S = record {
  name_closed = λ d. named-Closed;
  unqualified_closed = λ d. named-Closed;
  expr_closed = λ e. with_ctor-Closed "Evar" (λ n. refl) true (text-Moves "e" (λ n. refl));
  expr_in_closed = λ ds e. with_ctor-Closed "Evar" (λ n. refl) true (text-Moves "e" (λ n. refl));
  const_level = λ e n. refl;
  unresolved_closed = λ n. named-Closed;
  template_param_closed = λ d i. named-Closed;
  template_arguments_closed = λ n. text-Moves "nil" (λ k. refl);
  param_closed = λ d. named-Closed;
  field_closed = λ d. named-Closed;
  non_type_param_closed = λ d i. named-Closed;
  operator_level = λ k n. refl;
  atomic_level = λ k n. refl;
  cast_level = λ k n. refl;
  opcode_plain = λ k n. refl;
  float_plain = λ k n. refl;
  decimal_plain = λ k n. digits-plain k k n;
  decimal_level = λ n. digits-IsLevel n n;
  sizeless_plain = λ k n. refl;
}

abbrev pub info : Info
info = record { cached = λ t. 0; describe = λ t. codes "a type" }

-- A formatter at the left margin, of a platform where `unsigned int` has 32 bits.
abbrev pub page : Formatter
page = record { out = []; depth = 0; spaces = 0; blank = true; limit = 4294967296 }
