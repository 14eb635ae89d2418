-- ===== src/PrintExpr/Literals.antt =====
-- The literals of PrintExpr.cpp.
use Prim.Native.Nat.{bit_or}
use cpp2v.Common.{
  ℕ, zero, suc, ◌*◌, ◌^◌, ◌%◌, Bool, true, false, List, [], ◌∷◌, Option, none, some, if◌then◌else◌,
  length,
}
use cpp2v.Formatter.{Printer, Num, ◌>>◌, skip, put, put_nobreak, put_num, nbsp, cons}
use cpp2v.OpaqueNames.{ℤ}
use cpp2v.CoqPrinter.{ctor, end_ctor, with_ctor, str, begin_list, end_list, boolean}
use cpp2v.ClangPrinter.{Env, keep_depth, put_decimal}
use cpp2v.PrintType.{Ty, print_type}
use cpp2v.PrintExpr.Syntax.{Meta}
use cpp2v.PrintExpr.Common.{Context, assert_false, put_int, done, with_type}

-- `VisitIntegerLiteral`
unfoldable pub visit_integer : Context → Meta → ℤ → Printer
unfolding ctor put_int put done
visit_integer c m z = do ctor "Eint" false; put_int c.env z; put "%Z"; done c m with_type

-- `VisitCharacterLiteral`
unfoldable pub visit_character : Context → Meta → ℕ → Printer
unfolding ctor put_decimal put done
visit_character c m k = do ctor "Echar" false; put_decimal c.env k; put "%N"; done c m with_type

-- `print_string_type`; the type is absent where the literal's is not an array.
unfoldable pub print_string_type : Context → Option Ty → Printer
unfolding assert_false nbsp print_type
print_string_type c none = assert_false
print_string_type c (some t) = do nbsp; print_type c.env c.info t

-- `(byte << 8) | b`, in 64 bits.
unfoldable pub push_byte : ℕ → ℕ → ℕ
push_byte byte b = bit_or (byte * 256 % 2 ^ 64) b

-- The inner loops of `VisitStringLiteral`: over the bytes of a character from the first to the last, and
-- from the last to the first.
unfoldable pub big_endian : ℕ → List ℕ → ℕ
unfolding push_byte
big_endian byte [] = byte
big_endian byte (b ∷ bs) = big_endian (push_byte byte b) bs

unfoldable pub little_endian : List ℕ → ℕ
unfolding push_byte
little_endian [] = 0
little_endian (b ∷ bs) = push_byte (little_endian bs) b

unfoldable pub take : ℕ → List ℕ → List ℕ
take zero bs = []
take (suc n) [] = []
take (suc n) (b ∷ bs) = b ∷ take n bs

unfoldable pub drop : ℕ → List ℕ → List ℕ
drop zero bs = bs
drop (suc n) [] = []
drop (suc n) (b ∷ bs) = drop n bs

-- The outer loop, by fuel: the characters of `width` bytes each, as numbers. The first argument is
-- `endianness::native == endianness::big`.
unfoldable pub char_loop : Bool → ℕ → ℕ → List ℕ → List ℕ
unfolding big_endian little_endian take drop
char_loop is_big width fuel [] = []
char_loop is_big width zero (b ∷ bs) = []
char_loop is_big width (suc fuel) (b ∷ bs) =
    let rest = char_loop is_big width fuel (drop width (b ∷ bs)) in
    (if is_big then big_endian 0 (take width (b ∷ bs)) else little_endian (take width (b ∷ bs)))
    ∷ rest

-- Each step takes a byte at least, so that the number of bytes is fuel enough.
unfoldable pub chars : Bool → ℕ → List ℕ → List ℕ
unfolding char_loop
chars is_big width bytes = char_loop is_big width (length bytes) bytes

unfoldable pub put_chars : Env → List ℕ → Printer
unfolding skip put_decimal put cons
put_chars env [] = skip
put_chars env (k ∷ ks) = do put_decimal env k; put "%N"; cons; put_chars env ks

-- `VisitStringLiteral`
unfoldable pub visit_string : Context → Bool → ℕ → List ℕ → Option Ty → Printer
unfolding ctor begin_list put_chars chars end_list print_string_type end_ctor
visit_string c is_big width bytes t = do
  ctor "Estring" false
  begin_list
  put_chars c.env (chars is_big width bytes)
  end_list
  print_string_type c t
  end_ctor

-- `VisitPredefinedExpr`
unfoldable pub visit_predefined : Context → List ℕ → Option Ty → Printer
unfolding ctor str end_ctor print_string_type
visit_predefined c text t = do
  ctor "Estring" true
  ctor "BS.string_to_bytes" true
  str text
  end_ctor
  print_string_type c t
  end_ctor

-- `VisitCXXBoolLiteralExpr`
unfoldable pub visit_bool : Bool → Printer
unfolding put
visit_bool true = put "(Ebool true)"
visit_bool false = put "(Ebool false)"

unfoldable pub put_float : Env → ℕ → Printer
unfolding put put_nobreak
put_float env k = do put "\"float: "; put_nobreak (env.float_text k); put "\""

-- `VisitFloatingLiteral`
unfoldable pub visit_floating : Context → Meta → ℕ → Printer
unfolding ctor nbsp put_float done
visit_floating c m k = do ctor "Eunsupported" true; nbsp; put_float c.env k; done c m with_type

-- `VisitSourceLocExpr`, for a line or a column.
unfoldable pub visit_source_int : Context → Meta → List ℕ → Num → Printer
unfolding with_ctor str nbsp ctor put_num done
visit_source_int c m text n =
    with_ctor "Esource_loc" true
      do str text; nbsp; ctor "Eint" true; put_num n; nbsp; done c m with_type

unfoldable pub visit_source_text : List ℕ → Printer → Printer
unfolding with_ctor str nbsp keep_depth
visit_source_text text a = with_ctor "Esource_loc" true do str text; nbsp; keep_depth a

unfoldable pub visit_source_other : List ℕ → Printer
unfolding with_ctor str nbsp assert_false
visit_source_other text = with_ctor "Esource_loc" true do str text; nbsp; assert_false

-- `VisitCXXNoexceptExpr` and `VisitTypeTraitExpr`
unfoldable pub visit_known_bool : Bool → Printer
unfolding ctor boolean end_ctor
visit_known_bool b = do ctor "Ebool" true; boolean b; end_ctor
