-- ===== src/Examples/Expressions.antt =====
-- Expressions printed with the environment of Environment.antt.
use cpp2v.Common.{
  ℕ, ◌+◌, ◌<◌, ◌≡◌, refl, true, false, List, [], ◌∷◌, ◌++◌, All, Option, none, some, codes, arith,
}
use mathlib.Core.List.{reverse_aux}
use cpp2v.Formatter.{Formatter, Printer, Result, ok, err, depth_changed, put}
use cpp2v.Formatter.Brackets.{scan}
use cpp2v.Formatter.Balance.{Closed, Moves, text-Moves}
use cpp2v.Formatter.Termination.{Returns}
use cpp2v.OpaqueNames.{pos, negsuc, OpaqueNames, empty, find}
use cpp2v.PrintType.{QualType, qual, simple, int, builtin}
use cpp2v.PrintStmt.{Stmt, no_stmts, stmt, compound, expr_stmt, return_stmt, print_stmt}
use cpp2v.PrintExpr.{
  Meta, prvalue, add, l_or, other_trait, trait_type, arith as arith_op, binary, Expr, node,
  no_exprs, integer, string, binary_conditional, array_loop, array_index, opaque_value, atomic,
  Context, visit, visit_binary, visit_opaque, frame, print_expr, print_expr_fresh, chars,
  little_endian, big_endian,
}
use cpp2v.PrintExpr.Balance.{IsContext}
use cpp2v.PrintExpr.Names.{Grows, print_expr-Grows, find-print_expr}
use cpp2v.PrintExpr.WellFormed.{print_expr-Closed, print_expr-Returns}
use cpp2v.PrintExpr.Errors.{atomic-Fails, trait-Overcloses}
use cpp2v.PrintExpr.Sequenced.{sequenced-Forgets}
use cpp2v.PrintExpr.Statements.{with_exprs, print_stmt_exprs-Returns}
use cpp2v.PrintExpr.Bytes.{
  little_endian-of_bytes, big_endian-little_endian, character-bound, chars-concat,
}
use cpp2v.Examples.Environment.{environment, environment-IsEnv, info, page}

abbrev skipped : Printer
skipped = put "Sskip"

abbrev expr_context : Context
expr_context = record {
  env = environment;
  info = info;
  lambda_class = none;
  is_big = false;
  print_stmt = λ s. skipped;
}

expr_context-IsContext : IsContext ⊥ expr_context
unfolding scan
expr_context-IsContext = record {
  env = environment-IsEnv ⊥;
  stmt_closed = λ s. text-Moves "Sskip" (λ n. refl);
}

abbrev int_type : QualType
int_type = qual false false false (builtin (simple int))

abbrev meta : Meta
meta = record {
  has_errors = false;
  category = prvalue;
  classified = some prvalue;
  type = int_type;
  is_dependent = false;
  message = codes "here";
  class_name = codes "Expr";
}

abbrev one : Expr
one = node meta (integer (pos 1))

abbrev shared : Expr
shared = node meta (opaque_value 7)

-- `1 + (1 ?: u"AB")`, with 7 for the value of the middle operand.
abbrev sample : Expr
sample = node meta (
    binary (arith_op add) false false one (
      node meta (
        binary_conditional 7 one shared shared
          (node meta (string 2 (65 ∷ 0 ∷ 66 ∷ 0 ∷ []) (some (builtin (simple int))))))))

abbrev looped : Expr
looped = node meta (array_loop 7 3 one (node meta array_index))

abbrev text_of : Result Formatter → Option (List ℕ)
text_of (ok f) = some f.out
text_of (err e) = none

concat : List (List ℕ) → List ℕ
concat [] = []
concat (l ∷ ls) = l ++ concat ls

sample_text :
    text_of (print_expr_fresh expr_context sample page)
    ≡ some (
        concat (
          codes "\n(Ebinop Badd (Eint 1%Z Tint)"
          ∷ codes "\n  (Eif2 0 (Eint 1%Z Tint)"
          ∷ codes "\n    (Eopaque_ref 0Tint)"
          ∷ codes "\n    (Eopaque_ref 0Tint) (Estring (65%N :: 66%N :: nil) Tint)Tint) Tint)"
          ∷ []))
unfolding environment print_expr_fresh concat
sample_text = refl

looped_text :
    text_of (print_expr_fresh expr_context looped page)
    ≡ some (codes "\n(Earrayloop_init 0 (Eint 1%Z Tint)0 3\n  (Earrayloop_index 0 Tint) Tint)")
unfolding environment print_expr_fresh
looped_text = refl

-- Two names, and no open loop.
abbrev two_names : OpaqueNames
two_names = record empty { indexes = 5 ∷ 6 ∷ [] }

print_expr-Closed_example : Closed ⊥ (print_expr expr_context sample two_names).1
print_expr-Closed_example =
    print_expr-Closed ⊥ expr_context sample two_names expr_context-IsContext
      (tt, (tt, ((tt, tt), (tt, ((tt, tt), ((tt, tt), ((tt, tt), (tt, tt))))))))

print_expr-Returns_example : Returns (print_expr expr_context sample two_names).1
print_expr-Returns_example =
    print_expr-Returns expr_context sample two_names expr_context-IsContext
      (tt, (tt, ((tt, tt), (tt, ((tt, tt), ((tt, tt), ((tt, tt), (tt, tt))))))))

abbrev statement : Stmt
statement = compound (stmt (expr_stmt 1) (stmt (return_stmt (some 2)) no_stmts))

abbrev table : ℕ → Expr
table e = looped

print_stmt_exprs-Returns_example : Returns (
    print_stmt
      (record { env = with_exprs expr_context table; info = info; thread_safe = true })
      statement)
print_stmt_exprs-Returns_example =
    print_stmt_exprs-Returns expr_context table true statement expr_context-IsContext
      (λ e. (tt, ((tt, tt), (tt, tt)))) (tt, (tt, tt))

print_expr-Grows_example : Grows two_names (print_expr expr_context sample two_names).0
print_expr-Grows_example = print_expr-Grows expr_context sample two_names

find-print_expr_example : find 6 (print_expr expr_context sample two_names).0 ≡ pos 1
unfolding find
find-print_expr_example = find-print_expr expr_context sample two_names 6 1 refl

atomic-Fails_example :
    (room : ℕ) × ((f : Formatter)
      → f.depth + room < f.limit
      → (print_expr expr_context (node meta (atomic none no_exprs)) two_names).1 f
        ≡ err depth_changed)
atomic-Fails_example =
    atomic-Fails expr_context meta no_exprs two_names expr_context-IsContext tt refl

trait-Overcloses_example :
    Moves ⊥ 0 1 0 0
      (print_expr expr_context (node meta (trait_type (other_trait 7) int_type)) two_names).1
trait-Overcloses_example =
    trait-Overcloses expr_context meta 7 int_type two_names expr_context-IsContext tt refl

trait_text :
    text_of (print_expr_fresh expr_context (node meta (trait_type (other_trait 7) int_type)) page)
    ≡ some (codes "\n(Eunsupported \"UnaryExprOrTypeTraitExpr(7\") Tint)")
unfolding environment print_expr_fresh
trait_text = refl

-- An opaque value that has a number in `two_names`.
abbrev known : Expr
known = node meta (opaque_value 6)

sequenced-Forgets_example :
    ((visit expr_context (node meta (binary l_or true true one one)) two_names).1
      ≡ (visit expr_context (node meta (binary l_or true true one one)) empty).1)
    × ((visit expr_context (node meta (binary l_or true true known known)) two_names).1
        ≡ frame meta (
            visit_binary expr_context meta l_or true true
              (frame meta (visit_opaque expr_context meta (negsuc 0)))
              (frame meta (visit_opaque expr_context meta (negsuc 0)))))
unfolding visit
sequenced-Forgets_example =
    sequenced-Forgets expr_context meta meta meta l_or true true one one 6 6 two_names empty tt

abbrev bytes : List ℕ
bytes = 1 ∷ 2 ∷ []

abbrev are_bytes : All (λ b. b < 256) bytes
are_bytes = (omega arith, (omega arith, tt))

little_endian-of_bytes_example : little_endian bytes ≡ 513
little_endian-of_bytes_example = little_endian-of_bytes bytes (omega arith) are_bytes

big_endian-little_endian_example : big_endian 0 bytes ≡ little_endian (reverse_aux bytes [])
big_endian-little_endian_example = big_endian-little_endian bytes (omega arith) are_bytes

character-bound_example : (little_endian bytes < 65536) × (big_endian 0 bytes < 65536)
character-bound_example = character-bound bytes (omega arith) are_bytes

chars-concat_example :
    chars true 2 (1 ∷ 2 ∷ 3 ∷ 4 ∷ []) ≡ big_endian 0 bytes ∷ big_endian 0 (3 ∷ 4 ∷ []) ∷ []
chars-concat_example = chars-concat true 1 (bytes ∷ (3 ∷ 4 ∷ []) ∷ []) (refl, (refl, tt))
