-- ===== src/Examples/Records.antt =====
-- A structure printed with the environment of Environment.antt.
use cpp2v.Common.{ℕ, ◌≡◌, refl, Bool, true, false, List, [], ◌∷◌, Option, none, some, codes}
use cpp2v.Formatter.{Formatter, Result, ok, err, put}
use cpp2v.Formatter.Brackets.{scan}
use cpp2v.Formatter.Balance.{Closed, text-Moves}
use cpp2v.CoqPrinter.Balance.{printed}
use cpp2v.PrintType.{qual, simple, int, builtin, record_type}
use cpp2v.PrintDecl.{
  DeclEnv, IsDeclEnv, Heading, identifier, Field, struct_tag, standard, Record, print_struct_decl,
  is_struct,
}
use cpp2v.PrintDecl.WellFormed.{print_struct_decl-Closed}
use cpp2v.Examples.Environment.{environment, environment-IsEnv, info, page}

unfoldable decl_env : DeclEnv
unfolding put
decl_env = record {
  env = environment;
  info = info;
  name_comment = λ d. put "(*c*)";
  name_key = λ d. put "k";
  template_parameters = λ d. put "nil";
  template_arguments = λ d. put "nil";
  dtor_name = λ d. put "d";
  short_name = λ d. put "s";
}

decl_env-IsDeclEnv : IsDeclEnv ⊥ decl_env
unfolding decl_env scan
decl_env-IsDeclEnv = record {
  env = environment-IsEnv ⊥;
  comment_closed = λ d. text-Moves "(*c*)" (λ n. refl);
  key_closed = λ d. text-Moves "k" (λ n. refl);
  parameters_closed = λ d. text-Moves "nil" (λ n. refl);
  arguments_closed = λ d. text-Moves "nil" (λ n. refl);
  dtor_closed = λ d. text-Moves "d" (λ n. refl);
  short_closed = λ d. text-Moves "s" (λ n. refl);
}

abbrev heading : Heading
heading = record {
  decl = 1;
  is_context = true;
  is_templated = false;
  is_implicit_special = false;
  is_enum_constant = false;
  specializations = [];
  pattern = none;
}

-- A bit field, or one that is not, of type `int`.
abbrev int_field : Bool → Field
int_field is_bit = record {
  name = identifier (codes "x");
  is_bit_field = is_bit;
  is_invalid = false;
  type = qual false false false (builtin (simple int));
  is_mutable = false;
  initializer = some 3;
  offset = 64;
}

abbrev structure : Bool → Record
structure is_bit = record {
  decl = 1;
  tag = struct_tag;
  is_complete = true;
  is_dependent = false;
  bases =
      record { is_virtual = false; type = some (record_type 2); class = some 2; offset = 0 } ∷ [];
  fields = int_field is_bit ∷ [];
  methods = record { decl = 4; is_virtual = true; is_pure = false; overridden = 5 ∷ [] } ∷ [];
  operator_delete = none;
  is_trivial = true;
  layout = standard;
  size = 16;
  alignment = 8;
}

abbrev text_of : Result (Formatter × Bool) → Option (List ℕ)
text_of (ok (f, b)) = some f.out
text_of (err e) = none

bit_field_text :
    text_of (print_struct_decl decl_env heading (structure true) page)
    ≡ some (codes "\n(Dunsupported (Nglobal x) \"bitfields are not supported\")")
unfolding decl_env environment print_struct_decl
bit_field_text = refl

print_struct_decl-Closed_example :
    Closed ⊥ (printed (print_struct_decl decl_env heading (structure false)))
unfolding decl_env environment is_struct
print_struct_decl-Closed_example =
    print_struct_decl-Closed ⊥ decl_env heading (structure false) decl_env-IsDeclEnv refl tt
      ((λ e. tt, λ e. tt), tt) (tt, tt)
