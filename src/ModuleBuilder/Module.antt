-- ===== src/ModuleBuilder/Module.antt =====
-- `Module` (ModuleBuilder.hpp), and what the walk carries with it.
use cpp2v.Common.{ℕ, Bool, true, false, List, [], ◌∷◌, ◌++◌, ◌==◌, ◌||◌, ◌&&◌, not, if◌then◌else◌}
use cpp2v.Formatter.{Result, ok, err, asserted}

pub record Flags : Type 0 where
  pub in_template : Bool
  pub in_specialization : Bool

-- `Flags{}`
abbrev pub unset : Flags
unset = record { in_template = false; in_specialization = false }

unfoldable pub set_template : Flags → Flags
set_template f = record f { in_template = true }

unfoldable pub set_specialization : Flags → Flags
set_specialization f = record f { in_specialization = true }

unfoldable pub no_flags : Flags → Bool
no_flags f = not f.in_template && not f.in_specialization

-- `module_`, `visited_` and the declarations for which `add_specification` was called. New entries
-- stand at the end.
pub record State : Type 0 where
  pub declarations : List ℕ
  pub definitions : List ℕ
  pub template_declarations : List ℕ
  pub template_definitions : List ℕ
  pub asserts : List ℕ
  pub visited : List ℕ
  pub specs : List ℕ

unfoldable pub start : State
start = record {
  declarations = [];
  definitions = [];
  template_declarations = [];
  template_definitions = [];
  asserts = [];
  visited = [];
  specs = [];
}

abbrev pub Action : Type 0
Action = State → Result State

abbrev pub bind : Result State → Action → Result State
bind (ok s) k = k s
bind (err e) k = err e

infixl 5 ◌>>◌
abbrev pub ◌>>◌ : Action → Action → Action
◌>>◌ p q s = bind (p s) q

unfoldable pub pass : Action
pass s = ok s

-- `always_assert(flags.none())`
unfoldable pub assert_none : Flags → Action
unfolding no_flags
assert_none flags s = if no_flags flags then ok s else err asserted

unfoldable pub contains : ℕ → List ℕ → Bool
contains x [] = false
contains x (y ∷ ys) = x == y || contains x ys

-- `add_decl(…, decls, tdecls, decl, flags)`, whose trace is left out: the two lists after it.
unfoldable pub add_decl : List ℕ → List ℕ → ℕ → Flags → List ℕ × List ℕ
add_decl decls tdecls d flags =
    if flags.in_template
    then (decls, tdecls ++ d ∷ [])
    else if flags.in_specialization
    then (decls ++ d ∷ [], tdecls ++ d ∷ [])
    else (decls ++ d ∷ [], tdecls)

unfoldable pub add_definition : ℕ → Flags → State → State
unfolding add_decl
add_definition d flags s =
    let (ds, ts) = add_decl s.definitions s.template_definitions d flags in
    record s { definitions = ds; template_definitions = ts }

unfoldable pub add_declaration : ℕ → Flags → State → State
unfolding add_decl
add_declaration d flags s =
    let (ds, ts) = add_decl s.declarations s.template_declarations d flags in
    record s { declarations = ds; template_declarations = ts }

unfoldable pub add_assert : ℕ → State → State
add_assert d s = record s { asserts = s.asserts ++ d ∷ [] }

unfoldable pub add_specification : ℕ → State → State
add_specification d s = record s { specs = s.specs ++ d ∷ [] }

unfoldable pub mark : ℕ → State → State
mark d s = record s { visited = d ∷ s.visited }
