-- ===== src/Filter.antt =====
-- rocq-bluerock-cpp2v/include/Filter.hpp: which declarations a module keeps, and in which form.
use cpp2v.Common.{
  ℕ, Bool, true, false, List, [], ◌∷◌, Option, none, some, if◌then◌else◌, ltb, not, ◌||◌,
}
pub mod Laws

pub data What : Type 0 where
  nothing declaration definition : What

-- The values of the enumeration.
abbrev pub rank : What → ℕ
rank nothing = 0
rank declaration = 1
rank definition = 2

unfoldable pub min : What → What → What
min a b = if ltb (rank a) (rank b) then a else b

unfoldable pub max : What → What → What
max a b = if ltb (rank a) (rank b) then b else a

-- `shouldInclude`, for a declaration that is a number.
abbrev pub Filter : Type 0
Filter = ℕ → What

unfoldable pub default_filter : What → Filter
default_filter what d = what

-- What `NoInclude` asks the source manager about the place where a declaration begins: is it valid, is
-- its presumed place valid, and was the file there included from another one.
pub record Place : Type 0 where
  pub is_valid : Bool
  pub is_presumed : Bool
  pub has_include_loc : Bool

unfoldable pub is_included : Place → Bool
is_included p =
    if not p.is_valid
    then false
    else if not p.is_presumed
    then false
    else if p.has_include_loc
    then true
    else false

unfoldable pub no_include : (ℕ → Place) → Filter
unfolding is_included
no_include place d = if is_included (place d) then declaration else definition

unfoldable pub no_private : Filter
no_private d = definition

-- The loop of `Combine::shouldInclude`.
unfoldable pub combine_loop : (What → What → What) → What → List Filter → ℕ → What
combine_loop combine result [] d = result
combine_loop combine result (x ∷ filters) d = combine_loop combine (combine result (x d)) filters d

unfoldable pub combine_filter : What → (What → What → What) → List Filter → Filter
unfolding combine_loop
combine_filter unit combine filters d = combine_loop combine unit filters d

-- What `FromComment` finds: the comment of a declaration, if it has one, and whether the words
-- "definition" and "declaration" stand in it.
pub record Comment : Type 0 where
  pub has_definition : Bool
  pub has_declaration : Bool

unfoldable pub from_comment : (ℕ → Option Comment) → Filter
from_comment comment d = elim (comment d) [
  | none ↦ nothing
  | some c ↦
      if c.has_definition then definition else if c.has_declaration then declaration else nothing
]
