-- ===== src/PrintDecl/Declaration.antt =====
-- What the printers of declarations share (`DeclPrinter` of PrintDecl.cpp), type aliases and incomplete types.
use cpp2v.Common.{
  ℕ, String, Bool, true, false, List, [], ◌∷◌, Option, none, some, ◌||◌, not, if◌then◌else◌,
}
use cpp2v.Formatter.{Printer, ok, bind, ◌>>◌, skip, nbsp}
use cpp2v.CoqPrinter.{Maybe, with_ctor, str}
use cpp2v.ClangPrinter.{answer}
use cpp2v.PrintType.{QualType, print_qual_type}
use cpp2v.PrintDecl.Syntax.{DeclEnv, Heading}

unfoldable pub any : List Bool → Bool
any [] = false
any (b ∷ bs) = b || any bs

-- `isSpecialized`
unfoldable pub is_specialized : Heading → Bool
unfolding any
is_specialized h =
    if h.is_implicit_special
    then false
    else (if h.is_enum_constant then false else any h.specializations)

unfoldable pub silent : Maybe
silent f = ok (f, false)

-- The case of `printSpecialization` where there is a pattern.
unfoldable pub print_pattern : DeclEnv → Heading → Option ℕ → Maybe
unfolding silent answer with_ctor nbsp
print_pattern c h none = silent
print_pattern c h (some pattern) = answer true (
    with_ctor "Dinstantiation" true do
      c.name_comment h.decl
      nbsp
      c.name_key h.decl
      nbsp
      c.name_comment pattern
      nbsp
      c.name_key pattern
      nbsp
      c.template_arguments h.decl)

-- `printSpecialization`
unfoldable pub print_specialization : DeclEnv → Heading → Maybe
unfolding silent print_pattern
print_specialization c h =
    if not c.env.templates || not (is_specialized h) then silent else print_pattern c h h.pattern

-- `printDecl` in `DeclPrinter::print`
unfoldable pub print_plain : DeclEnv → Heading → String → Printer → Maybe
unfolding silent answer with_ctor nbsp
print_plain c h name body =
    if c.env.templates
    then (if not h.is_templated || is_specialized h
        then silent
        else answer true (
            with_ctor name true do
              c.name_comment h.decl
              nbsp
              c.template_parameters h.decl
              nbsp
              c.name_key h.decl
              nbsp
              body))
    else answer true
        (with_ctor name true do c.name_comment h.decl; nbsp; c.name_key h.decl; nbsp; body)

unfoldable pub print_checked : DeclEnv → Heading → String → Option (List ℕ) → Printer → Maybe
unfolding answer with_ctor nbsp str print_plain
print_checked c h name none body = print_plain c h name body
print_checked c h name (some message) body =
    answer true (with_ctor "Dunsupported" true do c.env.print_name h.decl; nbsp; str message)

-- `printDeclWith`: only a context is checked.
unfoldable pub print_with : DeclEnv → Heading → String → Option (List ℕ) → Printer → Maybe
unfolding print_checked print_plain
print_with c h name invalid body =
    if h.is_context then print_checked c h name invalid body else print_plain c h name body

-- `a || b` of printers that answer.
unfoldable pub or_else : Maybe → Maybe → Maybe
or_else m n f = bind (m f) (λ (g, b). if b then ok (g, true) else n g)

-- `DeclPrinter::print`
unfoldable pub print_declaration : DeclEnv → Heading → String → Option (List ℕ) → Printer → Maybe
unfolding or_else print_with print_specialization
print_declaration c h name invalid body =
    or_else (print_with c h name invalid body) (print_specialization c h)

-- `Dtype` and `Dtypedef`
unfoldable pub print_type_decl : DeclEnv → Heading → Maybe
unfolding print_declaration skip
print_type_decl c h = print_declaration c h "Dtype" none skip

unfoldable pub print_typedef : DeclEnv → Heading → QualType → Maybe
unfolding print_declaration print_qual_type
print_typedef c h t = print_declaration c h "Dtypedef" none (print_qual_type c.env c.info t)
