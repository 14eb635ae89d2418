-- ===== src/Lib.antt =====
-- cpp2v reads a C++ translation unit with clang and writes it as a Coq term. The development models its core:
-- the stream that lays the output out, the pieces of Coq syntax, the printers of types, expressions,
-- statements and local declarations, the walk that decides which declarations the output holds, and the names
-- that let types and declarations be shared in it.
--
-- How the parts fit together. ModuleBuilder.cpp walks the declarations of the translation unit once and sorts
-- them, by what a filter (Filter.hpp) answers, into the lists of a `Module`. The printers then write each of
-- them through `CoqPrinter`, whose pieces write to a `Formatter`. A printer of a statement calls those of
-- types, local declarations, names and expressions. What a printer asks of those that call it in turn, or
-- that are not modelled, is an interface, the record `Env` of ClangPrinter.antt, with what is relied on in
-- `IsEnv`; PrintExpr/Statements puts the printer of expressions in its place. Before, PrePrint.cpp may hand
-- out names to types and declarations that are then printed once and referred to by name.
--
-- All paths are below rocq-bluerock-cpp2v.
-- - Common (with Tests, Lists): shared names, Boolean tests, lists over the native numbers.
-- - Formatter: src/Formatter.cpp and include/Formatter.hpp. `Formatter` is the object, with the wrapped
--   `raw_ostream` as the list of the characters written so far; `Printer` is a statement that writes to
--   it, and `p >> q` is `p; q`. Layout has laws of single operations, Brackets a reader of the printed
--   text, Balance the printers that keep depth and brackets in step, Termination those that return.
-- - CoqPrinter: include/CoqPrinter.hpp and src/StringPrettyPrinter.cpp. `begin_list` is
--   `CoqPrinter::begin_list` and so on; `with_ctor`, `with_list`, `with_tuple` and `with_record` are the
--   guards, whose destructors close what they open. `list_range` takes the list that `list` passes as
--   a range. Text is about literals and comments, Balance about the pieces.
-- - OpaqueNames: include/OpaqueNames.hpp. `find` and `find_anon` return -1 as `negsuc 0`.
-- - Filter: include/Filter.hpp, each filter as a function from declarations.
-- - ModuleBuilder (Syntax, Module, Visit; Keeps, Returns, Filtered, Visited, Templates):
--   src/ModuleBuilder.cpp and include/ModuleBuilder.hpp. `visit` is `Visit`, `walk` has a clause for each `Visit...Decl`.
-- - PrePrint (NameCache, Syntax, Traverse; Keeps, Numbers): src/PrePrint.cpp and include/PrePrint.hpp.
--   `NameCache` is the class template for types and for names; the printers that the traversal calls are
--   a log of their calls.
-- - ClangPrinter: the small printers of src/ClangPrinter.cpp and the interface of the large ones. Params has
--   the names of parameters of functions and templates, Labels and Lookup are about how they are found,
--   Printed is about depth and brackets; `print_value_param` is `printNonTypeTemplateParam`.
-- - PrintType (Syntax, Visit; Balance, WellFormed): src/PrintType.cpp. `Supported` there, and in PrintStmt,
--   says where the printer may stop.
-- - PrintLocalDecl (WellFormed): src/PrintLocalDecl.cpp.
-- - PrintStmt (Syntax, Visit; Balance, WellFormed): src/PrintStmt.cpp.
-- - PrintExpr: src/PrintExpr.cpp. Syntax has the expressions, Common what the cases share. Refs, Operators,
--   Casts, Literals, Calls and Objects have a handler for each `Visit...`, which takes the printers of its
--   operands; Visit has the visitor, which visits the operands in the order in which the program prints
--   them and hands `OpaqueNames& names` from one to the next. Supported says where the printer may stop.
--   Balance (with a module for each module of handlers) and WellFormed are about depth and brackets, Names
--   and Numbered about the names, Sequenced about the operands that get none, Bytes about string literals,
--   Errors about what fails, and Statements about statements that hold expressions.
-- - PrintDecl: src/PrintDecl.cpp, as far as type aliases, structures and unions. `print_declaration` is
--   `DeclPrinter::print`. Supported, Balance, Parts and WellFormed are about depth and brackets, and about
--   what the program refuses before it would die on it.
-- - Examples: runs on concrete inputs.
--
-- Clang's AST is modelled by data types, a constructor for each class that a visitor has a case for, with
-- the answers that the visitor asks of the node as arguments. Pointers are numbers. A `Result` is a
-- return or a `Failure`: `logging::die` or an assertion that does not hold. `always_assert` and `assert`
-- are both modelled as checks that are on. Every loop runs over a list or a tree, but for
-- the one over the bytes of a string literal: it has as many bytes as fuel, and uses one at least in each
-- step if the width of a character is not 0.
-- `unsigned int` wraps at `limit`, a field of the formatter; the invariants ask that the depth starts far
-- enough below it, by an amount that depends on what is printed and not on the formatter.
--
-- Not modelled: the printers of names (PrintName.cpp) and of global functions, variables and
-- enumerations (PrintDecl.cpp), the elaboration that asks clang for implicit members
-- (Elaborate.cpp), the log, the traces, and the command line. Two things are compile-time constants
-- of the program and stand in the model as their values: `PRINT_ALIAS` and `ClangPrinter::debug` are
-- false.
pub mod Common
pub mod Formatter
pub mod CoqPrinter
pub mod OpaqueNames
pub mod Filter
pub mod ModuleBuilder
pub mod PrePrint
pub mod ClangPrinter
pub mod PrintType
pub mod PrintLocalDecl
pub mod PrintStmt
pub mod PrintExpr
pub mod PrintDecl
mod Examples
