-- ===== src/PrintDecl.antt =====
-- rocq-bluerock-cpp2v/src/PrintDecl.cpp: the printer of declarations, of which structures, unions and type
-- aliases are here.
mod Syntax
mod Declaration
mod Records
pub mod Balance
pub mod Supported
pub mod Parts
pub mod WellFormed
pub use Syntax.*
unfoldable pub use Declaration.*
unfoldable pub use Records.*
