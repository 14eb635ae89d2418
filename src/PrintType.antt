-- ===== src/PrintType.antt =====
-- rocq-bluerock-cpp2v/src/PrintType.cpp: the printer of types.
mod Syntax
mod Visit
pub mod Balance
pub mod WellFormed
pub use Syntax.*
unfoldable pub use Visit.*
