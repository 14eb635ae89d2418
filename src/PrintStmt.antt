-- ===== src/PrintStmt.antt =====
-- rocq-bluerock-cpp2v/src/PrintStmt.cpp: the printer of statements.
mod Syntax
mod Visit
pub mod Balance
pub mod WellFormed
pub use Syntax.*
unfoldable pub use Visit.*
