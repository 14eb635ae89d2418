-- ===== src/PrintExpr.antt =====
-- rocq-bluerock-cpp2v/src/PrintExpr.cpp: the printer of expressions.
mod Syntax
mod Common
mod Refs
mod Operators
mod Casts
mod Literals
mod Calls
mod Objects
mod Visit
pub mod Balance
pub mod Bytes
pub mod Names
pub mod Numbered
pub mod Supported
pub mod WellFormed
pub mod Errors
pub mod Sequenced
pub mod Statements
pub use Syntax.*
unfoldable pub use Common.*
unfoldable pub use Refs.*
unfoldable pub use Operators.*
unfoldable pub use Casts.*
unfoldable pub use Literals.*
unfoldable pub use Calls.*
unfoldable pub use Objects.*
unfoldable pub use Visit.*
