-- ===== src/PrePrint.antt =====
-- rocq-bluerock-cpp2v/include/PrePrint.hpp and src/PrePrint.cpp: the names that stand for types and
-- declarations in the output, and the traversal that hands them out.
mod NameCache
mod Syntax
mod Traverse
pub mod Keeps
pub mod Numbers
unfoldable pub use NameCache.*
pub use Syntax.*
unfoldable pub use Traverse.*
