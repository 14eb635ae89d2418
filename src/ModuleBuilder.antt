-- ===== src/ModuleBuilder.antt =====
-- rocq-bluerock-cpp2v/include/ModuleBuilder.hpp and src/ModuleBuilder.cpp: the walk over a translation
-- unit that collects the declarations and definitions of a module.
mod Syntax
mod Module
mod Visit
pub mod Keeps
pub mod Filtered
pub mod Returns
pub mod Visited
pub mod Templates
pub use Syntax.*
unfoldable pub use Module.*
unfoldable pub use Visit.*
