-- ===== src/Float.antt =====
-- The numbers of the program: the interface and its laws in `Ops`, what follows from the laws in
-- `Order` and `Signs`, a concrete model in `Fixed`.
mod Ops
pub mod Order
pub mod Signs
pub mod Fixed
pub use Ops.*
