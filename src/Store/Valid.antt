-- ===== src/Store/Valid.antt =====
-- The well-formedness of the database of internal/app/store.go, and that its methods keep it.
mod Defs
mod Updates
mod Rows
mod FileRows
mod LogRows
mod Rules
mod Laws
mod Methods
pub mod History
pub use Defs.*
pub use Laws.*
pub use Methods.*
