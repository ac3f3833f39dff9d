-- ===== src/Panel/Clean.antt =====
-- What holds of every subscription and of every file between two requests.
mod Rows
mod FileRows
pub use Rows.*
pub use FileRows.*
