-- ===== src/Store.antt =====
-- internal/app/store.go: the database and the methods of `Store`.
mod Tables
mod Statements
mod Subscriptions
mod FileLinks
mod Access
mod Files
mod Sessions
mod Commands
mod Tests
pub mod Valid
pub mod Recorded
pub mod Revision
pub mod Counting
pub mod Counts
pub mod Batch
pub mod Listing
pub mod Cleanup
pub mod LogOrder
pub mod Logs
pub mod Associations
pub mod Login
pub mod Catalog
unfoldable pub use Tables.*
unfoldable pub use Statements.*
unfoldable pub use Subscriptions.*
unfoldable pub use FileLinks.*
unfoldable pub use Access.*
unfoldable pub use Files.*
unfoldable pub use Sessions.*
unfoldable pub use Commands.*
