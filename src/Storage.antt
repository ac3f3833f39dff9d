-- ===== src/Storage.antt =====
-- internal/app/filestore.go: the files directory, and the names of files.
mod Paths
mod Names
mod Directory
pub mod Inside
pub mod SafeName
pub mod Places
pub mod Sound
pub mod Commit
pub mod Tests
unfoldable pub use Paths.*
unfoldable pub use Names.*
unfoldable pub use Directory.*
