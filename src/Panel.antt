-- ===== src/Panel.antt =====
-- The handlers of internal/app/handlers.go and handlers_files.go that change subscriptions, files and
-- access logs. Each is a function of what its request holds and of the instants that it reads, on the
-- database and the files directory, to its response and the new state. The guards in front of them are
-- in Admin. What a page shows is not modelled; a failure of a method of `Store` is what the model of
-- that method returns.
mod Subscriptions
mod Files
mod Requests
pub mod Clean
pub mod Kept
pub mod Deleted
pub mod Safe
unfoldable pub use Subscriptions.*
unfoldable pub use Files.*
unfoldable pub use Requests.*
