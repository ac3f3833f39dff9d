-- ===== src/Web.antt =====
-- The small functions of internal/app/app.go, handlers.go and helpers.go that read a request and build
-- links.
pub mod Numbers
mod Forms
mod Links
mod Origin
unfoldable pub use Numbers.{parse_id, parse_page, parse_retention}
unfoldable pub use Forms.*
unfoldable pub use Links.*
unfoldable pub use Origin.*
