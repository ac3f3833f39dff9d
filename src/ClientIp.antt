-- ===== src/ClientIp.antt =====
-- internal/app/clientip.go: the addresses and prefixes of package `net/netip`, the parsing of the
-- trusted proxies and of the forwarding headers, and the resolver.
mod Netip
mod Parse
mod Resolver
pub mod Spoofing
pub mod Mapped
pub mod Trusted
mod Tests
unfoldable pub use Netip.*
unfoldable pub use Parse.*
unfoldable pub use Resolver.*
