-- ===== src/Store.antt =====
-- include/ratchet/store.hpp and src/store.cpp: what the vault holds, the records of accepted
-- handshakes, and the bytes that the vault is sealed as.
mod Types
mod Write
mod Read
mod Parse
mod Lookup
mod Handshakes
pub mod Fields
pub mod RoundTrip
pub mod Replay
pub mod Found
pub use Types.*
unfoldable pub use Write.*
unfoldable pub use Read.*
unfoldable pub use Parse.*
unfoldable pub use Lookup.*
unfoldable pub use Handshakes.*
