-- ===== src/X3dh.antt =====
-- include/ratchet/x3dh.hpp and src/x3dh.cpp: the handshake between two identities and the cards
-- that it starts from.
mod Combine
mod Steps
mod Handshake
mod Export
mod Card
pub mod Kem
pub mod Dh
pub mod Hybrid
pub mod Agreement
pub mod Picked
pub mod Taken
pub mod Signatures
pub mod CardTrip
pub mod CardImport
unfoldable pub use Combine.*
unfoldable pub use Handshake.*
unfoldable pub use Card.*
unfoldable pub use Steps.*
unfoldable pub use Export.*
