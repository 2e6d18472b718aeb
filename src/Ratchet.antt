-- ===== src/Ratchet.antt =====
-- include/ratchet/ratchet.hpp and src/ratchet.cpp: the Double Ratchet.
-- The session is the object of an `Exec` action. What the code draws at random (a key pair, a
-- nonce) and reads off the clock are arguments.
pub mod Padding
mod Keys
mod Steps
mod Decrypt
pub mod Bounds
pub mod Aead
pub mod Chain
pub mod Delivery
pub mod Exchange
pub mod Expiry
pub mod Late
pub mod Opening
pub mod Forgery
pub mod Atomic
unfoldable pub use Keys.*
unfoldable pub use Steps.*
unfoldable pub use Decrypt.*
