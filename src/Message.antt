-- ===== src/Message.antt =====
-- include/ratchet/message.hpp and src/message.cpp: the envelope of one message.
-- Keys, ciphertexts and identifiers are lists of bytes; `IsEnvelope` states their sizes.
pub mod Write
pub mod Read
pub mod Fields
pub mod RoundTrip
pub mod Authenticated
mod Types
pub use Types.*
