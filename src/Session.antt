-- ===== src/Session.antt =====
-- include/ratchet/session.hpp and src/session.cpp: messages sent and received over the vault.
-- `send` and `receive` are actions on the vault; what they draw at random and read off the clock is
-- an argument.
mod Types
mod Send
mod Lookup
mod Receive
pub mod Refused
pub mod Accepted
pub mod History
pub mod Replayed
pub mod Contacts
pub mod Runs
pub mod Consumed
unfoldable pub use Types.*
unfoldable pub use Send.*
unfoldable pub use Receive.*
unfoldable pub use Lookup.*
