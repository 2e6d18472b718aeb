-- ===== src/Tests.antt =====
-- Runs at concrete inputs: each theorem at a case that meets its hypotheses.
mod Samples
mod Formats
mod Vaults
mod Ratchets
mod Rollbacks
mod Forged
mod Openings
mod Passphrases
mod Prekeys
mod Libraries
mod Sessions
mod Exchanges
mod Cards
mod Handshakes
mod Containers
mod Groups
