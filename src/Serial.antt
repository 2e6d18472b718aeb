-- ===== src/Serial.antt =====
-- include/ratchet/serial.hpp: the reader and the writer of every binary format.
-- A writer acts on the bytes of its sink; a reader acts on the bytes that it has not read,
-- data_[pos_..len_].
pub mod Writer
pub mod Reader
pub mod Trip
pub mod Bounds
