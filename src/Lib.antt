-- ===== src/Lib.antt =====
-- Ratchet-USB: a verification library of its messaging core.
--
-- Ratchet-USB is an offline messenger: a vault on a USB stick holds identities, prekeys, contacts
-- and sessions, and messages travel as pasted text blocks. The modelled core is what stands
-- between a vault and a block. A session of the vault encrypts under the Double Ratchet; header
-- and ciphertext go into an envelope, whose bytes are armored; the receiver reads the block back,
-- advances the session and stores it. Numbers are native naturals with the source's 32-bit
-- wrap-around written out, byte strings are lists of numbers, a thrown error is a value of
-- `Outcome.Error`.
--
-- Files and the code that they model (paths from the repository's root):
--   Serial (Writer, Reader): include/ratchet/serial.hpp. A writer acts on the sink, a reader on
--     the bytes not yet read. Serial/Trip is the calculus of round trips that every format uses.
--   Protocol: include/ratchet/protocol.hpp.
--   Wire: src/wire.cpp, encode_block and decode_block.
--   Message (Types, Write, Read): include/ratchet/message.hpp, src/message.cpp; header_aad,
--     envelope_aad_prefix, encode, decode.
--   Kdf: src/kdf.cpp, the HKDF that is compiled where libsodium has none.
--   Crypto: what is called of libsodium, as a record of functions with a record of their laws.
--   Exec: actions that change an object and may throw; the object is handed on in both cases.
--     Exec/Done inverts a run that succeeds, Exec/Leaves bounds what a run that throws leaves.
--   Ratchet (Padding, Keys, Steps, Decrypt): src/ratchet.cpp, src/x25519.cpp (dh) and
--     src/triple_ratchet.cpp. `decrypt_in_place` is split into the cached key (decrypt_cached), the
--     DH step (follow_ratchet) and the message's own key (decrypt_next).
--   Store (Types, Write, Read, Parse, Lookup, Handshakes): include/ratchet/store.hpp and
--     src/store.cpp; the searches, the history of accepted handshakes, serialize and parse.
--   Rollback: include/ratchet/rollback.hpp and src/rollback.cpp without the host's key ring.
--   Pq: src/pq.cpp, the length checks around OpenSSL's ML-KEM-768 and ML-DSA-65.
--   Identity: src/identity.cpp; key derivation and fingerprints, over a record of the Ed25519 calls.
--   Prekey: include/ratchet/prekey.hpp and src/prekey.cpp.
--   X3dh (Combine, Export, Card, Steps, Handshake): include/ratchet/x3dh.hpp and src/x3dh.cpp; the
--     combiners, the export and import of contact cards, initiate, respond and respond_hybrid.
--     `import_card` is split into the file (read_card_file) and the signed body (read_signed_body),
--     `initiate` into its checks, the X25519 part (initiate_with) and the ML-KEM part (initiate_pq).
--   Session (Types, Send, Lookup, Receive): include/ratchet/session.hpp and src/session.cpp.
--     `receive` is split by kind of message: an opening (receive_opening, accept_opening,
--     finish_opening) and a message in a session (receive_ordinary). Both act on a VaultStore.
--   Vault: include/ratchet/vault.hpp and src/vault.cpp; the header, seal and unseal. `parse_header`
--     reads the fields at their offsets (header_at) and then checks them.
--   Group: src/group.cpp up to decrypt_content; `unseal_wrapper` is split into the fields
--     (read_wrapper) and their opening (open_wrapper).
--   Passphrase: src/passphrase.cpp, with the words drawn as an argument.
--   Tests: runs at concrete inputs, with stand-ins for the primitives.
--
-- Fuel: the loop of skip_message_keys runs `until - nr` rounds and is given as many; the loop of
-- fallback_expand produces a byte a round and is given `out_len` rounds. The round trips hold for
-- integers of their C++ widths, arrays of their sizes and lists shorter than 2^32, which
-- `IsEnvelope` and `IsStore` state.
--
-- Arguments stand for what the code draws at random (nonces, key pairs) and reads off the clock.
-- The primitives of libsodium and OpenSSL (HMAC, SHA-256, X25519, ChaCha20-Poly1305, Ed25519,
-- base64, ML-KEM, ML-DSA) and the SPQR library are parameters: the records Crypto, Ed25519, OpenSsl,
-- Base64 and Spqr, with records of the laws that a theorem relies on; Argon2 is the argument
-- `pwhash`. Not modelled: the mnemonic (src/bip39.cpp), files (src/file.cpp) and the sending and
-- receiving of group messages (the rest of src/group.cpp), which come next; the locking and
-- replacing of the vault's file (the rest of src/vault.cpp) and the key ring of the host, which are
-- calls of the operating system; the command line and the user interfaces, which sit above this
-- core; and locking and wiping of memory, which leaves no trace in the values. The AEAD's encryption
-- and the Ed25519 signature return a value in the model: the throws of the code for a failure that
-- libsodium reports of them are left out. Indices into lists are naturals, without the code's casts
-- to int.
pub mod Prelude
pub mod Outcome
pub mod Serial
pub mod Protocol
pub mod Wire
pub mod Message
pub mod Crypto
pub mod Exec
pub mod Kdf
pub mod Store
pub mod Ratchet
pub mod Rollback
pub mod Vault
pub mod Group
pub mod Pq
pub mod Identity
pub mod Prekey
pub mod X3dh
pub mod Session
pub mod Passphrase
pub mod Tests
