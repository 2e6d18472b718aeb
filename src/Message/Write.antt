-- ===== src/Message/Write.antt =====
-- src/message.cpp: sender_id_for, header_aad, envelope_aad_prefix and encode.
use ratchet_usb.Prelude.{
  ℕ, Bool, true, false, not, ◌&&◌, ◌||◌, List, length, take, Option, none, some, leb, ◌==◌,
}
use ratchet_usb.Outcome.{Result, ok, pure, guard, built, ◌>>◌, ◌>=>◌, unsupported_message}
use ratchet_usb.Crypto.{Crypto}
use ratchet_usb.Serial.Writer
use ratchet_usb.Serial.Writer.{Writing}
use ratchet_usb.Protocol.{suite_code, hybrid_pqxdh_v1, uses_triple_ratchet}
use ratchet_usb.Message.Types.{
  InitialFields, RatchetHeader, Envelope, message_magic, sender_id_bytes, max_spqr_bytes,
}
use ratchet_usb.Wire.{Base64, encode_block}
use ratchet_usb.Prelude.{codes}

-- The first bytes of the identity key's SHA-256.
unfoldable pub sender_id_for : Crypto → List ℕ → List ℕ
sender_id_for c identity_pub = take sender_id_bytes (c.sha256 identity_pub)

unfoldable pub write_header : RatchetHeader → Writing
write_header h = do Writer.bytes h.dh_pub; Writer.u32 h.pn; Writer.u32 h.n

-- The 40 bytes of header that the AEAD authenticates.
unfoldable pub header_aad : RatchetHeader → Result (List ℕ)
unfolding write_header
header_aad h = built (write_header h)

unfoldable pub write_optional_id : Option ℕ → Writing
write_optional_id none = Writer.u8 0
write_optional_id (some id) = do Writer.u8 1; Writer.u32 id

-- An id and its ML-KEM ciphertext are written together or not at all.
unfoldable pub write_pq_pair : Option ℕ → Option (List ℕ) → Writing
write_pq_pair (some id) (some ct) = do Writer.u8 1; Writer.u32 id; Writer.bytes ct
write_pq_pair (some id) none = Writer.u8 0
write_pq_pair none ct = Writer.u8 0

unfoldable pub write_initial : Option InitialFields → Writing
unfolding write_optional_id write_pq_pair
write_initial none = Writer.u8 0
write_initial (some f) = do
  Writer.u8 1
  Writer.bytes f.initiator_identity_pub
  Writer.u32 f.spk_id
  write_optional_id f.otpk_id
  write_pq_pair f.pq_spk_id f.pq_spk_ciphertext
  write_pq_pair f.pq_otpk_id f.pq_otpk_ciphertext

unfoldable pub write_prefix : Envelope → Writing
unfolding write_initial
write_prefix env = do
  Writer.bytes message_magic
  Writer.u8 env.version
  Writer.u8 (suite_code env.suite)
  Writer.bytes env.sender_id
  write_initial env.initial

abbrev pub write_if : Bool → Writing → Writing
write_if true w = w
write_if false w = pure tt

-- What is authenticated ahead of the ratchet header.
unfoldable pub envelope_aad_prefix : Envelope → Result (List ℕ)
unfolding write_prefix
envelope_aad_prefix env =
    built (do write_prefix env; write_if (env.version == 3) (Writer.blob env.spqr_message))

unfoldable pub is_hybrid : Envelope → Bool
is_hybrid env =
    env.version == 2
    && (suite_code env.suite == suite_code hybrid_pqxdh_v1 && length env.spqr_message == 0)

unfoldable pub is_triple : Envelope → Bool
unfolding uses_triple_ratchet
is_triple env =
    env.version == 3
    && (uses_triple_ratchet env.suite
        && (not (length env.spqr_message == 0) && leb (length env.spqr_message) max_spqr_bytes))

unfoldable pub encode_body : Envelope → Writing
unfolding is_hybrid is_triple write_initial write_header
encode_body env = do
  guard (is_hybrid env || is_triple env) unsupported_message
  Writer.bytes message_magic
  Writer.u8 env.version
  Writer.u8 (suite_code env.suite)
  Writer.bytes env.sender_id
  write_initial env.initial
  write_if (is_triple env) (Writer.blob env.spqr_message)
  write_header env.header
  Writer.blob env.ciphertext

unfoldable pub encode : Base64 → Envelope → Result (List ℕ)
unfolding encode_body encode_block
encode base64 env =
    built (encode_body env) >=> λ body. ok (encode_block base64 (codes "MESSAGE") body)
