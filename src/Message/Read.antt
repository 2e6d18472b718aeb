-- ===== src/Message/Read.antt =====
-- src/message.cpp: read_flag and decode.
use ratchet_usb.Prelude.{
  ℕ, Bool, true, false, not, ◌&&◌, ◌||◌, List, [], length, Option, none, some, ltb, ◌==◌,
  if◌then◌else◌, same_bytes, codes,
}
use ratchet_usb.Outcome.{
  Action, Result, ok, err, pure, guard, ◌>>=◌, ◌>>◌, ◌>=>◌, unsupported_message, noncanonical_flag,
  legacy_message, invalid_spqr_length, trailing_envelope_data,
}
use ratchet_usb.Serial.Reader
use ratchet_usb.Protocol.{
  suite_code, suite_of, hybrid_pqxdh_v1, triple_ratchet_v1, x_wing_triple_ratchet_v1,
}
use ratchet_usb.Message.Types.{
  InitialFields, RatchetHeader, Envelope, message_magic, sender_id_bytes, ml_kem_ciphertext_bytes,
  max_spqr_bytes, max_envelope_bytes,
}
use ratchet_usb.Wire.{Base64, decode_block}

unfoldable pub read_flag : Action Bool
read_flag = do value ← Reader.u8; guard (not (ltb 1 value)) noncanonical_flag; pure (value == 1)

unfoldable pub read_optional_id : Action (Option ℕ)
unfolding read_flag
read_optional_id = do present ← read_flag; Reader.read_if present Reader.u32

unfoldable pub read_present_pair : Bool → Action (Option ℕ × Option (List ℕ))
read_present_pair true = do
  id ← Reader.u32
  ct ← Reader.bytes ml_kem_ciphertext_bytes
  pure (some id, some ct)
read_present_pair false = pure (none, none)

unfoldable pub read_pq_pair : Action (Option ℕ × Option (List ℕ))
unfolding read_flag read_present_pair
read_pq_pair = do present ← read_flag; read_present_pair present

unfoldable pub read_fields : Action InitialFields
unfolding read_optional_id read_pq_pair
read_fields = do
  identity ← Reader.bytes 32
  spk ← Reader.u32
  otpk ← read_optional_id
  pq_spk ← read_pq_pair
  pq_otpk ← read_pq_pair
  pure (record {
    initiator_identity_pub = identity;
    spk_id = spk;
    otpk_id = otpk;
    pq_spk_id = pq_spk.0;
    pq_spk_ciphertext = pq_spk.1;
    pq_otpk_id = pq_otpk.0;
    pq_otpk_ciphertext = pq_otpk.1;
  })

unfoldable pub read_initial : Action (Option InitialFields)
unfolding read_flag read_fields
read_initial = do present ← read_flag; Reader.read_if present read_fields

unfoldable pub read_header : Action RatchetHeader
read_header = do
  dh ← Reader.bytes 32
  pn ← Reader.u32
  n ← Reader.u32
  pure (record { dh_pub = dh; pn = pn; n = n })

-- A Triple Ratchet envelope carries a nonempty SPQR message of bounded size.
unfoldable pub read_spqr : Bool → Action (List ℕ)
read_spqr true = do
  spqr ← Reader.blob
  guard (not (length spqr == 0 || ltb max_spqr_bytes (length spqr))) invalid_spqr_length
  pure spqr
read_spqr false = pure []

unfoldable pub hybrid_codes : ℕ → ℕ → Bool
hybrid_codes version suite = version == 2 && suite == suite_code hybrid_pqxdh_v1

unfoldable pub triple_codes : ℕ → ℕ → Bool
triple_codes version suite =
    version == 3
    && (suite == suite_code triple_ratchet_v1 || suite == suite_code x_wing_triple_ratchet_v1)

unfoldable pub decode_body : Action Envelope
unfolding read_initial read_header read_spqr hybrid_codes triple_codes
decode_body = do
  magic ← Reader.bytes 4
  guard (same_bytes magic message_magic) legacy_message
  version ← Reader.u8
  suite ← Reader.u8
  guard (hybrid_codes version suite || triple_codes version suite) unsupported_message
  sender ← Reader.bytes sender_id_bytes
  initial ← read_initial
  spqr ← read_spqr (triple_codes version suite)
  header ← read_header
  ciphertext ← Reader.blob
  pure (record {
    version = version;
    suite = suite_of suite;
    sender_id = sender;
    initial = initial;
    spqr_message = spqr;
    header = header;
    ciphertext = ciphertext;
  })

unfoldable pub decode : Base64 → List ℕ → Result Envelope
unfolding decode_body decode_block
decode base64 text = decode_block base64 (codes "MESSAGE") text max_envelope_bytes >=> λ body.
    decode_body body >=> λ (env, rest).
    if Reader.at_end rest then ok env else err trailing_envelope_data
