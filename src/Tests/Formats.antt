-- ===== src/Tests/Formats.antt =====
-- The formats and the key derivation at concrete inputs.
use ratchet_usb.Prelude.{
  ℕ, ◌*◌, ◌≤◌, ◌≡◌, refl, inr, List, [], ◌∷◌, ◌++◌, length, replicate, none, codes, arith,
}
use ratchet_usb.Outcome.{ok, built}
use ratchet_usb.Serial.Writer
use ratchet_usb.Serial.Reader
use ratchet_usb.Serial.Bounds.{bounded_count_bounds}
use ratchet_usb.Protocol.{uses_triple_ratchet, triple_ratchet_v1}
use ratchet_usb.Wire.{encode_block, decode_block}
use ratchet_usb.Wire.RoundTrip.{decode_block-encode_block}
use ratchet_usb.Message.{Envelope, IsEnvelope}
use ratchet_usb.Message.Write.{header_aad, envelope_aad_prefix, encode_body, encode}
use ratchet_usb.Message.Read.{decode}
use ratchet_usb.Message.RoundTrip.{decode-encode}
use ratchet_usb.Message.Authenticated.{body_authenticated, aad_injective}
use ratchet_usb.Kdf.{expand}
use ratchet_usb.Kdf.Rfc5869.{rfc_expand, expand-rfc_expand}
use ratchet_usb.Tests.Samples.{toy, toy_laws, plain, plain_laws}

-- A Triple Ratchet message with a short SPQR part.
abbrev triple : Envelope
triple = record {
  version = 3;
  suite = triple_ratchet_v1;
  sender_id = replicate 8 7;
  initial = none;
  spqr_message = 1 ∷ 2 ∷ 3 ∷ [];
  header = record { dh_pub = replicate 32 9; pn = 4; n = 258 };
  ciphertext = 5 ∷ 6 ∷ [];
}

triple-IsEnvelope : IsEnvelope triple
unfolding uses_triple_ratchet
triple-IsEnvelope = record {
  versioned = inr (refl, refl, omega arith, omega arith);
  sender_size = refl;
  initial_ok = tt;
  header_ok = record { dh_size = refl; pn_fits = omega arith; n_fits = omega arith };
  ciphertext_fits = omega arith;
}

abbrev triple_prefix : List ℕ
triple_prefix = 82 ∷ 77 ∷ 83 ∷ 71 ∷ 3 ∷ 3 ∷ (replicate 8 7 ++ 0 ∷ 3 ∷ 0 ∷ 0 ∷ 0 ∷ 1 ∷ 2 ∷ 3 ∷ [])

abbrev triple_header : List ℕ
triple_header = replicate 32 9 ++ 4 ∷ 0 ∷ 0 ∷ 0 ∷ 2 ∷ 1 ∷ 0 ∷ 0 ∷ []

triple_prefix_bytes : envelope_aad_prefix triple ≡ ok triple_prefix
unfolding envelope_aad_prefix Writer.bytes Writer.u8 Writer.u32 Writer.blob
triple_prefix_bytes = refl

triple_header_bytes : header_aad triple.header ≡ ok triple_header
unfolding header_aad Writer.bytes Writer.u32
triple_header_bytes = refl

triple_body_bytes :
    built (encode_body triple) ≡ ok (triple_prefix ++ (triple_header ++ 2 ∷ 0 ∷ 0 ∷ 0 ∷ 5 ∷ 6 ∷ []))
unfolding encode_body Writer.bytes Writer.u8 Writer.u32 Writer.blob
triple_body_bytes = refl

decode-encode_example :
    (text : List ℕ) × (encode plain triple ≡ ok text) × (decode plain text ≡ ok triple)
decode-encode_example =
    decode-encode plain plain_laws triple
      (triple_prefix ++ (triple_header ++ 2 ∷ 0 ∷ 0 ∷ 0 ∷ 5 ∷ 6 ∷ [])) triple-IsEnvelope
      triple_body_bytes (omega arith)

body_authenticated_example :
    (c : List ℕ) × (built (Writer.blob triple.ciphertext) ≡ ok c)
    × (built (encode_body triple) ≡ ok (triple_prefix ++ (triple_header ++ c)))
body_authenticated_example =
    body_authenticated triple triple_prefix triple_header triple-IsEnvelope triple_prefix_bytes
      triple_header_bytes

abbrev altered : Envelope
altered = record triple { ciphertext = 8 ∷ [] }

altered-IsEnvelope : IsEnvelope altered
unfolding uses_triple_ratchet
altered-IsEnvelope = record {
  versioned = inr (refl, refl, omega arith, omega arith);
  sender_size = refl;
  initial_ok = tt;
  header_ok = record { dh_size = refl; pn_fits = omega arith; n_fits = omega arith };
  ciphertext_fits = omega arith;
}

same_prefix : envelope_aad_prefix altered ≡ envelope_aad_prefix triple
unfolding envelope_aad_prefix
same_prefix = refl

aad_injective_example : record altered { ciphertext = triple.ciphertext } ≡ triple
aad_injective_example =
    aad_injective altered triple altered-IsEnvelope triple-IsEnvelope same_prefix refl

decode_block-encode_block_example :
    decode_block plain (codes "CARD") (encode_block plain (codes "CARD") (1 ∷ 45 ∷ 32 ∷ [])) 100
    ≡ ok (1 ∷ 45 ∷ 32 ∷ [])
decode_block-encode_block_example =
    decode_block-encode_block plain plain_laws (codes "CARD") (1 ∷ 45 ∷ 32 ∷ []) 100 (omega arith)
      (omega arith)

expand-rfc_expand_example :
    expand toy 70 (codes "info") (replicate 32 1)
    ≡ ok (rfc_expand toy (codes "info") (replicate 32 1) 70)
expand-rfc_expand_example =
    expand-rfc_expand toy (codes "info") (replicate 32 1) toy_laws 70 (omega arith) (omega arith)

bounded_count_bounds_example :
    (Reader.bounded_count 4000000000 36 (replicate 100 0) ≤ 4000000000)
    × (Reader.bounded_count 4000000000 36 (replicate 100 0) * 36 ≤ length {A = ℕ} (replicate 100 0))
bounded_count_bounds_example = bounded_count_bounds 4000000000 36 (replicate 100 0)
