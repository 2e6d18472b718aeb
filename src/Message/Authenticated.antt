-- ===== src/Message/Authenticated.antt =====
-- What the AEAD authenticates beside the ciphertext: the envelope prefix and the ratchet header.
use ratchet_usb.Prelude.{
  ℕ, ◌≡◌, refl, sym, ap, subst, ◌∙◌, List, [], ◌∷◌, ◌++◌, append_assoc, length, ◌==◌, arith, le→leb,
  ap₂,
}
use ratchet_usb.Outcome.{ok, guard, built, ◌>>◌, ok-injective}
use ratchet_usb.Serial.Writer
use ratchet_usb.Serial.Writer.{Writing}
use ratchet_usb.Serial.Trip.{Trip-whole, Trip-blob}
use ratchet_usb.Protocol.{suite_code}
use ratchet_usb.Message.Types.{Envelope, Versioned, IsEnvelope, message_magic, max_spqr_bytes}
use ratchet_usb.Message.Write.{
  write_header, write_initial, write_prefix, write_if, is_triple, encode_body, header_aad,
  envelope_aad_prefix,
}
use ratchet_usb.Message.Read.{decode_body}
use ratchet_usb.Message.Fields.{Trip-initial, Trip-header}
use ratchet_usb.Message.RoundTrip.{decode_body-encode_body, Trip-spqr, hybrid_agrees}

-- A writer that always appends the same bytes.
abbrev Appends : Writing → List ℕ → Type 0
Appends w xs = (out : List ℕ) → w out ≡ ok (tt, out ++ xs)

Appends->> :
    (w v : Writing) (xs ys : List ℕ) → Appends w xs → Appends v ys → Appends (w >> v) (xs ++ ys)
Appends->> w v xs ys a b out = rw (a out, ◌>>◌) (rw (b (out ++ xs), append_assoc) refl)

built-Appends : (w : Writing) (xs : List ℕ) → Appends w xs → built w ≡ ok xs
built-Appends w xs a = rw (a [], built) refl

-- The writers of the two authenticated parts and of the body agree on the SPQR message.
aad_spqr : (e : Envelope) → Versioned e → (e.version == 3) ≡ is_triple e
unfolding is_triple
aad_spqr e h = ground (arith, le→leb (length e.spqr_message) max_spqr_bytes)

module _ (e : Envelope) (h : IsEnvelope e) where
  initial_bytes : List ℕ
  initial_bytes = (Trip-initial e.initial h.initial_ok).image

  spqr_bytes : List ℕ
  spqr_bytes = (Trip-spqr e h.versioned).image

  header_bytes : List ℕ
  header_bytes = (Trip-header e.header h.header_ok).image

  prefix_bytes : List ℕ
  prefix_bytes =
      message_magic
      ++ (e.version ∷ []
          ++ (suite_code e.suite ∷ [] ++ (e.sender_id ++ (initial_bytes ++ spqr_bytes))))

  bytes-Appends : (xs : List ℕ) → Appends (Writer.bytes xs) xs
  unfolding Writer.bytes
  bytes-Appends xs out = refl

  u8-Appends : (v : ℕ) → Appends (Writer.u8 v) (v ∷ [])
  unfolding Writer.u8
  u8-Appends v out = refl

  write_prefix-Appends : Appends (write_prefix e) (
      message_magic
      ++ (e.version ∷ [] ++ (suite_code e.suite ∷ [] ++ (e.sender_id ++ initial_bytes))))
  unfolding write_prefix initial_bytes
  write_prefix-Appends = Appends->> _ _ _ _ (bytes-Appends message_magic) (
      Appends->> _ _ _ _ (u8-Appends e.version) (
        Appends->> _ _ _ _ (u8-Appends (suite_code e.suite)) (
          Appends->> _ _ _ _ (bytes-Appends e.sender_id)
            (Trip-initial e.initial h.initial_ok).writes)))

  aad_prefix_lem : envelope_aad_prefix e ≡ ok prefix_bytes
  unfolding envelope_aad_prefix prefix_bytes spqr_bytes
  aad_prefix_lem = built-Appends _ _ (
      subst (λ b. Appends (write_prefix e >> write_if b (Writer.blob e.spqr_message)) prefix_bytes)
        (sym (aad_spqr e h.versioned))
        (subst (Appends (write_prefix e >> write_if (is_triple e) (Writer.blob e.spqr_message)))
          (simp append_assoc)
          (Appends->> _ _ _ _ write_prefix-Appends (Trip-spqr e h.versioned).writes)))

  header_aad_lem : header_aad e.header ≡ ok header_bytes
  unfolding header_aad header_bytes
  header_aad_lem = built-Appends _ _ (Trip-header e.header h.header_ok).writes

  body_lem :
      (c : List ℕ)
      → Appends (Writer.blob e.ciphertext) c
      → Appends (encode_body e) (prefix_bytes ++ (header_bytes ++ c))
  unfolding encode_body prefix_bytes initial_bytes spqr_bytes header_bytes
  body_lem c w out =
      rw (hybrid_agrees e h.versioned, guard, ◌>>◌)
        (subst (λ xs. tail out ≡ ok (tt, out ++ xs)) (simp append_assoc)
          (Appends->> _ _ _ _ (bytes-Appends message_magic)
            (Appends->> _ _ _ _ (u8-Appends e.version) (
              Appends->> _ _ _ _ (u8-Appends (suite_code e.suite)) (
                Appends->> _ _ _ _ (bytes-Appends e.sender_id) (
                  Appends->> _ _ _ _ (Trip-initial e.initial h.initial_ok).writes (
                    Appends->> _ _ _ _ (Trip-spqr e h.versioned).writes
                      (Appends->> _ _ _ _ (Trip-header e.header h.header_ok).writes w))))))
            out))
    where
      tail : Writing
      tail = do
        Writer.bytes message_magic
        Writer.u8 e.version
        Writer.u8 (suite_code e.suite)
        Writer.bytes e.sender_id
        write_initial e.initial
        write_if (is_triple e) (Writer.blob e.spqr_message)
        write_header e.header
        Writer.blob e.ciphertext

pub ciphertext_bytes : (e : Envelope) → IsEnvelope e → List ℕ
ciphertext_bytes e h = (Trip-blob e.ciphertext h.ciphertext_fits).image

wire_lem :
    (e : Envelope) (h : IsEnvelope e) (prefix header : List ℕ)
    → envelope_aad_prefix e ≡ ok prefix
    → header_aad e.header ≡ ok header
    → built (encode_body e) ≡ ok (prefix ++ (header ++ ciphertext_bytes e h))
unfolding ciphertext_bytes
wire_lem e h prefix header p q =
    built-Appends _ _ (body_lem e h _ (Trip-blob e.ciphertext h.ciphertext_fits).writes)
    ∙ ap ok (
        ap₂ (λ xs ys. xs ++ (ys ++ ciphertext_bytes e h))
          (ok-injective (sym (aad_prefix_lem e h) ∙ p))
          (ok-injective (sym (header_aad_lem e h) ∙ q)))

wire_bytes : (e : Envelope) → IsEnvelope e → List ℕ
wire_bytes e h = prefix_bytes e h ++ (header_bytes e h ++ ciphertext_bytes e h)

-- The body of a well-formed envelope is the authenticated prefix, then the authenticated ratchet
-- header, then the length-prefixed ciphertext, and nothing else.
pub body_authenticated :
    (e : Envelope) (prefix header : List ℕ)
    → IsEnvelope e
    → envelope_aad_prefix e ≡ ok prefix
    → header_aad e.header ≡ ok header
    → (c : List ℕ) × (built (Writer.blob e.ciphertext) ≡ ok c)
      × (built (encode_body e) ≡ ok (prefix ++ (header ++ c)))
body_authenticated e prefix header h p q =
    (ciphertext_bytes e h, blob_lem, wire_lem e h prefix header p q)
  where
    blob_lem : built (Writer.blob e.ciphertext) ≡ ok (ciphertext_bytes e h)
    blob_lem = unfold ciphertext_bytes in (Trip-whole (Trip-blob e.ciphertext h.ciphertext_fits)).0

-- Two well-formed envelopes with the same authenticated bytes, prefix and ratchet header, are equal
-- but for their ciphertext.
pub aad_injective :
    (d e : Envelope)
    → IsEnvelope d
    → IsEnvelope e
    → envelope_aad_prefix d ≡ envelope_aad_prefix e
    → header_aad d.header ≡ header_aad e.header
    → record d { ciphertext = e.ciphertext } ≡ e
unfolding wire_bytes ciphertext_bytes
aad_injective d e hd he p q = ap (λ t. t.0) (ok-injective (sym reads_d ∙ reads_e))
  where
    d' : Envelope
    d' = record d { ciphertext = e.ciphertext }

    hd' : IsEnvelope d'
    hd' = record {
      versioned = hd.versioned;
      sender_size = hd.sender_size;
      initial_ok = hd.initial_ok;
      header_ok = hd.header_ok;
      ciphertext_fits = he.ciphertext_fits;
    }

    reads_e : decode_body (wire_bytes e he) ≡ ok (e, [])
    reads_e =
        decode_body-encode_body e _ he
          (wire_lem e he _ _ (aad_prefix_lem e he) (header_aad_lem e he))

    reads_d : decode_body (wire_bytes e he) ≡ ok (d', [])
    reads_d =
        decode_body-encode_body d' _ hd'
          (wire_lem d' hd' _ _ (same_prefix ∙ aad_prefix_lem e he) (q ∙ header_aad_lem e he))
      where
        same_prefix : envelope_aad_prefix d' ≡ envelope_aad_prefix e
        same_prefix = unfold envelope_aad_prefix write_prefix in p
