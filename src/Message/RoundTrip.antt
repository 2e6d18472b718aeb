-- ===== src/Message/RoundTrip.antt =====
-- `decode` reads back what `encode` printed.
use ratchet_usb.Prelude.{
  ◌∙◌, ℕ, ◌≤◌, ◌≡◌, refl, sym, subst, inl, inr, true, false, ◌||◌, List, [], length, le→ltb, le→leb,
  ◌∷◌, same_bytes_refl, codes, arith,
}
use ratchet_usb.Outcome.{ok-injective, ok, pure, built, ◌>=>◌}
use ratchet_usb.Serial.Writer
use ratchet_usb.Serial.Reader
use ratchet_usb.Serial.Trip.{
  Trip, Trip-bind, Trip-last, Trip-guard, Trip-guard_write, Trip-more, Trip-whole, Trip-u8,
  Trip-bytes, Trip-blob, Trip-none,
}
use ratchet_usb.Protocol.{suite_code, suite_of-suite_code, uses_triple_ratchet}
use ratchet_usb.Message.Types.{
  Envelope, message_magic, sender_id_bytes, max_spqr_bytes, max_envelope_bytes, Versioned,
  IsEnvelope,
}
use ratchet_usb.Message.Write.{write_if, is_hybrid, is_triple, encode_body, encode}
use ratchet_usb.Message.Read.{read_spqr, hybrid_codes, triple_codes, decode_body, decode}
use ratchet_usb.Message.Fields.{Trip-initial, Trip-header}
use ratchet_usb.Wire.{Base64, Base64Laws, encode_block}
use ratchet_usb.Wire.RoundTrip.{decode_block-encode_block}

-- The suite codes that `decode` accepts are those that `encode` accepts.
pub hybrid_agrees : (e : Envelope) → Versioned e → (is_hybrid e || is_triple e) ≡ true
unfolding is_hybrid is_triple
hybrid_agrees e h = ground (arith, le→leb (length e.spqr_message) max_spqr_bytes)

codes_agree :
    (e : Envelope)
    → Versioned e
    → (hybrid_codes e.version (suite_code e.suite) || triple_codes e.version (suite_code e.suite))
      ≡ true
unfolding hybrid_codes triple_codes uses_triple_ratchet
codes_agree e h = ground arith

pub triple_agrees :
    (e : Envelope) → Versioned e → is_triple e ≡ triple_codes e.version (suite_code e.suite)
unfolding triple_codes is_triple
triple_agrees e h = ground (arith, le→leb (length e.spqr_message) max_spqr_bytes)

Trip-no_spqr : (xs : List ℕ) → length xs ≡ 0 → Trip (pure tt) (read_spqr false) xs
unfolding read_spqr
Trip-no_spqr [] h = Trip-none []
Trip-no_spqr (x ∷ xs) h = absurd (omega arith)

Trip-some_spqr :
    (xs : List ℕ)
    → 1 ≤ length xs
    → length xs ≤ max_spqr_bytes
    → Trip (Writer.blob xs) (read_spqr true) xs
unfolding read_spqr
Trip-some_spqr xs lo hi =
    Trip-more _ (λ rest. ground (arith, le→ltb max_spqr_bytes (length xs)))
      (Trip-blob xs (omega arith))

pub Trip-spqr :
    (e : Envelope)
    → Versioned e
    → Trip
        (write_if (is_triple e) (Writer.blob e.spqr_message))
        (read_spqr (triple_codes e.version (suite_code e.suite)))
        e.spqr_message
Trip-spqr e h = rw (triple_agrees e h) (at_codes h)
  where
    at_codes :
        Versioned e
        → Trip
            (write_if (triple_codes e.version (suite_code e.suite)) (Writer.blob e.spqr_message))
            (read_spqr (triple_codes e.version (suite_code e.suite)))
            e.spqr_message
    at_codes (inl (v, s, n)) = rw (off v) (Trip-no_spqr e.spqr_message n)
      where
        off : e.version ≡ 2 → triple_codes e.version (suite_code e.suite) ≡ false
        off v = unfold triple_codes in ground arith
    at_codes (inr (v, t, lo, hi)) = rw (on v t) (Trip-some_spqr e.spqr_message lo hi)
      where
        on :
            e.version ≡ 3
            → uses_triple_ratchet e.suite ≡ true
            → triple_codes e.version (suite_code e.suite) ≡ true
        on v t = unfold triple_codes uses_triple_ratchet in ground arith

-- The body of an envelope, whatever follows it.
pub Trip-body : (e : Envelope) → IsEnvelope e → Trip (encode_body e) decode_body e
unfolding encode_body decode_body
Trip-body e h =
    subst (λ s. Trip (encode_body e) decode_body (record e { suite = s }))
      (suite_of-suite_code e.suite)
      (Trip-guard_write _ _ _ (hybrid_agrees e h.versioned) (
        Trip-bind _ _ (Trip-bytes 4 message_magic refl) (
          Trip-guard _ _ _ (same_bytes_refl message_magic) (
            Trip-bind _ _ (Trip-u8 e.version) (
              Trip-bind _ _ (Trip-u8 (suite_code e.suite)) (
                Trip-guard _ _ _ (codes_agree e h.versioned) (
                  Trip-bind _ _ (Trip-bytes sender_id_bytes e.sender_id h.sender_size) (
                    Trip-bind _ _ (Trip-initial e.initial h.initial_ok) (
                      Trip-bind _ _ (Trip-spqr e h.versioned) (
                        Trip-bind _ _ (Trip-header e.header h.header_ok)
                          (Trip-last _ (Trip-blob e.ciphertext h.ciphertext_fits))))))))))))

pub decode_body-encode_body :
    (e : Envelope) (body : List ℕ)
    → IsEnvelope e
    → built (encode_body e) ≡ ok body
    → decode_body body ≡ ok (e, [])
decode_body-encode_body e body h printed =
    let t = Trip-body e h in
    subst (λ s. decode_body s ≡ ok (e, [])) (ok-injective (sym (Trip-whole t).0 ∙ printed))
      (Trip-whole t).1

-- A well-formed envelope, whose body is within the format limit, is printed as a block, and reading
-- that block gives the envelope back, given base64's documented laws.
pub decode-encode :
    (base64 : Base64) (laws : Base64Laws base64) (e : Envelope) (body : List ℕ)
    → IsEnvelope e
    → built (encode_body e) ≡ ok body
    → length body ≤ max_envelope_bytes
    → (text : List ℕ) × (encode base64 e ≡ ok text) × (decode base64 text ≡ ok e)
decode-encode base64 laws e body h printed fits =
    (encode_block base64 (codes "MESSAGE") body, prints, reads)
  where
    prints : encode base64 e ≡ ok (encode_block base64 (codes "MESSAGE") body)
    prints = unfold encode in rw (printed, ◌>=>◌) refl

    reads : decode base64 (encode_block base64 (codes "MESSAGE") body) ≡ ok e
    reads =
        unfold decode in
        rw
          (
            decode,
            decode_block-encode_block base64 laws (codes "MESSAGE") body max_envelope_bytes fits
                (omega arith),
            ◌>=>◌,
            decode_body-encode_body e body h printed,
          )
          (unfold Reader.at_end in refl)
