-- ===== src/Rollback/RoundTrip.antt =====
-- src/rollback.cpp: the anchor's format, written and read back.
use ratchet_usb.Prelude.{
  ℕ, ◌^◌, ◌<◌, ◌≡◌, refl, sym, ap, subst, ◌∙◌, Bool, true, false, List, [], some, length, replicate,
  same_bytes,
}
use ratchet_usb.Outcome.{ok, ◌>=>◌, ◌>>◌, built, unsupported_anchor}
use ratchet_usb.Serial.Writer
use ratchet_usb.Serial.Writer.{Writing}
use ratchet_usb.Serial.Reader
use ratchet_usb.Serial.Trip.{
  Trip, Trip-bind, Trip-last, Trip-more, Trip-guard, Trip-bytes, Trip-u64, Trip-whole,
}
use ratchet_usb.Wire.{Base64}
use ratchet_usb.Rollback.{
  AnchorRecord, legacy_magic, mac_magic, write_fields, mac_message, encode_anchor, read_anchor,
  decode_anchor,
}

-- The sizes of the C++ types, and no tag where there is none to write.
pub record IsAnchor (a : AnchorRecord) : Type 0 where
  pub id_size : length a.vault_id ≡ 16
  pub generation_fits : a.generation < 2 ^ 64
  pub digest_size : length a.vault_digest ≡ 32
  pub mac_size : length a.mac ≡ 32
  pub untagged : a.authenticated ≡ false → a.mac ≡ replicate 32 0

-- What is encoded to base64.
raw_of : AnchorRecord → Bool → Writing
raw_of a true = do
  Writer.bytes mac_magic
  Writer.bytes a.vault_id
  Writer.u64 a.generation
  Writer.bytes a.vault_digest
  Writer.bytes a.mac
raw_of a false = write_fields legacy_magic a

module _ (a : AnchorRecord) (p : IsAnchor a) where
  Trip-tagged : Trip (raw_of a true) read_anchor (record a { authenticated = true })
  unfolding raw_of read_anchor same_bytes
  Trip-tagged = Trip-bind _ _ (Trip-bytes 8 mac_magic refl) (
      Trip-guard _ unsupported_anchor _ refl (
        Trip-bind _ _ (Trip-bytes 16 a.vault_id p.id_size) (
          Trip-bind _ _ (Trip-u64 a.generation p.generation_fits) (
            Trip-bind _ _ (Trip-bytes 32 a.vault_digest p.digest_size)
              (Trip-last _ (Trip-bytes 32 a.mac p.mac_size))))))

  Trip-legacy :
      Trip (raw_of a false) read_anchor (record a { authenticated = false; mac = replicate 32 0 })
  unfolding raw_of write_fields read_anchor same_bytes
  Trip-legacy = Trip-bind _ _ (Trip-bytes 8 legacy_magic refl) (
      Trip-guard _ unsupported_anchor _ refl (
        Trip-bind _ _ (Trip-bytes 16 a.vault_id p.id_size) (
          Trip-bind _ _ (Trip-u64 a.generation p.generation_fits)
            (Trip-more _ (λ rest. refl) (Trip-bytes 32 a.vault_digest p.digest_size)))))

  Trip-anchor : (b : Bool) → a.authenticated ≡ b → Trip (raw_of a b) read_anchor a
  Trip-anchor true e =
      subst (Trip (raw_of a true) read_anchor) (ap (λ b. record a { authenticated = b }) (sym e))
        Trip-tagged
  Trip-anchor false e =
      subst (Trip (raw_of a false) read_anchor)
        (ap (λ b. record a { authenticated = b; mac = replicate 32 0 }) (sym e)
          ∙ ap (λ m. record a { mac = m }) (sym (p.untagged e)))
        Trip-legacy

  module _ (base64 : Base64)
      (inverts : (xs : List ℕ) → base64.of_base64 (base64.to_base64 xs) ≡ some xs) where
    encodes :
        (b : Bool)
        → a.authenticated ≡ b
        → encode_anchor base64 a ≡ (built (raw_of a b) >=> λ raw. ok (base64.to_base64 raw))
    unfolding encode_anchor mac_message raw_of write_fields Writer.bytes Writer.u64 Writer.u32
    encodes true e = rw e refl
    encodes false e = rw e refl

    decodes :
        (raw : List ℕ)
        → read_anchor raw ≡ ok (a, [])
        → decode_anchor base64 (base64.to_base64 raw) ≡ ok a
    unfolding decode_anchor Reader.at_end
    decodes raw h = rw (decode_anchor, inverts raw, h) refl

    -- An anchor is decoded from its encoding. With the sizes of the C++ types, and a tag of zeros
    -- where the record is not authenticated, `encode_anchor` returns a text, and `decode_anchor` of
    -- it returns the record, with its tag and whether it is authenticated, given that base64
    -- decodes what it encoded.
    pub decode_anchor-encode_anchor :
        (text : List ℕ) × (encode_anchor base64 a ≡ ok text) × (decode_anchor base64 text ≡ ok a)
    decode_anchor-encode_anchor =
        let t = Trip-anchor a.authenticated refl in
        (
          base64.to_base64 t.image,
          encodes a.authenticated refl ∙ rw (Trip-whole t).0 refl,
          decodes t.image (Trip-whole t).1,
        )
