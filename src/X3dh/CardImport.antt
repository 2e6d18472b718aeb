-- ===== src/X3dh/CardImport.antt =====
-- src/x3dh.cpp: `import_card` accepts what `export_hybrid_card` printed.
use ratchet_usb.Prelude.{
  ℕ, ◌^◌, ◌≤◌, ◌<◌, ◌≡◌, refl, true, List, [], ◌∷◌, length, some, codes, arith,
}
use ratchet_usb.Outcome.{ok, built}
use ratchet_usb.Serial.Reader
use ratchet_usb.Serial.Trip.{Trip-printed}
use ratchet_usb.Wire.{Base64, Base64Laws, encode_block}
use ratchet_usb.Wire.RoundTrip.{decode_block-encode_block}
use ratchet_usb.Pq.{OpenSsl, ml_dsa_65_sign}
use ratchet_usb.Identity.{Ed25519}
use ratchet_usb.Prekey.{verify_signed_prekey_signature}
use ratchet_usb.Store.{PeerCard, PeerPqBundle, SignedPrekey, OneTimePrekey, PqPrekey}
use ratchet_usb.Store.Fields.{IsCard}
use ratchet_usb.X3dh.Card.{
  read_card_file, read_signed_body, check_pq_prekey, check_spk, import_card,
}
use ratchet_usb.X3dh.Export.{
  MlDsaKeyPair, hybrid_card_version, max_card_bytes, write_card_file, write_hybrid_body,
  write_pq_prekey_body, hybrid_bundle, hybrid_card, offered_pq, seal_hybrid_card,
  export_hybrid_card,
}
use ratchet_usb.X3dh.Signatures.{EdLaws, DsaLaws, ml_dsa_65_verify-ml_dsa_65_sign}
use ratchet_usb.X3dh.CardTrip.{Trip-card_file, Trip-signed_body, hybrid_file}

module _ (base64 : Base64) (laws : Base64Laws base64) (ed : Ed25519) (ed_laws : EdLaws ed)
    (ssl : OpenSsl) (dsa : DsaLaws ssl) (sk : List ℕ) (pq : MlDsaKeyPair) (spk : SignedPrekey)
    (otpks : List OneTimePrekey) (pq_spk : PqPrekey) (pq_otpks : List PqPrekey) where
  abbrev bundle_of : List ℕ → List ℕ → PeerPqBundle
  bundle_of prekey_body pq_spk_sig =
      hybrid_bundle (ed.sign sk prekey_body) pq_spk_sig pq_spk pq_otpks

  abbrev pub card_of_keys : List ℕ → List ℕ → PeerCard
  card_of_keys prekey_body pq_spk_sig = hybrid_card pq spk otpks (bundle_of prekey_body pq_spk_sig)

  -- The texts that are signed, the ML-DSA signatures of them, and the bytes of the card; with the
  -- sizes of the C++ types and a signed prekey that verifies.
  pub record Printed (prekey_body pq_spk_sig signed_body pq_card_sig body : List ℕ) : Type 0 where
    pub pq_paired : ssl.dsa_public pq.private_seed ≡ some pq.public_key
    pub identity_size : length (ed.public_of sk) ≡ 32
    pub card_fits : IsCard (card_of_keys prekey_body pq_spk_sig)
    pub prekey_printed : built (write_pq_prekey_body (offered_pq pq_spk)) ≡ ok prekey_body
    pub prekey_signed : ml_dsa_65_sign ssl pq.private_seed prekey_body ≡ ok pq_spk_sig
    pub body_printed :
        built (
          write_hybrid_body
            (ed.public_of sk)
            (card_of_keys prekey_body pq_spk_sig)
            (bundle_of prekey_body pq_spk_sig))
        ≡ ok signed_body
    pub body_signed : ml_dsa_65_sign ssl pq.private_seed signed_body ≡ ok pq_card_sig
    pub file_printed :
        built (
          write_card_file hybrid_card_version signed_body
            (ed.sign sk signed_body ∷ (pq_card_sig ∷ [])))
        ≡ ok body
    pub body_fits : length signed_body < 2 ^ 32
    pub file_fits : length body ≤ max_card_bytes
    pub spk_signed :
        verify_signed_prekey_signature ed (ed.public_of sk) spk.id spk.pub_key spk.signature
        ≡ ok true

  module _ (prekey_body pq_spk_sig signed_body pq_card_sig body : List ℕ)
      (p : Printed prekey_body pq_spk_sig signed_body pq_card_sig body) where
    exports :
        export_hybrid_card base64 ed ssl sk (ed.public_of sk) pq spk otpks pq_spk pq_otpks
        ≡ ok (encode_block base64 (codes "CARD") body)
    unfolding export_hybrid_card seal_hybrid_card
    exports =
        rw (p.prekey_printed, p.prekey_signed, p.body_printed, p.body_signed, p.file_printed) refl

    reads_file :
        read_card_file body ≡ ok (hybrid_file signed_body (ed.sign sk signed_body) pq_card_sig, [])
    reads_file =
        Trip-printed body
          (Trip-card_file signed_body (ed.sign sk signed_body) pq_card_sig p.body_fits
            (ed_laws.length-sign sk signed_body)
            (ml_dsa_65_verify-ml_dsa_65_sign ssl dsa pq.private_seed pq.public_key signed_body
              pq_card_sig p.pq_paired p.body_signed).1)
          p.file_printed

    genuine_prekey :
        check_pq_prekey ed ssl (ed.public_of sk) pq.public_key (bundle_of prekey_body pq_spk_sig)
        ≡ ok true
    unfolding check_pq_prekey
    genuine_prekey =
        rw (p.prekey_printed, ed_laws.verify-sign sk prekey_body)
          (ml_dsa_65_verify-ml_dsa_65_sign ssl dsa pq.private_seed pq.public_key prekey_body
            pq_spk_sig p.pq_paired p.prekey_signed).0

    reads_body :
        read_signed_body ed ssl
          (hybrid_file signed_body (ed.sign sk signed_body) pq_card_sig)
          signed_body
        ≡ ok (
          record { identity_pub = ed.public_of sk; card = card_of_keys prekey_body pq_spk_sig },
          [],
        )
    reads_body =
        Trip-printed signed_body
          (Trip-signed_body ed ssl (ed.public_of sk) signed_body (ed.sign sk signed_body)
            pq_card_sig (card_of_keys prekey_body pq_spk_sig) (bundle_of prekey_body pq_spk_sig)
            p.identity_size p.card_fits p.card_fits.bundle_ok (ed_laws.verify-sign sk signed_body)
            (ml_dsa_65_verify-ml_dsa_65_sign ssl dsa pq.private_seed pq.public_key signed_body
              pq_card_sig p.pq_paired p.body_signed).0
            genuine_prekey)
          p.body_printed

    -- A hybrid card that its owner exports is one that a contact imports. Where the texts of the
    -- card can be printed and signed, within the sizes of the C++ types and the card limit, the
    -- signed prekey verifies, and what is signed verifies under the owner's public keys,
    -- `export_hybrid_card` returns a block, and `import_card` of that block returns the owner's
    -- identity key and a card with the public halves of exactly the prekeys exported.
    pub import_card-export_hybrid_card :
        (text : List ℕ) × (export_hybrid_card base64 ed ssl sk
            (ed.public_of sk)
            pq
            spk
            otpks
            pq_spk
            pq_otpks
          ≡ ok text)
        × (import_card ed ssl base64 text
            ≡ ok (record {
              identity_pub = ed.public_of sk;
              card = card_of_keys prekey_body pq_spk_sig;
            }))
    import_card-export_hybrid_card = (encode_block base64 (codes "CARD") body, exports, imports)
      where
        imports :
            import_card ed ssl base64 (encode_block base64 (codes "CARD") body)
            ≡ ok (record {
              identity_pub = ed.public_of sk;
              card = card_of_keys prekey_body pq_spk_sig;
            })
        imports =
            unfold import_card check_spk Reader.at_end in
            rw
              (
                import_card,
                decode_block-encode_block base64 laws (codes "CARD") body max_card_bytes p.file_fits
                    (omega arith),
                reads_file,
                reads_body,
                p.spk_signed,
              )
              refl
