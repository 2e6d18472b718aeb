-- ===== src/X3dh/CardTrip.antt =====
-- src/x3dh.cpp: `import_card` reads back what `export_hybrid_card` printed.
use ratchet_usb.Prelude.{
  ℕ, ◌^◌, ◌<◌, ◌≡◌, refl, true, List, [], ◌∷◌, length, some, same_bytes_refl, arith,
}
use ratchet_usb.Outcome.{ok, unsupported_card, card_pq_signature}
use ratchet_usb.Serial.Writer
use ratchet_usb.Serial.Writer.{Writing}
use ratchet_usb.Serial.Trip.{
  Trip, Trip-bind, Trip-last, Trip-guard, Trip-more, Trip-u8, Trip-u32, Trip-bytes, Trip-blob,
  Trip-str, Trip-All, Trip-call, Trip-end,
}
use ratchet_usb.Protocol.{x_wing_triple_ratchet_v1}
use ratchet_usb.Pq.{OpenSsl, ml_dsa_65_verify}
use ratchet_usb.Identity.{Ed25519}
use ratchet_usb.Store.{
  PeerCard, PeerPqBundle, ml_dsa_public_key_bytes, ml_dsa_signature_bytes, ml_kem_public_key_bytes,
  read_pq_bundle,
}
use ratchet_usb.Store.Fields.{
  IsCard, IsBundle, IsPeerOtpk, IsPeerPqPrekey, Trip-peer_otpk, Trip-peer_pq_prekey,
}
use ratchet_usb.X3dh.Card.{
  SignedCard, read_card_file, read_signed_body, read_hybrid_suite, read_card_bundle,
  context_matches, check_pq_prekey, check_pq_signature,
}
use ratchet_usb.X3dh.Export.{
  card_magic, hybrid_card_version, hybrid_card_context, write_card_file, write_card_bundle,
  write_hybrid_body,
}

abbrev pub hybrid_file : List ℕ → List ℕ → List ℕ → SignedCard
hybrid_file signed_body card_sig pq_card_sig = record {
  version = hybrid_card_version;
  signed_body = signed_body;
  card_sig = card_sig;
  pq_card_sig = pq_card_sig;
}

abbrev listing : PeerCard → PeerPqBundle → PeerCard
listing card b = record card { maximum_suite = x_wing_triple_ratchet_v1; pq_bundle = some b }

pub Trip-card_file :
    (signed_body card_sig pq_card_sig : List ℕ)
    → length signed_body < 2 ^ 32
    → length card_sig ≡ 64
    → length pq_card_sig ≡ ml_dsa_signature_bytes
    → Trip
        (write_card_file hybrid_card_version signed_body (card_sig ∷ (pq_card_sig ∷ [])))
        read_card_file
        (hybrid_file signed_body card_sig pq_card_sig)
unfolding write_card_file read_card_file Writer.for_each
Trip-card_file signed_body card_sig pq_card_sig fits size pq_size =
    Trip-bind _ _ (Trip-bytes 4 card_magic refl) (
      Trip-guard _ _ _ (same_bytes_refl card_magic) (
        Trip-bind _ _ (Trip-u8 hybrid_card_version) (
          Trip-guard true unsupported_card _ refl (
            Trip-bind _ _ (Trip-blob signed_body fits) (
              Trip-bind _ _ (Trip-bytes 64 card_sig size) (
                Trip-end (Trip-last _ (Trip-bytes ml_dsa_signature_bytes pq_card_sig pq_size))))))))

context_of_hybrid : context_matches hybrid_card_version hybrid_card_context ≡ true
unfolding context_matches
context_of_hybrid = rw (same_bytes_refl hybrid_card_context) refl

Trip-pq_bundle : (b : PeerPqBundle) → IsBundle b → Trip (write_card_bundle b) read_pq_bundle b
unfolding write_card_bundle read_pq_bundle
Trip-pq_bundle b h = Trip-bind _ _ (Trip-u32 b.signed_prekey.id h.signed_ok.id_fits) (
    Trip-bind _ _
      (Trip-bytes ml_kem_public_key_bytes b.signed_prekey.pub_key h.signed_ok.public_size)
      (Trip-bind _ _ (Trip-bytes 64 b.ed_signature h.ed_size) (
        Trip-bind _ _ (Trip-bytes ml_dsa_signature_bytes b.pq_signature h.pq_size) (
          Trip-last _ (
            Trip-All IsPeerPqPrekey _ _ Trip-peer_pq_prekey b.one_time_prekeys h.count_fits
              h.one_time_ok)))))

module _ (ed : Ed25519) (ssl : OpenSsl) where
  Trip-card_bundle :
      (identity_pub pq_identity_pub : List ℕ) (b : PeerPqBundle)
      → IsBundle b
      → check_pq_prekey ed ssl identity_pub pq_identity_pub b ≡ ok true
      → Trip (write_card_bundle b) (read_card_bundle ed ssl identity_pub pq_identity_pub) b
  unfolding read_card_bundle
  Trip-card_bundle identity_pub pq_identity_pub b fits genuine =
      Trip-more _ (λ rest. rw genuine refl) (Trip-pq_bundle b fits)

  -- The body of a card, read by a reader that checks both signatures on the way.
  pub Trip-signed_body :
      (identity_pub signed_body card_sig pq_card_sig : List ℕ) (card : PeerCard) (b : PeerPqBundle)
      → length identity_pub ≡ 32
      → IsCard card
      → IsBundle b
      → ed.verify identity_pub signed_body card_sig ≡ true
      → ml_dsa_65_verify ssl card.pq_identity_pub signed_body pq_card_sig ≡ ok true
      → check_pq_prekey ed ssl identity_pub card.pq_identity_pub b ≡ ok true
      → Trip
          (write_hybrid_body identity_pub (listing card b) b)
          (read_signed_body ed ssl (hybrid_file signed_body card_sig pq_card_sig))
          (record { identity_pub = identity_pub; card = listing card b })
  unfolding write_hybrid_body read_signed_body read_hybrid_suite check_pq_signature
  Trip-signed_body identity_pub signed_body card_sig pq_card_sig card b sized fits bundle_fits
        signed pq_signed pq_prekey =
      Trip-bind _ _ (Trip-str hybrid_card_context (omega arith)) (
        Trip-guard _ _ _ context_of_hybrid (
          Trip-bind _ _ (Trip-more _ (λ rest. refl) (Trip-u8 4)) (
            Trip-bind _ _ (Trip-bytes 32 identity_pub sized) (
              Trip-bind _ _
                (Trip-bytes ml_dsa_public_key_bytes card.pq_identity_pub fits.identity_size)
                (Trip-guard _ _ _ signed (
                  Trip-call _ true _ pq_signed (
                    Trip-guard true card_pq_signature _ refl (
                      Trip-bind _ _ (Trip-u32 card.spk_id fits.spk_id_fits) (
                        Trip-bind _ _ (Trip-bytes 32 card.spk_pub fits.spk_size) (
                          Trip-bind _ _ (Trip-bytes 64 card.spk_signature fits.signature_size) (
                            Trip-bind _ _
                              (Trip-All IsPeerOtpk _ _ Trip-peer_otpk card.one_time_prekeys
                                fits.count_fits fits.one_time_ok)
                              (Trip-last _ (
                                Trip-last some (
                                  Trip-card_bundle identity_pub card.pq_identity_pub b bundle_fits
                                    pq_prekey))))))))))))))
