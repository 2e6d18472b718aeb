-- ===== src/X3dh/Card.antt =====
-- src/x3dh.cpp: export_card, export_hybrid_card and import_card.
use ratchet_usb.Prelude.{
  ℕ, Bool, true, false, not, ◌&&◌, ◌||◌, List, replicate, codes, ◌==◌, same_bytes, if◌then◌else◌,
}
use ratchet_usb.Outcome.{
  Action, Result, call, ok, err, pure, built, guard, ◌>>=◌, ◌>>◌, ◌>=>◌, not_a_card,
  unsupported_card, trailing_card_data, unsupported_hybrid_suite, card_signature, card_pq_signature,
  hybrid_prekey, trailing_signed_body, prekey_signature,
}
use ratchet_usb.Serial.Reader
use ratchet_usb.Protocol.{
  ProtocolSuite, classic_v2, hybrid_pqxdh_v1, triple_ratchet_v1, x_wing_triple_ratchet_v1,
  suite_code, suite_of,
}
use ratchet_usb.Wire.{Base64, decode_block}
use ratchet_usb.Pq.{OpenSsl, ml_dsa_65_verify}
use ratchet_usb.Identity.{Ed25519}
use ratchet_usb.Prekey.{verify_signed_prekey_signature}
use ratchet_usb.Store.{
  PeerCard, PeerPqBundle, ml_dsa_public_key_bytes, ml_dsa_signature_bytes, read_peer_otpk,
  read_pq_bundle,
}
use ratchet_usb.X3dh.Export.{
  card_magic, card_version, hybrid_card_version, card_context, hybrid_card_context, max_card_bytes,
  write_pq_prekey_body,
}

pub record ImportedCard : Type 0 where
  pub identity_pub : List ℕ
  pub card : PeerCard

-- The body and the two signatures; the second is there on a hybrid card only.
pub record SignedCard : Type 0 where
  pub version : ℕ
  pub signed_body : List ℕ
  pub card_sig : List ℕ
  pub pq_card_sig : List ℕ

unfoldable pub read_card_file : Action SignedCard
read_card_file = do
  magic ← Reader.bytes 4
  guard (same_bytes magic card_magic) not_a_card
  version ← Reader.u8
  guard (version == card_version || version == hybrid_card_version) unsupported_card
  signed_body ← Reader.blob
  card_sig ← Reader.bytes 64
  pq_card_sig ←
      Reader.read_or (version == hybrid_card_version) (replicate ml_dsa_signature_bytes 0)
        (Reader.bytes ml_dsa_signature_bytes)
  pure (record {
    version = version;
    signed_body = signed_body;
    card_sig = card_sig;
    pq_card_sig = pq_card_sig;
  })

-- The suites of a hybrid card are 2, 3 and 4.
unfoldable pub read_hybrid_suite : Action ProtocolSuite
read_hybrid_suite = do
  suite ← Reader.u8
  guard
      (suite == suite_code hybrid_pqxdh_v1
        || suite == suite_code triple_ratchet_v1
        || suite == suite_code x_wing_triple_ratchet_v1)
      unsupported_hybrid_suite
  pure (suite_of suite)

-- The context string that a version's body starts with.
unfoldable pub context_matches : ℕ → List ℕ → Bool
context_matches version context = not (
    (version == card_version && not (same_bytes context card_context))
    || (version == hybrid_card_version && not (same_bytes context hybrid_card_context)))

module _ (ed : Ed25519) (ssl : OpenSsl) where
  -- Either signature of the signed ML-KEM prekey may be missing its mark.
  unfoldable pub check_pq_prekey : List ℕ → List ℕ → PeerPqBundle → Result Bool
  unfolding write_pq_prekey_body
  check_pq_prekey identity_pub pq_identity_pub bundle =
      built (write_pq_prekey_body bundle.signed_prekey) >=> λ prekey_body.
      if ed.verify identity_pub prekey_body bundle.ed_signature
      then ml_dsa_65_verify ssl pq_identity_pub prekey_body bundle.pq_signature
      else ok false

  unfoldable pub read_card_bundle : List ℕ → List ℕ → Action PeerPqBundle
  unfolding check_pq_prekey
  read_card_bundle identity_pub pq_identity_pub = do
    bundle ← read_pq_bundle
    genuine ← call (check_pq_prekey identity_pub pq_identity_pub bundle)
    guard genuine hybrid_prekey
    pure bundle

  -- `version == kHybridCardVersion && !ml_dsa_65_verify(...)`
  unfoldable pub check_pq_signature : Bool → List ℕ → SignedCard → Result Bool
  check_pq_signature true pq_identity_pub file =
      ml_dsa_65_verify ssl pq_identity_pub file.signed_body file.pq_card_sig
  check_pq_signature false pq_identity_pub file = ok true

  unfoldable pub read_signed_body : SignedCard → Action ImportedCard
  unfolding read_hybrid_suite context_matches check_pq_signature read_card_bundle
  read_signed_body file = do
    context ← Reader.str
    guard (context_matches file.version context) not_a_card
    suite ← Reader.read_or (file.version == hybrid_card_version) classic_v2 read_hybrid_suite
    identity_pub ← Reader.bytes 32
    pq_identity_pub ←
        Reader.read_or (file.version == hybrid_card_version) (replicate ml_dsa_public_key_bytes 0)
          (Reader.bytes ml_dsa_public_key_bytes)
    guard (ed.verify identity_pub file.signed_body file.card_sig) card_signature
    genuine ← call (check_pq_signature (file.version == hybrid_card_version) pq_identity_pub file)
    guard genuine card_pq_signature
    spk_id ← Reader.u32
    spk_pub ← Reader.bytes 32
    spk_signature ← Reader.bytes 64
    otpks ← Reader.counted read_peer_otpk
    bundle ←
        Reader.read_if (file.version == hybrid_card_version)
          (read_card_bundle identity_pub pq_identity_pub)
    pure (record {
      identity_pub = identity_pub;
      card = record {
        maximum_suite = suite;
        spk_id = spk_id;
        spk_pub = spk_pub;
        spk_signature = spk_signature;
        one_time_prekeys = otpks;
        pq_identity_pub = pq_identity_pub;
        pq_bundle = bundle;
      };
    })

  -- The check of the signed prekey comes last.
  unfoldable pub check_spk : ImportedCard → Result ImportedCard
  check_spk out =
      verify_signed_prekey_signature ed out.identity_pub out.card.spk_id out.card.spk_pub
        out.card.spk_signature
      >=> λ genuine. if genuine then ok out else err prekey_signature

  unfoldable pub import_card : Base64 → List ℕ → Result ImportedCard
  unfolding read_card_file read_signed_body check_spk
  import_card base64 text = decode_block base64 (codes "CARD") text max_card_bytes >=> λ body.
      read_card_file body >=> λ (file, rest).
      if Reader.at_end rest
      then (read_signed_body file file.signed_body >=> λ (out, more).
          if Reader.at_end more then check_spk out else err trailing_signed_body)
      else err trailing_card_data
