-- ===== src/X3dh/Export.antt =====
-- src/x3dh.cpp: the format of a contact card, `export_card` and `export_hybrid_card`.
use ratchet_usb.Prelude.{ℕ, ◌*◌, List, [], ◌∷◌, map, some, codes}
use ratchet_usb.Outcome.{Result, ok, built, ◌>>◌, ◌>=>◌}
use ratchet_usb.Serial.Writer
use ratchet_usb.Serial.Writer.{Writing}
use ratchet_usb.Protocol.{x_wing_triple_ratchet_v1, suite_code}
use ratchet_usb.Wire.{Base64, encode_block}
use ratchet_usb.Pq.{OpenSsl, ml_dsa_65_sign}
use ratchet_usb.Identity.{Ed25519}
use ratchet_usb.Store.{
  PeerCard, PeerOtpk, PeerPqPrekey, PeerPqBundle, SignedPrekey, OneTimePrekey, PqPrekey,
  write_peer_otpk, write_peer_pq_prekey,
}

-- kCardMagic, kCardVersion, kCardContext, kHybridCardVersion, kHybridCardContext, kPqPrekeyContext
abbrev pub card_magic : List ℕ
card_magic = codes "RCRC"

abbrev pub card_version : ℕ
card_version = 2

abbrev pub hybrid_card_version : ℕ
hybrid_card_version = 4

abbrev pub card_context : List ℕ
card_context = codes "Ratchet-USB/v2/contact-card"

abbrev pub hybrid_card_context : List ℕ
hybrid_card_context = codes "Ratchet-USB/v4/hybrid-contact-card"

abbrev pub pq_prekey_context : List ℕ
pq_prekey_context = codes "Ratchet-USB/v4/ML-KEM-768/signed-prekey"

-- kMaxCardBytes
abbrev pub max_card_bytes : ℕ
max_card_bytes = 2 * 1024 * 1024

-- What a card shows of a prekey: its id and its public key.
abbrev pub offered : OneTimePrekey → PeerOtpk
offered o = record { id = o.id; pub_key = o.pub_key }

abbrev pub offered_pq : PqPrekey → PeerPqPrekey
offered_pq p = record { id = p.id; pub_key = p.key.public_key }

unfoldable pub write_signed_body : List ℕ → SignedPrekey → List OneTimePrekey → Writing
write_signed_body identity_pk spk otpks = do
  Writer.str card_context
  Writer.bytes identity_pk
  Writer.u32 spk.id
  Writer.bytes spk.pub_key
  Writer.bytes spk.signature
  Writer.counted write_peer_otpk (map offered otpks)

unfoldable pub build_signed_body : List ℕ → SignedPrekey → List OneTimePrekey → Result (List ℕ)
unfolding write_signed_body
build_signed_body identity_pk spk otpks = built (write_signed_body identity_pk spk otpks)

-- The whole card: magic, version, signed body, signatures.
unfoldable pub write_card_file : ℕ → List ℕ → List (List ℕ) → Writing
write_card_file version signed_body signatures = do
  Writer.bytes card_magic
  Writer.u8 version
  Writer.blob signed_body
  Writer.for_each Writer.bytes signatures

unfoldable pub export_card :
    Base64 → Ed25519 → List ℕ → List ℕ → SignedPrekey → List OneTimePrekey → Result (List ℕ)
unfolding build_signed_body write_card_file
export_card base64 ed identity_sk identity_pk spk otpks =
    build_signed_body identity_pk spk otpks >=> λ signed_body.
    built (write_card_file card_version signed_body (ed.sign identity_sk signed_body ∷ []))
    >=> λ body. ok (encode_block base64 (codes "CARD") body)

unfoldable pub write_pq_prekey_body : PeerPqPrekey → Writing
write_pq_prekey_body p = do Writer.str pq_prekey_context; Writer.u32 p.id; Writer.bytes p.pub_key

unfoldable pub write_card_bundle : PeerPqBundle → Writing
write_card_bundle bundle = do
  Writer.u32 bundle.signed_prekey.id
  Writer.bytes bundle.signed_prekey.pub_key
  Writer.bytes bundle.ed_signature
  Writer.bytes bundle.pq_signature
  Writer.counted write_peer_pq_prekey bundle.one_time_prekeys

unfoldable pub write_hybrid_body : List ℕ → PeerCard → PeerPqBundle → Writing
unfolding write_card_bundle
write_hybrid_body identity_pk card bundle = do
  Writer.str hybrid_card_context
  Writer.u8 (suite_code card.maximum_suite)
  Writer.bytes identity_pk
  Writer.bytes card.pq_identity_pub
  Writer.u32 card.spk_id
  Writer.bytes card.spk_pub
  Writer.bytes card.spk_signature
  Writer.counted write_peer_otpk card.one_time_prekeys
  write_card_bundle bundle

-- The key pair of the ML-DSA identity.
pub record MlDsaKeyPair : Type 0 where
  pub public_key : List ℕ
  pub private_seed : List ℕ

-- What the hybrid card says.
abbrev pub hybrid_bundle : List ℕ → List ℕ → PqPrekey → List PqPrekey → PeerPqBundle
hybrid_bundle ed_sig pq_sig pq_spk pq_otpks = record {
  signed_prekey = offered_pq pq_spk;
  ed_signature = ed_sig;
  pq_signature = pq_sig;
  one_time_prekeys = map offered_pq pq_otpks;
}

abbrev pub hybrid_card : MlDsaKeyPair → SignedPrekey → List OneTimePrekey → PeerPqBundle → PeerCard
hybrid_card pq_identity spk otpks bundle = record {
  maximum_suite = x_wing_triple_ratchet_v1;
  spk_id = spk.id;
  spk_pub = spk.pub_key;
  spk_signature = spk.signature;
  one_time_prekeys = map offered otpks;
  pq_identity_pub = pq_identity.public_key;
  pq_bundle = some bundle;
}

module _ (base64 : Base64) (ed : Ed25519) (ssl : OpenSsl) where
  -- The signatures of a hybrid card and the block.
  unfoldable pub seal_hybrid_card :
      List ℕ → List ℕ → MlDsaKeyPair → PeerCard → PeerPqBundle → Result (List ℕ)
  unfolding write_hybrid_body write_card_file
  seal_hybrid_card identity_sk identity_pk pq_identity card bundle =
      built (write_hybrid_body identity_pk card bundle) >=> λ signed_body.
      ml_dsa_65_sign ssl pq_identity.private_seed signed_body >=> λ pq_card_sig.
      built (
        write_card_file hybrid_card_version signed_body
          (ed.sign identity_sk signed_body ∷ (pq_card_sig ∷ [])))
      >=> λ body. ok (encode_block base64 (codes "CARD") body)

  unfoldable pub export_hybrid_card :
      List ℕ
      → List ℕ
      → MlDsaKeyPair
      → SignedPrekey
      → List OneTimePrekey
      → PqPrekey
      → List PqPrekey
      → Result (List ℕ)
  unfolding write_pq_prekey_body seal_hybrid_card
  export_hybrid_card identity_sk identity_pk pq_identity spk otpks pq_spk pq_otpks =
      built (write_pq_prekey_body (offered_pq pq_spk)) >=> λ pq_prekey_body.
      ml_dsa_65_sign ssl pq_identity.private_seed pq_prekey_body >=> λ pq_spk_pq_sig.
      let bundle =
        hybrid_bundle (ed.sign identity_sk pq_prekey_body) pq_spk_pq_sig pq_spk pq_otpks in
      seal_hybrid_card identity_sk identity_pk pq_identity
        (hybrid_card pq_identity spk otpks bundle) bundle
