-- ===== src/Tests/Cards.antt =====
-- A hybrid card that its owner exports and a contact imports.
use ratchet_usb.Prelude.{
  ℕ, ◌*◌, ◌^◌, ◌≤◌, ◌<◌, ◌≡◌, refl, List, [], ◌∷◌, length, replicate, length-replicate, ltb→lt,
  leb→le,
}
use ratchet_usb.Outcome.{Result, ok, err, built}
use ratchet_usb.Store.{PeerCard, PeerPqBundle}
use ratchet_usb.X3dh.{
  MlDsaKeyPair, export_hybrid_card, import_card, write_pq_prekey_body, write_hybrid_body,
  write_card_file, hybrid_bundle, hybrid_card, offered_pq,
}
use ratchet_usb.X3dh.CardImport.{Printed, import_card-export_hybrid_card}
use ratchet_usb.Tests.Samples.{plain, plain_laws, mix}
use ratchet_usb.Tests.Libraries.{toy_ed, toy_ed_laws, toy_ssl, toy_dsa_laws, toy_sign, toy_dsa_sign}
use ratchet_usb.Tests.Sessions.{me_bob, bob_spk, bob_otpk, pq_key}

abbrev text_of : Result (List ℕ) → List ℕ
text_of (ok text) = text
text_of (err e) = []

abbrev pq_identity : MlDsaKeyPair
pq_identity = record {
  public_key = replicate 1952 (mix (replicate 32 61));
  private_seed = replicate 32 61;
}

abbrev prekey_body : List ℕ
prekey_body = text_of (built (write_pq_prekey_body (offered_pq (pq_key 7 31))))

abbrev bundle : PeerPqBundle
bundle =
    hybrid_bundle (toy_sign me_bob.sk prekey_body) (toy_dsa_sign prekey_body) (pq_key 7 31)
      (pq_key 8 32 ∷ [])

abbrev card : PeerCard
card = hybrid_card pq_identity bob_spk (bob_otpk ∷ []) bundle

abbrev signed_body : List ℕ
signed_body = text_of (built (write_hybrid_body me_bob.pk card bundle))

abbrev body : List ℕ
body = text_of (
    built (
      write_card_file 4 signed_body
        (toy_sign me_bob.sk signed_body ∷ (toy_dsa_sign signed_body ∷ []))))

printed :
    Printed plain plain_laws toy_ed toy_ed_laws toy_ssl toy_dsa_laws me_bob.sk pq_identity bob_spk
      (bob_otpk ∷ [])
      (pq_key 7 31)
      (pq_key 8 32 ∷ [])
      prekey_body
      (toy_dsa_sign prekey_body)
      signed_body
      (toy_dsa_sign signed_body)
      body
unfolding ratchet_usb.Serial.Writer.bytes ratchet_usb.Serial.Writer.u8 ratchet_usb.Serial.Writer.u32
    ratchet_usb.Serial.Writer.u64 ratchet_usb.Serial.Writer.blob ratchet_usb.Serial.Writer.str
    ratchet_usb.Serial.Writer.for_each ratchet_usb.Serial.Writer.counted
    ratchet_usb.X3dh.write_signed_body ratchet_usb.X3dh.build_signed_body
    ratchet_usb.X3dh.write_card_file ratchet_usb.X3dh.export_card
    ratchet_usb.X3dh.write_pq_prekey_body ratchet_usb.X3dh.write_card_bundle
    ratchet_usb.X3dh.write_hybrid_body ratchet_usb.X3dh.seal_hybrid_card
    ratchet_usb.X3dh.export_hybrid_card ratchet_usb.X3dh.read_card_file
    ratchet_usb.X3dh.read_hybrid_suite ratchet_usb.X3dh.context_matches
    ratchet_usb.X3dh.check_pq_prekey ratchet_usb.X3dh.read_card_bundle
    ratchet_usb.X3dh.check_pq_signature ratchet_usb.X3dh.read_signed_body ratchet_usb.X3dh.check_spk
    ratchet_usb.X3dh.import_card ratchet_usb.Pq.ml_kem_768_from_seed
    ratchet_usb.Pq.ml_kem_768_encapsulate ratchet_usb.Pq.ml_kem_768_decapsulate
    ratchet_usb.Pq.ml_dsa_65_from_seed ratchet_usb.Pq.ml_dsa_65_sign ratchet_usb.Pq.ml_dsa_65_verify
    ratchet_usb.Prekey.write_payload ratchet_usb.Prekey.spk_signing_payload
    ratchet_usb.Prekey.generate_signed_prekey ratchet_usb.Prekey.resign_signed_prekey
    ratchet_usb.Prekey.verify_signed_prekey_signature ratchet_usb.Prekey.generate_one_time_prekeys
    ratchet_usb.Prelude.same_bytes ratchet_usb.Store.write_bool ratchet_usb.Store.write_pq_prekey
    ratchet_usb.Store.write_signed_prekey ratchet_usb.Store.write_one_time_prekey
    ratchet_usb.Store.write_peer_otpk ratchet_usb.Store.write_peer_pq_prekey
    ratchet_usb.Store.write_pq_bundle ratchet_usb.Store.write_peer_card ratchet_usb.Store.write_card
    ratchet_usb.Store.write_contact ratchet_usb.Store.write_skipped_key
    ratchet_usb.Store.write_tagging ratchet_usb.Store.write_session
    ratchet_usb.Store.write_handshake ratchet_usb.Store.write_lineage
    ratchet_usb.Store.write_pq_prekeys ratchet_usb.Store.write_store ratchet_usb.Store.serialize
printed = record {
  pq_paired = refl;
  identity_size = refl;
  card_fits = record {
    spk_id_fits = ltb→lt 5 (2 ^ 32) refl;
    spk_size = refl;
    signature_size = refl;
    count_fits = ltb→lt 1 (2 ^ 32) refl;
    one_time_ok = (record { id_fits = ltb→lt 6 (2 ^ 32) refl; public_size = refl }, tt);
    identity_size = refl;
    bundle_ok = record {
      signed_ok = record { id_fits = ltb→lt 7 (2 ^ 32) refl; public_size = refl };
      ed_size = refl;
      pq_size = refl;
      count_fits = ltb→lt 1 (2 ^ 32) refl;
      one_time_ok = (record { id_fits = ltb→lt 8 (2 ^ 32) refl; public_size = refl }, tt);
    };
  };
  prekey_printed = refl;
  prekey_signed = refl;
  body_printed = refl;
  body_signed = refl;
  file_printed = refl;
  body_fits = ltb→lt (length signed_body) (2 ^ 32) refl;
  file_fits = leb→le (length body) (2 * 1024 * 1024) refl;
  spk_signed = refl;
}

import_card-export_hybrid_card_example :
    (text : List ℕ) × (export_hybrid_card plain toy_ed toy_ssl me_bob.sk me_bob.pk pq_identity
        bob_spk
        (bob_otpk ∷ [])
        (pq_key 7 31)
        (pq_key 8 32 ∷ [])
      ≡ ok text)
    × (import_card toy_ed toy_ssl plain text
        ≡ ok (record { identity_pub = me_bob.pk; card = card }))
import_card-export_hybrid_card_example =
    import_card-export_hybrid_card plain plain_laws toy_ed toy_ed_laws toy_ssl toy_dsa_laws
      me_bob.sk pq_identity bob_spk (bob_otpk ∷ []) (pq_key 7 31) (pq_key 8 32 ∷ []) prekey_body
      (toy_dsa_sign prekey_body) signed_body (toy_dsa_sign signed_body) body printed
