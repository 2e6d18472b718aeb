-- ===== src/Tests/Handshakes.antt =====
-- Handshakes and cards at concrete inputs.
use ratchet_usb.Prelude.{
  ℕ, ◌^◌, ◌≤◌, ◌≡◌, refl, true, false, List, [], ◌∷◌, length, replicate, Option, none, some, leb,
  arith, leb→le,
}
use ratchet_usb.Outcome.{Result, Error, ok, err}
use ratchet_usb.Store.{Contact, PeerCard, PeerOtpk, PeerPqPrekey}
use ratchet_usb.X3dh.{
  Draws, InitiatorResult, initiate, respond_hybrid, MlDsaKeyPair, ImportedCard, export_hybrid_card,
  import_card, write_pq_prekey_body, write_hybrid_body, write_card_file, hybrid_bundle, hybrid_card,
  offered_pq,
}
use ratchet_usb.X3dh.Agreement.{Offered, respond_hybrid-initiate}
use ratchet_usb.X3dh.Picked.{TakenFrom}
use ratchet_usb.X3dh.Taken.{initiate-takes, initiate_without_bundle}
use ratchet_usb.Tests.Samples.{toy, toy_laws}
use ratchet_usb.Tests.Libraries.{toy_ed, toy_ssl, toy-KemLaws, toy_conversion}
use ratchet_usb.Tests.Sessions.{
  me_alice, me_bob, bob_spk, bob_otpk, pq_key, card_bundle, card_of_bob, friend, alice_draws,
}

abbrev with_bob : Contact
with_bob = friend me_bob (some card_of_bob)

abbrev opened : Result InitiatorResult × Contact
opened = initiate toy toy_ssl toy_ed me_alice.sk me_alice.pk true alice_draws.handshake with_bob

abbrev no_result : InitiatorResult
no_result = record {
  shared_secret = [];
  ephemeral = alice_draws.handshake.ephemeral;
  spk_id = 0;
  spk_pub = [];
  otpk_id = none;
  pq_spk_id = none;
  pq_spk_ciphertext = none;
  pq_otpk_id = none;
  pq_otpk_ciphertext = none;
}

abbrev result : InitiatorResult
result = elim (opened.0) [ ok r ↦ r | err e ↦ no_result ]

offer :
    Offered toy toy_ssl alice_draws.handshake card_of_bob card_bundle bob_spk
      (some bob_otpk)
      (pq_key 7 31)
      (some (pq_key 8 32))
unfolding ratchet_usb.X3dh.picked
offer = record {
  spk_offered = refl;
  spk_paired = refl;
  otpk_own = (refl, refl, refl);
  pq_spk_own = (refl, refl, refl);
  pq_otpk_own = (refl, refl, refl);
  ephemeral_paired = refl;
}

succeeds : opened ≡ (ok result, opened.1)
unfolding ratchet_usb.Serial.Writer.bytes ratchet_usb.Serial.Writer.u8 ratchet_usb.Serial.Writer.u32
    ratchet_usb.Serial.Writer.u64 ratchet_usb.Serial.Writer.blob ratchet_usb.Serial.Writer.str
    ratchet_usb.Serial.Writer.for_each ratchet_usb.Serial.Writer.counted ratchet_usb.Kdf.hmac
    ratchet_usb.Kdf.fallback_extract ratchet_usb.Kdf.extract ratchet_usb.Kdf.expand_loop
    ratchet_usb.Kdf.fallback_expand ratchet_usb.Kdf.expand ratchet_usb.Ratchet.dh
    ratchet_usb.Ratchet.kdf_rk ratchet_usb.Ratchet.kdf_ck ratchet_usb.Ratchet.split_initial_secret
    ratchet_usb.Ratchet.combine_message_keys ratchet_usb.Ratchet.aead_key
    ratchet_usb.Ratchet.aead_encrypt ratchet_usb.Ratchet.aead_decrypt
    ratchet_usb.X3dh.derive_shared_secret ratchet_usb.X3dh.combine_hybrid
    ratchet_usb.X3dh.combine_xwing ratchet_usb.X3dh.xwing_combine ratchet_usb.X3dh.pair_one_time
    ratchet_usb.X3dh.fill_xwing_pair ratchet_usb.X3dh.picked ratchet_usb.X3dh.without_picked
    ratchet_usb.X3dh.card_of ratchet_usb.X3dh.dh_with ratchet_usb.X3dh.encapsulate_picked
    ratchet_usb.X3dh.combine ratchet_usb.X3dh.take_otpk ratchet_usb.X3dh.take_pq_otpk
    ratchet_usb.X3dh.decapsulate_paired ratchet_usb.X3dh.my_dh4 ratchet_usb.X3dh.respond
    ratchet_usb.X3dh.respond_combine ratchet_usb.X3dh.initiate_pq ratchet_usb.X3dh.initiate_with
    ratchet_usb.X3dh.initiate ratchet_usb.X3dh.respond_hybrid ratchet_usb.Pq.ml_kem_768_from_seed
    ratchet_usb.Pq.ml_kem_768_encapsulate ratchet_usb.Pq.ml_kem_768_decapsulate
    ratchet_usb.Pq.ml_dsa_65_from_seed ratchet_usb.Pq.ml_dsa_65_sign ratchet_usb.Pq.ml_dsa_65_verify
    ratchet_usb.Identity.derive_master_seed ratchet_usb.Identity.derive_identity
    ratchet_usb.Identity.derive_pq_identity ratchet_usb.Identity.identity_dh_public
    ratchet_usb.Identity.identity_dh_keypair ratchet_usb.Identity.to_hex
    ratchet_usb.Identity.group_hex ratchet_usb.Identity.fingerprint ratchet_usb.Prekey.write_payload
    ratchet_usb.Prekey.spk_signing_payload ratchet_usb.Prekey.generate_signed_prekey
    ratchet_usb.Prekey.resign_signed_prekey ratchet_usb.Prekey.verify_signed_prekey_signature
    ratchet_usb.Prekey.generate_one_time_prekeys ratchet_usb.Exec.pure ratchet_usb.Exec.lift
    ratchet_usb.Exec.calls ratchet_usb.Exec.gets ratchet_usb.Exec.modify ratchet_usb.Exec.guard
    ratchet_usb.Exec.◌>>=◌ ratchet_usb.Prelude.same_bytes
succeeds = refl

respond_hybrid-initiate_example :
    (ct : List ℕ) × (result.pq_spk_ciphertext ≡ some ct)
    × (respond_hybrid toy toy_ssl toy_ed me_bob.sk me_bob.pk me_alice.pk
          (replicate 32 41)
          bob_spk
          (some bob_otpk)
          (pq_key 7 31)
          ct
          (some (pq_key 8 32))
          result.pq_otpk_ciphertext
          true
        ≡ ok result.shared_secret)
respond_hybrid-initiate_example =
    respond_hybrid-initiate toy toy_laws toy_ssl toy-KemLaws toy_ed toy_conversion me_alice.sk
      me_bob.sk true alice_draws.handshake card_of_bob card_bundle bob_spk (some bob_otpk)
      (pq_key 7 31) (some (pq_key 8 32)) with_bob opened.1 result offer refl refl refl succeeds

initiate-takes_example :
    (otpks : List PeerOtpk) × (pq_otpks : List PeerPqPrekey) × TakenFrom
      (λ o. o.id)
      3
      card_of_bob.one_time_prekeys
      result.otpk_id
      otpks
    × TakenFrom (λ k. k.id) 4 card_bundle.one_time_prekeys result.pq_otpk_id pq_otpks
    × (opened.1 ≡ record with_bob {
      card = some (record card_of_bob {
        one_time_prekeys = otpks;
        pq_bundle = some (record card_bundle { one_time_prekeys = pq_otpks });
      });
    })
initiate-takes_example =
    initiate-takes toy toy_ssl toy_ed me_alice.sk me_alice.pk true alice_draws.handshake card_bundle
      card_of_bob result with_bob opened.1 refl refl succeeds

abbrev without_bundle : PeerCard
without_bundle = record card_of_bob { pq_bundle = none }

initiate_without_bundle_example :
    (e : Error) × (initiate toy toy_ssl toy_ed me_alice.sk me_alice.pk true alice_draws.handshake
        (friend me_bob (some without_bundle))
      ≡ (err e, friend me_bob (some without_bundle)))
initiate_without_bundle_example =
    initiate_without_bundle toy toy_ssl toy_ed me_alice.sk me_alice.pk alice_draws.handshake
      without_bundle (friend me_bob (some without_bundle)) refl refl
