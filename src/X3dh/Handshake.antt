-- ===== src/X3dh/Handshake.antt =====
-- src/x3dh.cpp: initiate, respond and respond_hybrid.
use ratchet_usb.Prelude.{ℕ, Bool, true, false, not, ◌&&◌, List, ◌∷◌, Option, none, some}
use ratchet_usb.Outcome.{Result, ◌>=>◌, stored_card_invalid, xwing_without_bundle}
use ratchet_usb.Exec.{Exec, pure, lift, calls, guard, ◌>>=◌, ◌>>◌}
use ratchet_usb.Crypto.{Crypto}
use ratchet_usb.Pq.{OpenSsl, ml_kem_768_encapsulate, ml_kem_768_decapsulate}
use ratchet_usb.Identity.{Ed25519, identity_dh_keypair, identity_dh_public}
use ratchet_usb.Prekey.{verify_signed_prekey_signature}
use ratchet_usb.Ratchet.{dh}
use ratchet_usb.Store.{Contact, PeerCard, PeerPqBundle, SignedPrekey, OneTimePrekey, PqPrekey}
use ratchet_usb.X3dh.Combine.{derive_shared_secret, combine_hybrid}
use ratchet_usb.X3dh.Steps.{
  is_some, card_of, dh_with, listed, encapsulate_picked, id_in, ciphertext_in, secret_in,
  classical_result, otpk_share, combine, take_otpk, take_pq_otpk, my_share, decapsulate_paired,
  my_dh4, InitiatorResult, Draws,
}

module _ (c : Crypto) (ed : Ed25519) where
  unfoldable pub respond :
      List ℕ → List ℕ → List ℕ → List ℕ → SignedPrekey → Option OneTimePrekey → Result (List ℕ)
  unfolding dh_with derive_shared_secret
  respond my_identity_sk my_identity_pk their_identity_pk their_ephemeral_pub my_spk my_otpk =
      identity_dh_keypair ed my_identity_sk my_identity_pk >=> λ mine.
      identity_dh_public ed their_identity_pk >=> λ theirs. dh c my_spk.sk theirs >=> λ dh1.
      dh c mine.0 their_ephemeral_pub >=> λ dh2. dh c my_spk.sk their_ephemeral_pub >=> λ dh3.
      dh_with c (my_share their_ephemeral_pub my_otpk) >=> λ dh4.
      derive_shared_secret c their_identity_pk my_identity_pk (dh1 ∷ (dh2 ∷ (dh3 ∷ listed dh4)))

module _ (c : Crypto) (ssl : OpenSsl) where
  -- The DH outputs of the X-Wing combiner are computed only where it is used.
  unfoldable pub respond_combine :
      List ℕ
      → List ℕ
      → List ℕ
      → SignedPrekey
      → Option OneTimePrekey
      → Bool
      → List ℕ
      → List ℕ
      → Option (List ℕ)
      → Result (List ℕ)
  unfolding my_dh4 combine
  respond_combine my_identity_pk their_identity_pk their_ephemeral_pub my_spk my_otpk true classical
        pq_static pq_one_time =
      dh c my_spk.sk their_ephemeral_pub >=> λ dh3. my_dh4 c their_ephemeral_pub my_otpk >=> λ dh4.
      combine c ssl their_identity_pk my_identity_pk true classical dh3 their_ephemeral_pub
        my_spk.pub_key pq_static pq_one_time dh4
  respond_combine my_identity_pk their_identity_pk their_ephemeral_pub my_spk my_otpk false
        classical pq_static pq_one_time =
      combine_hybrid c their_identity_pk my_identity_pk classical pq_static pq_one_time

module _ (c : Crypto) (ssl : OpenSsl) (ed : Ed25519) where
  -- The part for a card with an ML-KEM bundle.
  unfoldable pub initiate_pq :
      List ℕ
      → Bool
      → Draws
      → PeerCard
      → List ℕ
      → Option (List ℕ × List ℕ)
      → InitiatorResult
      → Option PeerPqBundle
      → Exec Contact InitiatorResult
  unfolding take_pq_otpk encapsulate_picked combine
  initiate_pq my_identity_pk use_xwing draws card dh3 dh4 result none = pure result
  initiate_pq my_identity_pk use_xwing draws card dh3 dh4 result (some bundle) = do
    static ← lift (ml_kem_768_encapsulate ssl bundle.signed_prekey.pub_key draws.static_draw)
    key ← take_pq_otpk draws.pq_pick bundle
    one_time ← lift (encapsulate_picked ssl key draws.one_time_draw)
    hybrid ← calls (λ contact.
        combine c ssl my_identity_pk contact.identity_pub use_xwing result.shared_secret dh3
          draws.ephemeral.pk card.spk_pub static.1 (secret_in one_time) dh4)
    pure (record result {
      shared_secret = hybrid;
      pq_spk_id = some bundle.signed_prekey.id;
      pq_spk_ciphertext = some static.0;
      pq_otpk_id = id_in one_time;
      pq_otpk_ciphertext = ciphertext_in one_time;
    })

  -- Everything after the checks.
  unfoldable pub initiate_with :
      List ℕ → List ℕ → Bool → Draws → PeerCard → Exec Contact InitiatorResult
  unfolding dh_with derive_shared_secret take_otpk initiate_pq
  initiate_with my_identity_sk my_identity_pk use_xwing draws card = do
    mine ← lift (identity_dh_keypair ed my_identity_sk my_identity_pk)
    theirs ← calls (λ contact. identity_dh_public ed contact.identity_pub)
    dh1 ← lift (dh c mine.0 card.spk_pub)
    dh2 ← lift (dh c draws.ephemeral.sk theirs)
    dh3 ← lift (dh c draws.ephemeral.sk card.spk_pub)
    otpk ← take_otpk draws.pick card
    dh4 ← lift (dh_with c (otpk_share draws.ephemeral otpk))
    shared ← calls (λ contact.
        derive_shared_secret c my_identity_pk contact.identity_pub
          (dh1 ∷ (dh2 ∷ (dh3 ∷ listed dh4))))
    initiate_pq my_identity_pk use_xwing draws card dh3 dh4
        (classical_result draws.ephemeral card otpk shared) card.pq_bundle

  unfoldable pub initiate : List ℕ → List ℕ → Bool → Draws → Exec Contact InitiatorResult
  unfolding card_of initiate_with
  initiate my_identity_sk my_identity_pk use_xwing draws = do
    card ← calls card_of
    genuine ← calls (λ contact.
        verify_signed_prekey_signature ed contact.identity_pub card.spk_id card.spk_pub
          card.spk_signature)
    guard genuine stored_card_invalid
    guard (not (use_xwing && not (is_some card.pq_bundle))) xwing_without_bundle
    initiate_with my_identity_sk my_identity_pk use_xwing draws card

  unfoldable pub respond_hybrid :
      List ℕ
      → List ℕ
      → List ℕ
      → List ℕ
      → SignedPrekey
      → Option OneTimePrekey
      → PqPrekey
      → List ℕ
      → Option PqPrekey
      → Option (List ℕ)
      → Bool
      → Result (List ℕ)
  unfolding respond decapsulate_paired respond_combine
  respond_hybrid my_identity_sk my_identity_pk their_identity_pk their_ephemeral_pub my_spk my_otpk
        my_pq_spk pq_spk_ciphertext my_pq_otpk pq_otpk_ciphertext use_xwing =
      respond c ed my_identity_sk my_identity_pk their_identity_pk their_ephemeral_pub my_spk
        my_otpk
      >=> λ classical.
          ml_kem_768_decapsulate ssl my_pq_spk.key.private_seed pq_spk_ciphertext >=> λ pq_static.
          decapsulate_paired ssl my_pq_otpk pq_otpk_ciphertext >=> λ pq_one_time.
          respond_combine c ssl my_identity_pk their_identity_pk their_ephemeral_pub my_spk my_otpk
            use_xwing classical pq_static pq_one_time
