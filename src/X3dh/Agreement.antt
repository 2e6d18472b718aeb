-- ===== src/X3dh/Agreement.antt =====
-- Both sides of the handshake compute the same secret.
use ratchet_usb.Prelude.{ℕ, ◌≡◌, refl, sym, ap, subst, ◌∙◌, Bool, List, ◌∷◌, Option, some}
use ratchet_usb.Outcome.{ok, ok-injective}
use ratchet_usb.Exec.{◌>>=◌}
use ratchet_usb.Exec.Done.{bind-ok, lift-ok, calls-ok, guard-ok}
use ratchet_usb.Crypto.{Crypto, CryptoLaws}
use ratchet_usb.Pq.{OpenSsl}
use ratchet_usb.Identity.{Ed25519, identity_dh_keypair, identity_dh_public}
use ratchet_usb.Ratchet.{dh}
use ratchet_usb.Store.{
  Contact, PeerCard, PeerOtpk, PeerPqBundle, SignedPrekey, OneTimePrekey, PqPrekey,
}
use ratchet_usb.X3dh.Combine.{derive_shared_secret}
use ratchet_usb.X3dh.Handshake.{respond_hybrid, initiate, initiate_with, initiate_pq}
use ratchet_usb.X3dh.Steps.{
  InitiatorResult, Draws, dh_with, otpk_share, listed, picked, card_of, take_otpk, classical_result,
}
use ratchet_usb.X3dh.Kem.{KemLaws, OwnPq}
use ratchet_usb.X3dh.Dh.{
  ConversionLaws, OwnOtpk, meets, converts, converts_pair, share_agrees, respond_agrees,
}
use ratchet_usb.X3dh.Hybrid.{hybrid_agrees}

-- The card's prekeys that the draws pick are the responder's own, and the ephemeral pair is one.
pub record Offered (c : Crypto) (ssl : OpenSsl) (draws : Draws) (card : PeerCard)
    (bundle : PeerPqBundle) (spk : SignedPrekey) (otpk : Option OneTimePrekey) (pq_spk : PqPrekey)
    (pq_otpk : Option PqPrekey) : Type 0 where
  pub spk_offered : card.spk_pub ≡ spk.pub_key
  pub spk_paired : spk.pub_key ≡ c.public_of spk.sk
  pub otpk_own : OwnOtpk c (picked draws.pick card.one_time_prekeys) otpk
  pub pq_spk_own : OwnPq ssl (some bundle.signed_prekey) (some pq_spk)
  pub pq_otpk_own : OwnPq ssl (picked draws.pq_pick bundle.one_time_prekeys) pq_otpk
  pub ephemeral_paired : draws.ephemeral.pk ≡ c.public_of draws.ephemeral.sk

take_otpk-ok :
    (drawn : ℕ) (card : PeerCard) (key : Option PeerOtpk) (u v : Contact)
    → take_otpk drawn card u ≡ (ok key, v)
    → (key ≡ picked drawn card.one_time_prekeys) × (v.identity_pub ≡ u.identity_pub)
unfolding take_otpk ◌>>=◌
take_otpk-ok drawn card key u v h =
    (sym (ok-injective (ap (λ x. x.0) h)), sym (ap (λ x. x.1.identity_pub) h))

module _ (c : Crypto) (laws : CryptoLaws c) (ssl : OpenSsl) (kem : KemLaws ssl) (ed : Ed25519)
    (conv : ConversionLaws c ed) (a b : List ℕ) (use_xwing : Bool) (draws : Draws) (card : PeerCard)
    (bundle : PeerPqBundle) (spk : SignedPrekey) (otpk : Option OneTimePrekey) (pq_spk : PqPrekey)
    (pq_otpk : Option PqPrekey) where
  -- From the initiator's calls to the responder's answer.
  opened_agrees :
      (mine : List ℕ × List ℕ) (theirs dh1 dh2 dh3 : List ℕ) (key : Option PeerOtpk)
      (dh4 : Option (List ℕ × List ℕ)) (u v t : Contact) (before r : InitiatorResult)
      (has_bundle : Option PeerPqBundle)
      → has_bundle ≡ some bundle
      → Offered c ssl draws card bundle spk otpk pq_spk pq_otpk
      → u.identity_pub ≡ ed.public_of b
      → identity_dh_keypair ed a (ed.public_of a) ≡ ok mine
      → identity_dh_public ed u.identity_pub ≡ ok theirs
      → dh c mine.0 card.spk_pub ≡ ok dh1
      → dh c draws.ephemeral.sk theirs ≡ ok dh2
      → dh c draws.ephemeral.sk card.spk_pub ≡ ok dh3
      → (key ≡ picked draws.pick card.one_time_prekeys) × (v.identity_pub ≡ u.identity_pub)
      → dh_with c (otpk_share draws.ephemeral key) ≡ ok dh4
      → derive_shared_secret c (ed.public_of a) v.identity_pub (dh1 ∷ (dh2 ∷ (dh3 ∷ listed dh4)))
        ≡ ok before.shared_secret
      → initiate_pq c ssl ed (ed.public_of a) use_xwing draws card dh3 dh4 before has_bundle v
        ≡ (ok r, t)
      → (ct : List ℕ) × (r.pq_spk_ciphertext ≡ some ct)
        × (respond_hybrid c ssl ed b
              (ed.public_of b)
              (ed.public_of a)
              draws.ephemeral.pk
              spk
              otpk
              pq_spk
              ct
              pq_otpk
              r.pq_otpk_ciphertext
              use_xwing
            ≡ ok r.shared_secret)
  opened_agrees mine theirs dh1 dh2 dh3 key dh4 u v t before r has_bundle has offered known e0 e1 e2
        e3 e4 e5 e6 e7 h =
      let is_mine : mine ≡ (conv.converted a, c.public_of (conv.converted a)) =
        ok-injective (sym e0 ∙ converts_pair c laws ed conv a) in
      let is_theirs : theirs ≡ c.public_of (conv.converted b) =
        ok-injective (sym e1 ∙ ap (identity_dh_public ed) known ∙ converts c laws ed conv b) in
      let own = subst (λ k. OwnOtpk c k otpk) (sym e5.0) offered.otpk_own in
      let third = subst (λ k. dh c draws.ephemeral.sk k ≡ ok dh3) offered.spk_offered e4 in
      let (_, _, _, kept4) =
        share_agrees c laws ed conv draws.ephemeral key otpk dh4 offered.ephemeral_paired own e6 in
      hybrid_agrees c ssl kem ed (ed.public_of a) (ed.public_of b) b dh3 spk otpk pq_spk pq_otpk
        use_xwing draws card bundle dh4 before r v t (e5.1 ∙ known) offered.spk_offered
        offered.pq_spk_own offered.pq_otpk_own
        (meets c laws ed conv spk.sk draws.ephemeral.sk spk.pub_key draws.ephemeral.pk
            offered.spk_paired offered.ephemeral_paired
          ∙ third)
        kept4
        (respond_agrees c laws ed conv a b draws.ephemeral spk key otpk dh1 dh2 dh3
          before.shared_secret dh4 offered.ephemeral_paired offered.spk_paired own
          (subst (λ k. dh c (conv.converted a) k ≡ ok dh1) offered.spk_offered
            (subst (λ m. dh c m.0 card.spk_pub ≡ ok dh1) is_mine e2))
          (subst (λ k. dh c draws.ephemeral.sk k ≡ ok dh2) is_theirs e3) third e6
          (subst
            (λ i.
              derive_shared_secret c (ed.public_of a) i (dh1 ∷ (dh2 ∷ (dh3 ∷ listed dh4)))
              ≡ ok before.shared_secret)
            (e5.1 ∙ known) e7))
        (subst
          (λ p.
            initiate_pq c ssl ed (ed.public_of a) use_xwing draws card dh3 dh4 before p v
            ≡ (ok r, t))
          has h)

  with_agrees :
      (contact contact' : Contact) (r : InitiatorResult)
      → Offered c ssl draws card bundle spk otpk pq_spk pq_otpk
      → contact.identity_pub ≡ ed.public_of b
      → card.pq_bundle ≡ some bundle
      → initiate_with c ssl ed a (ed.public_of a) use_xwing draws card contact ≡ (ok r, contact')
      → (ct : List ℕ) × (r.pq_spk_ciphertext ≡ some ct)
        × (respond_hybrid c ssl ed b
              (ed.public_of b)
              (ed.public_of a)
              draws.ephemeral.pk
              spk
              otpk
              pq_spk
              ct
              pq_otpk
              r.pq_otpk_ciphertext
              use_xwing
            ≡ ok r.shared_secret)
  unfolding initiate_with
  with_agrees u t r offered known has h =
      let (mine, e0, h0) = lift-ok _ _ u t r h in
      let (theirs, e1, h1) = calls-ok _ _ u t r h0 in
      let (dh1, e2, h2) = lift-ok _ _ u t r h1 in
      let (dh2, e3, h3) = lift-ok _ _ u t r h2 in
      let (dh3, e4, h4) = lift-ok _ _ u t r h3 in
      let (key, v, e5, h5) = bind-ok _ _ u t r h4 in
      let (dh4, e6, h6) = lift-ok _ _ v t r h5 in
      let (shared, e7, h7) = calls-ok _ _ v t r h6 in
      opened_agrees mine theirs dh1 dh2 dh3 key dh4 u v t
        (classical_result draws.ephemeral card key shared) r card.pq_bundle has offered known e0 e1
        e2 e3 e4 (take_otpk-ok draws.pick card key u v e5) e6 e7 h7

  -- Both sides of a handshake derive the same secret, with either combiner and with or without the
  -- two one-time prekeys. The contact is the responder, with a card that has an ML-KEM bundle; the
  -- card's signed prekeys and the one-time prekeys that the draws pick are the responder's own, and
  -- the ephemeral keys are a pair; Diffie-Hellman commutes, the conversion of a key pair to X25519
  -- is a key pair, and ML-KEM decapsulates what it encapsulated. Then, if `initiate` succeeds, it
  -- has a static ciphertext, and `respond_hybrid` on what it sends returns its secret.
  pub respond_hybrid-initiate :
      (contact contact' : Contact) (r : InitiatorResult)
      → Offered c ssl draws card bundle spk otpk pq_spk pq_otpk
      → contact.identity_pub ≡ ed.public_of b
      → contact.card ≡ some card
      → card.pq_bundle ≡ some bundle
      → initiate c ssl ed a (ed.public_of a) use_xwing draws contact ≡ (ok r, contact')
      → (ct : List ℕ) × (r.pq_spk_ciphertext ≡ some ct)
        × (respond_hybrid c ssl ed b
              (ed.public_of b)
              (ed.public_of a)
              draws.ephemeral.pk
              spk
              otpk
              pq_spk
              ct
              pq_otpk
              r.pq_otpk_ciphertext
              use_xwing
            ≡ ok r.shared_secret)
  unfolding initiate card_of
  respond_hybrid-initiate u t r offered known stored has h =
      let (found, e0, h0) = calls-ok _ _ u t r h in
      let (genuine, e1, h1) = calls-ok _ _ u t r h0 in
      let (is_genuine, h2) = guard-ok genuine _ _ u t r h1 in
      let (_, h3) = guard-ok _ _ _ u t r h2 in
      let same : found ≡ card = ok-injective (sym e0 ∙ rw stored refl) in
      with_agrees u t r offered known has (
        subst (λ k. initiate_with c ssl ed a (ed.public_of a) use_xwing draws k u ≡ (ok r, t)) same
          h3)
