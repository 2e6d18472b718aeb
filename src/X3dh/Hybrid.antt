-- ===== src/X3dh/Hybrid.antt =====
-- src/x3dh.cpp: what `initiate_pq` sends, `respond_hybrid` turns into the same secret.
use ratchet_usb.Prelude.{ℕ, ◌≡◌, sym, ap, subst, ◌∙◌, Bool, true, false, List, Option, some}
use ratchet_usb.Outcome.{ok, ok-injective}
use ratchet_usb.Exec.{pure}
use ratchet_usb.Exec.Done.{bind-ok, lift-ok, calls-ok}
use ratchet_usb.Crypto.{Crypto}
use ratchet_usb.Pq.{OpenSsl, ml_kem_768_encapsulate, ml_kem_768_decapsulate}
use ratchet_usb.Identity.{Ed25519}
use ratchet_usb.Ratchet.{dh}
use ratchet_usb.Store.{Contact, PeerCard, PeerPqBundle, SignedPrekey, OneTimePrekey, PqPrekey}
use ratchet_usb.X3dh.Handshake.{respond_combine, respond, respond_hybrid, initiate_pq}
use ratchet_usb.X3dh.Steps.{
  InitiatorResult, Draws, my_dh4, combine, picked, secret_in, ciphertext_in, encapsulate_picked,
  decapsulate_paired, take_pq_otpk,
}
use ratchet_usb.X3dh.Kem.{
  KemLaws, OwnPq, decapsulate-encapsulate_wrapped, paired_agrees, take_pq_otpk-ok,
}

module _ (c : Crypto) (ssl : OpenSsl) (kem : KemLaws ssl) (ed : Ed25519) where
  combine_agrees :
      (apk bpk epk : List ℕ) (spk : SignedPrekey) (mine : Option OneTimePrekey) (use_xwing : Bool)
      (classical dh3 ss hybrid : List ℕ) (ss' : Option (List ℕ)) (dh4 : Option (List ℕ × List ℕ))
      → dh c spk.sk epk ≡ ok dh3
      → my_dh4 c epk mine ≡ ok dh4
      → combine c ssl apk bpk use_xwing classical dh3 epk spk.pub_key ss ss' dh4 ≡ ok hybrid
      → respond_combine c ssl bpk apk epk spk mine use_xwing classical ss ss' ≡ ok hybrid
  unfolding combine respond_combine
  combine_agrees apk bpk epk spk mine true classical dh3 ss hybrid ss' dh4 e f h = rw (e, f) h
  combine_agrees apk bpk epk spk mine false classical dh3 ss hybrid ss' dh4 e f h = h

  -- Under the responder's three inputs the rest is one chain of calls.
  respond_chain :
      (apk bpk bsk epk : List ℕ) (spk : SignedPrekey) (mine : Option OneTimePrekey)
      (pq_spk : PqPrekey) (pq_mine : Option PqPrekey) (use_xwing : Bool)
      (classical ct ss hybrid : List ℕ) (ct' ss' : Option (List ℕ))
      → respond c ed bsk bpk apk epk spk mine ≡ ok classical
      → ml_kem_768_decapsulate ssl pq_spk.key.private_seed ct ≡ ok ss
      → decapsulate_paired ssl pq_mine ct' ≡ ok ss'
      → respond_combine c ssl bpk apk epk spk mine use_xwing classical ss ss' ≡ ok hybrid
      → respond_hybrid c ssl ed bsk bpk apk epk spk mine pq_spk ct pq_mine ct' use_xwing ≡ ok hybrid
  unfolding respond_hybrid
  respond_chain apk bpk bsk epk spk mine pq_spk pq_mine use_xwing classical ct ss hybrid ct' ss' e f
        g h =
      rw (e, f, g) h

  -- The last step of both sides, for a card with an ML-KEM bundle.
  pub hybrid_agrees :
      (apk bpk bsk dh3 : List ℕ) (spk : SignedPrekey) (mine : Option OneTimePrekey)
      (pq_spk : PqPrekey) (pq_mine : Option PqPrekey) (use_xwing : Bool) (draws : Draws)
      (card : PeerCard) (bundle : PeerPqBundle) (dh4 : Option (List ℕ × List ℕ))
      (before r : InitiatorResult) (u t : Contact)
      → u.identity_pub ≡ bpk
      → card.spk_pub ≡ spk.pub_key
      → OwnPq ssl (some bundle.signed_prekey) (some pq_spk)
      → OwnPq ssl (picked draws.pq_pick bundle.one_time_prekeys) pq_mine
      → dh c spk.sk draws.ephemeral.pk ≡ ok dh3
      → my_dh4 c draws.ephemeral.pk mine ≡ ok dh4
      → respond c ed bsk bpk apk draws.ephemeral.pk spk mine ≡ ok before.shared_secret
      → initiate_pq c ssl ed apk use_xwing draws card dh3 dh4 before (some bundle) u ≡ (ok r, t)
      → (ct : List ℕ) × (r.pq_spk_ciphertext ≡ some ct)
        × (respond_hybrid c ssl ed bsk bpk apk draws.ephemeral.pk spk mine pq_spk ct pq_mine
              r.pq_otpk_ciphertext use_xwing
            ≡ ok r.shared_secret)
  unfolding initiate_pq pure
  hybrid_agrees apk bpk bsk dh3 spk mine pq_spk pq_mine use_xwing draws card bundle dh4 before r u t
        known listed_key own own_pq e3 e4 answered h =
      let ((ct, ss), sealed, h1) =
        lift-ok (ml_kem_768_encapsulate ssl bundle.signed_prekey.pub_key draws.static_draw) _ u t r
          h in
      let (key, v, taken, h2) = bind-ok (take_pq_otpk draws.pq_pick bundle) _ u t r h1 in
      let (is_key, same_id) = take_pq_otpk-ok draws.pq_pick bundle key u v taken in
      let (one_time, wrapped, h3) =
        lift-ok (encapsulate_picked ssl key draws.one_time_draw) _ v t r h2 in
      let (hybrid, mixed, h4) = calls-ok _ _ v t r h3 in
      let result = ok-injective (ap (λ x. x.0) h4) in
      let opened =
        decapsulate-encapsulate_wrapped ssl kem pq_spk.key.private_seed pq_spk.key.public_key
          draws.static_draw ct ss own.2
          (subst (λ pk. ml_kem_768_encapsulate ssl pk draws.static_draw ≡ ok (ct, ss)) own.1
            sealed) in
      let paired =
        paired_agrees ssl kem key pq_mine draws.one_time_draw one_time
          (subst (λ k. OwnPq ssl k pq_mine) (sym is_key) own_pq) wrapped in
      let mixed' =
        combine_agrees apk bpk draws.ephemeral.pk spk mine use_xwing before.shared_secret dh3 ss
          hybrid (secret_in one_time) dh4 e3 e4
          (subst
            (λ i.
              combine c ssl apk i use_xwing before.shared_secret dh3 draws.ephemeral.pk spk.pub_key
                ss (secret_in one_time) dh4
              ≡ ok hybrid)
            (same_id ∙ known)
            (subst
              (λ k.
                combine c ssl apk v.identity_pub use_xwing before.shared_secret dh3
                  draws.ephemeral.pk k ss (secret_in one_time) dh4
                ≡ ok hybrid)
              listed_key mixed)) in
      (
        ct,
        sym (ap (λ x. x.pq_spk_ciphertext) result),
        subst
            (λ x.
              respond_hybrid c ssl ed bsk bpk apk draws.ephemeral.pk spk mine pq_spk ct pq_mine
                x.pq_otpk_ciphertext use_xwing
              ≡ ok x.shared_secret)
            result
            (respond_chain apk bpk bsk draws.ephemeral.pk spk mine pq_spk pq_mine use_xwing
              before.shared_secret ct ss hybrid (ciphertext_in one_time) (secret_in one_time)
              answered opened paired mixed'),
      )
