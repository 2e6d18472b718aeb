-- ===== src/X3dh/Taken.antt =====
-- What `initiate` takes from the card.
use ratchet_usb.Prelude.{
  true, false, some-injective, ℕ, ◌≡◌, refl, sym, ap, subst, ◌∙◌, Bool, List, Option, none, some,
}
use ratchet_usb.Outcome.{
  Result, Error, ok, err, ok-injective, xwing_without_bundle, stored_card_invalid,
}
use ratchet_usb.Prekey.{verify_signed_prekey_signature}
use ratchet_usb.Exec.{◌>>=◌, pure}
use ratchet_usb.Exec.Done.{then-ok, bind-ok, lift-ok, calls-ok, guard-ok}
use ratchet_usb.Crypto.{Crypto}
use ratchet_usb.Pq.{OpenSsl, ml_kem_768_encapsulate}
use ratchet_usb.Identity.{Ed25519}
use ratchet_usb.Store.{Contact, PeerCard, PeerOtpk, PeerPqPrekey, PeerPqBundle}
use ratchet_usb.X3dh.Handshake.{initiate_pq, initiate_with, initiate}
use ratchet_usb.X3dh.Picked.{TakenFrom, picked-TakenFrom}
use ratchet_usb.X3dh.Steps.{
  InitiatorResult, Draws, picked, without_picked, card_of, take_otpk, take_pq_otpk, otpk_id_of,
  classical_result, id_in, encapsulate_picked,
}

abbrev without_otpk : ℕ → PeerCard → PeerCard
without_otpk drawn card = record card {
  one_time_prekeys = without_picked drawn card.one_time_prekeys;
}

abbrev without_pq_otpk : ℕ → PeerPqBundle → PeerCard → PeerCard
without_pq_otpk drawn bundle card = record card {
  pq_bundle =
      some (record bundle { one_time_prekeys = without_picked drawn bundle.one_time_prekeys });
}

abbrev with_card : PeerCard → Contact → Contact
with_card card contact = record contact { card = some card }

abbrev pq_id_of : Option PeerPqPrekey → Option ℕ
pq_id_of none = none
pq_id_of (some k) = some k.id

take_otpk-state :
    (drawn : ℕ) (card : PeerCard) (key : Option PeerOtpk) (u v : Contact)
    → take_otpk drawn card u ≡ (ok key, v)
    → (picked drawn card.one_time_prekeys ≡ key) × (with_card (without_otpk drawn card) u ≡ v)
unfolding take_otpk ◌>>=◌
take_otpk-state drawn card key u v h = (ok-injective (ap (λ x. x.0) h), ap (λ x. x.1) h)

take_pq_otpk-state :
    (drawn : ℕ) (bundle : PeerPqBundle) (card : PeerCard) (key : Option PeerPqPrekey)
    (u v : Contact)
    → take_pq_otpk drawn bundle (with_card card u) ≡ (ok key, v)
    → (picked drawn bundle.one_time_prekeys ≡ key)
      × (with_card (without_pq_otpk drawn bundle card) u ≡ v)
unfolding take_pq_otpk ◌>>=◌ card_of
take_pq_otpk-state drawn bundle card key u v h = (ok-injective (ap (λ x. x.0) h), ap (λ x. x.1) h)

module _ (ssl : OpenSsl) where
  encapsulate_picked-id :
      (key : Option PeerPqPrekey) (drawn : List ℕ) (out : Option (ℕ × List ℕ × List ℕ))
      → encapsulate_picked ssl key drawn ≡ ok out
      → id_in out ≡ pq_id_of key
  unfolding encapsulate_picked
  encapsulate_picked-id none drawn out h = ap id_in (sym (ok-injective h))
  encapsulate_picked-id (some k) drawn out h =
      let (sealed, e, same) = then-ok (ml_kem_768_encapsulate ssl k.pub_key drawn) _ out h in
      ap id_in (sym (ok-injective same))

module _ (c : Crypto) (ssl : OpenSsl) (ed : Ed25519) (ask apk : List ℕ) (use_xwing : Bool)
    (draws : Draws) (bundle : PeerPqBundle) where
  -- The ML-KEM part.
  initiate_pq-state :
      (card card' : PeerCard) (dh3 : List ℕ) (dh4 : Option (List ℕ × List ℕ))
      (before r : InitiatorResult) (u t : Contact) (has_bundle : Option PeerPqBundle)
      → has_bundle ≡ some bundle
      → initiate_pq c ssl ed apk use_xwing draws card dh3 dh4 before has_bundle (with_card card' u)
        ≡ (ok r, t)
      → (t ≡ with_card (without_pq_otpk draws.pq_pick bundle card') u)
        × (r.otpk_id ≡ before.otpk_id)
        × (r.pq_otpk_id ≡ pq_id_of (picked draws.pq_pick bundle.one_time_prekeys))
  unfolding initiate_pq pure
  initiate_pq-state card card' dh3 dh4 before r u t none has h = absurd (cc has)
  initiate_pq-state card card' dh3 dh4 before r u t (some found) has h =
      let (static, e0, h0) = lift-ok _ _ _ t r h in
      let (key, v, taken, h1) = bind-ok _ _ _ t r h0 in
      let (is_key, moved) = take_pq_otpk-state draws.pq_pick found card' key u v taken in
      let (one_time, wrapped, h2) = lift-ok _ _ v t r h1 in
      let (hybrid, mixed, h3) = calls-ok _ _ v t r h2 in
      let result = ok-injective (ap (λ x. x.0) h3) in
      let same : found ≡ bundle = some-injective has in
      (
        sym (ap (λ x. x.1) h3)
            ∙ sym moved
            ∙ ap (λ b. with_card (without_pq_otpk draws.pq_pick b card') u) same,
        sym (ap (λ x. x.otpk_id) result),
        sym (ap (λ x. x.pq_otpk_id) result)
            ∙ encapsulate_picked-id ssl key draws.one_time_draw one_time wrapped
            ∙ ap pq_id_of (sym is_key)
            ∙ ap (λ b. pq_id_of (picked draws.pq_pick b.one_time_prekeys)) same,
      )

  initiate_with-state :
      (card : PeerCard) (r : InitiatorResult) (u t : Contact)
      → card.pq_bundle ≡ some bundle
      → initiate_with c ssl ed ask apk use_xwing draws card u ≡ (ok r, t)
      → (t ≡ with_card (without_pq_otpk draws.pq_pick bundle (without_otpk draws.pick card)) u)
        × (r.otpk_id ≡ otpk_id_of (picked draws.pick card.one_time_prekeys))
        × (r.pq_otpk_id ≡ pq_id_of (picked draws.pq_pick bundle.one_time_prekeys))
  unfolding initiate_with
  initiate_with-state card r u t has h =
      let (mine, e0, h0) = lift-ok _ _ u t r h in
      let (theirs, e1, h1) = calls-ok _ _ u t r h0 in
      let (dh1, e2, h2) = lift-ok _ _ u t r h1 in
      let (dh2, e3, h3) = lift-ok _ _ u t r h2 in
      let (dh3, e4, h4) = lift-ok _ _ u t r h3 in
      let (key, v, e5, h5) = bind-ok _ _ u t r h4 in
      let (dh4, e6, h6) = lift-ok _ _ v t r h5 in
      let (shared, e7, h7) = calls-ok _ _ v t r h6 in
      let (is_key, moved) = take_otpk-state draws.pick card key u v e5 in
      let (at, kept, id) =
        initiate_pq-state card (without_otpk draws.pick card) dh3 dh4
          (classical_result draws.ephemeral card key shared) r u t card.pq_bundle has
          (subst
            (λ s.
              initiate_pq c ssl ed apk use_xwing draws card dh3 dh4
                (classical_result draws.ephemeral card key shared) card.pq_bundle s
              ≡ (ok r, t))
            (sym moved) h7) in
      (at, kept ∙ ap otpk_id_of (sym is_key), id)

  initiate-state :
      (card : PeerCard) (r : InitiatorResult) (u t : Contact)
      → u.card ≡ some card
      → card.pq_bundle ≡ some bundle
      → initiate c ssl ed ask apk use_xwing draws u ≡ (ok r, t)
      → (t ≡ with_card (without_pq_otpk draws.pq_pick bundle (without_otpk draws.pick card)) u)
        × (r.otpk_id ≡ otpk_id_of (picked draws.pick card.one_time_prekeys))
        × (r.pq_otpk_id ≡ pq_id_of (picked draws.pq_pick bundle.one_time_prekeys))
  unfolding initiate card_of
  initiate-state card r u t stored has h =
      let (found, e0, h0) = calls-ok _ _ u t r h in
      let (genuine, e1, h1) = calls-ok _ _ u t r h0 in
      let (is_genuine, h2) = guard-ok genuine _ _ u t r h1 in
      let (_, h3) = guard-ok _ _ _ u t r h2 in
      let same : found ≡ card = ok-injective (sym e0 ∙ rw stored refl) in
      initiate_with-state card r u t has
        (subst (λ k. initiate_with c ssl ed ask apk use_xwing draws k u ≡ (ok r, t)) same h3)

  -- A handshake uses up the one-time prekeys that it names. If `initiate` succeeds for a contact
  -- whose card has an ML-KEM bundle, then the contact is as before but for the two lists of
  -- one-time prekeys of its card. Of either list, where it is not empty, exactly the element at the
  -- drawn index, reduced below the list's length, has left, the others keep their order, and the
  -- result names its id; where the list is empty, it stays so and the result names none.
  pub initiate-takes :
      (card : PeerCard) (r : InitiatorResult) (contact contact' : Contact)
      → contact.card ≡ some card
      → card.pq_bundle ≡ some bundle
      → initiate c ssl ed ask apk use_xwing draws contact ≡ (ok r, contact')
      → (otpks : List PeerOtpk) × (pq_otpks : List PeerPqPrekey) × TakenFrom
          (λ o. o.id)
          draws.pick
          card.one_time_prekeys
          r.otpk_id
          otpks
        × TakenFrom (λ k. k.id) draws.pq_pick bundle.one_time_prekeys r.pq_otpk_id pq_otpks
        × (contact' ≡ record contact {
          card = some (record card {
            one_time_prekeys = otpks;
            pq_bundle = some (record bundle { one_time_prekeys = pq_otpks });
          });
        })
  initiate-takes card r u t stored has h =
      let (at, id, pq_id) = initiate-state card r u t stored has h in
      let otpks = without_picked draws.pick card.one_time_prekeys in
      let pq_otpks = without_picked draws.pq_pick bundle.one_time_prekeys in
      (
        otpks,
        pq_otpks,
        subst (λ m. TakenFrom (λ o. o.id) draws.pick card.one_time_prekeys m otpks) (sym id)
            (picked-TakenFrom (λ o. o.id) otpk_id_of refl (λ o. refl) draws.pick
              card.one_time_prekeys),
        subst (λ m. TakenFrom (λ k. k.id) draws.pq_pick bundle.one_time_prekeys m pq_otpks)
            (sym pq_id)
            (picked-TakenFrom (λ k. k.id) pq_id_of refl (λ k. refl) draws.pq_pick
              bundle.one_time_prekeys),
        at,
      )

module _ (c : Crypto) (ssl : OpenSsl) (ed : Ed25519) (ask apk : List ℕ) (draws : Draws) where
  -- An X-Wing opening to a contact whose card has no ML-KEM bundle always fails, and leaves the
  -- contact and its card unchanged.
  pub initiate_without_bundle :
      (card : PeerCard) (contact : Contact)
      → contact.card ≡ some card
      → card.pq_bundle ≡ none
      → (e : Error) × (initiate c ssl ed ask apk true draws contact ≡ (err e, contact))
  unfolding initiate card_of ◌>>=◌
  initiate_without_bundle card contact stored has =
      by_check
        (verify_signed_prekey_signature ed contact.identity_pub card.spk_id card.spk_pub
          card.spk_signature)
        refl
    where
      by_check :
          (r : Result Bool)
          → verify_signed_prekey_signature ed contact.identity_pub card.spk_id card.spk_pub
              card.spk_signature
            ≡ r
          → (e : Error) × (initiate c ssl ed ask apk true draws contact ≡ (err e, contact))
      by_check (err e) h = (e, rw (stored, h) refl)
      by_check (ok true) h = (xwing_without_bundle, rw (stored, h, has) refl)
      by_check (ok false) h = (stored_card_invalid, rw (stored, h) refl)
