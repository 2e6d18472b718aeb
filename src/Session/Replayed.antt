-- ===== src/Session/Replayed.antt =====
-- src/session.cpp: a block that arrives a second time.
use ratchet_usb.Prelude.{
  ℕ, zero, suc, ◌≡◌, refl, sym, ap, subst, ◌∙◌, inl, inr, Bool, true, false, List, [], ◌∷◌, Option,
  none, some, some-injective, set, get_elem?, same_bytes, le→leb, arith,
}
use ratchet_usb.Outcome.{Result, ok, err, ok-injective, opening_replayed}
use ratchet_usb.Exec.{Exec, ◌>>=◌, lift}
use ratchet_usb.Exec.Done.{lift-ok, calls-ok, guard-ok, bind-ok, pure-ok}
use ratchet_usb.Protocol.{suite_at_least, ProtocolSuite, suite_code}
use ratchet_usb.Message.{Envelope, InitialFields}
use ratchet_usb.Message.Read.{decode}
use ratchet_usb.Store.{
  Session, OneTimePrekey, PqPrekey, Contact, VaultStore, first_index, find_contact_by_identity,
  handshake_already_accepted,
}
use ratchet_usb.Store.Replay.{remember_handshake-IsRemembered, IsRemembered}
use ratchet_usb.Session.Types.{Libraries, Identity, put_session, put_contact, contact_at}
use ratchet_usb.Session.Receive.{
  ReceiveDraws, ReceiveResult, receive, receive_envelope, receive_opening, receive_ordinary,
  session_of, decrypt_in_session,
}
use ratchet_usb.Session.Lookup.{
  at_session, known_initiator, commit, raise_minimum, prune_if_full, erase_found,
}
use ratchet_usb.Session.History.{history_after-WithHistory}
use ratchet_usb.Session.Accepted.{Accepted, Passed, receive_opening-Passed}

lift_step :
    {S A B : Type 0} (r : Result A) (a : A) (k : A → Exec S B) (s : S)
    → r ≡ ok a
    → (lift r >>= k) s ≡ k a s
unfolding ◌>>=◌ lift
lift_step r a k s h = rw h refl

module _ {A : Type 0} where
  -- A search sees no difference where the new element passes the test as the old one does.
  first_index-set :
      (test : A → Bool) (xs : List A) (i base : ℕ) (x y : A)
      → get_elem? xs i ≡ some x
      → test y ≡ test x
      → first_index test (set xs i y) base ≡ first_index test xs base
  unfolding first_index
  first_index-set test [] i base x y at same = refl
  first_index-set test (z ∷ xs) zero base x y at same =
      rw (same ∙ ap test (sym (some-injective at))) refl
  first_index-set test (z ∷ xs) (suc i) base x y at same =
      rw (first_index-set test xs i (suc base) x y at same) refl

  get_elem?-set :
      (xs : List A) (i : ℕ) (x y : A) → get_elem? xs i ≡ some x → get_elem? (set xs i y) i ≡ some y
  get_elem?-set [] i x y at = absurd (cc at)
  get_elem?-set (z ∷ xs) zero x y at = refl
  get_elem?-set (z ∷ xs) (suc i) x y at = get_elem?-set xs i x y at

suite_at_least_refl : (s : ProtocolSuite) → suite_at_least s s ≡ true
unfolding suite_at_least
suite_at_least_refl s = le→leb (suite_code s) (suite_code s) (omega arith)

pub contact_at-get_elem? :
    (i : ℕ) (vault : VaultStore) (contact : Contact)
    → contact_at i vault ≡ ok contact
    → get_elem? vault.contacts i ≡ some contact
unfolding contact_at
contact_at-get_elem? i vault contact h = by_element (get_elem? vault.contacts i) refl
  where
    by_element :
        (found : Option Contact)
        → get_elem? vault.contacts i ≡ found
        → get_elem? vault.contacts i ≡ some contact
    by_element none e = absurd (cc (rw (contact_at, e) at h))
    by_element (some x) e = e ∙ ap some (ok-injective (rw (contact_at, e) at h))

IsRemembered-accepted :
    (initiator ephemeral : List ℕ) (now spk_id : ℕ) (store t : VaultStore)
    → IsRemembered initiator ephemeral now spk_id store (ok tt, t)
    → handshake_already_accepted initiator ephemeral t ≡ true
unfolding IsRemembered
IsRemembered-accepted initiator ephemeral now spk_id store t (inl (e, seen)) = seen
IsRemembered-accepted initiator ephemeral now spk_id store t (inr (e, full)) = absurd (cc e)

-- What `commit` leaves alone and what it replaces.
module _ (env : Envelope) (i : ℕ) (contact : Contact) (fresh : Session)
    (otpk : Option (ℕ × OneTimePrekey)) (pq_otpk : Option (ℕ × PqPrekey)) (v : VaultStore) where
  pub commit-parts :
      (existing : Option ℕ)
      → let t = commit env i contact existing fresh otpk pq_otpk v in
        (t.contacts ≡ set v.contacts i (raise_minimum env contact))
        × (t.accepted_handshakes ≡ v.accepted_handshakes)
        × (t.one_time_prekeys ≡ erase_found otpk v.one_time_prekeys)
        × (t.pq_one_time_prekeys ≡ erase_found pq_otpk v.pq_one_time_prekeys)
  unfolding commit put_session put_contact
  commit-parts none = (refl, refl, refl, refl)
  commit-parts (some k) = (refl, refl, refl, refl)

module _ (lib : Libraries) (env : Envelope) (f : InitialFields) (draws : ReceiveDraws)
    (vault vault' : VaultStore) (r : ReceiveResult)
    (p : Passed lib env f draws vault vault' r) where
  abbrev a : Accepted lib env f draws p.index p.contact (prune_if_full vault) vault' r
  a = p.accepted

  -- The contacts of the vault, which pruning and the history do not touch.
  pub contacts_after : vault'.contacts ≡ set vault.contacts p.index (raise_minimum env p.contact)
  contacts_after =
      ap (λ t. t.contacts) a.committed
      ∙ (commit-parts env p.index p.contact a.fresh a.otpk a.pq_otpk a.history _).0
      ∙ ap (λ t. set t.contacts p.index (raise_minimum env p.contact))
          (history_after-WithHistory lib env f draws vault vault' r p)

  history_after :
      handshake_already_accepted f.initiator_identity_pub env.header.dh_pub vault' ≡ true
  unfolding handshake_already_accepted
  history_after =
      rw
        (ap (λ t. t.accepted_handshakes) a.committed
          ∙ (commit-parts env p.index p.contact a.fresh a.otpk a.pq_otpk a.history _).1)
        (IsRemembered-accepted f.initiator_identity_pub env.header.dh_pub draws.accepted_at f.spk_id
          (prune_if_full vault) a.history
          (subst
            (IsRemembered f.initiator_identity_pub env.header.dh_pub draws.accepted_at f.spk_id
              (prune_if_full vault))
            a.recorded
            (remember_handshake-IsRemembered f.initiator_identity_pub env.header.dh_pub
              draws.accepted_at f.spk_id (prune_if_full vault))))

  pub contact_stored : get_elem? vault.contacts p.index ≡ some p.contact
  contact_stored = contact_at-get_elem? p.index vault p.contact p.stored

  found_again :
      find_contact_by_identity f.initiator_identity_pub vault'
      ≡ find_contact_by_identity f.initiator_identity_pub vault
  unfolding find_contact_by_identity
  found_again = rw contacts_after (
      first_index-set (λ x. same_bytes x.identity_pub f.initiator_identity_pub) vault.contacts
        p.index 0 p.contact (raise_minimum env p.contact) contact_stored refl)

  known_again : known_initiator f.initiator_identity_pub vault' ≡ ok p.index
  unfolding known_initiator
  known_again = rw (known_initiator, found_again) p.known

  stored_again : contact_at p.index vault' ≡ ok (raise_minimum env p.contact)
  unfolding contact_at
  stored_again =
      rw
        (
          contact_at,
          contacts_after,
          get_elem?-set vault.contacts p.index p.contact (raise_minimum env p.contact)
              contact_stored,
        )
        refl

  -- The second arrival runs into the check of the history.
  opening_again :
      (me : Identity) (draws' : ReceiveDraws)
      → receive_opening lib me env f draws' vault' ≡ (err opening_replayed, vault')
  unfolding receive_opening ◌>>=◌
  opening_again me draws' =
      rw
        (
          known_again,
          stored_again,
          p.verified,
          suite_at_least_refl env.suite,
          p.complete,
          history_after,
        )
        refl

module _ (lib : Libraries) (me : Identity) where
  pub ordinary_not_established :
      (env : Envelope) (draws : ReceiveDraws) (vault vault' : VaultStore) (r : ReceiveResult)
      → receive_ordinary lib env draws vault ≡ (ok r, vault')
      → r.session_established ≡ false
  unfolding receive_ordinary
  ordinary_not_established env draws u t r h =
      let (i, e0, h0) = calls-ok _ _ u t r h in
      let (contact, e1, h1) = calls-ok (contact_at i) _ u t r h0 in
      let (e2, h2) = guard-ok _ _ _ u t r h1 in
      let (found, e3, h3) = calls-ok (session_of lib i) _ u t r h2 in
      let (e4, h4) = guard-ok _ _ _ u t r h3 in
      let (plaintext, v, e5, h5) =
        bind-ok (at_session found.0 found.1 (decrypt_in_session lib env draws)) _ u t r h4 in
      let (same, moved) = pure-ok _ r v t h5 in sym (ap (λ x. x.session_established) same)

  -- An opening is accepted once. When `receive` has accepted a block as an opening, it refuses the
  -- same block in the vault it has left, with the error of a repeated opening, whatever it draws
  -- and whatever the clock says, and that vault stays as it is.
  pub receive_again :
      (block : List ℕ) (draws draws' : ReceiveDraws) (vault vault' : VaultStore) (r : ReceiveResult)
      → receive lib me block draws vault ≡ (ok r, vault')
      → r.session_established ≡ true
      → receive lib me block draws' vault' ≡ (err opening_replayed, vault')
  unfolding receive
  receive_again block draws draws' vault vault' r h established =
      let (env, decoded, h0) = lift-ok (decode lib.base64 block) _ vault vault' r h in
      lift_step (decode lib.base64 block) env (λ e. receive_envelope lib me draws' e e.initial)
        vault' decoded
      ∙ by_initial env env.initial h0
    where
      by_initial :
          (env : Envelope) (initial : Option InitialFields)
          → receive_envelope lib me draws env initial vault ≡ (ok r, vault')
          → receive_envelope lib me draws' env initial vault' ≡ (err opening_replayed, vault')
      by_initial env none g = absurd (
          cc (
            established,
            ordinary_not_established env draws vault vault' r (unfold receive_envelope in g),
          ))
      by_initial env (some f) g =
          unfold receive_envelope in
          opening_again lib env f draws vault vault' r
            (receive_opening-Passed lib me env f draws vault vault' r g) me draws'
