-- ===== src/Session/Accepted.antt =====
-- src/session.cpp: what an accepted opening does to the vault.
use ratchet_usb.Prelude.{ℕ, ◌≡◌, sym, ap, true, not, List, Option}
use ratchet_usb.Outcome.{ok}
use ratchet_usb.Exec.{Exec}
use ratchet_usb.Exec.Done.{bind-ok, lift-ok, calls-ok, guard-ok, gets-ok, modify-ok, pure-ok}
use ratchet_usb.Message.{Envelope, InitialFields}
use ratchet_usb.Protocol.{suite_at_least}
use ratchet_usb.Store.{
  Session, Contact, VaultStore, AcceptedHandshake, OneTimePrekey, PqPrekey, history_full,
  remember_handshake, handshake_already_accepted, find_session,
}
use ratchet_usb.Session.Types.{Libraries, Identity, done_by, contact_at, session_in}
use ratchet_usb.Session.Receive.{
  ReceiveDraws, ReceiveResult, receive_opening, accept_opening, decrypt_opening, finish_opening,
}
use ratchet_usb.Session.Lookup.{
  known_initiator, required_pq, prune_if_full, one_time_prekey_of, pq_one_time_prekey_of,
  may_replace, commit,
}

abbrev pub handshake_of : InitialFields → Envelope → ReceiveDraws → AcceptedHandshake
handshake_of f env draws = record {
  initiator_identity = f.initiator_identity_pub;
  ephemeral_pub = env.header.dh_pub;
  accepted_at = draws.accepted_at;
  spk_id = f.spk_id;
}

abbrev pub remembered : InitialFields → Envelope → ReceiveDraws → Exec VaultStore (Unit {0})
remembered f env draws =
    remember_handshake f.initiator_identity_pub env.header.dh_pub draws.accepted_at f.spk_id

-- The facts that an accepted opening has established, in the vault `vault` that it was checked in.
pub record Accepted (lib : Libraries) (env : Envelope) (f : InitialFields) (draws : ReceiveDraws)
    (i : ℕ) (contact : Contact) (vault vault' : VaultStore) (r : ReceiveResult) : Type 0 where
  pub otpk : Option (ℕ × OneTimePrekey)
  pub pq_otpk : Option (ℕ × PqPrekey)
  pub fresh : Session
  pub history : VaultStore
  pub otpk_found : one_time_prekey_of f.otpk_id vault ≡ ok otpk
  pub pq_otpk_found : pq_one_time_prekey_of f.pq_otpk_id f.pq_otpk_ciphertext vault ≡ ok pq_otpk
  pub recorded : remembered f env draws vault ≡ (ok tt, history)
  pub committed : vault' ≡ commit env i contact (find_session i vault) fresh otpk pq_otpk history
  pub established : r.session_established ≡ true

-- The checks that an opening has passed before, in the vault that it arrived in.
pub record Passed (lib : Libraries) (env : Envelope) (f : InitialFields) (draws : ReceiveDraws)
    (vault vault' : VaultStore) (r : ReceiveResult) : Type 0 where
  pub index : ℕ
  pub contact : Contact
  pub required : ℕ × List ℕ
  pub known : known_initiator f.initiator_identity_pub vault ≡ ok index
  pub stored : contact_at index vault ≡ ok contact
  pub verified : contact.verified ≡ true
  pub strong : suite_at_least env.suite contact.minimum_suite ≡ true
  pub complete : required_pq f ≡ ok required
  pub unseen :
      not (handshake_already_accepted f.initiator_identity_pub env.header.dh_pub vault) ≡ true
  pub room : not (history_full (prune_if_full vault)) ≡ true
  pub accepted : Accepted lib env f draws index contact (prune_if_full vault) vault' r

module _ (lib : Libraries) (me : Identity) where
  finish_opening-Accepted :
      (env : Envelope) (f : InitialFields) (draws : ReceiveDraws) (i : ℕ) (contact : Contact)
      (otpk : Option (ℕ × OneTimePrekey)) (pq_otpk : Option (ℕ × PqPrekey)) (id : List ℕ)
      (opened : List ℕ × Session) (u t : VaultStore) (r : ReceiveResult)
      → one_time_prekey_of f.otpk_id u ≡ ok otpk
      → pq_one_time_prekey_of f.pq_otpk_id f.pq_otpk_ciphertext u ≡ ok pq_otpk
      → finish_opening lib env f draws i contact otpk pq_otpk id opened u ≡ (ok r, t)
      → Accepted lib env f draws i contact u t r
  unfolding finish_opening
  finish_opening-Accepted env f draws i contact otpk pq_otpk id opened u t r e1 e3 h =
      let h0 = gets-ok (find_session i) _ u t r h in
      let h1 = gets-ok (session_in (find_session i u)) _ u t r h0 in
      let (may, e8, h9) = lift-ok (may_replace (session_in (find_session i u) u) id) _ u t r h1 in
      let (done, v, recorded, h10) = bind-ok (remembered f env draws) _ u t r h9 in
      let (same, moved) =
        pure-ok _ r _ t
          (modify-ok (commit env i contact (find_session i u) opened.1 otpk pq_otpk) _ v t r h10) in
      record {
        otpk = otpk;
        pq_otpk = pq_otpk;
        fresh = opened.1;
        history = v;
        otpk_found = e1;
        pq_otpk_found = e3;
        recorded = recorded;
        committed = sym moved;
        established = sym (ap (λ x. x.session_established) same);
      }

  accept_opening-Accepted :
      (env : Envelope) (f : InitialFields) (draws : ReceiveDraws) (i : ℕ) (contact : Contact)
      (required : ℕ × List ℕ) (u t : VaultStore) (r : ReceiveResult)
      → accept_opening lib me env f draws i contact required u ≡ (ok r, t)
      → Accepted lib env f draws i contact u t r
  unfolding accept_opening
  accept_opening-Accepted env f draws i contact required u t r h =
      let (spk, e0, h0) = calls-ok _ _ u t r h in
      let (otpk, e1, h1) = calls-ok (one_time_prekey_of f.otpk_id) _ u t r h0 in
      let (pq_spk, e2, h2) = calls-ok _ _ u t r h1 in
      let (pq_otpk, e3, h3) =
        calls-ok (pq_one_time_prekey_of f.pq_otpk_id f.pq_otpk_ciphertext) _ u t r h2 in
      let (shared, e4, h4) = lift-ok _ _ u t r h3 in
      let (id, e5, h5) = lift-ok _ _ u t r h4 in
      let (begun, e6, h6) = lift-ok _ _ u t r h5 in
      let (opened, e7, h7) = lift-ok (done_by (decrypt_opening lib env draws) begun) _ u t r h6 in
      finish_opening-Accepted env f draws i contact otpk pq_otpk id opened u t r e1 e3 h7

  pub receive_opening-Passed :
      (env : Envelope) (f : InitialFields) (draws : ReceiveDraws) (vault vault' : VaultStore)
      (r : ReceiveResult)
      → receive_opening lib me env f draws vault ≡ (ok r, vault')
      → Passed lib env f draws vault vault' r
  unfolding receive_opening
  receive_opening-Passed env f draws u t r h =
      let (i, e0, h0) = calls-ok (known_initiator f.initiator_identity_pub) _ u t r h in
      let (contact, e1, h1) = calls-ok (contact_at i) _ u t r h0 in
      let (e2, h2) = guard-ok _ _ _ u t r h1 in
      let (e3, h3) = guard-ok _ _ _ u t r h2 in
      let (required, e4, h4) = lift-ok (required_pq f) _ u t r h3 in
      let h5 =
        gets-ok (handshake_already_accepted f.initiator_identity_pub env.header.dh_pub) _ u t r
          h4 in
      let (e6, h6) = guard-ok _ _ _ u t r h5 in
      let h7 = gets-ok history_full _ _ t r (modify-ok prune_if_full _ u t r h6) in
      let (e8, h8) = guard-ok _ _ _ _ t r h7 in
      record {
        index = i;
        contact = contact;
        required = required;
        known = e0;
        stored = e1;
        verified = e2;
        strong = e3;
        complete = e4;
        unseen = e6;
        room = e8;
        accepted = accept_opening-Accepted env f draws i contact required (prune_if_full u) t r h8;
      }
