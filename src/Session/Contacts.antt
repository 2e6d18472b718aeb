-- ===== src/Session/Contacts.antt =====
-- src/session.cpp: what `send` and `receive` may change of a contact.
use ratchet_usb.Prelude.{
  ℕ, ◌≡◌, refl, sym, subst, Bool, true, false, not, List, Option, none, some, if◌then◌else◌,
  if◌then◌else◌,
}
use ratchet_usb.Outcome.{◌>=>◌, session_closed, Result, ok, err, ok-injective}
use ratchet_usb.Exec.Keeps.{Keeps, keeps_rules}
use ratchet_usb.Crypto.{Crypto}
use ratchet_usb.Pq.{OpenSsl}
use ratchet_usb.Identity.{Ed25519}
use ratchet_usb.Store.{Contact, PeerCard, PeerPqBundle}
use ratchet_usb.Protocol.{ProtocolSuite, uses_xwing_combiner}
use ratchet_usb.Message.{InitialFields}
use ratchet_usb.Store.{VaultStore, Session, find_session}
use ratchet_usb.Exec.Done.{lift-ok, then-ok, calls-ok, guard-ok, gets-ok, modify-ok, pure-ok}
use ratchet_usb.Session.Types.{
  Libraries, Identity, contact_at, session_in, put_session, put_contact, done_by,
}
use ratchet_usb.Session.Send.{
  SendDraws, send, compose, open_if_needed, open_sending, after_handshake, begin_sending,
  hybrid_card_of, selected_suite, working_copy, encrypt_envelope, blank_envelope, name_session,
  is_closed,
}
use ratchet_usb.Message.Write.{sender_id_for, encode}
use ratchet_usb.X3dh.{
  Draws, InitiatorResult, initiate, initiate_with, initiate_pq, take_otpk, take_pq_otpk,
}

-- The same person: all of a contact but the card and the minimum suite.
pub record SamePerson (a b : Contact) : Type 0 where
  pub same_alias : b.alias ≡ a.alias
  pub same_identity : b.identity_pub ≡ a.identity_pub
  pub same_verified : b.verified ≡ a.verified

pub record OnlyCard (a b : Contact) : Type 0 where
  pub person : SamePerson a b
  pub same_minimum : b.minimum_suite ≡ a.minimum_suite

module _ (a : Contact) where
  OnlyCard-card :
      (card : Option PeerCard) (b : Contact) → OnlyCard a b → OnlyCard a (record b { card = card })
  OnlyCard-card card b h = record {
    person = record {
      same_alias = h.person.same_alias;
      same_identity = h.person.same_identity;
      same_verified = h.person.same_verified;
    };
    same_minimum = h.same_minimum;
  }

  Keeps-take_otpk : (drawn : ℕ) (card : PeerCard) → Keeps (OnlyCard a) (take_otpk drawn card)
  unfolding take_otpk
  Keeps-take_otpk drawn card = search (keeps_rules, OnlyCard-card)

  Keeps-take_pq_otpk :
      (drawn : ℕ) (bundle : PeerPqBundle) → Keeps (OnlyCard a) (take_pq_otpk drawn bundle)
  unfolding take_pq_otpk
  Keeps-take_pq_otpk drawn bundle = search (keeps_rules, OnlyCard-card)

module _ (c : Crypto) (ssl : OpenSsl) (ed : Ed25519) (ask apk : List ℕ) (use_xwing : Bool)
    (draws : Draws) (a : Contact) where
  Keeps-initiate_pq :
      (card : PeerCard) (dh3 : List ℕ) (dh4 : Option (List ℕ × List ℕ)) (before : InitiatorResult)
      (bundle : Option PeerPqBundle)
      → Keeps (OnlyCard a) (initiate_pq c ssl ed apk use_xwing draws card dh3 dh4 before bundle)
  unfolding initiate_pq
  Keeps-initiate_pq card dh3 dh4 before none = search keeps_rules
  Keeps-initiate_pq card dh3 dh4 before (some bundle) =
      search (keeps_rules, Keeps-take_pq_otpk) depth 12

  Keeps-initiate_with :
      (card : PeerCard) → Keeps (OnlyCard a) (initiate_with c ssl ed ask apk use_xwing draws card)
  unfolding initiate_with
  Keeps-initiate_with card = search (keeps_rules, Keeps-take_otpk, Keeps-initiate_pq) depth 20

  -- A handshake changes nothing of a contact but its card, also where it fails.
  pub Keeps-initiate : Keeps (OnlyCard a) (initiate c ssl ed ask apk use_xwing draws)
  unfolding initiate
  Keeps-initiate = search (keeps_rules, Keeps-initiate_with) depth 12

OnlyCard-refl : (a : Contact) → OnlyCard a a
OnlyCard-refl a = record {
  person = record { same_alias = refl; same_identity = refl; same_verified = refl };
  same_minimum = refl;
}

module _ (lib : Libraries) (me : Identity) (suite : ProtocolSuite) where
  after_handshake-OnlyCard :
      (a : Contact) (s : Session) (done : Result InitiatorResult × Contact)
      (out : InitialFields × Session × Contact)
      → OnlyCard a done.1
      → after_handshake lib me suite s done ≡ ok out
      → OnlyCard a out.2
  after_handshake-OnlyCard a s (err e, b) out same h = absurd (cc h)
  after_handshake-OnlyCard a s (ok hs, b) out same h =
      let (begun, e, g) = then-ok (done_by (begin_sending lib suite hs) s) _ out h in
      subst (λ x. OnlyCard a x.2) (ok-injective g) same

  open_sending-OnlyCard :
      (draws : Draws) (s : Session) (a : Contact) (out : InitialFields × Session × Contact)
      → open_sending lib me suite draws s a ≡ ok out
      → OnlyCard a out.2
  unfolding open_sending
  open_sending-OnlyCard draws s a out h =
      after_handshake-OnlyCard a s _ out
        ((Keeps-initiate lib.crypto lib.ssl lib.ed me.sk me.pk (uses_xwing_combiner suite) draws
            a).at
          a (OnlyCard-refl a))
        h

  open_if_needed-OnlyCard :
      (draws : Draws) (s : Session) (a : Contact) (out : Option InitialFields × Session × Contact)
      → open_if_needed lib me suite draws s a ≡ ok out
      → OnlyCard a out.2
  unfolding open_if_needed
  open_if_needed-OnlyCard draws s a out h = by_chain s.has_cks (is_closed s.status) h
    where
      by_chain :
          (has_cks closed : Bool)
          → (if not has_cks
              then (open_sending lib me suite draws s a >=> λ (fields, s', contact').
                  ok (some fields, s', contact'))
              else if closed
              then err session_closed
              else ok (none, s, a))
            ≡ ok out
          → OnlyCard a out.2
      by_chain false closed g =
          let (opened, e, same) = then-ok (open_sending lib me suite draws s a) _ out g in
          subst (λ x. OnlyCard a x.2) (ok-injective same) (open_sending-OnlyCard draws s a opened e)
      by_chain true true g = absurd (cc g)
      by_chain true false g = subst (λ x. OnlyCard a x.2) (ok-injective g) (OnlyCard-refl a)

  compose-OnlyCard :
      (plaintext : List ℕ) (draws : SendDraws) (s : Session) (a : Contact)
      (out : List ℕ × Session × Contact)
      → compose lib me suite plaintext draws s a ≡ ok out
      → OnlyCard a out.2
  unfolding compose
  compose-OnlyCard plaintext draws s a out h =
      let (opened, e0, h0) = then-ok (open_if_needed lib me suite draws.handshake s a) _ out h in
      let (sealed, e1, h1) =
        then-ok
          (done_by
            (encrypt_envelope lib plaintext draws
              (blank_envelope (sender_id_for lib.crypto me.pk) suite opened.0))
            opened.1)
          _ out h0 in
      let (named, e2, h2) = then-ok (name_session lib sealed.0 sealed.1) _ out h1 in
      let (block, e3, h3) = then-ok (encode lib.base64 sealed.0) _ out h2 in
      subst (λ x. OnlyCard a x.2) (ok-injective h3)
        (open_if_needed-OnlyCard draws.handshake s a opened e0)

-- What a message that was sent has changed: one session, and at most the card of one contact.
pub record Sent (i : ℕ) (vault vault' : VaultStore) : Type 0 where
  pub before : Contact
  pub after : Contact
  pub session : Session
  pub stored : contact_at i vault ≡ ok before
  pub only_card : OnlyCard before after
  pub committed : vault' ≡ put_contact i after (put_session (find_session i vault) session vault)

module _ (lib : Libraries) (me : Identity) where
  pub send-Sent :
      (i : ℕ) (plaintext : List ℕ) (draws : SendDraws) (vault vault' : VaultStore) (block : List ℕ)
      → send lib me i plaintext draws vault ≡ (ok block, vault')
      → Sent i vault vault'
  unfolding send
  send-Sent i plaintext draws u t block h =
      let (contact, e0, h0) = calls-ok (contact_at i) _ u t block h in
      let (e1, h1) = guard-ok _ _ _ u t block h0 in
      let (e2, h2) = guard-ok _ _ _ u t block h1 in
      let (card, e3, h3) = lift-ok (hybrid_card_of contact) _ u t block h2 in
      let h4 = gets-ok (find_session i) _ u t block h3 in
      let h5 = gets-ok (session_in (find_session i u)) _ u t block h4 in
      let (e6, h6) = guard-ok _ _ _ u t block h5 in
      let (e7, h7) = guard-ok _ _ _ u t block h6 in
      let (e8, h8) = guard-ok _ _ _ u t block h7 in
      let (e9, h9) = guard-ok _ _ _ u t block h8 in
      let (done, e10, h10) =
        lift-ok
          (compose lib me (selected_suite (session_in (find_session i u) u) card) plaintext draws
            (working_copy i (session_in (find_session i u) u)) contact)
          _ u t block h9 in
      let (same, moved) = pure-ok _ block _ t (
        modify-ok (put_contact i done.2) _ _ t block
          (modify-ok (put_session (find_session i u) done.1) _ u t block h10)) in
      record {
        before = contact;
        after = done.2;
        session = done.1;
        stored = e0;
        only_card = compose-OnlyCard lib me _ plaintext draws _ contact done e10;
        committed = sym moved;
      }
