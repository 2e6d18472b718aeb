-- ===== src/Session/Receive.antt =====
-- src/session.cpp: `receive` and `expire_skipped_keys`.
use ratchet_usb.Prelude.{
  ℕ, ◌+◌, Bool, true, false, not, ◌&&◌, List, [], ◌∷◌, Option, none, some, same_bytes,
  if◌then◌else◌,
}
use ratchet_usb.Outcome.{
  Result, ok, err, ◌>=>◌, contact_unverified, suite_below_minimum, opening_replayed, no_session,
  suite_mismatch, unrecognised_sender, handshake_history_full,
}
use ratchet_usb.Exec.{Exec, pure, lift, calls, gets, modify, guard, ◌>>=◌, ◌>>◌}
use ratchet_usb.Protocol.{suite_at_least, uses_triple_ratchet, uses_xwing_combiner}
use ratchet_usb.Message.{Envelope, InitialFields}
use ratchet_usb.Message.Write.{sender_id_for, envelope_aad_prefix}
use ratchet_usb.Message.Read.{decode}
use ratchet_usb.Store.{
  Session, Contact, VaultStore, SignedPrekey, OneTimePrekey, PqPrekey, confirmed, first_index,
  find_session, handshake_already_accepted, history_full, remember_handshake,
}
use ratchet_usb.Ratchet.{
  KeyPair, Clock, clone_session, split_initial_secret, init_receiver, decrypt,
}
use ratchet_usb.Ratchet
use ratchet_usb.X3dh.{respond_hybrid}
use ratchet_usb.Session.Types.{
  Libraries, Identity, done_by, session_id_for, fresh_session, contact_at, session_in, same_suite,
}
use ratchet_usb.Session.Lookup.{
  found_at, known_initiator, required_pq, prune_if_full, signed_prekey_of, one_time_prekey_of,
  pq_signed_prekey_of, pq_one_time_prekey_of, prekey_in, may_replace, commit, at_session,
}

pub record ReceiveResult : Type 0 where
  pub contact_index : ℕ
  pub alias : List ℕ
  pub plaintext : List ℕ
  pub session_established : Bool

-- The key pair that the ratchet may draw, its readings of the clock, and the time at which an
-- accepted handshake is recorded.
pub record ReceiveDraws : Type 0 where
  pub fresh : KeyPair
  pub clock : Clock
  pub accepted_at : ℕ

module _ (lib : Libraries) where
  -- The session of an accepted opening, before the message is decrypted.
  unfoldable pub begin_receiving : Envelope → ℕ → List ℕ → List ℕ → SignedPrekey → Result Session
  unfolding init_receiver split_initial_secret
  begin_receiving env i id shared spk =
      let fresh : Session = record fresh_session {
        contact_index = i;
        suite = env.suite;
        session_id = id;
        status = confirmed;
      } in
      let pair : KeyPair = record { sk = spk.sk; pk = spk.pub_key } in
      elim (uses_triple_ratchet env.suite) [
        | true ↦ split_initial_secret lib.crypto shared >=> λ secrets.
            lib.spqr.initialize false secrets.1 >=> λ state.
            ok (init_receiver lib.crypto secrets.0 pair (record fresh { spqr_state = state })).1
        | false ↦ ok (init_receiver lib.crypto shared pair fresh).1
      ]

  -- With SPQR: its state is replaced once the message has been decrypted.
  unfoldable pub decrypt_triple : Envelope → ReceiveDraws → Exec Session (List ℕ)
  unfolding decrypt
  decrypt_triple env draws = do
    step ← calls (λ s. lib.spqr.receive s.spqr_state env.spqr_message)
    aad ← lift (envelope_aad_prefix env)
    plaintext ←
        decrypt lib.crypto env.header env.ciphertext aad (some step.1) draws.fresh draws.clock
    modify (λ s. record s { spqr_state = step.0 })
    pure plaintext

  unfoldable pub decrypt_plain : Envelope → ReceiveDraws → Exec Session (List ℕ)
  unfolding decrypt
  decrypt_plain env draws = do
    aad ← lift (envelope_aad_prefix env)
    decrypt lib.crypto env.header env.ciphertext aad none draws.fresh draws.clock

  -- On the local session of an opening.
  unfoldable pub decrypt_opening : Envelope → ReceiveDraws → Exec Session (List ℕ)
  unfolding decrypt_triple decrypt_plain
  decrypt_opening env draws =
      if uses_triple_ratchet env.suite then decrypt_triple env draws else decrypt_plain env draws

  abbrev pub confirm : Session → Session
  confirm s = record s { status = confirmed }

  -- `Session candidate = clone_session(s); ...; s = std::move(candidate);`
  abbrev pub adopt_confirmed : Session → Result (List ℕ) × Session → Result (List ℕ) × Session
  adopt_confirmed s (ok plaintext, candidate) = (ok plaintext, confirm candidate)
  adopt_confirmed s (err e, candidate) = (err e, s)

  -- On a session of the vault: with SPQR on a copy, else in place.
  unfoldable pub decrypt_in_session : Envelope → ReceiveDraws → Exec Session (List ℕ)
  unfolding decrypt_triple decrypt_plain clone_session
  decrypt_in_session env draws =
      if uses_triple_ratchet env.suite
      then (λ s. adopt_confirmed s (decrypt_triple env draws (clone_session s)))
      else (do plaintext ← decrypt_plain env draws; modify confirm; pure plaintext)

  -- From the decrypted message on: the session that there is, the history, the moves and erasures.
  unfoldable pub finish_opening :
      Envelope
      → InitialFields
      → ReceiveDraws
      → ℕ
      → Contact
      → Option (ℕ × OneTimePrekey)
      → Option (ℕ × PqPrekey)
      → List ℕ
      → List ℕ × Session
      → Exec VaultStore ReceiveResult
  unfolding find_session session_in may_replace remember_handshake commit
  finish_opening env f draws i contact otpk pq_otpk id opened = do
    existing ← gets (find_session i)
    current ← gets (session_in existing)
    lift (may_replace current id)
    remember_handshake f.initiator_identity_pub env.header.dh_pub draws.accepted_at f.spk_id
    modify (commit env i contact existing opened.1 otpk pq_otpk)
    pure (record {
      contact_index = i;
      alias = contact.alias;
      plaintext = opened.0;
      session_established = true;
    })

  -- Everything after the checks that come before the prekeys are looked up.
  unfoldable pub accept_opening :
      Identity
      → Envelope
      → InitialFields
      → ReceiveDraws
      → ℕ
      → Contact
      → ℕ × List ℕ
      → Exec VaultStore ReceiveResult
  unfolding signed_prekey_of one_time_prekey_of pq_signed_prekey_of pq_one_time_prekey_of
      session_id_for begin_receiving decrypt_opening finish_opening
  accept_opening me env f draws i contact required = do
    spk ← calls (signed_prekey_of f.spk_id)
    otpk ← calls (one_time_prekey_of f.otpk_id)
    pq_spk ← calls (pq_signed_prekey_of required.0)
    pq_otpk ← calls (pq_one_time_prekey_of f.pq_otpk_id f.pq_otpk_ciphertext)
    shared ← lift (
        respond_hybrid lib.crypto lib.ssl lib.ed me.sk me.pk f.initiator_identity_pub
          env.header.dh_pub spk (prekey_in otpk) pq_spk required.1 (prekey_in pq_otpk)
          f.pq_otpk_ciphertext (uses_xwing_combiner env.suite))
    id ← lift (session_id_for lib.crypto env)
    begun ← lift (begin_receiving env i id shared spk)
    opened ← lift (done_by (decrypt_opening env draws) begun)
    finish_opening env f draws i contact otpk pq_otpk id opened

  unfoldable pub receive_opening :
      Identity → Envelope → InitialFields → ReceiveDraws → Exec VaultStore ReceiveResult
  unfolding known_initiator contact_at required_pq handshake_already_accepted prune_if_full
      history_full accept_opening
  receive_opening me env f draws = do
    i ← calls (known_initiator f.initiator_identity_pub)
    contact ← calls (contact_at i)
    guard contact.verified contact_unverified
    guard (suite_at_least env.suite contact.minimum_suite) suite_below_minimum
    required ← lift (required_pq f)
    seen ← gets (handshake_already_accepted f.initiator_identity_pub env.header.dh_pub)
    guard (not seen) opening_replayed
    modify prune_if_full
    full ← gets history_full
    guard (not full) handshake_history_full
    accept_opening me env f draws i contact required

  -- The first contact whose key has the sender's id.
  unfoldable pub sender_of : List ℕ → VaultStore → Result ℕ
  unfolding first_index
  sender_of sender_id vault =
      elim (first_index
        (λ contact. same_bytes (sender_id_for lib.crypto contact.identity_pub) sender_id)
        vault.contacts 0) [ none ↦ err unrecognised_sender | some i ↦ ok i ]

  unfoldable pub session_of : ℕ → VaultStore → Result (ℕ × Session)
  unfolding found_at find_session
  session_of i vault = elim (found_at vault.sessions (find_session i vault)) [
    | none ↦ err no_session
    | some found ↦ ok found
  ]

  -- A message in a session.
  unfoldable pub receive_ordinary : Envelope → ReceiveDraws → Exec VaultStore ReceiveResult
  unfolding sender_of contact_at session_of at_session decrypt_in_session
  receive_ordinary env draws = do
    i ← calls (sender_of env.sender_id)
    contact ← calls (contact_at i)
    guard contact.verified contact_unverified
    found ← calls (session_of i)
    guard (suite_at_least env.suite contact.minimum_suite && same_suite env.suite found.1.suite)
        suite_mismatch
    plaintext ← at_session found.0 found.1 (decrypt_in_session env draws)
    pure (record {
      contact_index = i;
      alias = contact.alias;
      plaintext = plaintext;
      session_established = false;
    })

  unfoldable pub receive_envelope :
      Identity → ReceiveDraws → Envelope → Option InitialFields → Exec VaultStore ReceiveResult
  unfolding receive_opening receive_ordinary
  receive_envelope me draws env none = receive_ordinary env draws
  receive_envelope me draws env (some f) = receive_opening me env f draws

  unfoldable pub receive : Identity → List ℕ → ReceiveDraws → Exec VaultStore ReceiveResult
  unfolding receive_envelope
  receive me block draws = do
    env ← lift (decode lib.base64 block)
    receive_envelope me draws env env.initial

-- The keys dropped in all the sessions, and the sessions.
unfoldable pub expire_all : ℕ → List Session → ℕ × List Session
expire_all now [] = (0, [])
expire_all now (s ∷ sessions) =
    let (dropped, s') = Ratchet.expire_skipped_keys now s in
    let (more, rest) = expire_all now sessions in (dropped + more, s' ∷ rest)

unfoldable pub expire_skipped_keys : ℕ → VaultStore → ℕ × VaultStore
unfolding expire_all
expire_skipped_keys now vault =
    let (dropped, sessions) = expire_all now vault.sessions in
    (dropped, record vault { sessions = sessions })
