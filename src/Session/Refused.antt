-- ===== src/Session/Refused.antt =====
-- src/session.cpp: what a refused message leaves of the vault.
use ratchet_usb.Prelude.{
  set-get_elem?, ℕ, ◌≡◌, refl, sym, ap, subst, ◌∙◌, ◌⊎◌, inl, inr, Bool, true, false, not, List,
  Option, none, some, set, get_elem?, Bool-cases,
}
use ratchet_usb.Outcome.{Result, Error, ok, err, ok-injective}
use ratchet_usb.Exec.Leaves.{
  Leaves, Leaves-pure, Leaves-modify, Leaves-lift, Leaves-calls, Leaves-gets, Leaves-guard,
  Leaves-then, Leaves-weaken,
}
use ratchet_usb.Message.{Envelope, InitialFields}
use ratchet_usb.Ratchet.Atomic.{decrypt_unchanged}
use ratchet_usb.Ratchet.{clone_session}
use ratchet_usb.Protocol.{uses_triple_ratchet}
use ratchet_usb.Store.{
  OneTimePrekey, PqPrekey, Session, Contact, VaultStore, history_full, prune_old_handshakes,
  remember_handshake, append_if_room, find_session, handshake_already_accepted,
}
use ratchet_usb.Session.Types.{Libraries, Identity, put_session}
use ratchet_usb.Session.Send.{SendDraws, send}
use ratchet_usb.Session.Receive.{
  ReceiveDraws, receive, receive_envelope, receive_opening, receive_ordinary, accept_opening,
  finish_opening, decrypt_in_session, decrypt_plain, decrypt_triple, session_of, adopt_confirmed,
}
use ratchet_usb.Session.Lookup.{at_session, found_at, prune_if_full, written}

module _ (lib : Libraries) (me : Identity) where
  -- A message that `send` refuses, for whatever reason, leaves the whole vault as it was: the
  -- contact, its card with the one-time prekeys that the handshake had picked, and the session.
  pub send_unchanged :
      (contact_index : ℕ) (plaintext : List ℕ) (draws : SendDraws) (vault vault' : VaultStore)
      (e : Error)
      → send lib me contact_index plaintext draws vault ≡ (err e, vault')
      → vault' ≡ vault
  unfolding send
  send_unchanged i plaintext draws vault vault' e h = leaves.at vault' e h
    where
      leaves : Leaves (λ t. t ≡ vault) vault (send lib me i plaintext draws)
      leaves = Leaves-calls refl _ _ (λ contact a. Leaves-guard refl _ _ _ (λ b.
          Leaves-guard refl _ _ _ (λ d. Leaves-lift refl _ _ (λ card f. Leaves-gets refl _ _ (
            Leaves-gets refl _ _ (
              Leaves-guard refl _ _ _ (λ g. Leaves-guard refl _ _ _ (λ j.
                Leaves-guard refl _ _ _ (λ k. Leaves-guard refl _ _ _ (λ l.
                  Leaves-lift refl _ _
                    (λ done m. Leaves-modify _ _ (Leaves-modify _ _ (Leaves-pure _)))))))))))))

  decrypt_plain_unchanged :
      (env : Envelope) (draws : ReceiveDraws) (s : Session)
      → Leaves (λ t. t ≡ s) s (decrypt_plain lib env draws)
  unfolding decrypt_plain
  decrypt_plain_unchanged env draws s = Leaves-lift refl _ _ (λ aad a. record {
    at = decrypt_unchanged lib.crypto env.header env.ciphertext aad none draws.fresh draws.clock s;
  })

  decrypt_in_session_unchanged :
      (env : Envelope) (draws : ReceiveDraws) (s : Session)
      → Leaves (λ t. t ≡ s) s (decrypt_in_session lib env draws)
  unfolding decrypt_in_session
  decrypt_in_session_unchanged env draws s = elim (Bool-cases (uses_triple_ratchet env.suite)) [
    | inl h ↦
        rw h
          (record { at = λ t e g. adopted (decrypt_triple lib env draws (clone_session s)) t e g })
    | inr h ↦ rw h (
        Leaves-then _ _ (decrypt_plain_unchanged env draws s)
          (λ plaintext t g. Leaves-modify _ _ (Leaves-pure _)))
  ]
    where
      adopted :
          (done : Result (List ℕ) × Session) (t : Session) (e : Error)
          → adopt_confirmed lib s done ≡ (err e, t)
          → t ≡ s
      adopted (ok plaintext, u) t e g = absurd (cc g)
      adopted (err x, u) t e g = sym (ap (λ r. r.1) g)

  -- What `decrypt_in_session` does to the session reaches the vault.
  at_session_unchanged :
      (env : Envelope) (draws : ReceiveDraws) (i : ℕ) (s : Session) (vault : VaultStore)
      → get_elem? vault.sessions i ≡ some s
      → Leaves (λ t. t ≡ vault) vault (at_session i s (decrypt_in_session lib env draws))
  unfolding at_session put_session
  at_session_unchanged env draws i s vault stored = record {
    at = λ t e h. by_run (decrypt_in_session lib env draws s) refl t e h;
  }
    where
      by_run :
          (run : Result (List ℕ) × Session)
          → decrypt_in_session lib env draws s ≡ run
          → (t : VaultStore) (e : Error) → written i vault run ≡ (err e, t)
          → t ≡ vault
      by_run (ok a, u) g t e h = absurd (cc h)
      by_run (err x, u) g t e h =
          let kept = (decrypt_in_session_unchanged env draws s).at u x g in
          sym (ap (λ q. q.1) h)
          ∙ ap (λ sessions. record vault { sessions = sessions })
              (ap (set vault.sessions i) kept ∙ set-get_elem? vault.sessions i s stored)

  session_of-stored :
      (i : ℕ) (vault : VaultStore) (found : ℕ × Session)
      → session_of lib i vault ≡ ok found
      → get_elem? vault.sessions found.0 ≡ some found.1
  unfolding session_of found_at
  session_of-stored i vault found h = by_index (find_session i vault) refl
    where
      by_element :
          (at : ℕ) (s : Option Session)
          → find_session i vault ≡ some at
          → get_elem? vault.sessions at ≡ s
          → get_elem? vault.sessions found.0 ≡ some found.1
      by_element at none e f = absurd (cc (rw (session_of, e, found_at, f) at h))
      by_element at (some s) e f =
          let same = ok-injective (rw (session_of, e, found_at, f) at h) in
          subst (λ (j : ℕ). get_elem? vault.sessions j ≡ some found.1) (ap (λ p. p.0) same)
            (f ∙ ap some (ap (λ p. p.1) same))

      by_index :
          (at : Option ℕ)
          → find_session i vault ≡ at
          → get_elem? vault.sessions found.0 ≡ some found.1
      by_index none e = absurd (cc (rw (session_of, e, found_at) at h))
      by_index (some at) e = by_element at _ e refl

  receive_ordinary_unchanged :
      (env : Envelope) (draws : ReceiveDraws) (vault : VaultStore)
      → Leaves (λ t. t ≡ vault) vault (receive_ordinary lib env draws)
  unfolding receive_ordinary
  receive_ordinary_unchanged env draws vault = Leaves-calls refl _ _ (λ i a.
      Leaves-calls refl _ _ (λ contact b. Leaves-guard refl _ _ _ (λ c.
        Leaves-calls refl _ _ (λ found d. Leaves-guard refl _ _ _ (λ f.
          Leaves-then _ _
            (at_session_unchanged env draws found.0 found.1 vault
              (session_of-stored i vault found d))
            (λ plaintext t g. Leaves-pure _))))))

  remember_handshake_succeeds :
      (initiator ephemeral : List ℕ) (now spk_id : ℕ) (vault : VaultStore)
      → history_full vault ≡ false
      → Leaves (λ t. t ≡ vault) vault (remember_handshake initiator ephemeral now spk_id)
  unfolding remember_handshake append_if_room
  remember_handshake_succeeds initiator ephemeral now spk_id vault room = record {
    at = λ t e h. by_seen (handshake_already_accepted initiator ephemeral vault) refl t e h;
  }
    where
      by_seen :
          (seen : Bool)
          → handshake_already_accepted initiator ephemeral vault ≡ seen
          → (t : VaultStore) (e : Error)
          → remember_handshake initiator ephemeral now spk_id vault ≡ (err e, t)
          → t ≡ vault
      by_seen true g t e h = absurd (cc (rw (remember_handshake, g) at h))
      by_seen false g t e h =
          absurd (cc (rw (remember_handshake, g, room, append_if_room, room) at h))

  finish_opening_unchanged :
      (env : Envelope) (f : InitialFields) (draws : ReceiveDraws) (i : ℕ) (contact : Contact)
      (otpk : Option (ℕ × OneTimePrekey)) (pq_otpk : Option (ℕ × PqPrekey)) (id : List ℕ)
      (opened : List ℕ × Session) (vault : VaultStore)
      → history_full vault ≡ false
      → Leaves
          (λ t. t ≡ vault)
          vault
          (finish_opening lib env f draws i contact otpk pq_otpk id opened)
  unfolding finish_opening
  finish_opening_unchanged env f draws i contact otpk pq_otpk id opened vault room =
      Leaves-gets refl _ _ (
        Leaves-gets refl _ _ (
          Leaves-lift refl _ _ (λ may l.
            Leaves-then _ _
              (remember_handshake_succeeds f.initiator_identity_pub env.header.dh_pub
                draws.accepted_at f.spk_id vault room)
              (λ done t m. Leaves-modify _ _ (Leaves-pure _)))))

  accept_opening_unchanged :
      (env : Envelope) (f : InitialFields) (draws : ReceiveDraws) (i : ℕ) (contact : Contact)
      (required : ℕ × List ℕ) (vault : VaultStore)
      → history_full vault ≡ false
      → Leaves (λ t. t ≡ vault) vault (accept_opening lib me env f draws i contact required)
  unfolding accept_opening
  accept_opening_unchanged env f draws i contact required vault room =
      Leaves-calls refl _ _ (λ spk a. Leaves-calls refl _ _ (λ otpk b.
        Leaves-calls refl _ _ (λ pq_spk c. Leaves-calls refl _ _ (λ pq_otpk d.
          Leaves-lift refl _ _ (λ shared g. Leaves-lift refl _ _ (λ id h.
            Leaves-lift refl _ _ (λ begun j. Leaves-lift refl _ _ (λ opened k.
              finish_opening_unchanged env f draws i contact otpk pq_otpk id opened vault
                room))))))))

  abbrev AtMostPruned : VaultStore → VaultStore → Type 0
  AtMostPruned vault t =
      (t ≡ vault) ⊎ ((history_full vault ≡ true) × (t ≡ (prune_old_handshakes vault).1))

  prune_if_full-AtMostPruned : (vault : VaultStore) → AtMostPruned vault (prune_if_full vault)
  unfolding prune_if_full
  prune_if_full-AtMostPruned vault = by_full (history_full vault) refl
    where
      by_full : (full : Bool) → history_full vault ≡ full → AtMostPruned vault (prune_if_full vault)
      by_full true h = inr (h, rw (prune_if_full, h) refl)
      by_full false h = inl (rw (prune_if_full, h) refl)

  receive_opening_unchanged :
      (env : Envelope) (f : InitialFields) (draws : ReceiveDraws) (vault : VaultStore)
      → Leaves (AtMostPruned vault) vault (receive_opening lib me env f draws)
  unfolding receive_opening
  receive_opening_unchanged env f draws vault =
      let same : AtMostPruned vault vault = inl refl in
      let pruned = prune_if_full-AtMostPruned vault in
      Leaves-calls same _ _ (λ i a. Leaves-calls same _ _ (λ contact b.
        Leaves-guard same _ _ _ (λ c. Leaves-guard same _ _ _ (λ d.
          Leaves-lift same _ _ (λ required g. Leaves-gets same _ _ (
            Leaves-guard same _ _ _ (λ h. Leaves-modify _ _ (
              Leaves-gets pruned _ _ (
                Leaves-guard pruned _ _ _ (λ room.
                  Leaves-weaken _ (λ t e. subst (AtMostPruned vault) (sym e) pruned)
                    (accept_opening_unchanged env f draws i contact required (prune_if_full vault)
                      (not_true _ room))))))))))))
    where
      not_true : (b : Bool) → not b ≡ true → b ≡ false
      not_true true h = absurd (cc h)
      not_true false h = refl

  -- A message that `receive` refuses, for whatever reason and at whatever step, leaves the vault as
  -- it was, or with its history of accepted handshakes pruned where that was full: no prekey is
  -- used up, no session moves or is replaced, and no contact changes.
  pub receive_unchanged :
      (block : List ℕ) (draws : ReceiveDraws) (vault vault' : VaultStore) (e : Error)
      → receive lib me block draws vault ≡ (err e, vault')
      → (vault' ≡ vault) ⊎ ((history_full vault ≡ true) × (vault' ≡ (prune_old_handshakes vault).1))
  unfolding receive
  receive_unchanged block draws vault vault' e h =
      (Leaves-lift {P = AtMostPruned vault} (inl refl) _ _ (λ env a. by_initial env env.initial)).at
        vault' e h
    where
      by_initial :
          (env : Envelope) (initial : Option InitialFields)
          → Leaves (AtMostPruned vault) vault (receive_envelope lib me draws env initial)
      by_initial env none =
          unfold receive_envelope in
          Leaves-weaken _ (λ t k. inl k) (receive_ordinary_unchanged env draws vault)
      by_initial env (some f) =
          unfold receive_envelope in receive_opening_unchanged env f draws vault
