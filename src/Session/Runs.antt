-- ===== src/Session/Runs.antt =====
-- src/session.cpp: what stays true of the contacts along any sequence of sends and receives.
use ratchet_usb.Prelude.{
  ℕ, zero, suc, ◌≡◌, refl, sym, ap, subst, ◌∙◌, inl, inr, true, List, [], ◌∷◌, Option, none, some,
  some-injective, set, get_elem?, leb→le, le→leb, arith,
}
use ratchet_usb.Outcome.{Result, ok, err}
use ratchet_usb.Exec.{Exec}
use ratchet_usb.Exec.Done.{lift-ok, calls-ok, guard-ok, bind-ok, pure-ok}
use ratchet_usb.Protocol.{ProtocolSuite, suite_at_least, suite_code}
use ratchet_usb.Message.{Envelope, InitialFields}
use ratchet_usb.Message.Read.{decode}
use ratchet_usb.Store.{Session, Contact, VaultStore, find_session, prune_old_handshakes}
use ratchet_usb.Session.Types.{Libraries, Identity, contact_at, put_session, put_contact}
use ratchet_usb.Session.Send.{SendDraws, send}
use ratchet_usb.Session.Receive.{
  ReceiveDraws, ReceiveResult, receive, receive_envelope, receive_ordinary, session_of,
  decrypt_in_session, expire_skipped_keys,
}
use ratchet_usb.Session.Lookup.{at_session, raise_minimum}
use ratchet_usb.Session.Accepted.{Passed, receive_opening-Passed}
use ratchet_usb.Session.Refused.{send_unchanged, receive_unchanged}
use ratchet_usb.Session.Replayed.{contacts_after, contact_stored, contact_at-get_elem?}
use ratchet_usb.Session.Contacts.{SamePerson, Sent, send-Sent}

-- The same person, of whom no weaker suite is accepted than before.
pub record Kept (a b : Contact) : Type 0 where
  pub person : SamePerson a b
  pub no_weaker : suite_at_least b.minimum_suite a.minimum_suite ≡ true

-- Every contact is kept at its index.
abbrev pub AllKept : List Contact → List Contact → Type 0
AllKept xs ys =
    (i : ℕ) (a : Contact)
    → get_elem? xs i ≡ some a
    → (b : Contact) × (get_elem? ys i ≡ some b) × Kept a b

suite_at_least_trans :
    (s t u : ProtocolSuite)
    → suite_at_least t s ≡ true
    → suite_at_least u t ≡ true
    → suite_at_least u s ≡ true
unfolding suite_at_least
suite_at_least_trans s t u h g =
    le→leb (suite_code s) (suite_code u) (
      omega (arith, leb→le (suite_code s) (suite_code t) h, leb→le (suite_code t) (suite_code u) g))

suite_at_least_same : (s t : ProtocolSuite) → t ≡ s → suite_at_least t s ≡ true
unfolding suite_at_least
suite_at_least_same s t h = rw h (le→leb (suite_code s) (suite_code s) (omega arith))

Kept-refl : (a : Contact) → Kept a a
Kept-refl a = record {
  person = record { same_alias = refl; same_identity = refl; same_verified = refl };
  no_weaker = suite_at_least_same a.minimum_suite a.minimum_suite refl;
}

Kept-trans : (a b c : Contact) → Kept a b → Kept b c → Kept a c
Kept-trans a b c h g = record {
  person = record {
    same_alias = g.person.same_alias ∙ h.person.same_alias;
    same_identity = g.person.same_identity ∙ h.person.same_identity;
    same_verified = g.person.same_verified ∙ h.person.same_verified;
  };
  no_weaker =
      suite_at_least_trans a.minimum_suite b.minimum_suite c.minimum_suite h.no_weaker g.no_weaker;
}

AllKept-same : (xs ys : List Contact) → ys ≡ xs → AllKept xs ys
AllKept-same xs ys h i a at = (a, ap (λ zs. get_elem? zs i) h ∙ at, Kept-refl a)

AllKept-trans : (xs ys zs : List Contact) → AllKept xs ys → AllKept ys zs → AllKept xs zs
AllKept-trans xs ys zs h g i a at =
    let (b, at', k) = h i a at in let (c, at'', k') = g i b at' in (c, at'', Kept-trans a b c k k')

-- One contact written back, the others alone.
AllKept-set :
    (xs : List Contact) (i : ℕ) (a b : Contact)
    → get_elem? xs i ≡ some a
    → Kept a b
    → AllKept xs (set xs i b)
AllKept-set [] i a b at k j c at' = absurd (cc at)
AllKept-set (x ∷ xs) zero a b at k zero c at' =
    (b, refl, subst (λ y. Kept y b) (sym (some-injective at) ∙ some-injective at') k)
AllKept-set (x ∷ xs) zero a b at k (suc j) c at' = (c, at', Kept-refl c)
AllKept-set (x ∷ xs) (suc i) a b at k zero c at' = (c, at', Kept-refl c)
AllKept-set (x ∷ xs) (suc i) a b at k (suc j) c at' = AllKept-set xs i a b at k j c at'

put_session-contacts :
    (at : Option ℕ) (s : Session) (vault : VaultStore)
    → (put_session at s vault).contacts ≡ vault.contacts
unfolding put_session
put_session-contacts none s vault = refl
put_session-contacts (some i) s vault = refl

at_session-contacts :
    (i : ℕ) (s : Session) (m : Exec Session (List ℕ)) (u v : VaultStore) (plaintext : List ℕ)
    → at_session i s m u ≡ (ok plaintext, v)
    → v.contacts ≡ u.contacts
unfolding at_session put_session
at_session-contacts i s m u v plaintext g = sym (ap (λ q. q.1.contacts) g)

module _ (lib : Libraries) (me : Identity) where
  ordinary-contacts :
      (env : Envelope) (draws : ReceiveDraws) (vault vault' : VaultStore) (r : ReceiveResult)
      → receive_ordinary lib env draws vault ≡ (ok r, vault')
      → vault'.contacts ≡ vault.contacts
  unfolding receive_ordinary
  ordinary-contacts env draws u t r h =
      let (i, e0, h0) = calls-ok _ _ u t r h in
      let (contact, e1, h1) = calls-ok (contact_at i) _ u t r h0 in
      let (e2, h2) = guard-ok _ _ _ u t r h1 in
      let (found, e3, h3) = calls-ok (session_of lib i) _ u t r h2 in
      let (e4, h4) = guard-ok _ _ _ u t r h3 in
      let (plaintext, v, e5, h5) =
        bind-ok (at_session found.0 found.1 (decrypt_in_session lib env draws)) _ u t r h4 in
      let (same, moved) = pure-ok _ r v t h5 in
      ap (λ x. x.contacts) (sym moved)
      ∙ at_session-contacts found.0 found.1 (decrypt_in_session lib env draws) u v plaintext e5

  Passed-AllKept :
      (env : Envelope) (f : InitialFields) (draws : ReceiveDraws) (vault vault' : VaultStore)
      (r : ReceiveResult)
      → Passed lib env f draws vault vault' r
      → AllKept vault.contacts vault'.contacts
  Passed-AllKept env f draws vault vault' r p =
      subst (AllKept vault.contacts) (sym (contacts_after lib env f draws vault vault' r p)) (
        AllKept-set vault.contacts p.index p.contact (raise_minimum env p.contact)
          (contact_stored lib env f draws vault vault' r p)
          (record {
            person = record { same_alias = refl; same_identity = refl; same_verified = refl };
            no_weaker = p.strong;
          }))

  -- Whatever arrives, accepted or refused, every contact stays the same person at its index.
  receive-AllKept :
      (block : List ℕ) (draws : ReceiveDraws) (vault : VaultStore)
      → AllKept vault.contacts (receive lib me block draws vault).1.contacts
  receive-AllKept block draws vault = by_run (receive lib me block draws vault) refl
    where
      by_initial :
          (env : Envelope) (initial : Option InitialFields) (r : ReceiveResult) (t : VaultStore)
          → receive_envelope lib me draws env initial vault ≡ (ok r, t)
          → AllKept vault.contacts t.contacts
      by_initial env none r t g =
          AllKept-same vault.contacts t.contacts
            (ordinary-contacts env draws vault t r (unfold receive_envelope in g))
      by_initial env (some f) r t g =
          Passed-AllKept env f draws vault t r
            (receive_opening-Passed lib me env f draws vault t r (unfold receive_envelope in g))

      by_run :
          (run : Result ReceiveResult × VaultStore)
          → receive lib me block draws vault ≡ run
          → AllKept vault.contacts run.1.contacts
      by_run (ok r, t) h =
          unfold receive in
          let (env, decoded, h0) = lift-ok (decode lib.base64 block) _ vault t r h in
          by_initial env env.initial r t h0
      by_run (err e, t) h = elim (receive_unchanged lib me block draws vault t e h) [
        | inl same ↦ AllKept-same vault.contacts t.contacts (ap (λ v. v.contacts) same)
        | inr (full, pruned) ↦
            AllKept-same vault.contacts t.contacts
              (ap (λ v. v.contacts) pruned ∙ unfold prune_old_handshakes in refl)
      ]

  Sent-AllKept :
      (i : ℕ) (vault vault' : VaultStore)
      → Sent i vault vault'
      → AllKept vault.contacts vault'.contacts
  unfolding put_contact
  Sent-AllKept i vault vault' p =
      subst (AllKept vault.contacts)
        (sym (
          ap (λ v. v.contacts) p.committed
          ∙ ap (λ xs. set xs i p.after)
              (put_session-contacts (find_session i vault) p.session vault)))
        (AllKept-set vault.contacts i p.before p.after
          (contact_at-get_elem? i vault p.before p.stored)
          (record {
            person = p.only_card.person;
            no_weaker =
                suite_at_least_same p.before.minimum_suite p.after.minimum_suite
                  p.only_card.same_minimum;
          }))

  send-AllKept :
      (i : ℕ) (plaintext : List ℕ) (draws : SendDraws) (vault : VaultStore)
      → AllKept vault.contacts (send lib me i plaintext draws vault).1.contacts
  send-AllKept i plaintext draws vault = by_run (send lib me i plaintext draws vault) refl
    where
      by_run :
          (run : Result (List ℕ) × VaultStore)
          → send lib me i plaintext draws vault ≡ run
          → AllKept vault.contacts run.1.contacts
      by_run (ok block, t) h =
          Sent-AllKept i vault t (send-Sent lib me i plaintext draws vault t block h)
      by_run (err e, t) h =
          AllKept-same vault.contacts t.contacts
            (ap (λ v. v.contacts) (send_unchanged lib me i plaintext draws vault t e h))

-- The vault before and after one operation, whether it throws or not.
pub data Step (lib : Libraries) (me : Identity) (vault : VaultStore) : VaultStore → Type 0 where
  sends :
      (i : ℕ) (plaintext : List ℕ) (draws : SendDraws)
      → Step lib me vault (send lib me i plaintext draws vault).1
  receives :
      (block : List ℕ) (draws : ReceiveDraws)
      → Step lib me vault (receive lib me block draws vault).1
  expires : (now : ℕ) → Step lib me vault (expire_skipped_keys now vault).1

-- Any sequence of operations.
pub data Run (lib : Libraries) (me : Identity) : VaultStore → VaultStore → Type 0 where
  ends : (vault : VaultStore) → Run lib me vault vault
  goes_on :
      (vault vault' vault'' : VaultStore)
      → Step lib me vault vault'
      → Run lib me vault' vault''
      → Run lib me vault vault''

module _ (lib : Libraries) (me : Identity) where
  Step-AllKept :
      (vault vault' : VaultStore)
      → Step lib me vault vault'
      → AllKept vault.contacts vault'.contacts
  Step-AllKept vault vault' (sends i plaintext draws) = send-AllKept lib me i plaintext draws vault
  Step-AllKept vault vault' (receives block draws) = receive-AllKept lib me block draws vault
  Step-AllKept vault vault' (expires now) =
      unfold expire_skipped_keys in AllKept-same vault.contacts vault.contacts refl

  -- No run weakens a contact. Along any sequence of sends, receives and expiries, those included
  -- that throw, the contact at each index keeps its alias, its identity key and its verified mark,
  -- and the suite that it requires at least never falls.
  pub Run-AllKept :
      (vault vault' : VaultStore) → Run lib me vault vault' → AllKept vault.contacts vault'.contacts
  Run-AllKept vault vault' (ends _) = AllKept-same vault.contacts vault.contacts refl
  Run-AllKept vault vault' (goes_on _ next _ step rest) =
      AllKept-trans vault.contacts next.contacts vault'.contacts (Step-AllKept vault next step)
        (Run-AllKept next vault' rest)
