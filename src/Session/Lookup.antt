-- ===== src/Session/Lookup.antt =====
-- src/session.cpp: what `receive` looks up in the vault, and what it changes there.
use ratchet_usb.Prelude.{ℕ, List, remove_at, get_elem?, Option, none, some, ◌==◌, if◌then◌else◌}
use ratchet_usb.Outcome.{
  Result, ok, err, unknown_contact, opening_incomplete, prekey_gone, one_time_prekey_used,
  pq_prekey_unknown, pq_one_time_prekey_used, session_established, tie_break_lost,
  message_authentication,
}
use ratchet_usb.Exec.{Exec}
use ratchet_usb.Message.{Envelope, InitialFields}
use ratchet_usb.Store.{
  Session, Contact, VaultStore, SignedPrekey, OneTimePrekey, PqPrekey, pending, confirmed, closed,
  first_index, find_contact_by_identity, history_full, prune_old_handshakes,
}
use ratchet_usb.Session.Types.{put_session, put_contact, bytes_less}

-- The element at an index that was found, with its index.
unfoldable pub found_at {ℓ} : {A : Type ℓ} → List A → Option ℕ → Option (ℕ × A)
found_at xs none = none
found_at xs (some i) = elim (get_elem? xs i) [ none ↦ none | some x ↦ some (i, x) ]

unfoldable pub known_initiator : List ℕ → VaultStore → Result ℕ
known_initiator identity vault = elim (find_contact_by_identity identity vault) [
  | none ↦ err unknown_contact
  | some i ↦ ok i
]

-- `if (!f.pq_spk_id || !f.pq_spk_ciphertext) throw`
unfoldable pub required_pq : InitialFields → Result (ℕ × List ℕ)
required_pq f = elim (f.pq_spk_id) [
  | none ↦ err opening_incomplete
  | some id ↦ elim (f.pq_spk_ciphertext) [ none ↦ err opening_incomplete | some ct ↦ ok (id, ct) ]
]

unfoldable pub prune_if_full : VaultStore → VaultStore
unfolding history_full prune_old_handshakes
prune_if_full vault = if history_full vault then (prune_old_handshakes vault).1 else vault

unfoldable pub signed_prekey_of : ℕ → VaultStore → Result SignedPrekey
unfolding found_at first_index
signed_prekey_of id vault =
    elim (found_at vault.signed_prekeys (first_index (λ p. p.id == id) vault.signed_prekeys 0)) [
      | none ↦ err prekey_gone
      | some (i, spk) ↦ ok spk
    ]

-- The one-time prekey that the opening names, if it names one, with its index.
unfoldable pub one_time_prekey_of : Option ℕ → VaultStore → Result (Option (ℕ × OneTimePrekey))
unfolding found_at first_index
one_time_prekey_of none vault = ok none
one_time_prekey_of (some id) vault =
    elim (found_at vault.one_time_prekeys
      (first_index (λ p. p.id == id) vault.one_time_prekeys 0)) [
        | none ↦ err one_time_prekey_used
        | some found ↦ ok (some found)
      ]

unfoldable pub pq_signed_prekey_of : ℕ → VaultStore → Result PqPrekey
unfolding found_at first_index
pq_signed_prekey_of id vault =
    elim (found_at vault.pq_signed_prekeys
      (first_index (λ p. p.id == id) vault.pq_signed_prekeys 0)) [
        | none ↦ err pq_prekey_unknown
        | some (i, p) ↦ ok p
      ]

-- The same for ML-KEM: an id and a ciphertext, or neither.
unfoldable pub pq_one_time_prekey_of :
    Option ℕ → Option (List ℕ) → VaultStore → Result (Option (ℕ × PqPrekey))
unfolding found_at first_index
pq_one_time_prekey_of none none vault = ok none
pq_one_time_prekey_of none (some ct) vault = err message_authentication
pq_one_time_prekey_of (some id) none vault = err message_authentication
pq_one_time_prekey_of (some id) (some ct) vault =
    elim (found_at vault.pq_one_time_prekeys
      (first_index (λ p. p.id == id) vault.pq_one_time_prekeys 0)) [
        | none ↦ err pq_one_time_prekey_used
        | some found ↦ ok (some found)
      ]

abbrev pub prekey_in {ℓ} : {A : Type ℓ} → Option (ℕ × A) → Option A
prekey_in none = none
prekey_in (some (i, a)) = some a

-- `if (index >= 0) v.erase(v.begin() + index)`
abbrev pub erase_found {ℓ} : {A : Type ℓ} → Option (ℕ × A) → List A → List A
erase_found none xs = xs
erase_found (some (i, a)) xs = remove_at xs i

-- Whether an opening may replace the session there is.
unfoldable pub may_replace : Option Session → List ℕ → Result (Unit {0})
may_replace none fresh_id = ok tt
may_replace (some current) fresh_id = elim (current.status) [
  | confirmed ↦ err session_established
  | pending ↦ if bytes_less current.session_id fresh_id then err tie_break_lost else ok tt
  | closed ↦ ok tt
]

-- `vault.contacts[i].minimum_suite = env.suite`
abbrev pub raise_minimum : Envelope → Contact → Contact
raise_minimum env contact = record contact { minimum_suite = env.suite }

-- The moves and erasures after everything has been checked.
unfoldable pub commit :
    Envelope
    → ℕ
    → Contact
    → Option ℕ
    → Session
    → Option (ℕ × OneTimePrekey)
    → Option (ℕ × PqPrekey)
    → VaultStore
    → VaultStore
unfolding put_session put_contact
commit env i contact existing fresh otpk pq_otpk vault =
    let moved = put_session existing fresh vault in
    put_contact i (raise_minimum env contact) (record moved {
      one_time_prekeys = erase_found otpk moved.one_time_prekeys;
      pq_one_time_prekeys = erase_found pq_otpk moved.pq_one_time_prekeys;
    })

-- A reference to a session of the vault: what is written to it stays, also when an error is thrown.
abbrev pub written : ℕ → VaultStore → Result (List ℕ) × Session → Result (List ℕ) × VaultStore
written i vault (r, s) = (r, put_session (some i) s vault)

unfoldable pub at_session : ℕ → Session → Exec Session (List ℕ) → Exec VaultStore (List ℕ)
at_session i s m vault = written i vault (m s)
