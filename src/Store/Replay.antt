-- ===== src/Store/Replay.antt =====
-- The history of accepted handshakes: what it remembers, how large it grows and what pruning drops.
use ratchet_usb.Prelude.{
  ℕ, ◌≤◌, ◌≡◌, ◌⊎◌, refl, inl, inr, true, false, List, [], ◌∷◌, ◌++◌, length, length-append, leb,
  le→leb, same_bytes_refl, Bool-cases, if◌then◌else◌, arith,
}
use ratchet_usb.Outcome.{Result, ok, err, handshake_history_full}
use ratchet_usb.Store.Types.{SignedPrekey, AcceptedHandshake, VaultStore, max_accepted_handshakes}
use ratchet_usb.Store.Handshakes.{
  same_handshake, accepted_in, handshake_already_accepted, spent, keep_unspent,
  prune_old_handshakes, history_full, append_handshake, append_if_room, remember_handshake,
}

module _ (initiator ephemeral : List ℕ) where
  accepted_in-append_left :
      (hs hs' : List AcceptedHandshake)
      → accepted_in initiator ephemeral hs ≡ true
      → accepted_in initiator ephemeral (hs ++ hs') ≡ true
  unfolding accepted_in
  accepted_in-append_left [] hs' a = cc
  accepted_in-append_left (h ∷ hs) hs' a =
      elim (Bool-cases (same_handshake initiator ephemeral h)) [
        | inl here ↦ rw here refl
        | inr not_here ↦ rw not_here (accepted_in-append_left hs hs' (rw not_here at a))
      ]

  accepted_in-append_right :
      (hs hs' : List AcceptedHandshake)
      → accepted_in initiator ephemeral hs' ≡ true
      → accepted_in initiator ephemeral (hs ++ hs') ≡ true
  unfolding accepted_in
  accepted_in-append_right [] hs' a = a
  accepted_in-append_right (h ∷ hs) hs' a = ground (arith, accepted_in-append_right hs hs' a)

  accepted_in_itself :
      (h : AcceptedHandshake)
      → h.initiator_identity ≡ initiator
      → h.ephemeral_pub ≡ ephemeral
      → accepted_in initiator ephemeral (h ∷ []) ≡ true
  unfolding accepted_in same_handshake
  accepted_in_itself h i e = rw (i, e, same_bytes_refl initiator, same_bytes_refl ephemeral) refl

  -- A recorded handshake that is not spent is still there after pruning.
  accepted_in-keep_unspent :
      (spks : List SignedPrekey) (h : AcceptedHandshake) (hs hs' : List AcceptedHandshake)
      → same_handshake initiator ephemeral h ≡ true
      → spent spks h ≡ false
      → accepted_in initiator ephemeral (keep_unspent spks (hs ++ h ∷ hs')) ≡ true
  unfolding accepted_in keep_unspent
  accepted_in-keep_unspent spks h [] hs' m u = rw (u, m) refl
  accepted_in-keep_unspent spks h (x ∷ hs) hs' m u = elim (Bool-cases (spent spks x)) [
    | inl gone ↦ rw gone (accepted_in-keep_unspent spks h hs hs' m u)
    | inr kept ↦ elim (Bool-cases (same_handshake initiator ephemeral x)) [
      | inl here ↦ rw (kept, here) refl
      | inr not_here ↦ rw (kept, not_here) (accepted_in-keep_unspent spks h hs hs' m u)
    ]
  ]

length-keep_unspent-le :
    (spks : List SignedPrekey) (hs : List AcceptedHandshake)
    → length (keep_unspent spks hs) ≤ length hs
unfolding keep_unspent
length-keep_unspent-le spks [] = omega arith
length-keep_unspent-le spks (h ∷ hs) = elim (Bool-cases (spent spks h)) [
  | inl gone ↦ rw gone (omega (arith, length-keep_unspent-le spks hs))
  | inr kept ↦ rw kept (omega (arith, length-keep_unspent-le spks hs))
]

-- A history within its ceiling.
unfoldable pub IsCapped : VaultStore → Type 0
IsCapped store = length store.accepted_handshakes ≤ max_accepted_handshakes

prune-IsCapped : (store : VaultStore) → IsCapped store → IsCapped (prune_old_handshakes store).1
unfolding IsCapped prune_old_handshakes
prune-IsCapped store h =
    omega (arith, length-keep_unspent-le store.signed_prekeys store.accepted_handshakes)

append-IsCapped :
    (h : AcceptedHandshake) (store : VaultStore)
    → IsCapped store
    → IsCapped (append_if_room h store).1
unfolding IsCapped append_if_room append_handshake history_full
append-IsCapped h store c =
    elim (Bool-cases (leb max_accepted_handshakes (length store.accepted_handshakes))) [
      | inl full ↦ rw full c
      | inr room ↦ rw room (
          ground (
            arith,
            length-append store.accepted_handshakes (h ∷ []),
            le→leb max_accepted_handshakes (length store.accepted_handshakes),
          ))
    ]

module _ (initiator ephemeral : List ℕ) (now spk_id : ℕ) (store : VaultStore) where
  abbrev new_record : AcceptedHandshake
  new_record = record {
    initiator_identity = initiator;
    ephemeral_pub = ephemeral;
    accepted_at = now;
    spk_id = spk_id;
  }

  abbrev made_room : VaultStore
  made_room = if history_full store then (prune_old_handshakes store).1 else store

  -- A history of at most kMaxAcceptedHandshakes records stays within that ceiling, also when
  -- remember_handshake throws.
  pub remember-IsCapped :
      IsCapped store → IsCapped (remember_handshake initiator ephemeral now spk_id store).1
  unfolding remember_handshake
  remember-IsCapped c = elim (Bool-cases (handshake_already_accepted initiator ephemeral store)) [
    | inl known ↦ rw known c
    | inr unknown ↦
        rw unknown (append-IsCapped new_record made_room (roomy (Bool-cases (history_full store))))
  ]
    where
      roomy : (history_full store ≡ true) ⊎ (history_full store ≡ false) → IsCapped made_room
      roomy (inl full) = rw full (prune-IsCapped store c)
      roomy (inr room) = rw room c

  -- Either the call succeeds and the handshake counts as accepted from then on, or it is refused
  -- and the history is full.
  unfoldable pub IsRemembered : Result (Unit {0}) × VaultStore → Type 0
  IsRemembered r =
      ((r.0 ≡ ok tt) × (handshake_already_accepted initiator ephemeral r.1 ≡ true))
      ⊎ ((r.0 ≡ err handshake_history_full) × (history_full r.1 ≡ true))

  appended : (s : VaultStore) → IsRemembered (append_if_room new_record s)
  unfolding IsRemembered append_if_room append_handshake handshake_already_accepted
  appended s = elim (Bool-cases (history_full s)) [
    | inl full ↦ rw full (inr (refl, full))
    | inr room ↦ rw room (
        inl (
          refl,
          accepted_in-append_right initiator ephemeral s.accepted_handshakes (new_record ∷ [])
              (accepted_in_itself initiator ephemeral new_record refl refl),
        ))
  ]

  -- remember_handshake succeeds and the handshake counts as accepted from then on, or it reports a
  -- full history and the history is full.
  pub remember_handshake-IsRemembered :
      IsRemembered (remember_handshake initiator ephemeral now spk_id store)
  unfolding remember_handshake
  remember_handshake-IsRemembered =
      elim (Bool-cases (handshake_already_accepted initiator ephemeral store)) [
        | inl known ↦ rw known (unfold IsRemembered in inl (refl, known))
        | inr unknown ↦ rw unknown (appended made_room)
      ]

-- Whatever else is recorded, an accepted handshake whose prekey is still stored, or unknown, stays
-- accepted.
module _ (i e : List ℕ) (now spk_id : ℕ) (store : VaultStore) (h : AcceptedHandshake)
    (before behind : List AcceptedHandshake) where
  kept_in_room :
      (r : AcceptedHandshake) (s : VaultStore)
      → accepted_in h.initiator_identity h.ephemeral_pub s.accepted_handshakes ≡ true
      → handshake_already_accepted h.initiator_identity h.ephemeral_pub (append_if_room r s).1
        ≡ true
  unfolding append_if_room append_handshake handshake_already_accepted
  kept_in_room r s a = elim (Bool-cases (history_full s)) [
    | inl full ↦ rw full a
    | inr room ↦ rw room (
        accepted_in-append_left h.initiator_identity h.ephemeral_pub s.accepted_handshakes (r ∷ [])
          a)
  ]

  recorded :
      store.accepted_handshakes ≡ before ++ h ∷ behind
      → accepted_in h.initiator_identity h.ephemeral_pub store.accepted_handshakes ≡ true
  recorded at = rw at (
      accepted_in-append_right h.initiator_identity h.ephemeral_pub before (h ∷ behind) (
        accepted_in-append_left h.initiator_identity h.ephemeral_pub (h ∷ []) behind
          (accepted_in_itself h.initiator_identity h.ephemeral_pub h refl refl)))

  pruned :
      store.accepted_handshakes ≡ before ++ h ∷ behind
      → spent store.signed_prekeys h ≡ false
      → accepted_in h.initiator_identity h.ephemeral_pub
          (prune_old_handshakes store).1.accepted_handshakes
        ≡ true
  unfolding prune_old_handshakes
  pruned at unspent = rw at (
      accepted_in-keep_unspent h.initiator_identity h.ephemeral_pub store.signed_prekeys h before
        behind
        (unfold same_handshake in
          rw (same_bytes_refl h.initiator_identity, same_bytes_refl h.ephemeral_pub) refl)
        unspent)

  -- Whatever handshake is recorded next, also when that fails, a recorded handshake that is not
  -- spent (its prekey id is unknown, or names a prekey that the vault still holds) counts as
  -- accepted afterwards, so that its replay is refused.
  pub remember_handshake_keeps_live :
      store.accepted_handshakes ≡ before ++ h ∷ behind
      → spent store.signed_prekeys h ≡ false
      → handshake_already_accepted h.initiator_identity h.ephemeral_pub
          (remember_handshake i e now spk_id store).1
        ≡ true
  unfolding remember_handshake
  remember_handshake_keeps_live at unspent =
      elim (Bool-cases (handshake_already_accepted i e store)) [
        | inl known ↦ rw known (unfold handshake_already_accepted in recorded at)
        | inr unknown ↦ rw unknown (elim (Bool-cases (history_full store)) [
          | inl full ↦ rw full (kept_in_room _ (prune_old_handshakes store).1 (pruned at unspent))
          | inr room ↦ rw room (kept_in_room _ store (recorded at))
        ])
      ]
