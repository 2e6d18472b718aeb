-- ===== src/Store/Handshakes.antt =====
-- src/store.cpp: handshake_already_accepted, prune_old_handshakes and remember_handshake.
use ratchet_usb.Prelude.{
  ℕ, ◌-◌, Bool, false, not, ◌&&◌, ◌||◌, List, [], ◌∷◌, ◌++◌, length, leb, ◌==◌, same_bytes,
  if◌then◌else◌,
}
use ratchet_usb.Outcome.{Result, ok, err, handshake_history_full}
use ratchet_usb.Store.Types.{SignedPrekey, AcceptedHandshake, VaultStore, max_accepted_handshakes}

-- `h.ephemeral_pub == ephemeral_pub && h.initiator_identity == initiator`
unfoldable pub same_handshake : List ℕ → List ℕ → AcceptedHandshake → Bool
same_handshake initiator ephemeral h =
    same_bytes h.ephemeral_pub ephemeral && same_bytes h.initiator_identity initiator

unfoldable pub accepted_in : List ℕ → List ℕ → List AcceptedHandshake → Bool
unfolding same_handshake
accepted_in initiator ephemeral [] = false
accepted_in initiator ephemeral (h ∷ hs) =
    same_handshake initiator ephemeral h || accepted_in initiator ephemeral hs

unfoldable pub handshake_already_accepted : List ℕ → List ℕ → VaultStore → Bool
unfolding accepted_in
handshake_already_accepted initiator ephemeral store =
    accepted_in initiator ephemeral store.accepted_handshakes

-- Whether a signed prekey of this id is stored.
unfoldable pub holds_prekey : ℕ → List SignedPrekey → Bool
holds_prekey id [] = false
holds_prekey id (spk ∷ spks) = spk.id == id || holds_prekey id spks

-- The test of remove_if: the prekey's id is known and the prekey is gone.
unfoldable pub spent : List SignedPrekey → AcceptedHandshake → Bool
unfolding holds_prekey
spent spks h = not (h.spk_id == 0) && not (holds_prekey h.spk_id spks)

unfoldable pub keep_unspent : List SignedPrekey → List AcceptedHandshake → List AcceptedHandshake
unfolding spent
keep_unspent spks [] = []
keep_unspent spks (h ∷ hs) =
    let rest = keep_unspent spks hs in if spent spks h then rest else h ∷ rest

-- The number of records that were removed, and the store.
unfoldable pub prune_old_handshakes : VaultStore → ℕ × VaultStore
unfolding keep_unspent
prune_old_handshakes store = (
  length store.accepted_handshakes
      - length (keep_unspent store.signed_prekeys store.accepted_handshakes),
  record store {
    accepted_handshakes = keep_unspent store.signed_prekeys store.accepted_handshakes;
  },
)

-- The list is full: `accepted_handshakes.size() >= kMaxAcceptedHandshakes`.
unfoldable pub history_full : VaultStore → Bool
history_full store = leb max_accepted_handshakes (length store.accepted_handshakes)

unfoldable pub append_handshake : AcceptedHandshake → VaultStore → VaultStore
append_handshake h store = record store {
  accepted_handshakes = store.accepted_handshakes ++ h ∷ [];
}

-- The second test, after pruning. What was pruned is gone also where the function throws.
unfoldable pub append_if_room : AcceptedHandshake → VaultStore → Result (Unit {0}) × VaultStore
unfolding history_full append_handshake
append_if_room h store =
    if history_full store
    then (err handshake_history_full, store)
    else (ok tt, append_handshake h store)

unfoldable pub remember_handshake :
    List ℕ → List ℕ → ℕ → ℕ → VaultStore → Result (Unit {0}) × VaultStore
unfolding handshake_already_accepted append_if_room prune_old_handshakes
remember_handshake initiator ephemeral now spk_id store =
    if handshake_already_accepted initiator ephemeral store
    then (ok tt, store)
    else append_if_room
        (record {
          initiator_identity = initiator;
          ephemeral_pub = ephemeral;
          accepted_at = now;
          spk_id = spk_id;
        })
        (if history_full store then (prune_old_handshakes store).1 else store)
