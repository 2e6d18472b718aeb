-- ===== src/Session/History.antt =====
-- src/session.cpp: what pruning and recording do to the vault.
use ratchet_usb.Prelude.{◌≡◌, refl, sym, ap, subst, ◌∙◌, Bool, true, false}
use ratchet_usb.Message.{Envelope, InitialFields}
use ratchet_usb.Store.{
  AcceptedHandshake, append_handshake, append_if_room, history_full, prune_old_handshakes,
  remember_handshake, VaultStore, handshake_already_accepted,
}
use ratchet_usb.Session.Types.{Libraries}
use ratchet_usb.Session.Receive.{ReceiveDraws, ReceiveResult}
use ratchet_usb.Session.Lookup.{prune_if_full}
use ratchet_usb.Session.Accepted.{handshake_of, Passed, remembered}

-- Nothing but the history changes from one vault to the other.
abbrev pub WithHistory : VaultStore → VaultStore → Type 0
WithHistory vault t = t ≡ record vault { accepted_handshakes = t.accepted_handshakes }

WithHistory-trans : (v u t : VaultStore) → WithHistory v u → WithHistory u t → WithHistory v t
WithHistory-trans v u t p q =
    q ∙ ap (λ (x : VaultStore). record x { accepted_handshakes = t.accepted_handshakes }) p

pub prune_if_full-WithHistory : (vault : VaultStore) → WithHistory vault (prune_if_full vault)
unfolding prune_if_full prune_old_handshakes
prune_if_full-WithHistory vault = by_full (history_full vault) refl
  where
    by_full : (full : Bool) → history_full vault ≡ full → WithHistory vault (prune_if_full vault)
    by_full true h = rw (prune_if_full, h) refl
    by_full false h = rw (prune_if_full, h) refl

append_if_room-WithHistory :
    (h : AcceptedHandshake) (vault : VaultStore) → WithHistory vault (append_if_room h vault).1
unfolding append_if_room append_handshake
append_if_room-WithHistory h vault = by_full (history_full vault) refl
  where
    by_full :
        (full : Bool) → history_full vault ≡ full → WithHistory vault (append_if_room h vault).1
    by_full true e = rw (append_if_room, e) refl
    by_full false e = rw (append_if_room, e) refl

remembered-WithHistory :
    (f : InitialFields) (env : Envelope) (draws : ReceiveDraws) (vault : VaultStore)
    → WithHistory vault (remembered f env draws vault).1
unfolding remember_handshake prune_old_handshakes
remembered-WithHistory f env draws vault =
    by_seen (handshake_already_accepted f.initiator_identity_pub env.header.dh_pub vault) refl
  where
    by_seen :
        (seen : Bool)
        → handshake_already_accepted f.initiator_identity_pub env.header.dh_pub vault ≡ seen
        → WithHistory vault (remembered f env draws vault).1
    by_seen true e = rw (remember_handshake, e) refl
    by_seen false e =
        WithHistory-trans vault (prune_if_full vault) (remembered f env draws vault).1
          (prune_if_full-WithHistory vault)
          (subst (WithHistory (prune_if_full vault)) (sym (to_room e))
            (append_if_room-WithHistory (handshake_of f env draws) (prune_if_full vault)))
      where
        to_room :
            handshake_already_accepted f.initiator_identity_pub env.header.dh_pub vault ≡ false
            → (remembered f env draws vault).1
              ≡ (append_if_room (handshake_of f env draws) (prune_if_full vault)).1
        to_room e = unfold prune_if_full in rw (remember_handshake, e) refl

module _ (lib : Libraries) (env : Envelope) (f : InitialFields) (draws : ReceiveDraws)
    (vault vault' : VaultStore) (r : ReceiveResult)
    (p : Passed lib env f draws vault vault' r) where
  -- The vault that the moves and erasures start from.
  pub history_after-WithHistory : WithHistory vault p.accepted.history
  history_after-WithHistory =
      WithHistory-trans vault (prune_if_full vault) p.accepted.history
        (prune_if_full-WithHistory vault)
        (subst (WithHistory (prune_if_full vault)) (ap (λ q. q.1) p.accepted.recorded)
          (remembered-WithHistory f env draws (prune_if_full vault)))
