-- ===== src/Ratchet/Forgery.antt =====
-- src/ratchet.cpp: decrypt on a session that init_sender opened and no answer has reached.
use ratchet_usb.Prelude.{
  ℕ, ◌≡◌, refl, sym, ap, subst, true, false, List, [], ◌∷◌, ◌++◌, length, replicate, none,
}
use ratchet_usb.Outcome.{Result, ok, err}
use ratchet_usb.Exec.{◌>>=◌}
use ratchet_usb.Crypto.{Crypto, CryptoLaws}
use ratchet_usb.Message.{RatchetHeader}
use ratchet_usb.Message.Write.{header_aad}
use ratchet_usb.Store.{Session}
use ratchet_usb.Ratchet.Keys.{dh, kdf_rk, aead_key, aead_encrypt, nonce_bytes}
use ratchet_usb.Ratchet.Steps.{
  KeyPair, skip_message_keys, keep_fresh, expire_skipped_keys, init_sender,
}
use ratchet_usb.Ratchet.Decrypt.{
  Clock, find_skipped, decrypt_fresh, decrypt_found, decrypt_in_place, decrypt, clone_session,
}
use ratchet_usb.Ratchet.Delivery.{received, same_peer_stays, next_opens}

-- A session that has sent its opening message and received nothing.
record IsPending (s : Session) (peer : List ℕ) (chain : List ℕ) : Type 0 where
  knows_peer : s.has_dhr ≡ true
  peer_key : s.dhr_pub ≡ peer
  no_chain : s.has_ckr ≡ false
  chain_key : s.chain_key_recv ≡ chain
  nothing_cached : s.skipped ≡ []

module _ (c : Crypto) (shared_secret : List ℕ) (ephemeral : KeyPair) (bob_dh_pub : List ℕ) where
  init_sender-IsPending :
      (s₀ s : Session)
      → init_sender c shared_secret ephemeral bob_dh_pub s₀ ≡ (ok tt, s)
      → IsPending s bob_dh_pub s₀.chain_key_recv
  unfolding init_sender ◌>>=◌
  init_sender-IsPending s₀ s h = by_dh (dh c ephemeral.sk bob_dh_pub) refl
    where
      by_kdf :
          (out : List ℕ) (r : Result (List ℕ × List ℕ))
          → dh c ephemeral.sk bob_dh_pub ≡ ok out
          → kdf_rk c shared_secret out ≡ r
          → IsPending s bob_dh_pub s₀.chain_key_recv
      by_kdf out (err x) e f = absurd (cc (rw (e, f) at h))
      by_kdf out (ok keys) e f =
          subst (λ t. IsPending t bob_dh_pub s₀.chain_key_recv) (ap (λ r. r.1) (rw (e, f) at h))
            (record {
              knows_peer = refl;
              peer_key = refl;
              no_chain = refl;
              chain_key = refl;
              nothing_cached = refl;
            })

      by_dh :
          (r : Result (List ℕ))
          → dh c ephemeral.sk bob_dh_pub ≡ r
          → IsPending s bob_dh_pub s₀.chain_key_recv
      by_dh (err x) e = absurd (cc (rw e at h))
      by_dh (ok out) e = by_kdf out (kdf_rk c shared_secret out) e refl

module _ (c : Crypto) (laws : CryptoLaws c) (header : RatchetHeader)
    (p ct aad_prefix aad nonce : List ℕ) (fresh : KeyPair) (clock : Clock) where
  -- Nothing is skipped on a chain that is not there, whatever the header says.
  no_chain_skips :
      (n now : ℕ) (s : Session) → s.has_ckr ≡ false → skip_message_keys c n now s ≡ (ok tt, s)
  unfolding skip_message_keys
  no_chain_skips n now s h = rw h refl

  fresh_opens :
      (s : Session)
      → IsPending s header.dh_pub (replicate 32 0)
      → length nonce ≡ nonce_bytes
      → aead_encrypt c (c.hmac (replicate 32 0) (1 ∷ [])) nonce p (aad_prefix ++ aad) ≡ ok ct
      → decrypt_fresh c none ct (aad_prefix ++ aad) header fresh clock s ≡ (ok p, received c s)
  unfolding decrypt_fresh ◌>>=◌
  fresh_opens s h size sealed =
      rw
        (
          same_peer_stays c none ct (aad_prefix ++ aad) header fresh clock s h.knows_peer
              (sym h.peer_key),
          no_chain_skips header.n clock.at_current s h.no_chain,
        )
        (next_opens c laws none p ct (aad_prefix ++ aad) nonce (c.hmac (replicate 32 0) (1 ∷ [])) s
          size (unfold aead_key in rw h.chain_key) sealed)

  emptied-IsPending :
      (s : Session)
      → IsPending s header.dh_pub (replicate 32 0)
      → IsPending (record s { skipped = [] }) header.dh_pub (replicate 32 0)
  emptied-IsPending s h = record {
    knows_peer = h.knows_peer;
    peer_key = h.peer_key;
    no_chain = h.no_chain;
    chain_key = h.chain_key;
    nothing_cached = refl;
  }

  pending_opens :
      (s : Session)
      → IsPending s header.dh_pub (replicate 32 0)
      → length nonce ≡ nonce_bytes
      → header_aad header ≡ ok aad
      → aead_encrypt c (c.hmac (replicate 32 0) (1 ∷ [])) nonce p (aad_prefix ++ aad) ≡ ok ct
      → decrypt_in_place c header ct aad_prefix none fresh clock s
        ≡ (ok p, received c (record s { skipped = [] }))
  unfolding decrypt_in_place decrypt_found find_skipped expire_skipped_keys keep_fresh ◌>>=◌
  pending_opens s h size bound sealed =
      rw (bound, h.nothing_cached)
        (fresh_opens (record s { skipped = [] }) (emptied-IsPending s h) size sealed)

  -- After init_sender on a session whose receiving chain key is still zero, a text sealed without
  -- any secret, under the HMAC of 32 zeros, opens in `decrypt` without a post-quantum key, when its
  -- header names the key that init_sender was given for the peer. The header's numbers do not
  -- matter.
  pub forged_opens :
      (shared_secret : List ℕ) (ephemeral : KeyPair) (s₀ s : Session)
      → init_sender c shared_secret ephemeral header.dh_pub s₀ ≡ (ok tt, s)
      → s₀.chain_key_recv ≡ replicate 32 0
      → length nonce ≡ nonce_bytes
      → header_aad header ≡ ok aad
      → aead_encrypt c (c.hmac (replicate 32 0) (1 ∷ [])) nonce p (aad_prefix ++ aad) ≡ ok ct
      → decrypt c header ct aad_prefix none fresh clock s
        ≡ (ok p, received c (record s { skipped = [] }))
  unfolding decrypt clone_session
  forged_opens shared_secret ephemeral s₀ s opened zeroed size bound sealed =
      rw
        (pending_opens s
          (subst (IsPending s header.dh_pub) zeroed
            (init_sender-IsPending c shared_secret ephemeral header.dh_pub s₀ s opened))
          size bound sealed)
        refl
