-- ===== src/Ratchet/Delivery.antt =====
-- What was sent on the current chain decrypt_delivers, in order, early or late.
use ratchet_usb.Prelude.{
  ℕ, suc, ◌+◌, ◌-◌, ◌%◌, ◌^◌, ◌≤◌, ◌<◌, ◌≡◌, refl, sym, ap, subst, ◌∙◌, inl, inr, true, List, [],
  ◌∷◌, ◌++◌, length, All, Option, none, Bool-cases, le→ltb, same_bytes→eq, same_bytes_refl, arith,
}
use ratchet_usb.Outcome.{ok}
use ratchet_usb.Exec.{lift, ◌>>=◌}
use ratchet_usb.Crypto.{Crypto, CryptoLaws}
use ratchet_usb.Message.{RatchetHeader}
use ratchet_usb.Message.Write.{header_aad}
use ratchet_usb.Store.{Session, SkippedKey}
use ratchet_usb.Ratchet.Keys.{kdf_ck, aead_key, aead_encrypt, nonce_bytes}
use ratchet_usb.Ratchet.Steps.{
  KeyPair, max_skip, stash_until, skip_message_keys, expire_skipped_keys,
}
use ratchet_usb.Ratchet.Decrypt.{
  Clock, matches, find_skipped, follow_ratchet, decrypt_next, decrypt_fresh, decrypt_found,
  decrypt_in_place, decrypt, clone_session,
}
use ratchet_usb.Ratchet.Aead.{aead_decrypt-aead_encrypt}
use ratchet_usb.Ratchet.Chain.{
  chain_at, message_key_at, Agrees, Receives, later, keep_fresh-All, next_word,
  stash_until-Receives,
}

pub matches_eq :
    (header : RatchetHeader) (sk : SkippedKey)
    → matches header sk ≡ true
    → (sk.dh_pub ≡ header.dh_pub) × (sk.n ≡ header.n)
unfolding matches
matches_eq header sk hit = (same_bytes→eq sk.dh_pub header.dh_pub (ground arith), ground arith)

-- The session behind its next message.
abbrev pub received : Crypto → Session → Session
received c s = record s {
  chain_key_recv = c.hmac s.chain_key_recv (2 ∷ []);
  nr = (s.nr + 1) % 2 ^ 32;
}

-- A header that names the peer's current key makes no ratchet step.
pub same_peer_stays :
    (c : Crypto) (pq : Option (List ℕ)) (ct aad : List ℕ) (header : RatchetHeader) (fresh : KeyPair)
    (clock : Clock) (s : Session)
    → s.has_dhr ≡ true
    → header.dh_pub ≡ s.dhr_pub
    → follow_ratchet c pq ct aad header fresh clock s ≡ (ok tt, s)
unfolding follow_ratchet
same_peer_stays c pq ct aad header fresh clock s known same =
    rw (known, same, same_bytes_refl s.dhr_pub) refl

module _ (c : Crypto) (laws : CryptoLaws c) (pq : Option (List ℕ))
    (p ct aad nonce key : List ℕ) where
  -- The session's next message, sealed under the key of the receiving chain, opens.
  pub next_opens :
      (s : Session)
      → length nonce ≡ nonce_bytes
      → aead_key c (c.hmac s.chain_key_recv (1 ∷ [])) pq ≡ ok key
      → aead_encrypt c key nonce p aad ≡ ok ct
      → decrypt_next c pq ct aad s ≡ (ok p, received c s)
  unfolding decrypt_next kdf_ck ◌>>=◌
  next_opens s size k sealed =
      rw k
        (unfold lift in rw (aead_decrypt-aead_encrypt c laws key nonce aad p ct size sealed) refl)

module _ (c : Crypto) (ck : List ℕ) where
  -- No cached key is one of a message that the chain has not reached.
  unreached :
      (header : RatchetHeader) (dhr : List ℕ) (nr : ℕ) (sks : List SkippedKey) (i : ℕ)
      → header.dh_pub ≡ dhr
      → nr ≤ header.n
      → All (Agrees c ck dhr nr) sks
      → find_skipped header sks i ≡ none
  unfolding find_skipped
  unreached header dhr nr [] i d h a = refl
  unreached header dhr nr (sk ∷ sks) i d h a = elim (Bool-cases (matches header sk)) [
    | inl hit ↦
        let (peer, at) = matches_eq header sk hit in
        absurd (omega (arith, a.0.earlier (peer ∙ d), at))
    | inr miss ↦ rw miss (unreached header dhr nr sks (suc i) d h a.1)
  ]

  received-Receives :
      (s : Session) → s.nr + 1 < 2 ^ 32 → Receives c ck s → Receives c ck (received c s)
  unfolding chain_at
  received-Receives s fits r = rw (next_word c ck s.nr fits) (record {
    knows_peer = r.knows_peer;
    has_chain = r.has_chain;
    at_chain = rw r.at_chain;
    cached = later c ck s.dhr_pub s.skipped (omega arith) r.cached;
  })

  -- Within the budget, the loop runs up to the message.
  skip_reaches :
      (n now : ℕ) (s : Session)
      → s.nr ≤ n
      → length s.skipped + (n - s.nr) ≤ max_skip
      → s.has_ckr ≡ true
      → skip_message_keys c n now s ≡ (ok tt, stash_until c (n - s.nr) n now s)
  unfolding skip_message_keys
  skip_reaches n now s reach budget chain =
      rw (chain, le→ltb n s.nr reach, le→ltb max_skip (length s.skipped + (n - s.nr)) budget) refl

  pub expired-Receives :
      (now : ℕ) (s : Session) → Receives c ck s → Receives c ck (expire_skipped_keys now s).1
  unfolding expire_skipped_keys
  expired-Receives now s r = record {
    knows_peer = r.knows_peer;
    has_chain = r.has_chain;
    at_chain = r.at_chain;
    cached = keep_fresh-All c ck (Agrees c ck s.dhr_pub s.nr) now s.skipped r.cached;
  }

  module _ (laws : CryptoLaws c) (header : RatchetHeader) (p ct aad_prefix aad nonce key : List ℕ)
      (pq : Option (List ℕ)) (fresh : KeyPair) (clock : Clock) where
    key_at :
        (s : Session) (n : ℕ)
        → Receives c ck s
        → s.nr ≡ n
        → aead_key c (message_key_at c ck n) pq ≡ ok key
        → aead_key c (c.hmac s.chain_key_recv (1 ∷ [])) pq ≡ ok key
    unfolding message_key_at
    key_at s n r at k =
        rw (r.at_chain)
          (subst (λ m. aead_key c (c.hmac (chain_at c ck m) (1 ∷ [])) pq ≡ ok key) (sym at) k)

    -- The session that a message ahead leaves.
    abbrev ahead : Session → Session
    ahead s = received c (stash_until c (header.n - s.nr) header.n clock.at_current s)

    fresh_opens :
        (s : Session)
        → Receives c ck s
        → header.dh_pub ≡ s.dhr_pub
        → s.nr ≤ header.n
        → header.n + 1 < 2 ^ 32
        → length s.skipped + (header.n - s.nr) ≤ max_skip
        → length nonce ≡ nonce_bytes
        → aead_key c (message_key_at c ck header.n) pq ≡ ok key
        → aead_encrypt c key nonce p (aad_prefix ++ aad) ≡ ok ct
        → decrypt_fresh c pq ct (aad_prefix ++ aad) header fresh clock s ≡ (ok p, ahead s)
    unfolding decrypt_fresh ◌>>=◌
    fresh_opens s r peer reach fits budget size k sealed =
        rw
          (
            same_peer_stays c pq ct (aad_prefix ++ aad) header fresh clock s r.knows_peer peer,
            skip_reaches header.n clock.at_current s reach budget r.has_chain,
          )
          (next_opens c laws pq p ct (aad_prefix ++ aad) nonce key arrived size
            (key_at arrived header.n there.0 there.1 k) sealed)
      where
        arrived : Session
        arrived = stash_until c (header.n - s.nr) header.n clock.at_current s

        there : Receives c ck arrived × (arrived.nr ≡ header.n) × (arrived.dhr_pub ≡ s.dhr_pub)
        there =
            stash_until-Receives c ck (header.n - s.nr) header.n clock.at_current s (omega arith)
              (omega arith) r

    abbrev expired : Session → Session
    expired s = (expire_skipped_keys clock.at_expire s).1

    in_place_opens :
        (s : Session)
        → Receives c ck s
        → header_aad header ≡ ok aad
        → header.dh_pub ≡ s.dhr_pub
        → s.nr ≤ header.n
        → header.n + 1 < 2 ^ 32
        → length (expired s).skipped + (header.n - s.nr) ≤ max_skip
        → length nonce ≡ nonce_bytes
        → aead_key c (message_key_at c ck header.n) pq ≡ ok key
        → aead_encrypt c key nonce p (aad_prefix ++ aad) ≡ ok ct
        → decrypt_in_place c header ct aad_prefix pq fresh clock s ≡ (ok p, ahead (expired s))
    unfolding decrypt_in_place decrypt_found ◌>>=◌ expire_skipped_keys
    in_place_opens s r bound peer reach fits budget size k sealed =
        rw
          (
            bound,
            unreached header s.dhr_pub s.nr (expired s).skipped 0 peer reach
                (expired-Receives clock.at_expire s r).cached,
          )
          (fresh_opens (expired s) (expired-Receives clock.at_expire s r) peer reach fits budget
            size k sealed)

    -- A message of the current receiving chain arrives. The session is at message `nr` of the chain
    -- that starts at `ck`, with the keys it skipped in its cache; the header names the peer's
    -- current key and a number n from `nr` on, below 2^32 - 1; the cache, after expiry, has room
    -- for the n - nr keys in between; and the text was sealed under the chain's key of message n.
    -- Then `decrypt` returns the plaintext, whatever overtook the message, and leaves a session of
    -- the same chain and peer at message n + 1.
    pub decrypt_delivers :
        (s : Session)
        → Receives c ck s
        → header_aad header ≡ ok aad
        → header.dh_pub ≡ s.dhr_pub
        → s.nr ≤ header.n
        → header.n + 1 < 2 ^ 32
        → length (expired s).skipped + (header.n - s.nr) ≤ max_skip
        → length nonce ≡ nonce_bytes
        → aead_key c (message_key_at c ck header.n) pq ≡ ok key
        → aead_encrypt c key nonce p (aad_prefix ++ aad) ≡ ok ct
        → (s' : Session) × (decrypt c header ct aad_prefix pq fresh clock s ≡ (ok p, s'))
          × Receives c ck s'
          × (s'.nr ≡ suc header.n)
          × (s'.dhr_pub ≡ s.dhr_pub)
    unfolding decrypt clone_session expire_skipped_keys
    decrypt_delivers s r bound peer reach fits budget size k sealed = (
      ahead (expired s),
      rw (in_place_opens s r bound peer reach fits budget size k sealed) refl,
      received-Receives arrived (omega (arith, there.1)) there.0,
      next_word c ck arrived.nr (omega (arith, there.1)) ∙ ap suc there.1,
      there.2,
    )
      where
        arrived : Session
        arrived = stash_until c (header.n - s.nr) header.n clock.at_current (expired s)

        there : Receives c ck arrived × (arrived.nr ≡ header.n) × (arrived.dhr_pub ≡ s.dhr_pub)
        there =
            stash_until-Receives c ck (header.n - s.nr) header.n clock.at_current (expired s)
              (omega arith) (omega arith) (expired-Receives clock.at_expire s r)
