-- ===== src/Ratchet/Late.antt =====
-- src/ratchet.cpp: decrypt_in_place on a message whose key is in the cache.
use ratchet_usb.Prelude.{
  ℕ, zero, suc, ◌≡◌, refl, sym, ap, subst, ◌∙◌, inl, inr, true, List, [], ◌∷◌, ◌++◌, length,
  remove_at, All, Option, none, some, Bool-cases,
}
use ratchet_usb.Outcome.{ok}
use ratchet_usb.Exec.{◌>>=◌}
use ratchet_usb.Crypto.{Crypto, CryptoLaws}
use ratchet_usb.Message.{RatchetHeader}
use ratchet_usb.Message.Write.{header_aad}
use ratchet_usb.Store.{Session, SkippedKey}
use ratchet_usb.Ratchet.Keys.{aead_key, aead_encrypt, nonce_bytes}
use ratchet_usb.Ratchet.Steps.{KeyPair, expire_skipped_keys}
use ratchet_usb.Ratchet.Decrypt.{
  Clock, matches, find_skipped, decrypt_cached, decrypt_found, decrypt_in_place, decrypt,
  clone_session,
}
use ratchet_usb.Ratchet.Aead.{aead_decrypt-aead_encrypt}
use ratchet_usb.Ratchet.Chain.{message_key_at, Agrees, Receives}
use ratchet_usb.Ratchet.Delivery.{matches_eq, expired-Receives}

-- The key that the search returns, with the property that all cached keys have.
abbrev Answers : (SkippedKey → Type 0) → RatchetHeader → Option (ℕ × SkippedKey) → Type 0
Answers P header none = Unit
Answers P header (some (i, sk)) = (matches header sk ≡ true) × P sk

find_skipped-Answers :
    (P : SkippedKey → Type 0) (header : RatchetHeader) (sks : List SkippedKey) (i : ℕ)
    → All P sks
    → Answers P header (find_skipped header sks i)
unfolding find_skipped
find_skipped-Answers P header [] i a = tt
find_skipped-Answers P header (sk ∷ sks) i a = elim (Bool-cases (matches header sk)) [
  | inl hit ↦ rw hit (hit, a.0)
  | inr miss ↦ rw miss (find_skipped-Answers P header sks (suc i) a.1)
]

All-remove_at :
    (P : SkippedKey → Type 0) (sks : List SkippedKey) (i : ℕ) → All P sks → All P (remove_at sks i)
All-remove_at P [] i a = tt
All-remove_at P (sk ∷ sks) zero a = a.1
All-remove_at P (sk ∷ sks) (suc i) a = (a.0, All-remove_at P sks i a.1)

-- The session behind the late message: expired keys are dropped and the i-th key left is erased.
abbrev pub without_key : ℕ → ℕ → Session → Session
without_key now i s =
    let aged = (expire_skipped_keys now s).1 in record aged { skipped = remove_at aged.skipped i }

module _ (c : Crypto) (laws : CryptoLaws c) (ck : List ℕ) (header : RatchetHeader)
    (p ct aad_prefix aad nonce key : List ℕ) (pq : Option (List ℕ)) (fresh : KeyPair)
    (clock : Clock) (s : Session) (i : ℕ) (sk : SkippedKey) where
  abbrev aged : Session
  aged = (expire_skipped_keys clock.at_expire s).1

  cached_opens :
      length nonce ≡ nonce_bytes
      → aead_key c sk.message_key pq ≡ ok key
      → aead_encrypt c key nonce p (aad_prefix ++ aad) ≡ ok ct
      → decrypt_cached c pq ct (aad_prefix ++ aad) i sk aged
        ≡ (ok p, without_key clock.at_expire i s)
  unfolding decrypt_cached ◌>>=◌
  cached_opens size keyed sealed =
      rw (keyed, aead_decrypt-aead_encrypt c laws key nonce (aad_prefix ++ aad) p ct size sealed)
        refl

  in_place_late :
      header_aad header ≡ ok aad
      → find_skipped header aged.skipped 0 ≡ some (i, sk)
      → length nonce ≡ nonce_bytes
      → aead_key c sk.message_key pq ≡ ok key
      → aead_encrypt c key nonce p (aad_prefix ++ aad) ≡ ok ct
      → decrypt_in_place c header ct aad_prefix pq fresh clock s
        ≡ (ok p, without_key clock.at_expire i s)
  unfolding decrypt_in_place decrypt_found ◌>>=◌
  in_place_late bound found size keyed sealed = rw (bound, found) (cached_opens size keyed sealed)

  -- The cached key is the chain's key of the message that the header names.
  chain_key :
      Receives c ck s
      → header.dh_pub ≡ s.dhr_pub
      → find_skipped header aged.skipped 0 ≡ some (i, sk)
      → sk.message_key ≡ message_key_at c ck header.n
  unfolding expire_skipped_keys
  chain_key r peer found =
      let (hit, agrees) = subst (Answers (Agrees c ck s.dhr_pub s.nr) header) found (
        find_skipped-Answers (Agrees c ck s.dhr_pub s.nr) header aged.skipped 0
          (expired-Receives c ck clock.at_expire s r).cached) in
      let (same_peer, same_n) = matches_eq header sk hit in
      agrees.same_key (same_peer ∙ peer) ∙ ap (λ (n : ℕ). message_key_at c ck n) same_n

  without_key-Receives : Receives c ck s → Receives c ck (without_key clock.at_expire i s)
  unfolding expire_skipped_keys
  without_key-Receives r = record {
    knows_peer = r.knows_peer;
    has_chain = r.has_chain;
    at_chain = r.at_chain;
    cached =
        All-remove_at (Agrees c ck s.dhr_pub s.nr) aged.skipped i
          (expired-Receives c ck clock.at_expire s r).cached;
  }

  -- A late message arrives. The session is on the chain that starts at `ck`, the header names the
  -- peer's current key, the cache, after expiry, has a key for the header, and the text was sealed
  -- under the chain's key of the message. Then `decrypt` returns the plaintext and leaves the
  -- session as expiry left it, without that key, still on the chain.
  pub decrypt_delivers_late :
      Receives c ck s
      → header_aad header ≡ ok aad
      → header.dh_pub ≡ s.dhr_pub
      → find_skipped header aged.skipped 0 ≡ some (i, sk)
      → length nonce ≡ nonce_bytes
      → aead_key c (message_key_at c ck header.n) pq ≡ ok key
      → aead_encrypt c key nonce p (aad_prefix ++ aad) ≡ ok ct
      → (decrypt c header ct aad_prefix pq fresh clock s ≡ (ok p, without_key clock.at_expire i s))
        × Receives c ck (without_key clock.at_expire i s)
  unfolding decrypt clone_session
  decrypt_delivers_late r bound peer found size keyed sealed = (
    rw
        (in_place_late bound found size
          (subst (λ k. aead_key c k pq ≡ ok key) (sym (chain_key r peer found)) keyed) sealed)
        refl,
    without_key-Receives r,
  )
