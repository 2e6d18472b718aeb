-- ===== src/Ratchet/Exchange.antt =====
-- src/ratchet.cpp: encrypt on one side of a chain and decrypt on the other.
use ratchet_usb.Prelude.{
  ℕ, suc, ◌+◌, ◌-◌, ◌%◌, ◌^◌, ◌≤◌, ◌<◌, ◌≡◌, refl, sym, ap, subst, ◌∙◌, true, List, [], ◌∷◌, ◌++◌,
  length, Option, arith,
}
use ratchet_usb.Outcome.{Result, ok, err, ok-injective}
use ratchet_usb.Exec.{◌>>=◌}
use ratchet_usb.Crypto.{Crypto, CryptoLaws}
use ratchet_usb.Message.{RatchetHeader}
use ratchet_usb.Message.Write.{header_aad}
use ratchet_usb.Store.{Session}
use ratchet_usb.Ratchet.Keys.{kdf_ck, aead_key, aead_encrypt, nonce_bytes}
use ratchet_usb.Ratchet.Steps.{KeyPair, max_skip, expire_skipped_keys, encrypt}
use ratchet_usb.Ratchet.Decrypt.{Clock, decrypt}
use ratchet_usb.Ratchet.Chain.{chain_at, message_key_at, Receives, next_word}
use ratchet_usb.Ratchet.Delivery.{decrypt_delivers}

-- The header of the sender's next message, and the sender behind it.
abbrev next_header : Session → RatchetHeader
next_header a = record { dh_pub = a.dhs_pub; pn = a.pn; n = a.ns }

abbrev sent : Crypto → Session → Session
sent c a = record a { chain_key_send = c.hmac a.chain_key_send (2 ∷ []); ns = (a.ns + 1) % 2 ^ 32 }

abbrev outcome : RatchetHeader → List ℕ → Session → Result (RatchetHeader × List ℕ) × Session
outcome header text s = (ok (header, text), s)

module _ (c : Crypto) (p nonce aad_prefix ct : List ℕ) (pq : Option (List ℕ))
    (header : RatchetHeader) (a a' : Session) where
  -- What an encryption that succeeds has computed.
  record Encrypted : Type 0 where
    aad : List ℕ
    key : List ℕ
    bound : header_aad header ≡ ok aad
    keyed : aead_key c (c.hmac a.chain_key_send (1 ∷ [])) pq ≡ ok key
    sealed : aead_encrypt c key nonce p (aad_prefix ++ aad) ≡ ok ct
    names : header ≡ next_header a
    moved : a' ≡ sent c a

  encrypt-Encrypted :
      a.has_cks ≡ true → encrypt c p nonce aad_prefix pq a ≡ (ok (header, ct), a') → Encrypted
  unfolding encrypt kdf_ck ◌>>=◌
  encrypt-Encrypted has h = by_aad (header_aad (next_header a)) refl
    where
      by_same :
          (aad key text : List ℕ)
          → header_aad (next_header a) ≡ ok aad
          → aead_key c (c.hmac a.chain_key_send (1 ∷ [])) pq ≡ ok key
          → aead_encrypt c key nonce p (aad_prefix ++ aad) ≡ ok text
          → outcome (next_header a) text (record (sent c a) { has_cks = true })
            ≡ outcome header ct a'
          → Encrypted
      by_same aad key text e f g same =
          let pair = ok-injective (ap (λ r. r.0) same) in
          record {
            aad = aad;
            key = key;
            bound = subst (λ x. header_aad x ≡ ok aad) (ap (λ r. r.0) pair) e;
            keyed = f;
            sealed =
                subst (λ x. aead_encrypt c key nonce p (aad_prefix ++ aad) ≡ ok x)
                  (ap (λ r. r.1) pair) g;
            names = sym (ap (λ r. r.0) pair);
            moved =
                sym (ap (λ r. r.1) same) ∙ ap (λ b. record (sent c a) { has_cks = b }) (sym has);
          }

      by_text :
          (aad key : List ℕ) (r : Result (List ℕ))
          → header_aad (next_header a) ≡ ok aad
          → aead_key c (c.hmac a.chain_key_send (1 ∷ [])) pq ≡ ok key
          → aead_encrypt c key nonce p (aad_prefix ++ aad) ≡ r
          → Encrypted
      by_text aad key (err x) e f g = absurd (cc (rw (has, e, f, g) at h))
      by_text aad key (ok text) e f g = by_same aad key text e f g (rw (has, e, f, g) at h)

      by_key :
          (aad : List ℕ) (r : Result (List ℕ))
          → header_aad (next_header a) ≡ ok aad
          → aead_key c (c.hmac a.chain_key_send (1 ∷ [])) pq ≡ r
          → Encrypted
      by_key aad (err x) e f = absurd (cc (rw (has, e, f) at h))
      by_key aad (ok key) e f =
          by_text aad key (aead_encrypt c key nonce p (aad_prefix ++ aad)) e f refl

      by_aad : (r : Result (List ℕ)) → header_aad (next_header a) ≡ r → Encrypted
      by_aad (err x) e = absurd (cc (rw (has, e) at h))
      by_aad (ok aad) e = by_key aad (aead_key c (c.hmac a.chain_key_send (1 ∷ [])) pq) e refl

-- The sending end of the chain that starts at `ck`.
pub record Sends (c : Crypto) (ck : List ℕ) (a : Session) : Type 0 where
  pub can_send : a.has_cks ≡ true
  pub sends_at : a.chain_key_send ≡ chain_at c ck a.ns

module _ (c : Crypto) (laws : CryptoLaws c) (ck p nonce aad_prefix : List ℕ) (pq : Option (List ℕ))
    (fresh : KeyPair) (clock : Clock) (a b : Session) where
  sent-Sends : a.ns + 1 < 2 ^ 32 → Sends c ck a → Sends c ck (sent c a)
  unfolding chain_at
  sent-Sends fits s =
      rw (next_word c ck a.ns fits) (record { can_send = s.can_send; sends_at = rw s.sends_at })

  -- What one side encrypts the other decrypts. The sender is at message `ns` of the chain that
  -- starts at `ck`; the receiver is on the same chain at a message `nr` up to `ns`, knows the
  -- sender's key as its peer's, and its cache, after expiry, has room for the ns - nr keys in
  -- between; ns is below 2^32 - 1, the nonce has 12 bytes, and encryption succeeded. Then `decrypt`
  -- of the header and the ciphertext returns the plaintext, and both ends are on the chain again,
  -- at the message after it.
  pub decrypt-encrypt :
      (header : RatchetHeader) (ct : List ℕ) (a' : Session)
      → Sends c ck a
      → Receives c ck b
      → b.dhr_pub ≡ a.dhs_pub
      → b.nr ≤ a.ns
      → a.ns + 1 < 2 ^ 32
      → length (expire_skipped_keys clock.at_expire b).1.skipped + (a.ns - b.nr) ≤ max_skip
      → length nonce ≡ nonce_bytes
      → encrypt c p nonce aad_prefix pq a ≡ (ok (header, ct), a')
      → (b' : Session) × (decrypt c header ct aad_prefix pq fresh clock b ≡ (ok p, b'))
        × Sends c ck a'
        × Receives c ck b'
        × (b'.nr ≡ a'.ns)
        × (b'.dhr_pub ≡ a'.dhs_pub)
  decrypt-encrypt header ct a' s r peer reach fits budget size h =
      let e = encrypt-Encrypted c p nonce aad_prefix ct pq header a a' s.can_send h in
      let (b', opens, r', nr', kept) =
        decrypt_delivers c ck laws header p ct aad_prefix e.aad nonce e.key pq fresh clock b r
          e.bound (ap (λ x. x.dh_pub) e.names ∙ sym peer) (omega (arith, at e))
          (omega (arith, at e))
          (subst
            (λ (m : ℕ).
              length (expire_skipped_keys clock.at_expire b).1.skipped + (m - b.nr) ≤ max_skip)
            (sym (at e)) budget)
          size (keyed_at e) e.sealed in
      (
        b',
        opens,
        subst (Sends c ck) (sym e.moved) (sent-Sends fits s),
        r',
        nr' ∙ ap suc (at e) ∙ sym (ap (λ x. x.ns) e.moved ∙ next_word c ck a.ns fits),
        kept ∙ peer ∙ sym (ap (λ x. x.dhs_pub) e.moved),
      )
    where
      at : Encrypted c p nonce aad_prefix ct pq header a a' → header.n ≡ a.ns
      at e = ap (λ x. x.n) e.names

      keyed_at :
          (e : Encrypted c p nonce aad_prefix ct pq header a a')
          → aead_key c (message_key_at c ck header.n) pq ≡ ok e.key
      keyed_at e =
          unfold message_key_at in
          subst (λ (m : ℕ). aead_key c (c.hmac (chain_at c ck m) (1 ∷ [])) pq ≡ ok e.key)
            (sym (at e))
            (subst (λ k. aead_key c (c.hmac k (1 ∷ [])) pq ≡ ok e.key) s.sends_at e.keyed)
