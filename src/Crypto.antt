-- ===== src/Crypto.antt =====
-- libsodium, which the program calls and does not implement. Keys, nonces, texts and digests are
-- lists of bytes; a call that can report failure returns an option.
use ratchet_usb.Prelude.{ℕ, ◌+◌, ◌≡◌, List, length, Option, some}

pub record Crypto : Type 0 where
  -- crypto_auth_hmacsha256 under a key, crypto_hash_sha256
  pub hmac : List ℕ → List ℕ → List ℕ
  pub sha256 : List ℕ → List ℕ
  -- crypto_scalarmult of a secret and a public key; the public key of a secret key
  pub scalarmult : List ℕ → List ℕ → Option (List ℕ)
  pub public_of : List ℕ → List ℕ
  -- crypto_aead_chacha20poly1305_ietf under a key, a nonce and the additional data
  pub seal : List ℕ → List ℕ → List ℕ → List ℕ → List ℕ
  pub unseal : List ℕ → List ℕ → List ℕ → List ℕ → Option (List ℕ)

-- crypto_aead_chacha20poly1305_ietf_ABYTES
abbrev pub tag_bytes : ℕ
tag_bytes = 16

-- What the program relies on: an HMAC-SHA256 has 32 bytes, Diffie-Hellman commutes, and an AEAD
-- text opens under the key, nonce and additional data that it was sealed with, and is longer than
-- the plaintext by the tag.
pub record CryptoLaws (c : Crypto) : Type 0 where
  pub length-hmac : (key text : List ℕ) → length (c.hmac key text) ≡ 32
  pub scalarmult_comm :
      (a b : List ℕ) → c.scalarmult a (c.public_of b) ≡ c.scalarmult b (c.public_of a)
  pub unseal-seal :
      (key nonce aad text : List ℕ) → c.unseal key nonce aad (c.seal key nonce aad text) ≡ some text
  pub length-seal :
      (key nonce aad text : List ℕ) → length (c.seal key nonce aad text) ≡ length text + tag_bytes
