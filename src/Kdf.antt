-- ===== src/Kdf.antt =====
-- src/kdf.cpp: HKDF-SHA256 over the HMAC of libsodium, the path compiled where libsodium has no
-- HKDF of its own.
pub mod Rfc5869
use ratchet_usb.Prelude.{
  ℕ, zero, suc, ◌+◌, ◌-◌, ◌*◌, ◌%◌, List, [], ◌∷◌, ◌++◌, length, take, replicate, Bool, ◌||◌, ltb,
  ◌==◌, if◌then◌else◌,
}
use ratchet_usb.Outcome.{Result, ok, err, unsupported_output_length}
use ratchet_usb.Crypto.{Crypto}
use Prim.Native.Nat.{min}

-- kPrkBytes, and crypto_auth_hmacsha256_BYTES
abbrev pub prk_bytes : ℕ
prk_bytes = 32

module _ (c : Crypto) where
  unfoldable pub hmac : List ℕ → List ℕ → List ℕ
  hmac key msg = c.hmac key msg

  -- An absent salt is a string of zeros.
  unfoldable pub fallback_extract : List ℕ → List ℕ → List ℕ
  unfolding hmac
  fallback_extract [] ikm = hmac (replicate 32 0) ikm
  fallback_extract (x ∷ salt) ikm = hmac (x ∷ salt) ikm

  unfoldable pub extract : List ℕ → List ℕ → List ℕ
  unfolding fallback_extract
  extract salt ikm = fallback_extract salt ikm

  -- `while (produced < out_len)`, with `out` for what is produced. `counter` is a byte.
  unfoldable pub expand_loop : ℕ → List ℕ → ℕ → List ℕ → List ℕ → ℕ → List ℕ → List ℕ
  unfolding hmac
  expand_loop zero info out_len prk block counter out = out
  expand_loop (suc fuel) info out_len prk block counter out =
      let counter' = (counter + 1) % 256 in
      let chained = if ltb 1 counter' then block else [] in
      let block' = hmac prk (chained ++ (info ++ counter' ∷ [])) in
      let more =
        expand_loop fuel info out_len prk block' counter'
          (out ++ take (min prk_bytes (out_len - length out)) block') in
      if ltb (length out) out_len then more else out

  -- Each round produces a byte at least, so `out_len` rounds are enough.
  unfoldable pub fallback_expand : ℕ → List ℕ → List ℕ → List ℕ
  unfolding expand_loop
  fallback_expand out_len info prk = expand_loop out_len info out_len prk [] 0 []

  -- RFC 5869 caps the output of one expansion at 255 hash blocks.
  unfoldable pub expand : ℕ → List ℕ → List ℕ → Result (List ℕ)
  expand out_len info prk =
      if out_len == 0 || ltb (255 * prk_bytes) out_len
      then err unsupported_output_length
      else ok (fallback_expand out_len info prk)
