-- ===== src/Ratchet/Keys.antt =====
-- src/ratchet.cpp: kdf_rk, kdf_ck, aead_encrypt, aead_decrypt; src/x25519.cpp: dh;
-- src/triple_ratchet.cpp: combine_message_keys, split_initial_secret.
use ratchet_usb.Prelude.{
  ℕ, ◌+◌, List, [], ◌∷◌, ◌++◌, length, take, drop, replicate, Option, none, some, codes, ltb,
  if◌then◌else◌,
}
use ratchet_usb.Outcome.{
  Result, ok, err, ◌>=>◌, low_order_point, ciphertext_too_short, authentication_failed,
}
use ratchet_usb.Crypto.{Crypto, tag_bytes}
use ratchet_usb.Kdf.{extract, expand}
use ratchet_usb.Ratchet.Padding.{pad, unpad}

abbrev pub nonce_bytes : ℕ
nonce_bytes = 12

abbrev pub root_info : List ℕ
root_info = codes "Ratchet-USB/v1/ratchet-root"

abbrev pub protocol_info : List ℕ
protocol_info = codes "Ratchet-USB/v3/TripleRatchet/X25519+ML-KEM-768"

abbrev pub initial_info : List ℕ
initial_info = codes "Ratchet-USB/v3/TripleRatchet/X25519+ML-KEM-768/InitialSplit"

module _ (c : Crypto) where
  -- x25519::dh
  unfoldable pub dh : List ℕ → List ℕ → Result (List ℕ)
  dh sk pk = elim (c.scalarmult sk pk) [ none ↦ err low_order_point | some out ↦ ok out ]

  -- The new root key and the fresh chain key.
  unfoldable pub kdf_rk : List ℕ → List ℕ → Result (List ℕ × List ℕ)
  kdf_rk rk dh_out =
      expand c 64 root_info (extract c rk dh_out) >=> λ okm. ok (take 32 okm, drop 32 okm)

  -- The new chain key and the message key.
  unfoldable pub kdf_ck : List ℕ → List ℕ × List ℕ
  kdf_ck ck = (c.hmac ck (2 ∷ []), c.hmac ck (1 ∷ []))

  -- triple_ratchet::split_initial_secret: the EC secret and the SPQR secret.
  unfoldable pub split_initial_secret : List ℕ → Result (List ℕ × List ℕ)
  split_initial_secret pqxdh_secret =
      expand c 64 initial_info (extract c (replicate 32 0) pqxdh_secret) >=> λ output.
      ok (take 32 output, drop 32 output)

  -- triple_ratchet::combine_message_keys
  unfoldable pub combine_message_keys : List ℕ → List ℕ → Result (List ℕ)
  combine_message_keys ec_message_key pq_message_key =
      expand c 32 protocol_info (extract c pq_message_key ec_message_key)

  -- `if (pq_message_key) combine_message_keys(...) else aead_key.assign(mk)`
  unfoldable pub aead_key : List ℕ → Option (List ℕ) → Result (List ℕ)
  aead_key mk none = ok mk
  aead_key mk (some pq_message_key) = combine_message_keys mk pq_message_key

  unfoldable pub aead_encrypt : List ℕ → List ℕ → List ℕ → List ℕ → Result (List ℕ)
  aead_encrypt mk nonce plaintext aad =
      pad plaintext >=> λ padded. ok (nonce ++ c.seal mk nonce aad padded)

  unfoldable pub aead_decrypt : List ℕ → List ℕ → List ℕ → Result (List ℕ)
  aead_decrypt mk envelope aad =
      if ltb (length envelope) (nonce_bytes + tag_bytes)
      then err ciphertext_too_short
      else elim (c.unseal mk (take nonce_bytes envelope) aad (drop nonce_bytes envelope)) [
        | none ↦ err authentication_failed
        | some pt ↦ unpad pt
      ]
