-- ===== src/Ratchet/Aead.antt =====
-- A message opens under the key and the additional data that it was sealed with.
use ratchet_usb.Prelude.{
  ℕ, ◌+◌, ◌≤◌, ◌≡◌, refl, sym, subst, ◌∙◌, inl, inr, true, List, ◌++◌, length, length-append, take,
  drop, take-append, drop-append, Bool-cases, ltb, le→ltb, arith,
}
use ratchet_usb.Outcome.{Result, ok, err, ok-injective, ◌>=>◌}
use ratchet_usb.Crypto.{Crypto, CryptoLaws, tag_bytes}
use ratchet_usb.Message.{max_plaintext_bytes}
use ratchet_usb.Ratchet.Padding.{pad, padded_payload_size, unpad}
use ratchet_usb.Ratchet.Padding.Laws.{unpad-pad}
use ratchet_usb.Ratchet.Keys.{nonce_bytes, aead_encrypt, aead_decrypt}

-- Only a text within the limit is padded.
pad-fits : (p q : List ℕ) → pad p ≡ ok q → length p ≤ max_plaintext_bytes
unfolding pad padded_payload_size
pad-fits p q h = elim (Bool-cases (ltb max_plaintext_bytes (length p))) [
  | inl over ↦ absurd (rejected over)
  | inr within ↦ ground arith
]
  where
    rejected : ltb max_plaintext_bytes (length p) ≡ true → ⊥
    rejected over = cc (rw over at h)

module _ (c : Crypto) (laws : CryptoLaws c) (mk nonce aad : List ℕ) where
  opens :
      (q p : List ℕ)
      → length nonce ≡ nonce_bytes
      → unpad q ≡ ok p
      → aead_decrypt c mk (nonce ++ c.seal mk nonce aad q) aad ≡ ok p
  unfolding aead_decrypt
  opens q p n h =
      rw
        (
          le→ltb (length (nonce ++ sealed)) (nonce_bytes + tag_bytes)
              (omega (arith, length-append nonce sealed, laws.length-seal mk nonce aad q)),
          head,
          rest,
          laws.unseal-seal mk nonce aad q,
        )
        h
    where
      sealed : List ℕ
      sealed = c.seal mk nonce aad q

      head : take nonce_bytes (nonce ++ sealed) ≡ nonce
      head = subst (λ (k : ℕ). take k (nonce ++ sealed) ≡ nonce) n (take-append nonce sealed)

      rest : drop nonce_bytes (nonce ++ sealed) ≡ sealed
      rest = subst (λ (k : ℕ). drop k (nonce ++ sealed) ≡ sealed) n (drop-append nonce sealed)

  -- What aead_encrypt makes of a text under a key, a 12-byte nonce and additional data,
  -- aead_decrypt turns back into the text under the same key and data, given that the AEAD opens
  -- what it sealed.
  pub aead_decrypt-aead_encrypt :
      (p ct : List ℕ)
      → length nonce ≡ nonce_bytes
      → aead_encrypt c mk nonce p aad ≡ ok ct
      → aead_decrypt c mk ct aad ≡ ok p
  unfolding aead_encrypt
  aead_decrypt-aead_encrypt p ct n h = go (pad p) refl h
    where
      go :
          (r : Result (List ℕ))
          → pad p ≡ r
          → (r >=> λ padded. ok (nonce ++ c.seal mk nonce aad padded)) ≡ ok ct
          → aead_decrypt c mk ct aad ≡ ok p
      go (err e) padded h = cc
      go (ok q) padded h =
          subst (λ x. aead_decrypt c mk x aad ≡ ok p) (ok-injective h)
            (opens q p n (unpads q padded))
        where
          unpads : (q : List ℕ) → pad p ≡ ok q → unpad q ≡ ok p
          unpads q padded =
              let (q', same, size, back) = unpad-pad p (pad-fits p q padded) in
              subst (λ x. unpad x ≡ ok p) (ok-injective (sym same ∙ padded)) back
