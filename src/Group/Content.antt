-- ===== src/Group/Content.antt =====
-- src/group.cpp: the content of a group message opens under the key that it was encrypted with.
use ratchet_usb.Prelude.{
  ltb, ◌-◌, ◌∷◌, ◌++◌, replicate, Bool-cases, inl, inr, ℕ, ◌+◌, ◌≤◌, ◌≡◌, refl, sym, ap, ◌∙◌, List,
  length, le→ltb, arith,
}
use ratchet_usb.Outcome.{ok, ok-injective}
use ratchet_usb.Message.{max_plaintext_bytes}
use ratchet_usb.Crypto.{Crypto, CryptoLaws, tag_bytes}
use ratchet_usb.Ratchet.Padding.{pad, bucket, padded_payload_size, unpad}
use ratchet_usb.Ratchet.Padding.Laws.{unpad-pad}
use ratchet_usb.Group.{encrypt_content, decrypt_content}

bucket_of : (n m : ℕ) → n ≤ max_plaintext_bytes → padded_payload_size n ≡ ok m → m ≡ bucket (n + 1)
unfolding padded_payload_size
bucket_of n m h size = sym (ok-injective (rw (le→ltb max_plaintext_bytes n h) at size))

-- The padding that `pad` makes, from the size of its result.
padded_as :
    (p q : List ℕ)
    → pad p ≡ ok q
    → padded_payload_size (length p) ≡ ok (length q)
    → p ++ 128 ∷ replicate (length q - (length p + 1)) 0 ≡ q
unfolding pad
padded_as p q made size = elim (Bool-cases (ltb (length q) (length p))) [
  | inl short ↦ absurd (cc (rw (size, short) at made))
  | inr fits ↦ ok-injective (rw (size, fits) at made)
]

module _ (c : Crypto) (laws : CryptoLaws c) (key nonce aad plaintext : List ℕ) where
  decrypts :
      (padded : List ℕ)
      → unpad padded ≡ ok plaintext
      → decrypt_content c key (c.seal key nonce aad padded) nonce aad ≡ ok plaintext
  unfolding decrypt_content
  decrypts padded back =
      rw
        (
          le→ltb (length (c.seal key nonce aad padded)) tag_bytes
              (omega (arith, laws.length-seal key nonce aad padded)),
          laws.unseal-seal key nonce aad padded,
          back,
        )
        refl

  -- The content of a group message within the 4 MiB limit is encrypted to a text whose length
  -- depends on the bucket of the content's length alone, and decrypting it under the same key,
  -- nonce and additional data returns the content, given the laws of the AEAD.
  pub decrypt_content-encrypt_content :
      length plaintext ≤ max_plaintext_bytes
      → (ct : List ℕ) × (encrypt_content c key plaintext nonce aad ≡ ok ct)
        × (length ct ≡ bucket (length plaintext + 1) + tag_bytes)
        × (decrypt_content c key ct nonce aad ≡ ok plaintext)
  unfolding encrypt_content
  decrypt_content-encrypt_content fits =
      let (padded, made, size, back) = unpad-pad plaintext fits in
      (
        c.seal key nonce aad padded,
        rw size (ap (λ xs. ok (c.seal key nonce aad xs)) (padded_as plaintext padded made size)),
        laws.length-seal key nonce aad padded
            ∙ ap (λ (n : ℕ). n + tag_bytes)
                (bucket_of (length plaintext) (length padded) fits size),
        decrypts padded back,
      )
