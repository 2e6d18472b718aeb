-- ===== src/Ratchet/Padding/Laws.antt =====
-- Padding is reversible and leaks a bucket only.
use ratchet_usb.Prelude.{
  ℕ, zero, suc, ◌+◌, ◌-◌, ◌*◌, ◌%◌, ◌≤◌, ◌<◌, ◌≡◌, refl, ◌⊎◌, inl, inr, ap, ◌∙◌, List, [], ◌∷◌,
  ◌++◌, length, length-append, length-replicate, take-append, replicate, byte_at,
  byte_at-append_right, byte_at-replicate, le→ltb, arith,
}
use ratchet_usb.Outcome.{ok}
use ratchet_usb.Message.{max_plaintext_bytes}
use ratchet_usb.Ratchet.Padding.{bucket, padded_payload_size, pad, skip_zeros, unpad}

-- Within the 4 MiB limit the padded size holds the text and the delimiter, is a multiple of 128,
-- exceeds the limit by at most 1024, and wastes little: it is 128 or below twice what is needed,
-- and it is at most 2048 or less than 1024 above what is needed.
pub padded_payload_size_bounds :
    (raw_len : ℕ)
    → raw_len ≤ max_plaintext_bytes
    → (size : ℕ) × (padded_payload_size raw_len ≡ ok size)
      × (raw_len + 1 ≤ size)
      × (size % 128 ≡ 0)
      × (size ≤ max_plaintext_bytes + 1024)
      × ((size ≡ 128) ⊎ (size < 2 * (raw_len + 1)))
      × ((size ≤ 2048) ⊎ (size < raw_len + 1 + 1024))
unfolding padded_payload_size bucket
padded_payload_size_bounds raw_len h = (
  bucket (raw_len + 1),
  ground arith,
  ground arith,
  ground arith,
  ground arith,
  ground arith,
  ground arith,
)

bucket-le : (needed : ℕ) → needed ≤ bucket needed
unfolding bucket
bucket-le needed = ground arith

-- A longer text never gets a smaller padded size.
pub bucket_mono : (m n : ℕ) → m ≤ n → bucket m ≤ bucket n
unfolding bucket
bucket_mono m n h = ground arith

-- Walking back over the zeros ends at the delimiter.
skip_zeros_pad :
    (p : List ℕ) (n m k : ℕ)
    → k ≤ n
    → m ≡ k + suc (length p)
    → skip_zeros (p ++ 128 ∷ replicate n 0) m ≡ suc (length p)
unfolding skip_zeros
skip_zeros_pad p n zero k h e = absurd (omega arith)
skip_zeros_pad p n (suc m) zero h e =
    ground (arith, byte_at-append_right m 0 p (128 ∷ replicate n 0))
skip_zeros_pad p n (suc m) (suc k) h e = ground (
  arith,
  byte_at-append_right m (suc k) p (128 ∷ replicate n 0),
  byte_at-replicate n k 0,
  skip_zeros_pad p n m k,
)

abbrev padded : List ℕ → ℕ → List ℕ
padded p n = p ++ 128 ∷ replicate n 0

length-padded : (p : List ℕ) (n : ℕ) → length (padded p n) ≡ length p + suc n
length-padded p n =
    omega (arith, length-append p (128 ∷ replicate n 0), length-replicate {A = ℕ} n 0)

-- The last byte is a zero or the delimiter.
last-padded :
    (p : List ℕ) (n : ℕ)
    → (byte_at (padded p n) (length (padded p n) - 1) ≡ 0)
      ⊎ (byte_at (padded p n) (length (padded p n) - 1) ≡ 128)
last-padded p zero = inr (byte_at-append_right _ 0 p (128 ∷ []) (omega (arith, length-padded p 0)))
last-padded p (suc n) = inl (
    byte_at-append_right _ (suc n) p (128 ∷ replicate (suc n) 0)
      (omega (arith, length-padded p (suc n)))
    ∙ byte_at-replicate (suc n) n 0 (omega arith))

unpad-padded : (p : List ℕ) (n : ℕ) → unpad (padded p n) ≡ ok p
unfolding unpad
unpad-padded p n = ground (
  arith,
  length-padded p n,
  last-padded p n,
  skip_zeros_pad p n (length (padded p n)) n,
  byte_at-append_right (length p) 0 p (128 ∷ replicate n 0),
  take-append p (128 ∷ replicate n 0),
)

-- A plaintext within the 4 MiB limit is padded to the size of its bucket, and removing the padding
-- gives the plaintext back.
pub unpad-pad :
    (p : List ℕ)
    → length p ≤ max_plaintext_bytes
    → (q : List ℕ) × (pad p ≡ ok q)
      × (padded_payload_size (length p) ≡ ok (length q))
      × (unpad q ≡ ok p)
unfolding pad padded_payload_size
unpad-pad p h =
    let n : ℕ = bucket (length p + 1) - (length p + 1) in
    (padded p n, prints, size, unpad-padded p n)
  where
    fits : length p + 1 ≤ bucket (length p + 1)
    fits = bucket-le (length p + 1)

    prints : pad p ≡ ok (padded p (bucket (length p + 1) - (length p + 1)))
    prints =
        rw (le→ltb max_plaintext_bytes (length p) h)
          (rw (le→ltb (bucket (length p + 1)) (length p) (omega (arith, fits))) refl)

    size :
        padded_payload_size (length p)
        ≡ ok (length (padded p (bucket (length p + 1) - (length p + 1))))
    size =
        rw (le→ltb max_plaintext_bytes (length p) h)
          (ap ok (omega (arith, fits, length-padded p (bucket (length p + 1) - (length p + 1)))))
