-- ===== src/Tests/Samples.antt =====
-- Stand-ins for the libraries that the program calls, which meet the laws it relies on.
use ratchet_usb.Prelude.{
  ℕ, suc, ◌+◌, ◌-◌, ◌*◌, ◌%◌, ◌≡◌, ◌≢◌, refl, ap, ap₂, subst, false, List, [], ◌∷◌, ◌++◌, length,
  take, replicate, map, All, length-append, length-replicate, take-append, some, arith,
}
use ratchet_usb.Crypto.{Crypto, CryptoLaws}
use ratchet_usb.Wire.{is_space, Base64, Base64Laws}

-- A sum that depends on the places of the bytes.
abbrev pub mix : List ℕ → ℕ
mix [] = 1
mix (x ∷ xs) = (x + 31 * mix xs) % 256

abbrev pub sum : List ℕ → ℕ
sum [] = 0
sum (x ∷ xs) = x + sum xs

abbrev pub toy_hmac : List ℕ → List ℕ → List ℕ
toy_hmac key text = replicate 32 ((mix key * 7 + mix text) % 256)

abbrev pub toy_tag : List ℕ → List ℕ → List ℕ → List ℕ
toy_tag key nonce aad = replicate 16 ((mix key + 3 * mix nonce + 5 * mix aad) % 256)

abbrev pub toy : Crypto
toy = record {
  hmac = toy_hmac;
  sha256 = toy_hmac [];
  scalarmult = λ sk pk. some (replicate 32 ((sum sk + sum pk) % 256));
  public_of = λ sk. sk;
  seal = λ key nonce aad text. text ++ toy_tag key nonce aad;
  unseal = λ key nonce aad sealed. some (take (length sealed - 16) sealed);
}

pub toy_laws : CryptoLaws toy
toy_laws = record {
  length-hmac = λ key text. length-replicate 32 ((mix key * 7 + mix text) % 256);
  scalarmult_comm = λ a b. ap (λ (n : ℕ). some (replicate 32 (n % 256))) (add_comm (sum a) (sum b));
  unseal-seal =
      λ key nonce aad text. ap some (untagged text (toy_tag key nonce aad) (sized key nonce aad));
  length-seal = λ key nonce aad text.
      omega (arith, length-append text (toy_tag key nonce aad), sized key nonce aad);
}
  where
    add_comm : (m n : ℕ) → m + n ≡ n + m
    add_comm m n = omega arith

    sized : (key nonce aad : List ℕ) → length (toy_tag key nonce aad) ≡ 16
    sized key nonce aad = length-replicate 16 ((mix key + 3 * mix nonce + 5 * mix aad) % 256)

    untagged :
        (text tag : List ℕ)
        → length tag ≡ 16
        → take (length (text ++ tag) - 16) (text ++ tag) ≡ text
    untagged text tag h =
        subst (λ (n : ℕ). take n (text ++ tag) ≡ text) (omega (arith, length-append text tag))
          (take-append text tag)

-- Every byte as one character outside ASCII.
abbrev pub plain : Base64
plain = record { to_base64 = map (λ x. x + 128); of_base64 = λ xs. some (map (λ x. x - 128) xs) }

unmap : (xs : List ℕ) → map (λ x. x - 128) (map (λ x. x + 128) xs) ≡ xs
unmap [] = refl
unmap (x ∷ xs) = ap₂ ◌∷◌ (omega arith) (unmap xs)

high : (xs : List ℕ) → All (λ c. (is_space c ≡ false) × (c ≢ 45)) (map (λ x. x + 128) xs)
unfolding is_space
high [] = tt
high (x ∷ xs) = ((ground arith, λ e. omega arith), high xs)

length-map : (xs : List ℕ) → length (map (λ x. x + 128) xs) ≡ length xs
length-map [] = refl
length-map (x ∷ xs) = ap suc (length-map xs)

pub plain_laws : Base64Laws plain
plain_laws = record {
  of_base64-to_base64 = λ xs. ap some (unmap xs);
  alphabet = high;
  size = λ xs. omega (arith, length-map xs);
}
