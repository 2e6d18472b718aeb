-- ===== src/Vault/Parsed.antt =====
-- src/vault.cpp: what a header that `parse_header` accepts says of the file.
use ratchet_usb.Prelude.{
  ℕ, zero, suc, ◌+◌, ◌≤◌, ◌<◌, ◌≡◌, refl, sym, ap, ap₂, subst, ◌∙◌, inl, inr, not, ◌&&◌, List, [],
  ◌∷◌, ◌++◌, length, length-take, length-drop, take, drop, byte_at, take-split, All, All-drop,
  Bool-cases, ltb, ◌==◌, same_bytes, same_bytes→eq, arith,
}
use ratchet_usb.Outcome.{Result, ok, err, ok-injective, ◌>=>◌}
use ratchet_usb.Vault.{
  VaultHeader, vault_magic, vault_version, word_version, legacy_version, header_bytes, check_params,
  get_u32_le, serialize_header, header_at, parse_header,
}
use ratchet_usb.Vault.Header.{
  InRange, check_params-InRange, judged, sized, word, word-get, image, regrouped,
  serialize_header-image,
}

-- A byte at an index within the list.
byte_at-take : (n : ℕ) (xs : List ℕ) → n < length xs → byte_at xs n ∷ [] ≡ take 1 (drop n xs)
byte_at-take n [] h = absurd (omega arith)
byte_at-take zero (x ∷ xs) h = refl
byte_at-take (suc n) (x ∷ xs) h = byte_at-take n xs (omega arith)

glued : List ℕ → List ℕ → List ℕ → List ℕ → List ℕ → List ℕ → List ℕ
glued a v s t m n = ((((a ++ v) ++ s) ++ t) ++ m) ++ n

module _ (file : List ℕ) (bytes : All (λ b. b < 256) file) (long : header_bytes ≤ length file) where
  cost_at : (n : ℕ) → n + 4 ≤ length file → word (get_u32_le (drop n file)) ≡ take 4 (drop n file)
  cost_at n h =
      word-get (drop n file) (omega (arith, length-drop n file))
        (All-drop (λ b. b < 256) n file bytes)

  -- The header in the file, written again, is the first bytes of the file.
  image-header_at : image (header_at file) ≡ take header_bytes file
  unfolding image header_at glued
  image-header_at =
      sym (
        regrouped (take 4 file) (take 16 (drop 5 file)) (word (get_u32_le (drop 21 file)))
          (word (get_u32_le (drop 25 file))) (take 12 (drop 29 file)) (byte_at file 4))
      ∙ ap
          (λ v.
            glued (take 4 file) v (take 16 (drop 5 file)) (word (get_u32_le (drop 21 file)))
              (word (get_u32_le (drop 25 file))) (take 12 (drop 29 file)))
          (byte_at-take 4 file (omega arith))
      ∙ ap₂
          (λ t m.
            glued (take 4 file) (take 1 (drop 4 file)) (take 16 (drop 5 file)) t m
              (take 12 (drop 29 file)))
          (cost_at 21 (omega arith)) (cost_at 25 (omega arith))
      ∙ ungrouped
    where
      ungrouped :
          glued
            (take 4 file)
            (take 1 (drop 4 file))
            (take 16 (drop 5 file))
            (take 4 (drop 21 file))
            (take 4 (drop 25 file))
            (take 12 (drop 29 file))
          ≡ take header_bytes file
      ungrouped =
          rw (take-split 4 1 file, take-split 5 16 file, take-split 21 4 file, take-split 25 4 file)
            (take-split 29 12 file)

  rewritten : serialize_header (header_at file) ≡ ok (take header_bytes file)
  unfolding sized
  rewritten = serialize_header-image (header_at file) ∙ ap sized image-header_at ∙ rw size refl
    where
      size : length (take header_bytes file) ≡ header_bytes
      size = omega (arith, length-take header_bytes file)

by_costs :
    (header h : VaultHeader) (r : Result (Unit {0}))
    → check_params header.argon2_time_cost header.argon2_mem_cost_kb ≡ r
    → (r >=> λ _. ok header) ≡ ok h
    → (header ≡ h) × InRange header.argon2_time_cost header.argon2_mem_cost_kb
by_costs header h (err e) checked done = absurd (cc done)
by_costs header h (ok tt) checked done = (
  ok-injective done,
  check_params-InRange header.argon2_time_cost header.argon2_mem_cost_kb checked,
)

accepted :
    (file : List ℕ) (header h : VaultHeader)
    → judged file header ≡ ok h
    → (header_bytes ≤ length file)
      × (header ≡ h)
      × (header.magic ≡ vault_magic)
      × InRange header.argon2_time_cost header.argon2_mem_cost_kb
unfolding judged
accepted file header h e = elim (Bool-cases (ltb (length file) header_bytes)) [
  | inl short ↦ absurd (cc (rw short at e))
  | inr long ↦ elim (Bool-cases (same_bytes header.magic vault_magic)) [
    | inr other ↦ absurd (cc (rw (long, other) at e))
    | inl genuine ↦
        elim (Bool-cases (
          not (header.version == vault_version)
          && (not (header.version == word_version) && not (header.version == legacy_version)))) [
            | inl unknown ↦ absurd (cc (rw (long, genuine, unknown) at e))
            | inr known ↦
                let (same, range) = by_costs header h _ refl (rw (long, genuine, known) at e) in
                (ground arith, same, same_bytes→eq header.magic vault_magic genuine, range)
          ]
  ]
]

-- The header that a file is opened with is the one in the file. When `parse_header` accepts a file
-- of bytes, the header starts with the magic, its costs are within the format's bounds, and
-- `serialize_header` gives the first 41 bytes of the file, so that all of them are authenticated.
pub serialize_header-parse_header :
    (file : List ℕ) (header : VaultHeader)
    → All (λ b. b < 256) file
    → parse_header file ≡ ok header
    → (serialize_header header ≡ ok (take header_bytes file))
      × (header.magic ≡ vault_magic)
      × InRange header.argon2_time_cost header.argon2_mem_cost_kb
unfolding parse_header judged
serialize_header-parse_header file header bytes h =
    let (long, same, genuine, range) = accepted file (header_at file) header h in
    (
      subst (λ k. serialize_header k ≡ ok (take header_bytes file)) same
          (rewritten file bytes long),
      subst (λ (k : VaultHeader). k.magic ≡ vault_magic) same genuine,
      subst (λ (k : VaultHeader). InRange k.argon2_time_cost k.argon2_mem_cost_kb) same range,
    )
