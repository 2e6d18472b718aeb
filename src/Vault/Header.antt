-- ===== src/Vault/Header.antt =====
-- src/vault.cpp: the header of a vault file, written and read back.
use ratchet_usb.Prelude.{
  ℕ, ◌+◌, ◌*◌, ◌/◌, ◌%◌, ◌^◌, ◌≤◌, ◌<◌, ◌≡◌, refl, ap, ap₂, ◌∙◌, inl, inr, Bool, true, false, not,
  ◌&&◌, ◌||◌, List, [], ◌∷◌, ◌++◌, append_assoc, length, length-append, take, drop,
  drop-append_more, take-append_exact, drop-append_exact, All, Bool-cases, ltb, le→ltb, ◌==◌,
  same_bytes, same_bytes_refl, if◌then◌else◌, arith,
}
use ratchet_usb.Outcome.{
  Result, ok, err, ◌>=>◌, header_size, header_incomplete, not_a_vault, unsupported_vault,
}
use ratchet_usb.Vault.{
  VaultHeader, vault_magic, vault_version, word_version, legacy_version, header_bytes,
  min_time_cost, max_time_cost, min_mem_cost_kb, max_mem_cost_kb, put_u32_le, get_u32_le,
  check_params, serialize_header, header_at, parse_header,
}

pub word : ℕ → List ℕ
word v = v % 256 ∷ v / 2 ^ 8 % 256 ∷ v / 2 ^ 16 % 256 ∷ v / 2 ^ 24 % 256 ∷ []

-- The costs that the format allows.
pub InRange : ℕ → ℕ → Type 0
InRange time_cost mem_cost_kb =
    (min_time_cost ≤ time_cost)
    × (time_cost ≤ max_time_cost)
    × (min_mem_cost_kb ≤ mem_cost_kb)
    × (mem_cost_kb ≤ max_mem_cost_kb)

pub check_params-InRange : (t m : ℕ) → check_params t m ≡ ok tt → InRange t m
unfolding check_params InRange
check_params-InRange t m h = elim (Bool-cases (ltb t min_time_cost || ltb max_time_cost t)) [
  | inl out ↦ absurd (cc (rw out at h))
  | inr inside ↦ elim (Bool-cases (ltb m min_mem_cost_kb || ltb max_mem_cost_kb m)) [
    | inl out ↦ absurd (cc (rw (inside, out) at h))
    | inr within ↦ (ground arith, ground arith, ground arith, ground arith)
  ]
]

get-word : (v : ℕ) (rest : List ℕ) → v < 2 ^ 32 → get_u32_le (word v ++ rest) ≡ v
unfolding get_u32_le word
get-word v rest h = omega arith

word_bytes :
    (a b c d : ℕ)
    → a < 256
    → b < 256
    → c < 256
    → d < 256
    → word (a + b * 2 ^ 8 + c * 2 ^ 16 + d * 2 ^ 24) ≡ a ∷ b ∷ c ∷ d ∷ []
unfolding word
word_bytes a b c d p q r s =
    ap₂ ◌∷◌ (omega arith)
      (ap₂ ◌∷◌ (omega arith) (ap₂ ◌∷◌ (omega arith) (ap₂ ◌∷◌ (omega arith) refl)))

pub word-get : (p : List ℕ) → 4 ≤ length p → All (λ b. b < 256) p → word (get_u32_le p) ≡ take 4 p
unfolding get_u32_le
word-get [] h bytes = absurd (omega arith)
word-get (a ∷ []) h bytes = absurd (omega arith)
word-get (a ∷ b ∷ []) h bytes = absurd (omega arith)
word-get (a ∷ b ∷ c ∷ []) h bytes = absurd (omega arith)
word-get (a ∷ b ∷ c ∷ d ∷ p) h bytes =
    word_bytes a b c d bytes.0 (bytes.1).0 ((bytes.1).1).0 (((bytes.1).1).1).0

-- What `serialize_header` returns, and that it does: the fields in their order.
unfoldable pub image : VaultHeader → List ℕ
image h =
    h.magic
    ++ h.version
      ∷ (h.argon2_salt ++ (word h.argon2_time_cost ++ (word h.argon2_mem_cost_kb ++ h.nonce)))

pub regrouped :
    (a s t m n : List ℕ) (v : ℕ)
    → ((((a ++ v ∷ []) ++ s) ++ t) ++ m) ++ n ≡ a ++ v ∷ (s ++ (t ++ (m ++ n)))
regrouped a s t m n v =
    append_assoc (((a ++ v ∷ []) ++ s) ++ t) m n
    ∙ append_assoc ((a ++ v ∷ []) ++ s) t (m ++ n)
    ∙ append_assoc (a ++ v ∷ []) s (t ++ (m ++ n))
    ∙ append_assoc a (v ∷ []) (s ++ (t ++ (m ++ n)))

fields_at :
    (v t m : ℕ) (salt nonce rest : List ℕ)
    → length salt ≡ 16
    → length nonce ≡ 12
    → t < 2 ^ 32
    → m < 2 ^ 32
    → header_at (vault_magic ++ v ∷ (salt ++ (word t ++ (word m ++ (nonce ++ rest))))) ≡ record {
      magic = vault_magic;
      version = v;
      argon2_salt = salt;
      argon2_time_cost = t;
      argon2_mem_cost_kb = m;
      nonce = nonce;
    }
unfolding header_at
fields_at v t m salt nonce rest salted drawn small small' =
    rw
      (
        take-append_exact 16 salt after salted,
        drop-append_exact 16 salt after salted,
        drop-append_more 16 4 salt after salted,
        drop-append_more 16 8 salt after salted,
        get-word t (word m ++ (nonce ++ rest)) small,
        drop-append_exact 4 (word t) (word m ++ (nonce ++ rest)) (unfold word in refl),
        get-word m (nonce ++ rest) small',
        last,
      )
      refl
  where
    last : take 12 (drop 8 (word t ++ (word m ++ (nonce ++ rest)))) ≡ nonce
    last = unfold word in take-append_exact 12 nonce rest drawn

    after : List ℕ
    after = word t ++ (word m ++ (nonce ++ rest))

-- `parse_header`, with the header that the fields make.
unfoldable pub judged : List ℕ → VaultHeader → Result VaultHeader
judged file header =
    if ltb (length file) header_bytes
    then err header_incomplete
    else if not (same_bytes header.magic vault_magic)
    then err not_a_vault
    else if not (header.version == vault_version)
        && (not (header.version == word_version) && not (header.version == legacy_version))
    then err unsupported_vault
    else check_params header.argon2_time_cost header.argon2_mem_cost_kb >=> λ _. ok header

unfoldable pub sized : List ℕ → Result (List ℕ)
sized out = if length out == header_bytes then ok out else err header_size

module _ (h : VaultHeader) where
  pub serialize_header-image : serialize_header h ≡ sized (image h)
  unfolding serialize_header put_u32_le image word sized
  serialize_header-image = ap sized (
      regrouped h.magic h.argon2_salt (word h.argon2_time_cost) (word h.argon2_mem_cost_kb) h.nonce
        h.version)

  -- A header that `seal` makes: the magic, and a salt and a nonce of their sizes.
  module _ (known : h.magic ≡ vault_magic) (salted : length h.argon2_salt ≡ 16)
      (drawn : length h.nonce ≡ 12) where
    pub length-image : length (image h) ≡ header_bytes
    unfolding image word
    length-image = rw known (
        omega (
          arith,
          length-append h.argon2_salt
              (word h.argon2_time_cost ++ (word h.argon2_mem_cost_kb ++ h.nonce)),
        ))

    pub serialize_header_done : serialize_header h ≡ ok (image h)
    unfolding sized
    serialize_header_done = serialize_header-image ∙ rw length-image refl

    header_at-image :
        (rest : List ℕ)
        → InRange h.argon2_time_cost h.argon2_mem_cost_kb
        → header_at (image h ++ rest) ≡ h
    unfolding image InRange
    header_at-image rest range = rw known (
        ap (λ xs. header_at (vault_magic ++ h.version ∷ xs))
          (append_assoc h.argon2_salt _ rest
            ∙ ap (λ xs. h.argon2_salt ++ xs)
                (append_assoc (word h.argon2_time_cost) _ rest
                  ∙ ap (λ xs. word h.argon2_time_cost ++ xs)
                      (append_assoc (word h.argon2_mem_cost_kb) h.nonce rest)))
        ∙ fields_at h.version h.argon2_time_cost h.argon2_mem_cost_kb h.argon2_salt h.nonce rest
            salted drawn (omega arith) (omega arith))

    -- A header that is written and followed by anything is read back.
    pub parse_header-image :
        (rest : List ℕ)
        → check_params h.argon2_time_cost h.argon2_mem_cost_kb ≡ ok tt
        → (h.version == vault_version || h.version == word_version) ≡ true
        → parse_header (image h ++ rest) ≡ ok h
    unfolding parse_header judged
    parse_header-image rest checked version =
        ap (judged (image h ++ rest)) (header_at-image rest (check_params-InRange _ _ checked))
        ∙ accepted
      where
        long : ltb (length (image h ++ rest)) header_bytes ≡ false
        long =
            le→ltb (length (image h ++ rest)) header_bytes
              (omega (arith, length-append (image h) rest, length-image))

        genuine : same_bytes h.magic vault_magic ≡ true
        genuine = rw known (same_bytes_refl vault_magic)

        supported : (a b c : Bool) → (a || b) ≡ true → (not a && (not b && not c)) ≡ false
        supported true b c h = refl
        supported false true c h = refl
        supported false false c h = cc

        accepted : judged (image h ++ rest) h ≡ ok h
        accepted =
            rw
              (
                long,
                genuine,
                supported (h.version == vault_version) (h.version == word_version)
                    (h.version == legacy_version) version,
                checked,
              )
              refl
