-- ===== src/Vault.antt =====
-- include/ratchet/vault.hpp and src/vault.cpp: the encrypted container of a vault. A file is its
-- bytes; the salt and the nonce that `seal` draws are arguments.
pub mod Header
pub mod Parsed
pub mod Sealed
use ratchet_usb.Prelude.{
  ℕ, ◌+◌, ◌*◌, ◌/◌, ◌%◌, ◌^◌, Bool, not, ◌&&◌, ◌||◌, List, [], ◌∷◌, ◌++◌, length, take, drop,
  byte_at, Option, none, some, codes, ltb, ◌==◌, same_bytes, if◌then◌else◌,
}
use ratchet_usb.Outcome.{
  Result, ok, err, ◌>=>◌, time_cost_out_of_range, mem_cost_out_of_range, key_derivation,
  header_size, header_incomplete, not_a_vault, unsupported_vault, empty_passphrase,
  unsealable_version, ciphertext_size, vault_too_short, vault_too_long, vault_not_opened,
}
use ratchet_usb.Crypto.{Crypto, tag_bytes}

pub record VaultHeader : Type 0 where
  pub magic : List ℕ
  pub version : ℕ
  pub argon2_salt : List ℕ
  pub argon2_time_cost : ℕ
  pub argon2_mem_cost_kb : ℕ
  pub nonce : List ℕ

pub record Params : Type 0 where
  pub time_cost : ℕ
  pub mem_cost_kb : ℕ

-- kMagic, kLegacyVersion, kVersion, kWordVersion, kHeaderBytes
abbrev pub vault_magic : List ℕ
vault_magic = codes "RCHT"

abbrev pub legacy_version : ℕ
legacy_version = 2

abbrev pub vault_version : ℕ
vault_version = 3

abbrev pub word_version : ℕ
word_version = 4

abbrev pub header_bytes : ℕ
header_bytes = 41

-- kMaxVaultBytes
abbrev pub max_vault_bytes : ℕ
max_vault_bytes = 64 * 1024 * 1024

-- kMinTimeCost, kMaxTimeCost, kMinMemCostKb, kMaxMemCostKb
abbrev pub min_time_cost : ℕ
min_time_cost = 3

abbrev pub max_time_cost : ℕ
max_time_cost = 10

abbrev pub min_mem_cost_kb : ℕ
min_mem_cost_kb = 64 * 1024

abbrev pub max_mem_cost_kb : ℕ
max_mem_cost_kb = 1024 * 1024

unfoldable pub put_u32_le : List ℕ → ℕ → List ℕ
put_u32_le out value =
    out ++ value % 256 ∷ value / 2 ^ 8 % 256 ∷ value / 2 ^ 16 % 256 ∷ value / 2 ^ 24 % 256 ∷ []

-- The four bytes are disjoint parts of the word, so `|` is their sum.
unfoldable pub get_u32_le : List ℕ → ℕ
get_u32_le p = byte_at p 0 + byte_at p 1 * 2 ^ 8 + byte_at p 2 * 2 ^ 16 + byte_at p 3 * 2 ^ 24

unfoldable pub check_params : ℕ → ℕ → Result (Unit {0})
check_params time_cost mem_cost_kb =
    if ltb time_cost min_time_cost || ltb max_time_cost time_cost
    then err time_cost_out_of_range
    else if ltb mem_cost_kb min_mem_cost_kb || ltb max_mem_cost_kb mem_cost_kb
    then err mem_cost_out_of_range
    else ok tt

unfoldable pub serialize_header : VaultHeader → Result (List ℕ)
unfolding put_u32_le
serialize_header header =
    let salted = (header.magic ++ header.version ∷ []) ++ header.argon2_salt in
    let costed = put_u32_le salted header.argon2_time_cost in
    let out = put_u32_le costed header.argon2_mem_cost_kb ++ header.nonce in
    if length out == header_bytes then ok out else err header_size

-- The fields at their offsets, before the costs are checked.
unfoldable pub header_at : List ℕ → VaultHeader
unfolding get_u32_le
header_at file = record {
  magic = take 4 file;
  version = byte_at file 4;
  argon2_salt = take 16 (drop 5 file);
  argon2_time_cost = get_u32_le (drop 21 file);
  argon2_mem_cost_kb = get_u32_le (drop 25 file);
  nonce = take 12 (drop 29 file);
}

unfoldable pub parse_header : List ℕ → Result VaultHeader
unfolding header_at check_params
parse_header file =
    let header = header_at file in
    if ltb (length file) header_bytes
    then err header_incomplete
    else if not (same_bytes header.magic vault_magic)
    then err not_a_vault
    else if not (header.version == vault_version)
        && (not (header.version == word_version) && not (header.version == legacy_version))
    then err unsupported_vault
    else check_params header.argon2_time_cost header.argon2_mem_cost_kb >=> λ _. ok header

-- `pwhash` is libsodium's crypto_pwhash, of a passphrase, a salt, the passes and the memory.
module _ (c : Crypto) (pwhash : List ℕ → List ℕ → ℕ → ℕ → Option (List ℕ)) where
  unfoldable pub derive_vault_key : List ℕ → VaultHeader → Result (List ℕ)
  unfolding check_params
  derive_vault_key passphrase header =
      check_params header.argon2_time_cost header.argon2_mem_cost_kb >=> λ _.
      elim (pwhash passphrase header.argon2_salt header.argon2_time_cost
        (header.argon2_mem_cost_kb * 1024)) [ none ↦ err key_derivation | some key ↦ ok key ]

  abbrev pub sealed_header : Params → ℕ → List ℕ → List ℕ → VaultHeader
  sealed_header params version salt nonce = record {
    magic = vault_magic;
    version = version;
    argon2_salt = salt;
    argon2_time_cost = params.time_cost;
    argon2_mem_cost_kb = params.mem_cost_kb;
    nonce = nonce;
  }

  unfoldable pub seal : List ℕ → List ℕ → Params → ℕ → List ℕ → List ℕ → Result (List ℕ)
  unfolding check_params serialize_header derive_vault_key
  seal plaintext passphrase params version salt nonce =
      check_params params.time_cost params.mem_cost_kb >=> λ _.
      if length passphrase == 0
      then err empty_passphrase
      else if not (version == vault_version) && not (version == word_version)
      then err unsealable_version
      else (let header = sealed_header params version salt nonce in
          serialize_header header >=> λ aad. derive_vault_key passphrase header >=> λ key.
          let ct = c.seal key nonce aad plaintext in
          if length ct == length plaintext + tag_bytes then ok (aad ++ ct) else err ciphertext_size)

  unfoldable pub unseal : List ℕ → List ℕ → Result (List ℕ)
  unfolding parse_header serialize_header derive_vault_key
  unseal file passphrase =
      if ltb (length file) (header_bytes + tag_bytes)
      then err vault_too_short
      else if ltb max_vault_bytes (length file)
      then err vault_too_long
      else parse_header file >=> λ header. serialize_header header >=> λ aad.
          derive_vault_key passphrase header >=> λ key.
          elim (c.unseal key header.nonce aad (drop header_bytes file)) [
            | none ↦ err vault_not_opened
            | some plaintext ↦ ok plaintext
          ]
