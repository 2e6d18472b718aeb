-- ===== src/Tests/Containers.antt =====
-- The container of a vault at concrete inputs.
use ratchet_usb.Prelude.{
  ℕ, ◌+◌, ◌*◌, ◌%◌, ◌<◌, ◌≡◌, refl, List, [], ◌∷◌, ◌++◌, length, take, replicate, All, Option, some,
  Bool, true, ◌&&◌, ltb, ltb→lt, codes, same_bytes, arith,
}
use ratchet_usb.Outcome.{ok}
use ratchet_usb.Vault.{
  VaultHeader, Params, vault_magic, header_bytes, check_params, serialize_header, get_u32_le,
  header_at, parse_header, seal, unseal,
}
use ratchet_usb.Vault.Header.{InRange}
use ratchet_usb.Vault.Parsed.{serialize_header-parse_header}
use ratchet_usb.Vault.Sealed.{unseal-seal}
use ratchet_usb.Tests.Samples.{mix, toy, toy_laws}

abbrev toy_pwhash : List ℕ → List ℕ → ℕ → ℕ → Option (List ℕ)
toy_pwhash passphrase salt passes memory = some (replicate 32 ((mix passphrase + mix salt) % 256))

abbrev moderate : Params
moderate = record { time_cost = 3; mem_cost_kb = 256 * 1024 }

unseal-seal_example :
    (file : List ℕ) × (seal toy toy_pwhash
        (codes "contents")
        (codes "pass")
        moderate
        3
        (replicate 16 5)
        (replicate 12 6)
      ≡ ok file)
    × (length file ≡ length (codes "contents") + 57)
    × (unseal toy toy_pwhash file (codes "pass") ≡ ok (codes "contents"))
unfolding check_params
unseal-seal_example =
    unseal-seal toy toy_laws toy_pwhash (codes "pass") (replicate 16 5) (replicate 12 6)
      (replicate 32 ((mix (codes "pass") + mix (replicate 16 5)) % 256)) moderate 3 refl refl refl
      refl refl refl (codes "contents") (omega arith)

abbrev opened : VaultHeader
opened = record {
  magic = vault_magic;
  version = 4;
  argon2_salt = replicate 16 5;
  argon2_time_cost = 10;
  argon2_mem_cost_kb = 262145;
  nonce = replicate 12 6;
}

abbrev opened_file : List ℕ
opened_file =
    codes "RCHT"
    ++ 4 ∷ (replicate 16 5 ++ 10 ∷ 0 ∷ 0 ∷ 0 ∷ 1 ∷ 0 ∷ 4 ∷ 0 ∷ (replicate 12 6 ++ replicate 20 7))

abbrev all_small : List ℕ → Bool
all_small [] = true
all_small (x ∷ xs) = ltb x 256 && all_small xs

small_bytes : (xs : List ℕ) → all_small xs ≡ true → All (λ b. b < 256) xs
small_bytes [] h = tt
small_bytes (x ∷ xs) h = (ltb→lt x 256 (ground arith), small_bytes xs (ground arith))

opened_parses : parse_header opened_file ≡ ok opened
unfolding parse_header header_at get_u32_le check_params same_bytes
opened_parses = refl

serialize_header-parse_header_example :
    (serialize_header opened ≡ ok (take header_bytes opened_file))
    × (opened.magic ≡ vault_magic)
    × InRange opened.argon2_time_cost opened.argon2_mem_cost_kb
serialize_header-parse_header_example =
    serialize_header-parse_header opened_file opened (small_bytes opened_file refl) opened_parses
