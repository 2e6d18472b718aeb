-- ===== src/Vault/Sealed.antt =====
-- src/vault.cpp: a vault opens under the passphrase that it was sealed with.
use ratchet_usb.Prelude.{
  ℕ, ◌+◌, ◌*◌, ◌≤◌, ◌≡◌, refl, Bool, true, false, not, ◌&&◌, ◌||◌, List, ◌++◌, length,
  length-append, drop, drop-append_exact, Option, some, le→ltb, ◌==◌, arith,
}
use ratchet_usb.Outcome.{ok}
use ratchet_usb.Crypto.{Crypto, CryptoLaws, tag_bytes}
use ratchet_usb.Vault.{
  VaultHeader, Params, vault_version, word_version, header_bytes, max_vault_bytes, check_params,
  serialize_header, parse_header, derive_vault_key, sealed_header, seal, unseal,
}
use ratchet_usb.Vault.Header.{image, length-image, serialize_header_done, parse_header-image}

module _ (c : Crypto) (laws : CryptoLaws c) (pwhash : List ℕ → List ℕ → ℕ → ℕ → Option (List ℕ))
    (passphrase salt nonce key : List ℕ) (params : Params) (version : ℕ)
    (costs : check_params params.time_cost params.mem_cost_kb ≡ ok tt)
    (entered : (length passphrase == 0) ≡ false)
    (known : (version == vault_version || version == word_version) ≡ true)
    (salted : length salt ≡ 16) (drawn : length nonce ≡ 12)
    (derived : pwhash passphrase salt params.time_cost (params.mem_cost_kb * 1024) ≡ some key) where
  header : VaultHeader
  header = sealed_header c pwhash params version salt nonce

  file_of : List ℕ → List ℕ
  file_of plaintext = image header ++ c.seal key nonce (image header) plaintext

  length-file_of : (plaintext : List ℕ) → length (file_of plaintext) ≡ length plaintext + 57
  unfolding file_of header
  length-file_of plaintext = omega (
    arith,
    length-append (image header) (c.seal key nonce (image header) plaintext),
    length-image header refl salted drawn,
    laws.length-seal key nonce (image header) plaintext,
  )

  derived_key : derive_vault_key c pwhash passphrase header ≡ ok key
  unfolding derive_vault_key header
  derived_key = rw (costs, derived) refl

  sealed :
      (plaintext : List ℕ)
      → seal c pwhash plaintext passphrase params version salt nonce ≡ ok (file_of plaintext)
  unfolding seal header file_of
  sealed plaintext =
      rw
        (
          costs,
          entered,
          supported (version == vault_version) (version == word_version) known,
          serialize_header_done header refl salted drawn,
          derived,
          same_number (length (c.seal key nonce (image header) plaintext))
              (length plaintext + tag_bytes) (laws.length-seal key nonce (image header) plaintext),
        )
        refl
    where
      supported : (a b : Bool) → (a || b) ≡ true → (not a && not b) ≡ false
      supported true b h = refl
      supported false true h = refl
      supported false false h = cc

      same_number : (m n : ℕ) → m ≡ n → (m == n) ≡ true
      same_number m n h = ground arith

  read_back : (plaintext : List ℕ) → parse_header (file_of plaintext) ≡ ok header
  unfolding file_of header
  read_back plaintext =
      parse_header-image header refl salted drawn (c.seal key nonce (image header) plaintext) costs
        known

  sealed_part :
      (plaintext : List ℕ)
      → drop header_bytes (file_of plaintext) ≡ c.seal key nonce (image header) plaintext
  unfolding file_of header
  sealed_part plaintext =
      drop-append_exact header_bytes (image header) (c.seal key nonce (image header) plaintext)
        (length-image header refl salted drawn)

  written : serialize_header header ≡ ok (image header)
  unfolding header
  written = serialize_header_done header refl salted drawn

  same_nonce : header.nonce ≡ nonce
  unfolding header
  same_nonce = refl

  opened :
      (plaintext : List ℕ)
      → length plaintext + 57 ≤ max_vault_bytes
      → unseal c pwhash (file_of plaintext) passphrase ≡ ok plaintext
  unfolding unseal image header
  opened plaintext fits =
      rw
        (
          le→ltb (length (file_of plaintext)) (header_bytes + tag_bytes)
              (omega (arith, length-file_of plaintext)),
          le→ltb max_vault_bytes (length (file_of plaintext))
              (omega (arith, length-file_of plaintext)),
          read_back plaintext,
          written,
          derived_key,
          sealed_part plaintext,
          same_nonce,
          laws.unseal-seal key nonce (image header) plaintext,
        )
        refl

  -- A vault opens under the passphrase that it was sealed with. Where the costs are within the
  -- format's bounds, the passphrase is not empty, the version is one that `seal` takes, the salt
  -- and the nonce have their sizes, Argon2 derives a key and the AEAD obeys its laws, `seal`
  -- returns a file of the plaintext's length and 57 bytes, and if that is within 64 MiB, `unseal`
  -- of the file under the same passphrase returns the plaintext.
  pub unseal-seal :
      (plaintext : List ℕ)
      → length plaintext + 57 ≤ max_vault_bytes
      → (file : List ℕ) × (seal c pwhash plaintext passphrase params version salt nonce ≡ ok file)
        × (length file ≡ length plaintext + 57)
        × (unseal c pwhash file passphrase ≡ ok plaintext)
  unseal-seal plaintext fits =
      (file_of plaintext, sealed plaintext, length-file_of plaintext, opened plaintext fits)
