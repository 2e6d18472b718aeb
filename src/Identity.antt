-- ===== src/Identity.antt =====
-- src/identity.cpp: the identity's keys, conversions and fingerprints.
use ratchet_usb.Prelude.{
  ℕ, zero, suc, ◌+◌, ◌/◌, ◌%◌, Bool, List, [], ◌∷◌, ◌++◌, length, take, drop, Option, none, some,
  codes, ltb, ◌==◌, if◌then◌else◌,
}
use ratchet_usb.Outcome.{
  Result, ok, err, ◌>=>◌, identity_derivation, secret_conversion, public_conversion,
}
use ratchet_usb.Crypto.{Crypto}
use ratchet_usb.Kdf.{extract, expand}
use ratchet_usb.Pq.{OpenSsl, ml_dsa_65_from_seed}

-- Ed25519 of libsodium: crypto_sign_detached and crypto_sign_verify_detached, the key pair of a
-- seed, and the conversions of a secret and of a public key to X25519.
pub record Ed25519 : Type 0 where
  pub sign : List ℕ → List ℕ → List ℕ
  pub verify : List ℕ → List ℕ → List ℕ → Bool
  -- crypto_sign_ed25519_sk_to_pk
  pub public_of : List ℕ → List ℕ
  pub seed_keypair : List ℕ → Option (List ℕ × List ℕ)
  pub dh_secret : List ℕ → Option (List ℕ)
  pub dh_public : List ℕ → Option (List ℕ)

-- kSeedSalt, kIdentityEdSeedInfo, kIdentityMlDsaSeedInfo
abbrev pub seed_salt : List ℕ
seed_salt = codes "Ratchet-USB/v1/master-seed"

abbrev pub identity_ed_seed_info : List ℕ
identity_ed_seed_info = codes "Ratchet-USB/v1/identity-ed25519-seed"

abbrev pub identity_ml_dsa_seed_info : List ℕ
identity_ml_dsa_seed_info = codes "Ratchet-USB/v3/ML-DSA-65/identity-seed"

unfoldable pub derive_master_seed : Crypto → List ℕ → List ℕ
derive_master_seed c entropy = extract c seed_salt entropy

-- The secret and the public key.
unfoldable pub derive_identity : Crypto → Ed25519 → List ℕ → Result (List ℕ × List ℕ)
derive_identity c ed seed = expand c 32 identity_ed_seed_info seed >=> λ ed_seed.
    elim (ed.seed_keypair ed_seed) [ none ↦ err identity_derivation | some keys ↦ ok keys ]

-- The public key and the private seed.
unfoldable pub derive_pq_identity : Crypto → OpenSsl → List ℕ → Result (List ℕ × List ℕ)
derive_pq_identity c ssl seed =
    expand c 32 identity_ml_dsa_seed_info (extract c [] seed) >=> λ pq_seed.
    ml_dsa_65_from_seed ssl pq_seed >=> λ pk. ok (pk, pq_seed)

unfoldable pub identity_dh_public : Ed25519 → List ℕ → Result (List ℕ)
identity_dh_public ed ed_pk = elim (ed.dh_public ed_pk) [
  | none ↦ err public_conversion
  | some pk ↦ ok pk
]

-- The secret and the public key.
unfoldable pub identity_dh_keypair : Ed25519 → List ℕ → List ℕ → Result (List ℕ × List ℕ)
unfolding identity_dh_public
identity_dh_keypair ed ed_sk ed_pk = elim (ed.dh_secret ed_sk) [
  | none ↦ err secret_conversion
  | some sk ↦ identity_dh_public ed ed_pk >=> λ pk. ok (sk, pk)
]

-- A lower-case hexadecimal digit of sodium_bin2hex.
abbrev pub hex_digit : ℕ → ℕ
hex_digit v = if ltb v 10 then v + 48 else v + 87

unfoldable pub to_hex : List ℕ → List ℕ
to_hex [] = []
to_hex (x ∷ xs) = hex_digit (x / 16 % 16) ∷ (hex_digit (x % 16) ∷ to_hex xs)

-- `for (i = 0; i < hex.size(); i += 4)`: the rounds left, i, and the text from i on.
unfoldable pub group_hex : ℕ → ℕ → List ℕ → List ℕ
group_hex zero i hex = []
group_hex (suc rounds) i [] = []
group_hex (suc rounds) i (h ∷ hex) =
    (if i == 0 then [] else (if i % 16 == 0 then 10 ∷ [] else 32 ∷ []))
    ++ (take 4 (h ∷ hex) ++ group_hex rounds (i + 4) (drop 4 (h ∷ hex)))

unfoldable pub fingerprint : List ℕ → List ℕ
unfolding to_hex group_hex
fingerprint pk = let hex = to_hex pk in group_hex (length hex) 0 hex

-- `for (i = 0; i < raw.size(); i += 4)` with a space between the groups.
unfoldable pub group_spaced : ℕ → List ℕ → List ℕ → List ℕ
group_spaced zero grouped raw = grouped
group_spaced (suc rounds) grouped [] = grouped
group_spaced (suc rounds) grouped (h ∷ raw) =
    group_spaced rounds
      ((if length grouped == 0 then grouped else grouped ++ 32 ∷ []) ++ take 4 (h ∷ raw))
      (drop 4 (h ∷ raw))

abbrev pub fingerprint_domain : List ℕ
fingerprint_domain = codes "Ratchet-USB/v3/hybrid-fingerprint"

unfoldable pub hybrid_fingerprint : Crypto → List ℕ → List ℕ → List ℕ
unfolding to_hex group_spaced
hybrid_fingerprint c ed_pk pq_pk =
    let raw = to_hex (c.sha256 (fingerprint_domain ++ (ed_pk ++ pq_pk))) in
    group_spaced (length raw) [] raw
