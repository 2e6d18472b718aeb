-- ===== src/Pq.antt =====
-- src/pq.cpp: ML-KEM-768, ML-DSA-65 and SHA3-256 over OpenSSL, which the program calls and does
-- not implement.
use ratchet_usb.Prelude.{ℕ, Bool, List, length, Option, none, some, ◌==◌, ◌&&◌, if◌then◌else◌}
use ratchet_usb.Outcome.{
  Result, ok, err, kem_public_import, kem_private_import, dsa_private_import, dsa_public_import,
  kem_keygen_setup, kem_seed_not_retained, kem_keygen, kem_public_export, kem_encapsulation_setup,
  kem_encapsulation, message_authentication, dsa_public_export, dsa_signing_setup, dsa_signing,
  dsa_verification_setup,
}
use ratchet_usb.Message.{ml_kem_ciphertext_bytes}
use ratchet_usb.Store.{
  MlKemKeyPair, ml_kem_public_key_bytes, ml_dsa_public_key_bytes, ml_dsa_signature_bytes,
}

-- kMlKemSharedSecretBytes
abbrev pub shared_secret_bytes : ℕ
shared_secret_bytes = 32

-- What the calls of OpenSSL return. A Boolean says that the calls before the main one succeed; the
-- draws of a call are its last argument.
pub record OpenSsl : Type 0 where
  -- EVP_PKEY_fromdata of a public key and of a private seed, for either algorithm
  pub imports_kem_public : List ℕ → Bool
  pub imports_kem_seed : List ℕ → Bool
  pub imports_dsa_public : List ℕ → Bool
  pub imports_dsa_seed : List ℕ → Bool
  -- EVP_PKEY_keygen_init, EVP_PKEY_CTX_set_params, EVP_PKEY_generate, OSSL_PKEY_PARAM_PUB_KEY
  pub starts_keygen : Bool
  pub retains_seed : List ℕ → Bool
  pub generates_kem : List ℕ → Bool
  pub kem_public : List ℕ → Option (List ℕ)
  pub dsa_public : List ℕ → Option (List ℕ)
  -- EVP_PKEY_encapsulate of a public key: the ciphertext and the secret
  pub starts_encapsulation : List ℕ → Bool
  pub encapsulate : List ℕ → List ℕ → Option (List ℕ × List ℕ)
  -- EVP_PKEY_decapsulate of a seed and a ciphertext
  pub starts_decapsulation : List ℕ → Bool
  pub decapsulate : List ℕ → List ℕ → Option (List ℕ)
  -- EVP_DigestSign under a seed, EVP_DigestVerify under a public key
  pub starts_signing : List ℕ → Bool
  pub sign : List ℕ → List ℕ → Option (List ℕ)
  pub starts_verification : List ℕ → Bool
  pub verify : List ℕ → List ℕ → List ℕ → Bool
  -- EVP_Digest* with EVP_sha3_256
  pub sha3_256 : List ℕ → Option (List ℕ)

module _ (ssl : OpenSsl) where
  -- generate_ml_kem_768 draws the seed.
  unfoldable pub ml_kem_768_from_seed : List ℕ → Result MlKemKeyPair
  ml_kem_768_from_seed seed =
      if ssl.starts_keygen
      then (if ssl.retains_seed seed
          then (if ssl.generates_kem seed
              then elim (ssl.kem_public seed) [
                | none ↦ err kem_public_export
                | some pk ↦
                    if length pk == ml_kem_public_key_bytes
                    then ok (record { public_key = pk; private_seed = seed })
                    else err kem_public_export
              ]
              else err kem_keygen)
          else err kem_seed_not_retained)
      else err kem_keygen_setup

  -- The ciphertext and the shared secret.
  unfoldable pub ml_kem_768_encapsulate : List ℕ → List ℕ → Result (List ℕ × List ℕ)
  ml_kem_768_encapsulate public_key drawn =
      if ssl.imports_kem_public public_key
      then (if ssl.starts_encapsulation public_key
          then elim (ssl.encapsulate public_key drawn) [
            | none ↦ err kem_encapsulation
            | some (ct, ss) ↦
                if length ct == ml_kem_ciphertext_bytes && length ss == shared_secret_bytes
                then ok (ct, ss)
                else err kem_encapsulation
          ]
          else err kem_encapsulation_setup)
      else err kem_public_import

  unfoldable pub ml_kem_768_decapsulate : List ℕ → List ℕ → Result (List ℕ)
  ml_kem_768_decapsulate private_seed ciphertext =
      if ssl.imports_kem_seed private_seed
      then (if ssl.starts_decapsulation private_seed
          then elim (ssl.decapsulate private_seed ciphertext) [
            | none ↦ err message_authentication
            | some ss ↦
                if length ss == shared_secret_bytes then ok ss else err message_authentication
          ]
          else err message_authentication)
      else err kem_private_import

  unfoldable pub ml_dsa_65_from_seed : List ℕ → Result (List ℕ)
  ml_dsa_65_from_seed seed =
      if ssl.imports_dsa_seed seed
      then elim (ssl.dsa_public seed) [
        | none ↦ err dsa_public_export
        | some pk ↦ if length pk == ml_dsa_public_key_bytes then ok pk else err dsa_public_export
      ]
      else err dsa_private_import

  unfoldable pub ml_dsa_65_sign : List ℕ → List ℕ → Result (List ℕ)
  ml_dsa_65_sign seed message =
      if ssl.imports_dsa_seed seed
      then (if ssl.starts_signing seed
          then elim (ssl.sign seed message) [
            | none ↦ err dsa_signing
            | some sig ↦ if length sig == ml_dsa_signature_bytes then ok sig else err dsa_signing
          ]
          else err dsa_signing_setup)
      else err dsa_private_import

  unfoldable pub ml_dsa_65_verify : List ℕ → List ℕ → List ℕ → Result Bool
  ml_dsa_65_verify public_key message signature =
      if ssl.imports_dsa_public public_key
      then (if ssl.starts_verification public_key
          then ok (ssl.verify public_key message signature)
          else err dsa_verification_setup)
      else err dsa_public_import
