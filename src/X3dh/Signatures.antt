-- ===== src/X3dh/Signatures.antt =====
-- src/pq.cpp and src/identity.cpp: what is signed verifies.
use ratchet_usb.Prelude.{
  arith, ℕ, ◌≡◌, refl, subst, Bool, true, false, List, length, Option, none, some, ◌==◌,
}
use ratchet_usb.Outcome.{ok, ok-injective}
use ratchet_usb.Pq.{OpenSsl, ml_dsa_65_sign, ml_dsa_65_verify}
use ratchet_usb.Identity.{Ed25519}
use ratchet_usb.Store.{ml_dsa_signature_bytes}

-- Ed25519: a signature has 64 bytes and verifies under the signer's public key.
pub record EdLaws (ed : Ed25519) : Type 0 where
  pub length-sign : (sk msg : List ℕ) → length (ed.sign sk msg) ≡ 64
  pub verify-sign : (sk msg : List ℕ) → ed.verify (ed.public_of sk) msg (ed.sign sk msg) ≡ true

-- ML-DSA: the public key of a seed can be used, and verifies what the seed signed.
pub record DsaLaws (ssl : OpenSsl) : Type 0 where
  pub public_imports :
      (seed pk : List ℕ) → ssl.dsa_public seed ≡ some pk → ssl.imports_dsa_public pk ≡ true
  pub public_starts :
      (seed pk : List ℕ) → ssl.dsa_public seed ≡ some pk → ssl.starts_verification pk ≡ true
  pub verify-sign :
      (seed pk msg sig : List ℕ)
      → ssl.dsa_public seed ≡ some pk
      → ssl.sign seed msg ≡ some sig
      → ssl.verify pk msg sig ≡ true

eq→size : (n m : ℕ) → (n == m) ≡ true → n ≡ m
eq→size n m h = ground arith

module _ (ssl : OpenSsl) (laws : DsaLaws ssl) (seed pk msg : List ℕ) where
  -- A signature that the wrapper returns has its size and verifies.
  pub ml_dsa_65_verify-ml_dsa_65_sign :
      (sig : List ℕ)
      → ssl.dsa_public seed ≡ some pk
      → ml_dsa_65_sign ssl seed msg ≡ ok sig
      → (ml_dsa_65_verify ssl pk msg sig ≡ ok true) × (length sig ≡ ml_dsa_signature_bytes)
  unfolding ml_dsa_65_sign
  ml_dsa_65_verify-ml_dsa_65_sign sig made h =
      by_import (ssl.imports_dsa_seed seed) (ssl.starts_signing seed) refl refl
    where
      by_size :
          (out : List ℕ) (right : Bool)
          → ssl.imports_dsa_seed seed ≡ true
          → ssl.starts_signing seed ≡ true
          → ssl.sign seed msg ≡ some out
          → (length out == ml_dsa_signature_bytes) ≡ right
          → (ml_dsa_65_verify ssl pk msg sig ≡ ok true) × (length sig ≡ ml_dsa_signature_bytes)
      by_size out false i s e f = absurd (cc (rw (i, s, e, f) at h))
      by_size out true i s e f =
          let same : out ≡ sig = ok-injective (rw (i, s, e, f) at h) in
          (
            unfold ml_dsa_65_verify in
                rw
                  (
                    ml_dsa_65_verify,
                    laws.public_imports seed pk made,
                    laws.public_starts seed pk made,
                    laws.verify-sign seed pk msg sig made
                        (subst (λ x. ssl.sign seed msg ≡ some x) same e),
                  )
                  refl,
            subst (λ (x : List ℕ). length x ≡ ml_dsa_signature_bytes) same
                (eq→size (length out) ml_dsa_signature_bytes f),
          )

      by_out :
          (out : Option (List ℕ))
          → ssl.imports_dsa_seed seed ≡ true
          → ssl.starts_signing seed ≡ true
          → ssl.sign seed msg ≡ out
          → (ml_dsa_65_verify ssl pk msg sig ≡ ok true) × (length sig ≡ ml_dsa_signature_bytes)
      by_out none i s e = absurd (cc (rw (i, s, e) at h))
      by_out (some out) i s e = by_size out _ i s e refl

      by_import :
          (imports starts : Bool)
          → ssl.imports_dsa_seed seed ≡ imports
          → ssl.starts_signing seed ≡ starts
          → (ml_dsa_65_verify ssl pk msg sig ≡ ok true) × (length sig ≡ ml_dsa_signature_bytes)
      by_import false starts i s = absurd (cc (rw i at h))
      by_import true false i s = absurd (cc (rw (i, s) at h))
      by_import true true i s = by_out (ssl.sign seed msg) i s refl
