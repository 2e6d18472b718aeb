-- ===== src/X3dh/Kem.antt =====
-- src/pq.cpp and src/x3dh.cpp: ML-KEM secrets are the same on both sides.
use ratchet_usb.Prelude.{
  ℕ, ◌≡◌, refl, sym, ap, subst, Bool, true, false, List, Option, none, some, length, ◌==◌,
}
use ratchet_usb.Outcome.{ok, ok-injective}
use ratchet_usb.Exec.{◌>>=◌}
use ratchet_usb.Exec.Done.{then-ok, calls-ok}
use ratchet_usb.Pq.{OpenSsl, ml_kem_768_encapsulate, ml_kem_768_decapsulate, shared_secret_bytes}
use ratchet_usb.Store.{Contact, PeerPqPrekey, PeerPqBundle, PqPrekey}
use ratchet_usb.X3dh.Steps.{
  picked, secret_in, ciphertext_in, encapsulate_picked, decapsulate_paired, card_of, take_pq_otpk,
}
use ratchet_usb.Message.{ml_kem_ciphertext_bytes}

-- The seed of a generated key can be used, and decapsulates what its public key encapsulated.
pub record KemLaws (ssl : OpenSsl) : Type 0 where
  pub seed_imports :
      (seed pk : List ℕ) → ssl.kem_public seed ≡ some pk → ssl.imports_kem_seed seed ≡ true
  pub seed_starts :
      (seed pk : List ℕ) → ssl.kem_public seed ≡ some pk → ssl.starts_decapsulation seed ≡ true
  pub decapsulate-encapsulate :
      (seed pk drawn ct ss : List ℕ)
      → ssl.kem_public seed ≡ some pk
      → ssl.encapsulate pk drawn ≡ some (ct, ss)
      → ssl.decapsulate seed ct ≡ some ss

-- The ML-KEM prekey of the card is one's own: the same id and public key, with its seed.
abbrev pub OwnPq : OpenSsl → Option PeerPqPrekey → Option PqPrekey → Type 0
OwnPq ssl none none = Unit
OwnPq ssl none (some k) = ⊥
OwnPq ssl (some p) none = ⊥
OwnPq ssl (some p) (some k) =
    (p.id ≡ k.id)
    × (p.pub_key ≡ k.key.public_key)
    × (ssl.kem_public k.key.private_seed ≡ some k.key.public_key)

module _ (ssl : OpenSsl) (laws : KemLaws ssl) where
  decapsulates :
      (seed pk drawn ct ss : List ℕ)
      → ssl.kem_public seed ≡ some pk
      → ssl.encapsulate pk drawn ≡ some (ct, ss)
      → (length ss == shared_secret_bytes) ≡ true
      → ml_kem_768_decapsulate ssl seed ct ≡ ok ss
  unfolding ml_kem_768_decapsulate
  decapsulates seed pk drawn ct ss made sealed size =
      rw
        (
          laws.seed_imports seed pk made,
          laws.seed_starts seed pk made,
          laws.decapsulate-encapsulate seed pk drawn ct ss made sealed,
          size,
        )
        refl

  -- What the wrapper encapsulates for a generated key, the wrapper decapsulates.
  pub decapsulate-encapsulate_wrapped :
      (seed pk drawn ct ss : List ℕ)
      → ssl.kem_public seed ≡ some pk
      → ml_kem_768_encapsulate ssl pk drawn ≡ ok (ct, ss)
      → ml_kem_768_decapsulate ssl seed ct ≡ ok ss
  unfolding ml_kem_768_encapsulate
  decapsulate-encapsulate_wrapped seed pk drawn ct ss made h =
      by_import (ssl.imports_kem_public pk) (ssl.starts_encapsulation pk) refl refl
    where
      by_size :
          (ct' ss' : List ℕ) (right fits : Bool)
          → ssl.imports_kem_public pk ≡ true
          → ssl.starts_encapsulation pk ≡ true
          → ssl.encapsulate pk drawn ≡ some (ct', ss')
          → (length ct' == ml_kem_ciphertext_bytes) ≡ right
          → (length ss' == shared_secret_bytes) ≡ fits
          → ml_kem_768_decapsulate ssl seed ct ≡ ok ss
      by_size ct' ss' false fits i s e f g = absurd (cc (rw (i, s, e, f) at h))
      by_size ct' ss' true false i s e f g = absurd (cc (rw (i, s, e, f, g) at h))
      by_size ct' ss' true true i s e f g =
          let pair = ok-injective (rw (i, s, e, f, g) at h) in
          subst (λ x. ml_kem_768_decapsulate ssl seed x ≡ ok ss) (ap (λ p. p.0) pair)
            (subst (λ x. ml_kem_768_decapsulate ssl seed ct' ≡ ok x) (ap (λ p. p.1) pair)
              (decapsulates seed pk drawn ct' ss' made e g))

      by_out :
          (out : Option (List ℕ × List ℕ))
          → ssl.imports_kem_public pk ≡ true
          → ssl.starts_encapsulation pk ≡ true
          → ssl.encapsulate pk drawn ≡ out
          → ml_kem_768_decapsulate ssl seed ct ≡ ok ss
      by_out none e f g = absurd (cc (rw (e, f, g) at h))
      by_out (some (ct', ss')) e f g = by_size ct' ss' _ _ e f g refl refl

      by_import :
          (imports starts : Bool)
          → ssl.imports_kem_public pk ≡ imports
          → ssl.starts_encapsulation pk ≡ starts
          → ml_kem_768_decapsulate ssl seed ct ≡ ok ss
      by_import false starts e f = absurd (cc (rw e at h))
      by_import true false e f = absurd (cc (rw (e, f) at h))
      by_import true true e f = by_out (ssl.encapsulate pk drawn) e f refl

  pub paired_agrees :
      (theirs : Option PeerPqPrekey) (mine : Option PqPrekey) (drawn : List ℕ)
      (one_time : Option (ℕ × List ℕ × List ℕ))
      → OwnPq ssl theirs mine
      → encapsulate_picked ssl theirs drawn ≡ ok one_time
      → decapsulate_paired ssl mine (ciphertext_in one_time) ≡ ok (secret_in one_time)
  unfolding encapsulate_picked decapsulate_paired
  paired_agrees none none drawn one_time own h =
      subst (λ o. decapsulate_paired ssl none (ciphertext_in o) ≡ ok (secret_in o)) (ok-injective h)
        refl
  paired_agrees none (some k) drawn one_time own h = absurd own
  paired_agrees (some p) none drawn one_time own h = absurd own
  paired_agrees (some p) (some k) drawn one_time own h =
      let ((ct, ss), e, same) = then-ok (ml_kem_768_encapsulate ssl p.pub_key drawn) _ one_time h in
      subst (λ o. decapsulate_paired ssl (some k) (ciphertext_in o) ≡ ok (secret_in o))
        (ok-injective same)
        (rw
          (decapsulate-encapsulate_wrapped k.key.private_seed k.key.public_key drawn ct ss own.2
            (subst (λ pk. ml_kem_768_encapsulate ssl pk drawn ≡ ok (ct, ss)) own.1 e))
          refl)

-- The ML-KEM prekey that leaves the card is the one picked, and the contact is the same.
pub take_pq_otpk-ok :
    (drawn : ℕ) (bundle : PeerPqBundle) (key : Option PeerPqPrekey) (u v : Contact)
    → take_pq_otpk drawn bundle u ≡ (ok key, v)
    → (key ≡ picked drawn bundle.one_time_prekeys) × (v.identity_pub ≡ u.identity_pub)
unfolding take_pq_otpk ◌>>=◌
take_pq_otpk-ok drawn bundle key u v h =
    let (card, e, same) = calls-ok card_of _ u v key h in
    (sym (ok-injective (ap (λ x. x.0) same)), sym (ap (λ x. x.1.identity_pub) same))
