-- ===== src/Ratchet/Atomic.antt =====
-- src/ratchet.cpp: decrypt adopts the session that decrypt_in_place advanced, or leaves it alone.
use ratchet_usb.Prelude.{ℕ, ◌≡◌, ◌⊎◌, inl, inr, refl, sym, ap, ◌∙◌, List, Option}
use ratchet_usb.Outcome.{Result, Error, ok, err}
use ratchet_usb.Crypto.{Crypto}
use ratchet_usb.Message.{RatchetHeader}
use ratchet_usb.Store.{Session}
use ratchet_usb.Ratchet.Steps.{KeyPair}
use ratchet_usb.Ratchet.Decrypt.{Clock, decrypt_in_place, decrypt, clone_session}

module _ (c : Crypto) (header : RatchetHeader) (ciphertext aad_prefix : List ℕ)
    (pq_message_key : Option (List ℕ)) (fresh : KeyPair) (clock : Clock) (s : Session) where
  -- The call as decrypt makes it and as the caller sees it.
  abbrev inside : Result (List ℕ) × Session
  inside = decrypt_in_place c header ciphertext aad_prefix pq_message_key fresh clock s

  abbrev outside : Result (List ℕ) × Session
  outside = decrypt c header ciphertext aad_prefix pq_message_key fresh clock s

  -- `decrypt` is atomic: either it throws what decrypt_in_place throws and the session is the one
  -- that was passed in, or it returns the plaintext and the session that decrypt_in_place returned
  -- on its copy.
  pub decrypt_atomic :
      ((e : Error) × (inside.0 ≡ err e) × (outside ≡ (err e, s)))
      ⊎ ((plaintext : List ℕ) × (inside.0 ≡ ok plaintext) × (outside ≡ inside))
  unfolding decrypt clone_session
  decrypt_atomic = adopted inside refl
    where
      adopted :
          (r : Result (List ℕ) × Session)
          → inside ≡ r
          → ((e : Error) × (inside.0 ≡ err e) × (outside ≡ (err e, s)))
            ⊎ ((plaintext : List ℕ) × (inside.0 ≡ ok plaintext) × (outside ≡ inside))
      adopted (ok plaintext, t) h = inr (plaintext, ap (λ r. r.0) h, rw h refl)
      adopted (err e, t) h = inl (e, ap (λ r. r.0) h, rw h refl)

  -- Where it throws, the session is the one that was passed in.
  pub decrypt_unchanged : (t : Session) (e : Error) → outside ≡ (err e, t) → t ≡ s
  decrypt_unchanged t e h = elim decrypt_atomic [
    | inl (x, _, out) ↦ sym (ap (λ r. r.1) h) ∙ ap (λ r. r.1) out
    | inr (plaintext, inner, out) ↦
        absurd (never (sym (ap (λ r. r.0) h) ∙ ap (λ r. r.0) out ∙ inner))
  ]
    where
      never : {A : Type 0} {x : Error} {a : A} → err x ≡ ok a → ⊥
      never p = cc
