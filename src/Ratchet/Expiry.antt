-- ===== src/Ratchet/Expiry.antt =====
-- src/ratchet.cpp: expire_skipped_keys.
use ratchet_usb.Prelude.{
  ℕ, suc, ◌+◌, ◌-◌, ◌≤◌, ◌≡◌, refl, subst, inl, inr, true, false, List, [], ◌∷◌, length, Bool-cases,
  arith,
}
use ratchet_usb.Store.{Session, SkippedKey}
use ratchet_usb.Ratchet.Steps.{skipped_key_max_age_seconds, stale, keep_fresh, expire_skipped_keys}
use ratchet_usb.Ratchet.Bounds.{length-keep_fresh-le}

-- A key that is not too old at `now`, or that comes from a clock ahead of it.
abbrev pub IsFresh : ℕ → SkippedKey → Type 0
IsFresh now sk = now ≤ sk.created_at + skipped_key_max_age_seconds

-- At `now`, `ys` are the fresh keys of `xs`, in their order, and the number is that of the others.
pub data Expired (now : ℕ) : List SkippedKey → List SkippedKey → ℕ → Type 0 where
  at_end : Expired now [] [] 0
  kept :
      (sk : SkippedKey) (xs ys : List SkippedKey) (dropped : ℕ)
      → IsFresh now sk
      → Expired now xs ys dropped
      → Expired now (sk ∷ xs) (sk ∷ ys) dropped
  left :
      (sk : SkippedKey) (xs ys : List SkippedKey) (dropped : ℕ)
      → ¬ IsFresh now sk
      → Expired now xs ys dropped
      → Expired now (sk ∷ xs) ys (suc dropped)

not_stale-IsFresh : (now : ℕ) (sk : SkippedKey) → stale now sk ≡ false → IsFresh now sk
unfolding stale
not_stale-IsFresh now sk h = ground arith

stale_old : (now : ℕ) (sk : SkippedKey) → stale now sk ≡ true → ¬ IsFresh now sk
unfolding stale
stale_old now sk h = λ f. ground arith

keep_fresh-Expired :
    (now : ℕ) (sks : List SkippedKey)
    → Expired now sks (keep_fresh now sks) (length sks - length (keep_fresh now sks))
unfolding keep_fresh
keep_fresh-Expired now [] = subst (Expired now [] []) (omega arith) at_end
keep_fresh-Expired now (sk ∷ sks) = elim (Bool-cases (stale now sk)) [
  | inl old ↦ rw old (
      subst (Expired now (sk ∷ sks) (keep_fresh now sks))
        (omega (arith, length-keep_fresh-le now sks))
        (left sk sks (keep_fresh now sks) _ (stale_old now sk old) (keep_fresh-Expired now sks)))
  | inr fresh ↦ rw fresh (
      subst (Expired now (sk ∷ sks) (sk ∷ keep_fresh now sks)) (omega arith) (
        kept sk sks (keep_fresh now sks) _ (not_stale-IsFresh now sk fresh)
          (keep_fresh-Expired now sks)))
]

-- Expiry keeps exactly the fresh keys. Whatever is cached, the keys that are left are those that
-- are at most kSkippedKeyMaxAgeSeconds old or stamped in the future, in their order; the number
-- returned is that of all the others; and nothing else of the session changes.
pub expire_skipped_keys_exact :
    (now : ℕ) (s : Session)
    → Expired now s.skipped (expire_skipped_keys now s).1.skipped (expire_skipped_keys now s).0
      × ((expire_skipped_keys now s).1
          ≡ record s { skipped = (expire_skipped_keys now s).1.skipped })
unfolding expire_skipped_keys
expire_skipped_keys_exact now s = (keep_fresh-Expired now s.skipped, refl)
