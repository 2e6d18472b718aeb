-- ===== src/Rollback/Validated.antt =====
-- src/rollback.cpp: what an anchor that `validate` accepts says of the vault.
use ratchet_usb.Prelude.{
  ℕ, ◌+◌, ◌-◌, ◌%◌, ◌^◌, ◌<◌, ◌≡◌, ap, subst, ◌∙◌, refl, inl, inr, Bool, true, not, ◌&&◌, List,
  Bool-cases, ltb, ◌==◌, same_bytes, same_bytes→eq, if◌then◌else◌, arith,
}
use ratchet_usb.Outcome.{Result, ok, err, ok-injective, ◌>=>◌, anchor_not_authentic}
use ratchet_usb.Crypto.{Crypto}
use ratchet_usb.Store.{VaultStore}
use ratchet_usb.Rollback.{
  AnchorRecord, AnchorStatus, protected, unprotected, advanced_after_crash, tag_of,
  check_generation, validate,
}

module _ (c : Crypto) (anchor : AnchorRecord) (usb : VaultStore) (usb_digest : List ℕ) where
  -- The vault is the one that the anchor saw, or its immediate successor.
  unfoldable pub IsCurrent : AnchorStatus → Type 0
  IsCurrent protected = (usb.generation ≡ anchor.generation) × (anchor.vault_digest ≡ usb_digest)
  IsCurrent unprotected = ⊥
  IsCurrent advanced_after_crash =
      (usb.generation ≡ anchor.generation + 1) × (usb.previous_digest ≡ anchor.vault_digest)

  current :
      (s : AnchorStatus)
      → anchor.generation < 2 ^ 64
      → check_generation c anchor usb usb_digest ≡ ok s
      → IsCurrent s
  unfolding check_generation IsCurrent
  current s fits h = elim (Bool-cases (ltb usb.generation anchor.generation)) [
    | inl old ↦ absurd (cc (rw old at h))
    | inr recent ↦ elim (Bool-cases (usb.generation == anchor.generation)) [
      | inl same ↦ elim (Bool-cases (same_bytes anchor.vault_digest usb_digest)) [
        | inl seen ↦
            subst IsCurrent (ok-injective (rw (recent, same, seen) at h))
              (ground arith, same_bytes→eq anchor.vault_digest usb_digest seen)
        | inr other ↦ absurd (cc (rw (recent, same, other) at h))
      ]
      | inr ahead ↦ elim (Bool-cases successor) [
        | inl next ↦ subst IsCurrent (ok-injective (rw (recent, ahead, next) at h)) (follows next)
        | inr gap ↦ absurd (cc (rw (recent, ahead, gap) at h))
      ]
    ]
  ]
    where
      successor : Bool
      successor =
          not (anchor.generation == 2 ^ 64 - 1)
          && (usb.generation == (anchor.generation + 1) % 2 ^ 64
              && same_bytes usb.previous_digest anchor.vault_digest)

      follows :
          successor ≡ true
          → (usb.generation ≡ anchor.generation + 1) × (usb.previous_digest ≡ anchor.vault_digest)
      follows next =
          (ground arith, same_bytes→eq usb.previous_digest anchor.vault_digest (ground arith))

  -- The part of `validate` behind the tests of the record and the vault's id.
  by_tag :
      (s : AnchorStatus) (r : Result (List ℕ))
      → anchor.generation < 2 ^ 64
      → tag_of c anchor usb.seed ≡ r
      → (r >=> λ tag.
          if not (same_bytes tag anchor.mac)
          then err anchor_not_authentic
          else check_generation c anchor usb usb_digest)
        ≡ ok s
      → (tag_of c anchor usb.seed ≡ ok anchor.mac) × IsCurrent s
  by_tag s (err e) fits t h = absurd (cc h)
  by_tag s (ok tag) fits t h = elim (Bool-cases (same_bytes tag anchor.mac)) [
    | inr forged ↦ absurd (cc (rw forged at h))
    | inl genuine ↦
        (t ∙ ap ok (same_bytes→eq tag anchor.mac genuine), current s fits (rw genuine at h))
  ]

  -- An anchor with a 64-bit generation that `validate` accepts is authenticated, names the vault,
  -- carries the tag under the key of the vault's seed, and shows that the vault is not an old copy:
  -- it is reported as protected and has the anchor's generation and digest, or as advanced after a
  -- crash and has the next generation, with the anchor's digest as its previous one.
  pub validate-IsCurrent :
      (s : AnchorStatus)
      → anchor.generation < 2 ^ 64
      → validate c anchor usb usb_digest ≡ ok s
      → (anchor.authenticated ≡ true)
        × (anchor.vault_id ≡ usb.vault_id)
        × (tag_of c anchor usb.seed ≡ ok anchor.mac)
        × IsCurrent s
  unfolding validate
  validate-IsCurrent s fits h = elim (Bool-cases anchor.authenticated) [
    | inr legacy ↦ absurd (cc (rw legacy at h))
    | inl signed ↦ elim (Bool-cases (same_bytes anchor.vault_id usb.vault_id)) [
      | inr other ↦ absurd (cc (rw (signed, other) at h))
      | inl same ↦
          let (tagged, now) =
            by_tag s (tag_of c anchor usb.seed) fits refl (rw (signed, same) at h) in
          (signed, same_bytes→eq anchor.vault_id usb.vault_id same, tagged, now)
    ]
  ]
