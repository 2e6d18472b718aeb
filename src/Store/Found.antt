-- ===== src/Store/Found.antt =====
-- The searches find the first match.
use ratchet_usb.Prelude.{
  ℕ, suc, ◌+◌, ◌≡◌, refl, ap, inl, inr, Bool, true, false, List, [], ◌∷◌, ◌++◌, length, All, Option,
  none, some, ◌==◌, same_bytes, Bool-cases, arith,
}
use ratchet_usb.Store.Types.{Contact, Session, VaultStore}
use ratchet_usb.Store.Lookup.{first_index, find_contact, find_contact_by_identity, find_session}

module _ {A : Type 0} (test : A → Bool) where
  -- The element at the index, `base` counted in, passes the test and none before it does.
  abbrev pub IsFirst : List A → ℕ → Option ℕ → Type 0
  IsFirst xs base none = All (λ x. test x ≡ false) xs
  IsFirst xs base (some i) =
      (before : List A) × (x : A) × (after : List A) × (xs ≡ before ++ x ∷ after)
      × (i ≡ length before + base)
      × All (λ y. test y ≡ false) before
      × (test x ≡ true)

  later :
      (x : A) (xs : List A) (base : ℕ) (r : Option ℕ)
      → test x ≡ false
      → IsFirst xs (suc base) r
      → IsFirst (x ∷ xs) base r
  later x xs base none miss rest = (miss, rest)
  later x xs base (some i) miss (before, y, after, split, at, misses, hit) =
      (x ∷ before, y, after, ap (◌∷◌ x) split, omega arith, (miss, misses), hit)

  pub first_index-IsFirst : (xs : List A) (base : ℕ) → IsFirst xs base (first_index test xs base)
  unfolding first_index
  first_index-IsFirst [] base = tt
  first_index-IsFirst (x ∷ xs) base = elim (Bool-cases (test x)) [
    | inl hit ↦ rw hit ([], x, xs, refl, omega arith, tt, hit)
    | inr miss ↦
        rw miss (
          later x xs base (first_index test xs (suc base)) miss (first_index-IsFirst xs (suc base)))
  ]

-- find_contact, find_contact_by_identity and find_session return the index of the first match: the
-- element there matches and none before it does; with no index, no element matches.
pub find-IsFirst :
    (alias identity : List ℕ) (contact_index : ℕ) (store : VaultStore)
    → IsFirst (λ c. same_bytes c.alias alias) store.contacts 0 (find_contact alias store)
      × IsFirst
          (λ c. same_bytes c.identity_pub identity)
          store.contacts
          0
          (find_contact_by_identity identity store)
      × IsFirst
          (λ s. s.contact_index == contact_index)
          store.sessions
          0
          (find_session contact_index store)
unfolding find_contact find_contact_by_identity find_session
find-IsFirst alias identity contact_index store = (
  first_index-IsFirst (λ (c : Contact). same_bytes c.alias alias) store.contacts 0,
  first_index-IsFirst (λ (c : Contact). same_bytes c.identity_pub identity) store.contacts 0,
  first_index-IsFirst (λ (s : Session). s.contact_index == contact_index) store.sessions 0,
)
