-- ===== src/Store/Lookup.antt =====
-- src/store.cpp: the searches in a vault. An index of -1 is `none`.
use ratchet_usb.Prelude.{
  ℕ, suc, Bool, List, [], ◌∷◌, Option, none, some, ◌==◌, same_bytes, if◌then◌else◌,
}
use ratchet_usb.Store.Types.{VaultStore}

-- The index of the first element that passes the test: the loop that returns at the first match.
unfoldable pub first_index {ℓ} : {A : Type ℓ} → (A → Bool) → List A → ℕ → Option ℕ
first_index test [] i = none
first_index test (x ∷ xs) i =
    let rest = first_index test xs (suc i) in if test x then some i else rest

unfoldable pub find_contact : List ℕ → VaultStore → Option ℕ
unfolding first_index
find_contact alias store = first_index (λ c. same_bytes c.alias alias) store.contacts 0

unfoldable pub find_contact_by_identity : List ℕ → VaultStore → Option ℕ
unfolding first_index
find_contact_by_identity id store = first_index (λ c. same_bytes c.identity_pub id) store.contacts 0

unfoldable pub find_session : ℕ → VaultStore → Option ℕ
unfolding first_index
find_session contact_index store =
    first_index (λ s. s.contact_index == contact_index) store.sessions 0
