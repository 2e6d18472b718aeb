-- ===== src/X3dh/Picked.antt =====
-- The random pick of a one-time prekey in `initiate`, apart from how it is computed.
use ratchet_usb.Prelude.{
  ℕ, zero, suc, ◌%◌, ◌<◌, ◌≡◌, refl, sym, ap, subst, List, [], ◌∷◌, ◌++◌, length, Option, none,
  some, get_elem?, remove_at, arith,
}
use native.Mathlib.Nat.{mod-lt, zero-lt-suc}
use ratchet_usb.X3dh.Steps.{picked, without_picked}

-- The list `ys` is `xs` without its element at the drawn index, which has the id that is named;
-- nothing is named only where there is nothing to take.
pub data TakenFrom {A : Type 0} (id_of : A → ℕ) (drawn : ℕ) (xs : List A)
    : Option ℕ → List A → Type 0 where
  none_left : xs ≡ [] → TakenFrom id_of drawn xs none []
  one_taken :
      (before : List A) (a : A) (after : List A)
      → xs ≡ before ++ a ∷ after
      → length before ≡ drawn % length xs
      → TakenFrom id_of drawn xs (some (id_of a)) (before ++ after)

module _ {A : Type 0} where
  -- A list cut at an index within it.
  record Cut (xs : List A) (n : ℕ) : Type 0 where
    before : List A
    at : A
    after : List A
    whole : xs ≡ before ++ at ∷ after
    place : length before ≡ n
    found : get_elem? xs n ≡ some at
    others : remove_at xs n ≡ before ++ after

  cut : (xs : List A) (n : ℕ) → n < length xs → Cut xs n
  cut [] n h = absurd (omega arith)
  cut (x ∷ xs) zero h = record {
    before = [];
    at = x;
    after = xs;
    whole = refl;
    place = refl;
    found = refl;
    others = refl;
  }
  cut (x ∷ xs) (suc n) h =
      let k = cut xs n (omega arith) in
      record {
        before = x ∷ k.before;
        at = k.at;
        after = k.after;
        whole = ap (◌∷◌ x) k.whole;
        place = ap suc k.place;
        found = k.found;
        others = ap (◌∷◌ x) k.others;
      }

  module _ (id_of : A → ℕ) (named : Option A → Option ℕ) (named_none : named none ≡ none)
      (named_some : (a : A) → named (some a) ≡ some (id_of a)) (drawn : ℕ) where
    -- What is picked is taken from the list.
    pub picked-TakenFrom :
        (xs : List A) → TakenFrom id_of drawn xs (named (picked drawn xs)) (without_picked drawn xs)
    unfolding picked without_picked
    picked-TakenFrom [] =
        subst (λ m. TakenFrom id_of drawn [] m []) (sym named_none) (none_left refl)
    picked-TakenFrom (x ∷ xs) =
        by_cut (cut (x ∷ xs) (drawn % suc (length xs)) (mod-lt drawn (zero-lt-suc (length xs))))
      where
        by_cut :
            Cut (x ∷ xs) (drawn % length (x ∷ xs))
            → TakenFrom id_of drawn
                (x ∷ xs)
                (named (picked drawn (x ∷ xs)))
                (without_picked drawn (x ∷ xs))
        by_cut k =
            rw (k.found, named_some k.at, k.others)
              (one_taken k.before k.at k.after k.whole k.place)
