-- ===== src/Prelude/Lists.antt =====
-- Lists measured and indexed by native numbers, under the library's names.
use Prim.Native.Nat.{ℕ, zero, suc, ◌+◌, ◌-◌, ◌≤◌, min}
use mathlib.Core.Path.{◌≡◌, refl, sym, ap, subst, ◌∙◌}
use mathlib.Core.List.{List, [], ◌∷◌, ◌++◌}
use mathlib.Core.Option.{Option, none, some}
use native.Mathlib.Omega.{arith}

module _ {ℓ} {A : Type ℓ} where
  abbrev pub length : List A → ℕ
  length [] = 0
  length (x ∷ xs) = suc (length xs)

  abbrev pub take : ℕ → List A → List A
  take zero xs = []
  take (suc n) [] = []
  take (suc n) (x ∷ xs) = x ∷ take n xs

  abbrev pub drop : ℕ → List A → List A
  drop zero xs = xs
  drop (suc n) [] = []
  drop (suc n) (x ∷ xs) = drop n xs

  abbrev pub replicate : ℕ → A → List A
  replicate zero a = []
  replicate (suc n) a = a ∷ replicate n a

  abbrev pub concat : List (List A) → List A
  concat [] = []
  concat (xs ∷ more) = xs ++ concat more

  -- The element at an index, if there is one.
  abbrev pub get_elem? : List A → ℕ → Option A
  get_elem? [] i = none
  get_elem? (x ∷ xs) zero = some x
  get_elem? (x ∷ xs) (suc i) = get_elem? xs i

  -- `v[i] = a`, where there is an element at `i`.
  abbrev pub set : List A → ℕ → A → List A
  set [] i a = []
  set (x ∷ xs) zero a = a ∷ xs
  set (x ∷ xs) (suc i) a = x ∷ set xs i a

  -- `v.erase(v.begin() + i)`
  abbrev pub remove_at : List A → ℕ → List A
  remove_at [] i = []
  remove_at (x ∷ xs) zero = xs
  remove_at (x ∷ xs) (suc i) = x ∷ remove_at xs i

  abbrev pub All {κ} : (A → Type κ) → List A → Type κ
  All P [] = Unit {κ}
  All P (x ∷ xs) = P x × All P xs

  pub length-append : (xs ys : List A) → length (xs ++ ys) ≡ length xs + length ys
  length-append [] ys = omega arith
  length-append (x ∷ xs) ys = omega (arith, length-append xs ys)

  pub take-append-drop : (n : ℕ) (xs : List A) → take n xs ++ drop n xs ≡ xs
  take-append-drop zero xs = refl
  take-append-drop (suc n) [] = refl
  take-append-drop (suc n) (x ∷ xs) = rw (take-append-drop n xs)

  pub length-take : (n : ℕ) (xs : List A) → length (take n xs) ≡ min n (length xs)
  length-take zero xs = omega arith
  length-take (suc n) [] = omega arith
  length-take (suc n) (x ∷ xs) = omega (arith, length-take n xs)

  pub length-drop : (n : ℕ) (xs : List A) → length (drop n xs) ≡ length xs - n
  length-drop zero xs = omega arith
  length-drop (suc n) [] = omega arith
  length-drop (suc n) (x ∷ xs) = omega (arith, length-drop n xs)

  pub length-replicate : (n : ℕ) (a : A) → length (replicate n a) ≡ n
  length-replicate zero a = refl
  length-replicate (suc n) a = ap suc (length-replicate n a)

  pub take-append : (xs ys : List A) → take (length xs) (xs ++ ys) ≡ xs
  take-append [] ys = refl
  take-append (x ∷ xs) ys = rw (take-append xs ys)

  pub drop-append : (xs ys : List A) → drop (length xs) (xs ++ ys) ≡ ys
  drop-append [] ys = refl
  drop-append (x ∷ xs) ys = drop-append xs ys

-- Cutting a list at an offset.
module _ {ℓ} {A : Type ℓ} where
  pub take-split : (n k : ℕ) (xs : List A) → take n xs ++ take k (drop n xs) ≡ take (n + k) xs
  take-split zero k xs = ap (λ (m : ℕ). take m xs) (none_more k)
    where
      none_more : (k : ℕ) → k ≡ 0 + k
      none_more k = omega arith
  take-split (suc n) k [] = take-nil k ∙ sym (take-nil (suc n + k))
    where
      take-nil : (n : ℕ) → take {A = A} n [] ≡ []
      take-nil zero = refl
      take-nil (suc n) = refl
  take-split (suc n) k (x ∷ xs) =
      ap (◌∷◌ x) (take-split n k xs) ∙ ap (λ (m : ℕ). take m (x ∷ xs)) (shift n k)
    where
      shift : (n k : ℕ) → suc (n + k) ≡ suc n + k
      shift n k = omega arith

  pub drop-append_more :
      (n k : ℕ) (xs ys : List A) → length xs ≡ n → drop (n + k) (xs ++ ys) ≡ drop k ys
  drop-append_more n k [] ys h = ap (λ (m : ℕ). drop m ys) (all_left n k h)
    where
      all_left : (n k : ℕ) → 0 ≡ n → n + k ≡ k
      all_left n k h = omega arith
  drop-append_more zero k (x ∷ xs) ys h = absurd (omega arith)
  drop-append_more (suc n) k (x ∷ xs) ys h =
      ap (λ (m : ℕ). drop m (x ∷ (xs ++ ys))) (shift n k) ∙ drop-append_more n k xs ys (omega arith)
    where
      shift : (n k : ℕ) → suc n + k ≡ suc (n + k)
      shift n k = omega arith

  pub take-append_exact : (n : ℕ) (xs ys : List A) → length xs ≡ n → take n (xs ++ ys) ≡ xs
  take-append_exact n xs ys h = subst (λ (m : ℕ). take m (xs ++ ys) ≡ xs) h (take-append xs ys)

  pub drop-append_exact : (n : ℕ) (xs ys : List A) → length xs ≡ n → drop n (xs ++ ys) ≡ ys
  drop-append_exact n xs ys h = subst (λ (m : ℕ). drop m (xs ++ ys) ≡ ys) h (drop-append xs ys)

  pub All-drop {κ} : (P : A → Type κ) (n : ℕ) (xs : List A) → All P xs → All P (drop n xs)
  All-drop P zero xs h = h
  All-drop P (suc n) [] h = tt
  All-drop P (suc n) (x ∷ xs) h = All-drop P n xs h.1

pub some-injective {ℓ} : {A : Type ℓ} {a b : A} → some a ≡ some b → a ≡ b
some-injective p = cc

module _ {ℓ} {A : Type ℓ} where
  -- An element written back to its place changes nothing.
  pub set-get_elem? : (xs : List A) (i : ℕ) (x : A) → get_elem? xs i ≡ some x → set xs i x ≡ xs
  set-get_elem? [] i x h = refl
  set-get_elem? (y ∷ xs) zero x h = ap (λ z. z ∷ xs) (sym (some-injective h))
  set-get_elem? (y ∷ xs) (suc i) x h = ap (◌∷◌ y) (set-get_elem? xs i x h)

module _ {ℓ κ} {A : Type ℓ} (P : A → Type κ) where
  pub All-append : (xs ys : List A) → All P xs → All P ys → All P (xs ++ ys)
  All-append [] ys p q = q
  All-append (x ∷ xs) ys p q = (p.0, All-append xs ys p.1 q)

module _ {ℓ} {A : Type ℓ} where
  pub take-append_split :
      (n : ℕ) (xs ys : List A) → take n (xs ++ ys) ≡ take n xs ++ take (n - length xs) ys
  take-append_split zero [] ys = refl
  take-append_split zero (x ∷ xs) ys = ap (λ (m : ℕ). take m ys) (none_left (suc (length xs)))
    where
      none_left : (m : ℕ) → 0 ≡ 0 - m
      none_left m = omega arith
  take-append_split (suc n) [] ys = ap (λ (m : ℕ). take m ys) (all_left n)
    where
      all_left : (n : ℕ) → suc n ≡ suc n - 0
      all_left n = omega arith
  take-append_split (suc n) (x ∷ xs) ys =
      rw (take-append_split n xs ys)
        (ap (λ (m : ℕ). x ∷ (take n xs ++ take m ys)) (shift n (length xs)))
    where
      shift : (n k : ℕ) → n - k ≡ suc n - suc k
      shift n k = omega arith

  pub take-min : (n : ℕ) (xs : List A) → take (min (length xs) n) xs ≡ take n xs
  take-min zero xs = ap (λ (m : ℕ). take m xs) (least (length xs))
    where
      least : (k : ℕ) → min k 0 ≡ 0
      least k = omega arith
  take-min (suc n) [] = ap (λ (m : ℕ). take {A = A} m []) (least n)
    where
      least : (n : ℕ) → min 0 (suc n) ≡ 0
      least n = omega arith
  take-min (suc n) (x ∷ xs) =
      ap (λ (m : ℕ). take m (x ∷ xs)) (step (length xs) n) ∙ ap (◌∷◌ x) (take-min n xs)
    where
      step : (k n : ℕ) → min (suc k) (suc n) ≡ suc (min k n)
      step k n = omega arith

-- `v[i]`; an index out of range is not reached where the source reads one.
abbrev pub byte_at : List ℕ → ℕ → ℕ
byte_at [] i = 0
byte_at (x ∷ xs) zero = x
byte_at (x ∷ xs) (suc i) = byte_at xs i

pub byte_at-append_right :
    (n i : ℕ) (xs ys : List ℕ) → n ≡ length xs + i → byte_at (xs ++ ys) n ≡ byte_at ys i
byte_at-append_right n i [] ys h = ap (λ (m : ℕ). byte_at ys m) (same n i h)
  where
    same : (n i : ℕ) → n ≡ 0 + i → n ≡ i
    same n i h = omega arith
byte_at-append_right zero i (x ∷ xs) ys h = absurd (omega arith)
byte_at-append_right (suc n) i (x ∷ xs) ys h = byte_at-append_right n i xs ys (omega arith)

pub byte_at-replicate : (n i v : ℕ) → suc i ≤ n → byte_at (replicate n v) i ≡ v
byte_at-replicate zero i v h = absurd (omega arith)
byte_at-replicate (suc n) zero v h = refl
byte_at-replicate (suc n) (suc i) v h = byte_at-replicate n i v (omega arith)
