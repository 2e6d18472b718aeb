-- ===== src/Serial/Trip.antt =====
-- Round trips: what a writer appends, a reader reads back, whatever follows.
use ratchet_usb.Prelude.{
  ℕ, ◌+◌, ◌*◌, ◌/◌, ◌%◌, ◌≤◌, ◌<◌, ◌^◌, ◌≡◌, refl, sym, ◌∙◌, Bool, true, List, [], ◌∷◌, ◌++◌,
  append_assoc, append-nil, subst, All, length, length-append, take-append, drop-append, arith,
  le→ltb,
}
use ratchet_usb.Outcome.{
  ok-injective, built, Result, call, Action, Error, ok, pure, guard, ◌>>=◌, ◌>>◌,
}
use ratchet_usb.Serial.Writer
use ratchet_usb.Serial.Writer.{Writing}
use ratchet_usb.Serial.Reader

-- `w` appends `image` to any sink, and `r` reads `a` from it and leaves the rest.
pub record Trip {ℓ} {A : Type ℓ} (w : Writing) (r : Action A) (a : A) : Type ℓ where
  pub image : List ℕ
  pub writes : (out : List ℕ) → w out ≡ ok (tt, out ++ image)
  pub reads : (rest : List ℕ) → r (image ++ rest) ≡ ok (a, rest)

-- One field after another.
pub Trip-bind {ℓ κ} :
    {A : Type ℓ} {B : Type κ} {w : Writing} {r : Action A} {a : A} {b : B} (w' : Writing)
    (k : A → Action B)
    → Trip w r a
    → Trip w' (k a) b
    → Trip (w >> w') (r >>= k) b
Trip-bind w' k t t' = record {
  image = t.image ++ t'.image;
  writes = λ out. rw (t.writes out, ◌>>◌) (rw (t'.writes (out ++ t.image), append_assoc) refl);
  reads = λ rest. rw (append_assoc, t.reads (t'.image ++ rest), ◌>>=◌) (t'.reads rest);
}

-- The last field.
pub Trip-last {ℓ κ} :
    {A : Type ℓ} {B : Type κ} {w : Writing} {r : Action A} {a : A} (f : A → B)
    → Trip w r a
    → Trip w (r >>= λ x. pure (f x)) (f a)
Trip-last f t = record {
  image = t.image;
  writes = t.writes;
  reads = λ rest. rw (t.reads rest, ◌>>=◌) refl;
}

-- A check of the reader that the written value passes.
pub Trip-guard {ℓ} :
    {A : Type ℓ} {w : Writing} {a : A} (c : Bool) (e : Error) (r : Action A)
    → c ≡ true
    → Trip w r a
    → Trip w (guard c e >> r) a
Trip-guard c e r h t = record {
  image = t.image;
  writes = t.writes;
  reads = λ rest. rw (h, guard, ◌>>◌) (t.reads rest);
}

-- A check of the writer that the value passes.
pub Trip-guard_write {ℓ} :
    {A : Type ℓ} {r : Action A} {a : A} (c : Bool) (e : Error) (w : Writing)
    → c ≡ true
    → Trip w r a
    → Trip (guard c e >> w) r a
Trip-guard_write c e w h t = record {
  image = t.image;
  writes = λ out. rw (h, guard, ◌>>◌) (t.writes out);
  reads = t.reads;
}

need-le : (n : ℕ) (s : List ℕ) → n ≤ length s → Reader.need n s ≡ ok (tt, s)
unfolding Reader.need
need-le n s h = rw (le→ltb (length s) n h)

pub Trip-u8 : (v : ℕ) → Trip (Writer.u8 v) Reader.u8 v
unfolding Writer.u8 Reader.u8 Reader.need Reader.fetch
Trip-u8 v = record { image = v ∷ []; writes = λ out. refl; reads = λ rest. ground arith }

need-append : (xs rest : List ℕ) → Reader.need (length xs) (xs ++ rest) ≡ ok (tt, xs ++ rest)
need-append xs rest = need-le (length xs) (xs ++ rest) (omega (arith, length-append xs rest))

advance-append : (xs rest : List ℕ) → Reader.advance (length xs) (xs ++ rest) ≡ ok (xs, rest)
unfolding Reader.advance
advance-append xs rest = rw (take-append, drop-append) refl

reads-bytes : (xs rest : List ℕ) → Reader.bytes (length xs) (xs ++ rest) ≡ ok (xs, rest)
unfolding Reader.bytes
reads-bytes xs rest = rw (need-append xs rest, ◌>>◌) (advance-append xs rest)

-- `bytes n` reads back what was written, if the length is `n`.
pub Trip-bytes : (n : ℕ) (xs : List ℕ) → length xs ≡ n → Trip (Writer.bytes xs) (Reader.bytes n) xs
unfolding Writer.bytes
Trip-bytes n xs h = record {
  image = xs;
  writes = λ out. refl;
  reads = λ rest. subst (λ m. Reader.bytes m (xs ++ rest) ≡ ok (xs, rest)) h (reads-bytes xs rest);
}

u32_value :
    (v : ℕ)
    → v < 2 ^ 32
    → v % 256 + v / 2 ^ 8 % 256 * 2 ^ 8 + v / 2 ^ 16 % 256 * 2 ^ 16 + v / 2 ^ 24 % 256 * 2 ^ 24 ≡ v
u32_value v h = omega arith

pub Trip-u32 : (v : ℕ) → v < 2 ^ 32 → Trip (Writer.u32 v) Reader.u32 v
unfolding Writer.u32 Reader.u32 Reader.fetch
Trip-u32 v h = record {
  image = image;
  writes = λ out. refl;
  reads = λ rest. rw (need-append image rest, ◌>>◌) (rw (u32_value v h) refl);
}
  where
    image : List ℕ
    image = v % 256 ∷ v / 2 ^ 8 % 256 ∷ v / 2 ^ 16 % 256 ∷ v / 2 ^ 24 % 256 ∷ []

u64_value : (v : ℕ) → v < 2 ^ 64 → v % 2 ^ 32 + v / 2 ^ 32 % 2 ^ 32 * 2 ^ 32 ≡ v
u64_value v h = omega arith

pub Trip-u64 : (v : ℕ) → v < 2 ^ 64 → Trip (Writer.u64 v) Reader.u64 v
unfolding Writer.u64 Reader.u64
Trip-u64 v h = subst (Trip _ _) (u64_value v h) (
    Trip-bind _ _ (Trip-u32 (v % 2 ^ 32) (omega arith))
      (Trip-last (λ hi. v % 2 ^ 32 + hi * 2 ^ 32) (Trip-u32 (v / 2 ^ 32 % 2 ^ 32) (omega arith))))

-- A length-prefixed field comes back whole if its length fits the prefix.
pub Trip-blob : (xs : List ℕ) → length xs < 2 ^ 32 → Trip (Writer.blob xs) Reader.blob xs
unfolding Writer.blob Reader.blob Writer.bytes
Trip-blob xs h =
    Trip-guard_write _ _ _ (rw (le→ltb Writer.max_u32 (length xs) (omega arith)))
      (Trip-bind _ _ (Trip-u32 (length xs) h) tail)
  where
    tail : Trip (Writer.bytes xs) (Reader.need (length xs) >> Reader.advance (length xs)) xs
    tail = record {
      image = xs;
      writes = λ out. refl;
      reads = λ rest. rw (need-append xs rest, ◌>>◌) (advance-append xs rest);
    }

pub Trip-str : (xs : List ℕ) → length xs < 2 ^ 32 → Trip (Writer.str xs) Reader.str xs
unfolding Writer.str Reader.str
Trip-str xs h = Trip-blob xs h

pub Trip-secure_blob :
    (max_len : ℕ) (xs : List ℕ)
    → length xs ≤ max_len
    → length xs < 2 ^ 32
    → Trip (Writer.blob xs) (Reader.secure_blob max_len) xs
unfolding Writer.blob Reader.secure_blob
Trip-secure_blob max_len xs fits h =
    Trip-guard_write _ _ _ (rw (le→ltb Writer.max_u32 (length xs) (omega arith))) (
      Trip-bind _ _ (Trip-u32 (length xs) h)
        (Trip-guard _ _ _ (rw (le→ltb max_len (length xs) fits)) tail))
  where
    tail : Trip (Writer.bytes xs) (Reader.need (length xs) >> Reader.bytes (length xs)) xs
    tail = record {
      image = xs;
      writes = λ out. unfold Writer.bytes in refl;
      reads = λ rest. rw (need-append xs rest, ◌>>◌) (reads-bytes xs rest);
    }

pub Trip-repeat {ℓ κ} :
    {A : Type ℓ} (P : A → Type κ) (w : A → Writing) (r : Action A)
    → ((a : A) → P a → Trip (w a) r a)
    → (xs : List A) → All P xs
    → Trip (Writer.for_each w xs) (Reader.repeat (length xs) r) xs
unfolding Writer.for_each Reader.repeat
Trip-repeat P w r t [] h = record {
  image = [];
  writes = λ out. rw append-nil;
  reads = λ rest. refl;
}
Trip-repeat P w r t (x ∷ xs) h =
    Trip-bind _ _ (t x h.0) (Trip-last (λ ys. x ∷ ys) (Trip-repeat P w r t xs h.1))

-- A counted list comes back.
pub Trip-All {ℓ κ} :
    {A : Type ℓ} (P : A → Type κ) (w : A → Writing) (r : Action A)
    → ((a : A) → P a → Trip (w a) r a)
    → (xs : List A) → length xs < 2 ^ 32
    → All P xs
    → Trip (Writer.counted w xs) (Reader.counted r) xs
unfolding Writer.counted Reader.counted
Trip-All P w r t xs fits h =
    rw (u32_small (length xs) fits)
      (Trip-bind _ _ (Trip-u32 (length xs) fits) (Trip-repeat P w r t xs h))
  where
    u32_small : (n : ℕ) → n < 2 ^ 32 → n % 2 ^ 32 ≡ n
    u32_small n k = omega arith

-- A reader that goes on without reading more.
pub Trip-more {ℓ κ} :
    {A : Type ℓ} {B : Type κ} {w : Writing} {r : Action A} {a : A} {b : B} (k : A → Action B)
    → ((rest : List ℕ) → k a rest ≡ ok (b, rest))
    → Trip w r a
    → Trip w (r >>= k) b
Trip-more k stays t = record {
  image = t.image;
  writes = t.writes;
  reads = λ rest. rw (t.reads rest, ◌>>=◌) (stays rest);
}

-- A sink that starts empty holds the image, and a reader of the whole image leaves nothing.
pub Trip-whole {ℓ} :
    {A : Type ℓ} {w : Writing} {r : Action A} {a : A} (t : Trip w r a)
    → (built w ≡ ok t.image) × (r t.image ≡ ok (a, []))
Trip-whole {r} {a} t =
    (rw (t.writes [], built) refl, subst (λ s. r s ≡ ok (a, [])) (append-nil t.image) (t.reads []))

-- Nothing is written and nothing is read.
pub Trip-none {ℓ} : {A : Type ℓ} (a : A) → Trip (pure tt) (pure a) a
Trip-none a = record { image = []; writes = λ out. rw append-nil; reads = λ rest. refl }

-- A check that throws nothing, between two reads.
pub Trip-call {ℓ κ} :
    {A : Type ℓ} {B : Type κ} {w : Writing} {b : B} (called : Result A) (a : A) (k : A → Action B)
    → called ≡ ok a
    → Trip w (k a) b
    → Trip w (call called >>= k) b
Trip-call called a k h t = record {
  image = t.image;
  writes = t.writes;
  reads = λ rest. rw h (t.reads rest);
}

-- A writer that ends with nothing more.
pub Trip-end {ℓ} :
    {A : Type ℓ} {w : Writing} {r : Action A} {a : A} → Trip w r a → Trip (w >> pure tt) r a
Trip-end t = record {
  image = t.image;
  writes = λ out. rw (t.writes out, ◌>>◌) refl;
  reads = t.reads;
}

-- A reader of what was printed returns the value and leaves nothing.
pub Trip-printed {ℓ} :
    {A : Type ℓ} {w : Writing} {r : Action A} {a : A} (body : List ℕ)
    → Trip w r a
    → built w ≡ ok body
    → r body ≡ ok (a, [])
Trip-printed {r} {a} body t printed =
    subst (λ s. r s ≡ ok (a, [])) (ok-injective (sym (Trip-whole t).0 ∙ printed)) (Trip-whole t).1
