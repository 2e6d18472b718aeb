-- ===== src/Serial/Reader.antt =====
-- include/ratchet/serial.hpp, class Reader. Its state is the list of the bytes from pos_ on.
use ratchet_usb.Prelude.{
  ℕ, zero, suc, ◌+◌, ◌*◌, ◌/◌, ◌^◌, Bool, true, false, Option, none, some, List, [], ◌∷◌, length,
  take, drop, ltb, ◌==◌, not, if◌then◌else◌,
}
use ratchet_usb.Outcome.{Action, ok, err, pure, guard, ◌>>=◌, ◌>>◌, truncated, secure_blob_too_long}

-- `if (n > len_ - pos_) throw`
unfoldable pub need : ℕ → Action (Unit {0})
need n s = guard (not (ltb (length s) n)) truncated s

-- `data_[pos_++]`, after `need`; a read past the end is not reached.
unfoldable pub fetch : Action ℕ
fetch [] = err truncated
fetch (x ∷ s) = ok (x, s)

-- memcpy of `n` bytes and `pos_ += n`, after `need`.
unfoldable pub advance : ℕ → Action (List ℕ)
advance n s = ok (take n s, drop n s)

unfoldable pub u8 : Action ℕ
u8 = do need 1; fetch

-- The four bytes are disjoint parts of the word, so `|` is their sum.
unfoldable pub u32 : Action ℕ
u32 = do
  need 4
  a ← fetch
  b ← fetch
  c ← fetch
  d ← fetch
  pure (a + b * 2 ^ 8 + c * 2 ^ 16 + d * 2 ^ 24)

unfoldable pub bytes : ℕ → Action (List ℕ)
bytes n = do need n; advance n

unfoldable pub u64 : Action ℕ
u64 = do lo ← u32; hi ← u32; pure (lo + hi * 2 ^ 32)

unfoldable pub blob : Action (List ℕ)
blob = do n ← u32; need n; advance n

unfoldable pub secure_blob : ℕ → Action (List ℕ)
secure_blob max_len = do n ← u32; guard (not (ltb max_len n)) secure_blob_too_long; need n; bytes n

unfoldable pub str : Action (List ℕ)
str = blob

unfoldable pub at_end : List ℕ → Bool
at_end [] = true
at_end (x ∷ s) = false

unfoldable pub remaining : List ℕ → ℕ
remaining s = length s

unfoldable pub bounded_count : ℕ → ℕ → List ℕ → ℕ
bounded_count count min_bytes_per_item s =
    if min_bytes_per_item == 0
    then 0
    else let affordable = remaining s / min_bytes_per_item in
      if ltb count affordable then count else affordable

-- `for (uint32_t i = 0; i < count; ++i) xs.push_back(read(r));`
unfoldable pub repeat {ℓ} : {A : Type ℓ} → ℕ → Action A → Action (List A)
repeat zero r = pure []
repeat (suc n) r = do x ← r; xs ← repeat n r; pure (x ∷ xs)

-- A count and that many records. What is reserved for them is `bounded_count`.
unfoldable pub counted {ℓ} : {A : Type ℓ} → Action A → Action (List A)
counted r = do count ← u32; repeat count r

-- `if (flag) value = read(r);` on an optional value.
abbrev pub read_if {ℓ} : {A : Type ℓ} → Bool → Action A → Action (Option A)
read_if true r = do a ← r; pure (some a)
read_if false r = pure none

-- `if (flag) value = read(r);` on a value that has `default` before.
abbrev pub read_or {ℓ} : {A : Type ℓ} → Bool → A → Action A → Action A
read_or true default r = r
read_or false default r = pure default
