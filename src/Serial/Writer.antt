-- ===== src/Serial/Writer.antt =====
-- include/ratchet/serial.hpp, class Writer. `buffer_append` of either sink is `++`.
use ratchet_usb.Prelude.{ℕ, ◌/◌, ◌%◌, ◌^◌, ◌-◌, List, [], ◌∷◌, ◌++◌, length, ltb, not}
use ratchet_usb.Outcome.{Action, ok, pure, guard, ◌>>◌, field_too_long}

-- An action on the sink.
abbrev pub Writing : Type 0
Writing = Action (Unit {0})

-- std::numeric_limits<uint32_t>::max()
abbrev pub max_u32 : ℕ
max_u32 = 2 ^ 32 - 1

unfoldable pub bytes : List ℕ → Writing
bytes xs out = ok (tt, out ++ xs)

unfoldable pub u8 : ℕ → Writing
u8 v out = ok (tt, out ++ v ∷ [])

-- The bytes of `v >> 8 * i`, each masked with 0xFF.
unfoldable pub u32 : ℕ → Writing
u32 v out = ok (tt, out ++ v % 256 ∷ v / 2 ^ 8 % 256 ∷ v / 2 ^ 16 % 256 ∷ v / 2 ^ 24 % 256 ∷ [])

unfoldable pub u64 : ℕ → Writing
u64 v = do u32 (v % 2 ^ 32); u32 (v / 2 ^ 32 % 2 ^ 32)

-- Length-prefixed field.
unfoldable pub blob : List ℕ → Writing
blob xs = do guard (not (ltb max_u32 (length xs))) field_too_long; u32 (length xs); bytes xs

unfoldable pub str : List ℕ → Writing
str s = blob s

-- `for (const X& x : xs) write(w, x);`
unfoldable pub for_each {ℓ} : {A : Type ℓ} → (A → Writing) → List A → Writing
for_each w [] = pure tt
for_each w (x ∷ xs) = do w x; for_each w xs

-- `w.u32(static_cast<uint32_t>(xs.size()));` and the loop.
unfoldable pub counted {ℓ} : {A : Type ℓ} → (A → Writing) → List A → Writing
counted w xs = do u32 (length xs % 2 ^ 32); for_each w xs
