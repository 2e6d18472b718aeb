-- ===== src/Tests/Prekeys.antt =====
-- The bytes that a signed prekey's signature covers, at a concrete input.
use ratchet_usb.Prelude.{ℕ, ◌≡◌, refl, List, replicate, arith}
use ratchet_usb.Prekey.{spk_signing_payload_injective}

abbrev id : ℕ
id = 7

abbrev pk : List ℕ
pk = replicate 32 1

spk_signing_payload_injective_example : (id ≡ 7) × (pk ≡ replicate 32 1)
spk_signing_payload_injective_example =
    spk_signing_payload_injective id 7 pk (replicate 32 1) (omega arith) (omega arith) refl refl
      refl
