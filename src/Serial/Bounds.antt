-- ===== src/Serial/Bounds.antt =====
-- The reader's bounds.
use ratchet_usb.Prelude.{ℕ, ◌*◌, ◌≤◌, List, length, arith}
use ratchet_usb.Serial.Reader

-- What a reader reserves for a count never passes the count that the input names, nor the number of
-- records that the remaining bytes can hold.
pub bounded_count_bounds :
    (count min_bytes_per_item : ℕ) (s : List ℕ)
    → (Reader.bounded_count count min_bytes_per_item s ≤ count)
      × (Reader.bounded_count count min_bytes_per_item s * min_bytes_per_item ≤ length s)
unfolding Reader.bounded_count Reader.remaining
bounded_count_bounds count min_bytes_per_item s = grind arith
