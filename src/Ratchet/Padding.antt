-- ===== src/Ratchet/Padding.antt =====
-- src/ratchet.cpp: padded_payload_size, and the ISO/IEC 7816-4 padding of aead_encrypt and
-- aead_decrypt.
pub mod Laws
use ratchet_usb.Prelude.{
  ℕ, zero, suc, ◌+◌, ◌-◌, ◌*◌, ◌/◌, Bool, not, ◌&&◌, ◌||◌, List, [], ◌∷◌, ◌++◌, length, take,
  replicate, byte_at, ltb, leb, ◌==◌, if◌then◌else◌,
}
use ratchet_usb.Outcome.{Result, ok, err, plaintext_too_long, invalid_padding, ◌>=>◌}
use ratchet_usb.Message.{max_plaintext_bytes}

-- The size for `needed` bytes: text and delimiter.
unfoldable pub bucket : ℕ → ℕ
bucket needed =
    if leb needed 128
    then 128
    else if leb needed 256
    then 256
    else if leb needed 512
    then 512
    else if leb needed 1024
    then 1024
    else if leb needed 2048
    then 2048
    else (needed + 1024 - 1) / 1024 * 1024

unfoldable pub padded_payload_size : ℕ → Result ℕ
unfolding bucket
padded_payload_size raw_len =
    if ltb max_plaintext_bytes raw_len then err plaintext_too_long else ok (bucket (raw_len + 1))

-- The text, the delimiter 0x80 and zeros up to the target length.
unfoldable pub pad : List ℕ → Result (List ℕ)
unfolding padded_payload_size
pad plaintext = padded_payload_size (length plaintext) >=> λ target_len.
    if ltb target_len (length plaintext)
    then err plaintext_too_long
    else ok (plaintext ++ 128 ∷ replicate (target_len - (length plaintext + 1)) 0)

-- `while (i > 0 && pt[i - 1] == 0x00) --i;`
unfoldable pub skip_zeros : List ℕ → ℕ → ℕ
skip_zeros pt zero = zero
skip_zeros pt (suc i) = let rest = skip_zeros pt i in if byte_at pt i == 0 then rest else suc i

unfoldable pub unpad : List ℕ → Result (List ℕ)
unfolding skip_zeros
unpad pt =
    let last = byte_at pt (length pt - 1) in
    if length pt == 0 || (not (last == 0) && not (last == 128))
    then err invalid_padding
    else let i = skip_zeros pt (length pt) in
      if i == 0 || not (byte_at pt (i - 1) == 128)
      then err invalid_padding
      else ok (take (i - 1) pt)
