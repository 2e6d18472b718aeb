-- ===== src/Wire.antt =====
-- src/wire.cpp: armored blocks. Texts are lists of bytes; base64 is libsodium's.
pub mod RoundTrip
use ratchet_usb.Prelude.{
  ℕ, zero, suc, ◌+◌, ◌*◌, ◌/◌, ◌≤◌, ◌≡◌, ◌≢◌, Bool, true, false, ◌&&◌, ◌||◌, List, [], ◌∷◌, ◌++◌,
  length, take, drop, All, leb, ltb, ◌==◌, if◌then◌else◌, Option, none, some, codes, cut,
}
use ratchet_usb.Outcome.{
  Result, ok, err, block_too_long, altered_dashes, begin_missing, end_missing, payload_too_long,
  invalid_base64, decoded_too_long,
}

-- std::isspace in the "C" locale.
unfoldable pub is_space : ℕ → Bool
is_space c = c == 32 || (leb 9 c && leb c 13)

-- libsodium's sodium_bin2base64 and sodium_base642bin, in the variant "original".
pub record Base64 : Type 0 where
  pub to_base64 : List ℕ → List ℕ
  pub of_base64 : List ℕ → Option (List ℕ)

-- What the armor relies on: decoding inverts encoding, the alphabet has no whitespace and no
-- dash, and n bytes take at most 4 * ceil(n / 3) characters.
pub record Base64Laws (b : Base64) : Type 0 where
  pub of_base64-to_base64 : (xs : List ℕ) → b.of_base64 (b.to_base64 xs) ≡ some xs
  pub alphabet : (xs : List ℕ) → All (λ c. (is_space c ≡ false) × (c ≢ 45)) (b.to_base64 xs)
  pub size : (xs : List ℕ) → length (b.to_base64 xs) ≤ (length xs + 2) / 3 * 4

unfoldable pub strip_whitespace : List ℕ → List ℕ
strip_whitespace [] = []
strip_whitespace (c ∷ text) =
    let rest = strip_whitespace text in if is_space c then rest else c ∷ rest

-- `for (i = 0; i < b64.size(); i += 64)`: the rounds left, and the text from i on.
unfoldable pub wrap_lines : ℕ → List ℕ → List ℕ
wrap_lines zero b64 = []
wrap_lines (suc rounds) [] = []
wrap_lines (suc rounds) (c ∷ b64) = take 64 (c ∷ b64) ++ 10 ∷ wrap_lines rounds (drop 64 (c ∷ b64))

abbrev pub begin_marker : List ℕ → List ℕ
begin_marker label = codes "-----BEGIN RATCHET " ++ (label ++ codes "-----")

abbrev pub end_marker : List ℕ → List ℕ
end_marker label = codes "-----END RATCHET " ++ (label ++ codes "-----")

module _ (base64 : Base64) where
  unfoldable pub encode_block : List ℕ → List ℕ → List ℕ
  unfolding wrap_lines
  encode_block label bytes =
      let b64 = base64.to_base64 bytes in
      begin_marker label ++ (10 ∷ (wrap_lines (length b64) b64 ++ (end_marker label ++ 10 ∷ [])))

  -- From the payload's base64 on.
  unfoldable pub decode_payload : ℕ → List ℕ → Result (List ℕ)
  decode_payload max_decoded_bytes b64 =
      if ltb ((max_decoded_bytes + 2) / 3 * 4 + 4) (length b64)
      then err payload_too_long
      else elim (base64.of_base64 b64) [
        | none ↦ err invalid_base64
        | some out ↦ if ltb max_decoded_bytes (length out) then err decoded_too_long else ok out
      ]

  unfoldable pub decode_block : List ℕ → List ℕ → ℕ → Result (List ℕ)
  unfolding decode_payload strip_whitespace
  decode_block expected_label text max_decoded_bytes =
      if ltb (max_decoded_bytes * 2 + 1024) (length text)
      then err block_too_long
      else elim (cut (begin_marker expected_label) text) [
        | none ↦ elim (cut (codes "BEGIN RATCHET " ++ expected_label) text) [
          | some _ ↦ err altered_dashes
          | none ↦ err begin_missing
        ]
        | some (_, after) ↦ elim (cut (end_marker expected_label) after) [
          | none ↦ err end_missing
          | some (payload, _) ↦ decode_payload max_decoded_bytes (strip_whitespace payload)
        ]
      ]
