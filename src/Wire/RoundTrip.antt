-- ===== src/Wire/RoundTrip.antt =====
-- `decode_block` reads back what `encode_block` printed.
use ratchet_usb.Prelude.{
  All-append, ℕ, zero, suc, ◌+◌, ◌*◌, ◌/◌, ◌≤◌, ◌≡◌, ◌≢◌, refl, ap, ◌∙◌, true, false, List, [], ◌∷◌,
  ◌++◌, length, take, drop, All, length-append, length-take, length-drop, take-append-drop,
  drop-append, le→ltb, some, codes, cut, starts_with, arith,
}
use ratchet_usb.Outcome.{ok}
use ratchet_usb.Wire.{
  is_space, Base64, Base64Laws, strip_whitespace, wrap_lines, begin_marker, end_marker,
  encode_block, decode_payload, decode_block,
}

starts_with_self : (p rest : List ℕ) → starts_with p (p ++ rest) ≡ true
unfolding starts_with
starts_with_self [] rest = refl
starts_with_self (x ∷ p) rest = ground (arith, starts_with_self p rest)

-- A marker that begins with a dash is found behind a text without dashes.
cut_marker :
    (p before after : List ℕ)
    → All (λ c. c ≢ 45) before
    → cut (45 ∷ p) (before ++ (45 ∷ p ++ after)) ≡ some (before, after)
unfolding cut
cut_marker p [] after h = rw (starts_with_self (45 ∷ p) after, drop-append p after) refl
cut_marker p (x ∷ before) after h = ground (arith, cut_marker p before after h.1)

strip-append :
    (xs ys : List ℕ) → strip_whitespace (xs ++ ys) ≡ strip_whitespace xs ++ strip_whitespace ys
unfolding strip_whitespace
strip-append [] ys = refl
strip-append (x ∷ xs) ys = ground (arith, strip-append xs ys)

abbrev Solid : ℕ → Type 0
Solid c = is_space c ≡ false

abbrev Dashless : ℕ → Type 0
Dashless c = c ≢ 45

abbrev IsSolid : List ℕ → Type 0
IsSolid = All (λ c. is_space c ≡ false)

strip-solid : (xs : List ℕ) → IsSolid xs → strip_whitespace xs ≡ xs
unfolding strip_whitespace
strip-solid [] h = refl
strip-solid (x ∷ xs) h = rw (h.0, strip-solid xs h.1) refl

module _ (P : ℕ → Type 0) where
  All-take : (n : ℕ) (xs : List ℕ) → All P xs → All P (take n xs)
  All-take zero xs h = tt
  All-take (suc n) [] h = tt
  All-take (suc n) (x ∷ xs) h = (h.0, All-take n xs h.1)

  All-drop : (n : ℕ) (xs : List ℕ) → All P xs → All P (drop n xs)
  All-drop zero xs h = h
  All-drop (suc n) [] h = tt
  All-drop (suc n) (x ∷ xs) h = All-drop n xs h.1

-- Stripping the wrapped lines gives the base64 text back.
strip-wrap_lines :
    (rounds : ℕ) (b64 : List ℕ)
    → length b64 ≤ rounds
    → IsSolid b64
    → strip_whitespace (wrap_lines rounds b64) ≡ b64
unfolding wrap_lines
strip-wrap_lines zero [] fits h = unfold strip_whitespace in refl
strip-wrap_lines zero (c ∷ b64) fits h = absurd (omega arith)
strip-wrap_lines (suc rounds) [] fits h = unfold strip_whitespace in refl
strip-wrap_lines (suc rounds) (c ∷ b64) fits h =
    strip-append (take 64 (c ∷ b64)) _
    ∙ ap (◌++◌ _) (newline (wrap_lines rounds (drop 64 (c ∷ b64))))
    ∙ rw
        (
          strip-solid (take 64 (c ∷ b64)) (All-take Solid 64 (c ∷ b64) h),
          strip-wrap_lines rounds (drop 64 (c ∷ b64)) (omega (arith, length-drop 64 (c ∷ b64)))
              (All-drop Solid 64 (c ∷ b64) h),
        )
        (take-append-drop 64 (c ∷ b64))
  where
    newline : (xs : List ℕ) → strip_whitespace (10 ∷ xs) ≡ strip_whitespace xs
    newline xs = unfold strip_whitespace is_space in refl

wrap_lines-no_dash :
    (rounds : ℕ) (b64 : List ℕ) → All (λ c. c ≢ 45) b64 → All (λ c. c ≢ 45) (wrap_lines rounds b64)
unfolding wrap_lines
wrap_lines-no_dash zero b64 h = tt
wrap_lines-no_dash (suc rounds) [] h = tt
wrap_lines-no_dash (suc rounds) (c ∷ b64) h =
    All-append Dashless (take 64 (c ∷ b64)) (10 ∷ wrap_lines rounds (drop 64 (c ∷ b64)))
      (All-take Dashless 64 (c ∷ b64) h)
      (
        (λ e. absurd (omega arith)),
        wrap_lines-no_dash rounds (drop 64 (c ∷ b64)) (All-drop Dashless 64 (c ∷ b64) h),
      )

-- One newline for each 64 characters begun.
length-wrap_lines :
    (rounds : ℕ) (b64 : List ℕ)
    → length (wrap_lines rounds b64) ≤ length b64 + (length b64 + 63) / 64
unfolding wrap_lines
length-wrap_lines zero b64 = omega arith
length-wrap_lines (suc rounds) [] = omega arith
length-wrap_lines (suc rounds) (c ∷ b64) = omega (
  arith,
  length-append (take 64 (c ∷ b64)) (10 ∷ wrap_lines rounds (drop 64 (c ∷ b64))),
  length-take 64 (c ∷ b64),
  length-drop 64 (c ∷ b64),
  length-wrap_lines rounds (drop 64 (c ∷ b64)),
)

module _ (P Q : ℕ → Type 0) where
  All-fst : (xs : List ℕ) → All (λ c. P c × Q c) xs → All P xs
  All-fst [] h = tt
  All-fst (x ∷ xs) h = (h.0.0, All-fst xs h.1)

  All-snd : (xs : List ℕ) → All (λ c. P c × Q c) xs → All Q xs
  All-snd [] h = tt
  All-snd (x ∷ xs) h = (h.0.1, All-snd xs h.1)

module _ (base64 : Base64) (laws : Base64Laws base64) (label bytes : List ℕ) (max : ℕ) where
  abbrev b64 : List ℕ
  b64 = base64.to_base64 bytes

  abbrev payload : List ℕ
  payload = 10 ∷ wrap_lines (length b64) b64

  decodes_payload :
      length bytes ≤ max → decode_payload base64 max (strip_whitespace payload) ≡ ok bytes
  unfolding decode_payload
  decodes_payload fits =
      rw
        (
          stripped,
          le→ltb ((max + 2) / 3 * 4 + 4) (length b64) (omega (arith, laws.size bytes)),
          laws.of_base64-to_base64 bytes,
          le→ltb max (length bytes) fits,
        )
        refl
    where
      stripped : strip_whitespace payload ≡ b64
      stripped =
          unfold strip_whitespace is_space in
          strip-wrap_lines (length b64) b64 (omega arith)
            (All-fst Solid Dashless b64 (laws.alphabet bytes))

  block_fits :
      length bytes ≤ max
      → length label ≤ 128
      → length (encode_block base64 label bytes) ≤ max * 2 + 1024
  unfolding encode_block
  block_fits fits short = omega (
    arith,
    length-append (begin_marker label)
        (10 ∷ (wrap_lines (length b64) b64 ++ (end_marker label ++ 10 ∷ []))),
    length-append label (codes "-----"),
    length-append (wrap_lines (length b64) b64) (end_marker label ++ 10 ∷ []),
    length-append (end_marker label) (10 ∷ []),
    length-wrap_lines (length b64) b64,
    laws.size bytes,
  )

  -- Decoding an encoded block under the same label gives the bytes back, when they are within the
  -- limit and the label has at most 128 characters, given base64's documented laws.
  pub decode_block-encode_block :
      length bytes ≤ max
      → length label ≤ 128
      → decode_block base64 label (encode_block base64 label bytes) max ≡ ok bytes
  unfolding decode_block
  decode_block-encode_block fits short =
      rw
        (
          le→ltb (max * 2 + 1024) (length (encode_block base64 label bytes))
              (block_fits fits short),
          found_begin,
          found_end,
        )
        (decodes_payload fits)
    where
      found_end :
          cut (end_marker label) (payload ++ (end_marker label ++ 10 ∷ []))
          ≡ some (payload, 10 ∷ [])
      found_end = cut_marker _ payload (10 ∷ []) (
        (λ e. absurd (omega arith)),
        wrap_lines-no_dash (length b64) b64 (All-snd Solid Dashless b64 (laws.alphabet bytes)),
      )

      found_begin :
          cut (begin_marker label) (encode_block base64 label bytes)
          ≡ some ([], payload ++ (end_marker label ++ 10 ∷ []))
      found_begin = unfold encode_block in cut_marker _ [] _ tt
