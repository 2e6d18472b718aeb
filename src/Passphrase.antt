-- ===== src/Passphrase.antt =====
-- src/passphrase.cpp: passphrases of random words. The draws are an argument, as indices.
use ratchet_usb.Prelude.{
  ℕ, suc, ◌≡◌, ◌≢◌, refl, Bool, true, false, ◌||◌, List, [], ◌∷◌, ◌++◌, length, All, ltb, ◌==◌,
  if◌then◌else◌, arith,
}
use ratchet_usb.Outcome.{Result, ok, err, word_count_out_of_range}

-- kMaxWords
abbrev pub max_words : ℕ
max_words = 12

-- `words` as the words drawn from the list, one for each round.
unfoldable pub join_more : List (List ℕ) → List ℕ
join_more [] = []
join_more (w ∷ ws) = 32 ∷ (w ++ join_more ws)

unfoldable pub join : List (List ℕ) → List ℕ
unfolding join_more
join [] = []
join (w ∷ ws) = w ++ join_more ws

unfoldable pub generate : List (List ℕ) → Result (List ℕ)
unfolding join
generate words =
    if length words == 0 || ltb max_words (length words)
    then err word_count_out_of_range
    else ok (join words)

-- The loop, from a state of `in_word`.
unfoldable pub count_from : Bool → List ℕ → ℕ
count_from in_word [] = 0
count_from in_word (x ∷ text) =
    let outside = count_from false text in
    let inside = count_from true text in
    if x == 32 then outside else if in_word then inside else suc inside

unfoldable pub word_count : List ℕ → ℕ
unfolding count_from
word_count phrase = count_from false phrase

-- A word of the list: not empty, and without a space.
abbrev pub IsWord : List ℕ → Type 0
IsWord [] = ⊥
IsWord (x ∷ w) = All (λ y. y ≢ 32) (x ∷ w)

count_inside :
    (w rest : List ℕ) → All (λ y. y ≢ 32) w → count_from true (w ++ rest) ≡ count_from true rest
unfolding count_from
count_inside [] rest h = refl
count_inside (x ∷ w) rest h = ground (arith, count_inside w rest h.1)

count_more : (ws : List (List ℕ)) → All IsWord ws → count_from true (join_more ws) ≡ length ws
unfolding count_from join_more
count_more [] h = refl
count_more ([] ∷ ws) h = absurd h.0
count_more ((x ∷ w) ∷ ws) h =
    ground (arith, h.0.0, count_inside w (join_more ws) h.0.1, count_more ws h.1)

-- A phrase joined from words that are not empty and hold no space counts as that many words.
pub word_count-join : (ws : List (List ℕ)) → All IsWord ws → word_count (join ws) ≡ length ws
unfolding word_count join
word_count-join [] h = refl
word_count-join ([] ∷ ws) h = absurd h.0
word_count-join ((x ∷ w) ∷ ws) h =
    ground (arith, h.0.0, count_inside w (join_more ws) h.0.1, count_more ws h.1)
