-- ===== src/Tests/Passphrases.antt =====
-- A passphrase at a concrete input.
use ratchet_usb.Prelude.{ℕ, ◌≡◌, List, [], ◌∷◌, All, codes, length, arith}
use ratchet_usb.Passphrase.{join, word_count, IsWord, word_count-join}

abbrev words : List (List ℕ)
words = codes "ab" ∷ codes "c" ∷ []

words_ok : All IsWord words
words_ok = (((λ e. omega arith), ((λ e. omega arith), tt)), (((λ e. omega arith), tt), tt))

word_count-join_example : word_count (join words) ≡ length words
word_count-join_example = word_count-join words words_ok
