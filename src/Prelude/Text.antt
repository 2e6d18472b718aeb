-- ===== src/Prelude/Text.antt =====
-- Texts as the bytes of std::string, and search in them.
use Prim.Native.Nat.{ℕ}
use Prim.Native.Char.{code}
use Prim.Native.String.{String}
use mathlib.Core.Bool.{Bool, true, false, ◌&&◌}
use mathlib.Core.List.{List, [], ◌∷◌}
use mathlib.Core.Option.{Option, none, some}
use mathlib.Core.Option
use ratchet_usb.Prelude.Tests.{◌==◌, if◌then◌else◌}
use ratchet_usb.Prelude.Lists.{length, drop}

-- The code points of a text: its bytes, for the ASCII texts of the source.
abbrev pub codes : String → List ℕ
codes String.[] = []
codes (String.◌∷◌ c s) = code c ∷ codes s

unfoldable pub starts_with : List ℕ → List ℕ → Bool
starts_with [] text = true
starts_with (p ∷ ps) [] = false
starts_with (p ∷ ps) (x ∷ text) = p == x && starts_with ps text

-- `text.find(pattern)`: what stands before the first occurrence and what stands behind it;
-- `none` for std::string_view::npos.
unfoldable pub cut : List ℕ → List ℕ → Option (List ℕ × List ℕ)
unfolding starts_with
cut pattern [] = if starts_with pattern [] then some ([], []) else none
cut pattern (x ∷ text) =
    let later = cut pattern text in
    if starts_with pattern (x ∷ text)
    then some ([], drop (length pattern) (x ∷ text))
    else Option.map (λ (before, after). (x ∷ before, after)) later
