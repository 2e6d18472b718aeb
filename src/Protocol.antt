-- ===== src/Protocol.antt =====
-- include/ratchet/protocol.hpp: the protocol suites and their order.
use ratchet_usb.Prelude.{ℕ, zero, suc, ◌≡◌, refl, Bool, true, ◌&&◌, ◌||◌, leb, ◌==◌}

pub data ProtocolSuite : Type 0 where
  classic_v2 hybrid_pqxdh_v1 triple_ratchet_v1 x_wing_triple_ratchet_v1 : ProtocolSuite

-- static_cast<uint8_t>(suite)
abbrev pub suite_code : ProtocolSuite → ℕ
suite_code classic_v2 = 1
suite_code hybrid_pqxdh_v1 = 2
suite_code triple_ratchet_v1 = 3
suite_code x_wing_triple_ratchet_v1 = 4

-- static_cast<ProtocolSuite>(code), which the code applies to 1, 2, 3 and 4 only.
abbrev pub suite_of : ℕ → ProtocolSuite
suite_of (suc zero) = classic_v2
suite_of (suc (suc zero)) = hybrid_pqxdh_v1
suite_of (suc (suc (suc zero))) = triple_ratchet_v1
suite_of code = x_wing_triple_ratchet_v1

unfoldable pub suite_at_least : ProtocolSuite → ProtocolSuite → Bool
suite_at_least value minimum = leb (suite_code minimum) (suite_code value)

unfoldable pub known_suite : ℕ → Bool
known_suite suite =
    leb (suite_code classic_v2) suite && leb suite (suite_code x_wing_triple_ratchet_v1)

unfoldable pub uses_triple_ratchet : ProtocolSuite → Bool
uses_triple_ratchet suite =
    suite_code suite == suite_code triple_ratchet_v1
    || suite_code suite == suite_code x_wing_triple_ratchet_v1

unfoldable pub uses_xwing_combiner : ProtocolSuite → Bool
uses_xwing_combiner suite = suite_code suite == suite_code x_wing_triple_ratchet_v1

pub suite_of-suite_code : (s : ProtocolSuite) → suite_of (suite_code s) ≡ s
suite_of-suite_code classic_v2 = refl
suite_of-suite_code hybrid_pqxdh_v1 = refl
suite_of-suite_code triple_ratchet_v1 = refl
suite_of-suite_code x_wing_triple_ratchet_v1 = refl

pub known_suite-suite_code : (s : ProtocolSuite) → known_suite (suite_code s) ≡ true
unfolding known_suite
known_suite-suite_code classic_v2 = refl
known_suite-suite_code s = refl
