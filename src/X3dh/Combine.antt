-- ===== src/X3dh/Combine.antt =====
-- src/x3dh.cpp: the secrets that the handshake combines.
use ratchet_usb.Prelude.{
  ℕ, ◌%◌, List, [], ◌∷◌, ◌++◌, length, replicate, concat, Option, none, some, codes, ◌==◌,
  if◌then◌else◌,
}
use ratchet_usb.Outcome.{Result, ok, err, ◌>=>◌, xwing_combiner}
use ratchet_usb.Crypto.{Crypto}
use ratchet_usb.Kdf.{extract, expand}
use ratchet_usb.Pq.{OpenSsl}

-- kCombineInfo, the info strings of combine_hybrid and combine_xwing, kXWingLabel
abbrev pub combine_info : List ℕ
combine_info = codes "Ratchet-USB/v2/x3dh"

abbrev pub hybrid_info : List ℕ
hybrid_info = codes "Ratchet-USB/v3/PQXDH/X25519+ML-KEM-768"

abbrev pub xwing_info : List ℕ
xwing_info = codes "Ratchet-USB/v4/PQXDH/X-Wing"

abbrev pub xwing_label : List ℕ
xwing_label = 92 ∷ 46 ∷ 47 ∷ 47 ∷ 94 ∷ 92 ∷ []

-- `if (p) xs.append(*p)`
abbrev pub append_if {ℓ} : {A : Type ℓ} → List A → Option (List A) → List A
append_if xs none = xs
append_if xs (some ys) = xs ++ ys

module _ (c : Crypto) (initiator responder : List ℕ) where
  -- The 0xFF prefix, the DH outputs, and a salt that leads with their number.
  unfoldable pub derive_shared_secret : List (List ℕ) → Result (List ℕ)
  derive_shared_secret dhs =
      expand c 32 combine_info
        (extract c (length dhs % 256 ∷ (initiator ++ responder)) (replicate 32 255 ++ concat dhs))

  unfoldable pub combine_hybrid : List ℕ → List ℕ → Option (List ℕ) → Result (List ℕ)
  combine_hybrid classical pq_static pq_one_time =
      expand c 32 hybrid_info
        (extract c (initiator ++ responder) (append_if (classical ++ pq_static) pq_one_time))

  unfoldable pub combine_xwing : List ℕ → List ℕ → Option (List ℕ) → Result (List ℕ)
  combine_xwing classical xwing_static xwing_one_time =
      expand c 32 xwing_info
        (extract c (initiator ++ responder) (append_if (classical ++ xwing_static) xwing_one_time))

module _ (ssl : OpenSsl) where
  unfoldable pub xwing_combine : List ℕ → List ℕ → List ℕ → List ℕ → Result (List ℕ)
  xwing_combine ss_m ss_x ct_x pk_x =
      elim (ssl.sha3_256 (ss_m ++ (ss_x ++ (ct_x ++ (pk_x ++ xwing_label))))) [
        | none ↦ err xwing_combiner
        | some out ↦ if length out == 32 then ok out else err xwing_combiner
      ]

  -- A one-time ML-KEM secret is paired with the fourth DH if there is one, else with the third.
  -- `dh4` is the fourth DH with the one-time prekey it was computed with.
  unfoldable pub pair_one_time :
      List ℕ → List ℕ → List ℕ → Option (List ℕ × List ℕ) → List ℕ → Result (List ℕ)
  unfolding xwing_combine
  pair_one_time dh3 ephemeral_pub spk_pub none pq_one_time =
      xwing_combine pq_one_time dh3 ephemeral_pub spk_pub
  pair_one_time dh3 ephemeral_pub spk_pub (some (dh4, otpk_pub)) pq_one_time =
      xwing_combine pq_one_time dh4 ephemeral_pub otpk_pub

  -- xwing_static and xwing_one_time
  unfoldable pub fill_xwing_pair :
      List ℕ
      → List ℕ
      → List ℕ
      → List ℕ
      → Option (List ℕ)
      → Option (List ℕ × List ℕ)
      → Result (List ℕ × Option (List ℕ))
  unfolding pair_one_time
  fill_xwing_pair pq_static dh3 ephemeral_pub spk_pub none dh4 =
      xwing_combine pq_static dh3 ephemeral_pub spk_pub >=> λ xwing_static. ok (xwing_static, none)
  fill_xwing_pair pq_static dh3 ephemeral_pub spk_pub (some pq_one_time) dh4 =
      xwing_combine pq_static dh3 ephemeral_pub spk_pub >=> λ xwing_static.
      pair_one_time dh3 ephemeral_pub spk_pub dh4 pq_one_time >=> λ xwing_one_time.
      ok (xwing_static, some xwing_one_time)
