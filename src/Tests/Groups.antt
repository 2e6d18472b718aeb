-- ===== src/Tests/Groups.antt =====
-- A group message's parts at concrete inputs.
use ratchet_usb.Prelude.{ℕ, ◌+◌, ◌≡◌, refl, List, length, replicate, codes, arith}
use ratchet_usb.Outcome.{ok}
use ratchet_usb.Crypto.{tag_bytes}
use ratchet_usb.Ratchet.{KeyPair, dh}
use ratchet_usb.Ratchet.Padding.{bucket}
use ratchet_usb.Group.{seal_wrapper, unseal_wrapper, encrypt_content, decrypt_content}
use ratchet_usb.Group.Wrapper.{unseal_wrapper-seal_wrapper}
use ratchet_usb.Group.Content.{decrypt_content-encrypt_content}
use ratchet_usb.Tests.Samples.{toy, toy_laws}
use ratchet_usb.Tests.Libraries.{toy_ed, toy_conversion}

abbrev member : List ℕ
member = replicate 32 3

abbrev drawn_pair : KeyPair
drawn_pair = record { sk = replicate 32 4; pk = replicate 32 4 }

unseal_wrapper-seal_wrapper_example :
    (wrapper : List ℕ) × (seal_wrapper toy toy_ed member (codes "block") drawn_pair (replicate 12 5)
      ≡ ok wrapper)
    × (unseal_wrapper toy toy_ed member member wrapper ≡ ok (codes "block"))
unfolding dh toy_conversion
unseal_wrapper-seal_wrapper_example =
    unseal_wrapper-seal_wrapper toy toy_laws toy_ed toy_conversion member (replicate 12 5)
      (codes "block") (replicate 32 224) drawn_pair refl refl refl (omega arith) refl

decrypt_content-encrypt_content_example :
    (ct : List ℕ) × (encrypt_content toy member (codes "hello") (replicate 12 5) (codes "aad")
      ≡ ok ct)
    × (length ct ≡ bucket (length (codes "hello") + 1) + tag_bytes)
    × (decrypt_content toy member ct (replicate 12 5) (codes "aad") ≡ ok (codes "hello"))
decrypt_content-encrypt_content_example =
    decrypt_content-encrypt_content toy toy_laws member (replicate 12 5) (codes "aad")
      (codes "hello") (omega arith)
