-- ===== src/Tests/Forged.antt =====
-- A message to a session that has sent its opening, sealed under a key that anyone can compute.
use ratchet_usb.Prelude.{ℕ, ◌≡◌, refl, List, [], ◌∷◌, ◌++◌, replicate, none, codes}
use ratchet_usb.Outcome.{ok}
use ratchet_usb.Message.{RatchetHeader}
use ratchet_usb.Message.Write.{header_aad}
use ratchet_usb.Serial.Writer
use ratchet_usb.Store.{Session}
use ratchet_usb.Ratchet.{KeyPair, Clock, init_sender, aead_encrypt, decrypt, dh, kdf_rk}
use ratchet_usb.Kdf.{expand}
use ratchet_usb.Exec.{◌>>=◌}
use ratchet_usb.Ratchet.Padding.{pad}
use ratchet_usb.Ratchet.Delivery.{received}
use ratchet_usb.Ratchet.Forgery.{forged_opens}
use ratchet_usb.Tests.Samples.{toy, toy_laws}
use ratchet_usb.Tests.Vaults.{with_bob}

-- A session as it is created: its keys are zero.
abbrev created : Session
created = record with_bob { chain_key_recv = replicate 32 0 }

abbrev ephemeral : KeyPair
ephemeral = record { sk = replicate 32 60; pk = replicate 32 60 }

abbrev opened : Session
opened = (init_sender toy (replicate 32 61) ephemeral (replicate 32 62) created).1

created_opens :
    init_sender toy (replicate 32 61) ephemeral (replicate 32 62) created ≡ (ok tt, opened)
unfolding init_sender dh kdf_rk expand ◌>>=◌
created_opens = refl

abbrev nonce : List ℕ
nonce = replicate 12 63

abbrev header : RatchetHeader
header = record { dh_pub = replicate 32 62; pn = 0; n = 9 }

abbrev header_bytes : List ℕ
header_bytes = replicate 32 62 ++ 0 ∷ 0 ∷ 0 ∷ 0 ∷ 9 ∷ 0 ∷ 0 ∷ 0 ∷ []

header_aad_bytes : header_aad header ≡ ok header_bytes
unfolding header_aad Writer.bytes Writer.u32
header_aad_bytes = refl

-- The key of a chain of zeros.
abbrev known_key : List ℕ
known_key = toy.hmac (replicate 32 0) (1 ∷ [])

abbrev forged : List ℕ
forged =
    nonce
    ++ toy.seal known_key nonce (codes "prefix" ++ header_bytes)
        (codes "hi" ++ 128 ∷ replicate 125 0)

forged_sealed :
    aead_encrypt toy known_key nonce (codes "hi") (codes "prefix" ++ header_bytes) ≡ ok forged
unfolding aead_encrypt pad
forged_sealed = refl

abbrev drawn : KeyPair
drawn = record { sk = replicate 32 64; pk = replicate 32 64 }

abbrev clock : Clock
clock = record { at_expire = 100; at_previous = 100; at_current = 100 }

forged_opens_example :
    decrypt toy header forged (codes "prefix") none drawn clock opened
    ≡ (ok (codes "hi"), received toy (record opened { skipped = [] }))
forged_opens_example =
    forged_opens toy toy_laws header (codes "hi") forged (codes "prefix") header_bytes nonce drawn
      clock (replicate 32 61) ephemeral created opened created_opens refl refl header_aad_bytes
      forged_sealed
