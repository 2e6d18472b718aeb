-- ===== src/Tests/Openings.antt =====
-- The opening of a session at a concrete input.
use ratchet_usb.Prelude.{ℕ, ◌≡◌, refl, List, replicate}
use ratchet_usb.Outcome.{Result, ok}
use ratchet_usb.Kdf.{extract, expand, fallback_expand}
use ratchet_usb.Store.{Session}
use ratchet_usb.Ratchet.{KeyPair, dh, kdf_rk, init_sender, init_receiver, dh_ratchet}
use ratchet_usb.Ratchet.Chain.{Receives}
use ratchet_usb.Ratchet.Exchange.{Sends}
use ratchet_usb.Ratchet.Opening.{opening_agrees}
use ratchet_usb.Tests.Samples.{toy, toy_laws}
use ratchet_usb.Tests.Vaults.{with_bob}

abbrev pair : ℕ → KeyPair
pair n = record { sk = replicate 32 n; pk = replicate 32 n }

abbrev secret : List ℕ
secret = replicate 32 61

shared : dh toy (replicate 32 60) (replicate 32 62) ≡ ok (replicate 32 64)
unfolding dh
shared = refl

shared_keys : kdf_rk toy secret (replicate 32 64) ≡ ok (replicate 32 82, replicate 32 177)
unfolding kdf_rk extract expand fallback_expand
shared_keys = refl

answered : dh toy (replicate 32 64) (replicate 32 60) ≡ ok (replicate 32 128)
unfolding dh
answered = refl

answer_keys :
    kdf_rk toy (replicate 32 82) (replicate 32 128) ≡ ok (replicate 32 82, replicate 32 177)
unfolding kdf_rk extract expand fallback_expand
answer_keys = refl

abbrev sender : Result (Unit {0}) × Session
sender = init_sender toy secret (pair 60) (replicate 32 62) with_bob

abbrev receiver : Result (Unit {0}) × Session
receiver =
    dh_ratchet toy (replicate 32 60) (pair 64) (init_receiver toy secret (pair 62) with_bob).1

opening_agrees_example :
    ((sender.0 ≡ ok tt)
      × Sends toy (replicate 32 177) sender.1
      × (sender.1.ns ≡ 0)
      × (sender.1.dhs_pub ≡ replicate 32 60))
    × ((receiver.0 ≡ ok tt)
        × Receives toy (replicate 32 177) receiver.1
        × (receiver.1.nr ≡ 0)
        × (receiver.1.dhr_pub ≡ replicate 32 60))
opening_agrees_example =
    opening_agrees toy toy_laws secret (pair 60) (pair 62) (pair 64) with_bob with_bob
      (replicate 32 64) (replicate 32 82) (replicate 32 177) (replicate 32 128) (replicate 32 82)
      (replicate 32 177) refl refl shared shared_keys answered answer_keys
