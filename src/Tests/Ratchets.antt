-- ===== src/Tests/Ratchets.antt =====
-- The ratchet at concrete inputs.
use ratchet_usb.Prelude.{
  ℕ, ◌+◌, ◌*◌, ◌%◌, ◌≤◌, ◌<◌, ◌≡◌, ◌⊎◌, refl, List, [], ◌∷◌, ◌++◌, length, replicate,
  same_bytes_refl, none, some, codes, arith,
}
use ratchet_usb.Outcome.{Result, Error, ok, err}
use ratchet_usb.Message.{RatchetHeader, max_plaintext_bytes}
use ratchet_usb.Message.Write.{header_aad}
use ratchet_usb.Serial.Writer
use ratchet_usb.Store.{Session, SkippedKey}
use ratchet_usb.Ratchet.{
  KeyPair, Clock, aead_key, aead_encrypt, aead_decrypt, encrypt, decrypt, decrypt_in_place,
  expire_skipped_keys,
}
use ratchet_usb.Ratchet.Padding.{padded_payload_size, pad, unpad, bucket}
use ratchet_usb.Ratchet.Padding.Laws.{padded_payload_size_bounds, bucket_mono, unpad-pad}
use ratchet_usb.Ratchet.Aead.{aead_decrypt-aead_encrypt}
use ratchet_usb.Ratchet.Bounds.{IsBounded, decrypt-IsBounded}
use ratchet_usb.Ratchet.Atomic.{decrypt_atomic}
use ratchet_usb.Ratchet.Chain.{Receives, message_key_at, chain_at}
use ratchet_usb.Ratchet.Delivery.{decrypt_delivers}
use ratchet_usb.Ratchet.Exchange.{Sends, decrypt-encrypt}
use ratchet_usb.Exec.{◌>>=◌}
use ratchet_usb.Ratchet.Expiry.{Expired, expire_skipped_keys_exact}
use ratchet_usb.Ratchet.Late.{decrypt_delivers_late, without_key}
use ratchet_usb.Ratchet.{find_skipped}
use ratchet_usb.Tests.Samples.{toy, toy_laws}
use ratchet_usb.Tests.Vaults.{with_bob}

abbrev nonce : List ℕ
nonce = replicate 12 40

abbrev hello : List ℕ
hello = codes "hello"

abbrev padded_hello : List ℕ
padded_hello = hello ++ 128 ∷ replicate 122 0

-- The third message of the peer's chain.
abbrev third : RatchetHeader
third = record { dh_pub = replicate 32 10; pn = 0; n = 2 }

abbrev third_aad : List ℕ
third_aad = replicate 32 10 ++ 0 ∷ 0 ∷ 0 ∷ 0 ∷ 2 ∷ 0 ∷ 0 ∷ 0 ∷ []

third_aad_bytes : header_aad third ≡ ok third_aad
unfolding header_aad Writer.bytes Writer.u32
third_aad_bytes = refl

abbrev prefix : List ℕ
prefix = codes "prefix"

abbrev third_key : List ℕ
third_key = message_key_at toy (replicate 32 12) 2

abbrev third_text : List ℕ
third_text = nonce ++ toy.seal third_key nonce (prefix ++ third_aad) padded_hello

third_sealed : aead_encrypt toy third_key nonce hello (prefix ++ third_aad) ≡ ok third_text
unfolding aead_encrypt pad
third_sealed = refl

abbrev drawn : KeyPair
drawn = record { sk = replicate 32 50; pk = replicate 32 51 }

abbrev clock : Clock
clock = record { at_expire = 100; at_previous = 100; at_current = 101 }

with_bob-Receives : Receives toy (replicate 32 12) with_bob
unfolding chain_at
with_bob-Receives = record { knows_peer = refl; has_chain = refl; at_chain = refl; cached = tt }

third_keyed : aead_key toy third_key none ≡ ok third_key
unfolding aead_key
third_keyed = refl

third_budget : length (expire_skipped_keys 100 with_bob).1.skipped + 2 ≤ 1000
unfolding expire_skipped_keys
third_budget = omega arith

decrypt_delivers_example :
    (s : Session) × (decrypt toy third third_text prefix none drawn clock with_bob ≡ (ok hello, s))
    × Receives toy (replicate 32 12) s
    × (s.nr ≡ 3)
    × (s.dhr_pub ≡ replicate 32 10)
decrypt_delivers_example =
    decrypt_delivers toy (replicate 32 12) toy_laws third hello third_text prefix third_aad nonce
      third_key none drawn clock with_bob with_bob-Receives third_aad_bytes refl (omega arith)
      (omega arith) third_budget refl third_keyed third_sealed

aead_decrypt-aead_encrypt_example :
    aead_decrypt toy third_key third_text (prefix ++ third_aad) ≡ ok hello
aead_decrypt-aead_encrypt_example =
    aead_decrypt-aead_encrypt toy toy_laws third_key nonce (prefix ++ third_aad) hello third_text
      refl third_sealed

with_bob-IsBounded : IsBounded with_bob
with_bob-IsBounded = record {
  cache = omega arith;
  ns_fits = omega arith;
  nr_fits = omega arith;
  pn_fits = omega arith;
}

decrypt-IsBounded_example :
    IsBounded (decrypt_in_place toy third third_text prefix none drawn clock with_bob).1
    × IsBounded (decrypt toy third third_text prefix none drawn clock with_bob).1
decrypt-IsBounded_example =
    decrypt-IsBounded toy third third_text prefix none drawn clock with_bob with_bob-IsBounded

abbrev seen : Result (List ℕ) × Session
seen = decrypt_in_place toy third hello prefix none drawn clock with_bob

-- A text too short to be a message.
decrypt_atomic_example :
    ((e : Error) × (seen.0 ≡ err e)
      × (decrypt toy third hello prefix none drawn clock with_bob ≡ (err e, with_bob)))
    ⊎ ((p : List ℕ) × (seen.0 ≡ ok p)
        × (decrypt toy third hello prefix none drawn clock with_bob ≡ seen))
decrypt_atomic_example = decrypt_atomic toy third hello prefix none drawn clock with_bob

padded_payload_size_bounds_example :
    (size : ℕ) × (padded_payload_size 3000 ≡ ok size)
    × (3001 ≤ size)
    × (size % 128 ≡ 0)
    × (size ≤ max_plaintext_bytes + 1024)
    × ((size ≡ 128) ⊎ (size < 2 * 3001))
    × ((size ≤ 2048) ⊎ (size < 3001 + 1024))
padded_payload_size_bounds_example = padded_payload_size_bounds 3000 (omega arith)

bucket_mono_example : bucket 129 ≤ bucket 3000
bucket_mono_example = bucket_mono 129 3000 (omega arith)

unpad-pad_example :
    (q : List ℕ) × (pad hello ≡ ok q)
    × (padded_payload_size 5 ≡ ok (length q))
    × (unpad q ≡ ok hello)
unpad-pad_example = unpad-pad hello (omega arith)

-- The peer of with_bob, two messages ahead.
abbrev peer : Session
peer = record with_bob {
  dhs_pub = replicate 32 10;
  chain_key_send = chain_at toy (replicate 32 12) 2;
  ns = 2;
  pn = 0;
}

abbrev peer_after : Session
peer_after = record peer { chain_key_send = chain_at toy (replicate 32 12) 3; ns = 3 }

peer-Sends : Sends toy (replicate 32 12) peer
peer-Sends = record { can_send = refl; sends_at = refl }

peer_encrypts : encrypt toy hello nonce prefix none peer ≡ (ok (third, third_text), peer_after)
unfolding encrypt header_aad aead_key aead_encrypt pad message_key_at chain_at ◌>>=◌ Writer.bytes
    Writer.u32
peer_encrypts = refl

decrypt-encrypt_example :
    (s : Session) × (decrypt toy third third_text prefix none drawn clock with_bob ≡ (ok hello, s))
    × Sends toy (replicate 32 12) peer_after
    × Receives toy (replicate 32 12) s
    × (s.nr ≡ 3)
    × (s.dhr_pub ≡ replicate 32 10)
decrypt-encrypt_example =
    decrypt-encrypt toy toy_laws (replicate 32 12) hello nonce prefix none drawn clock peer with_bob
      third third_text peer_after peer-Sends with_bob-Receives refl (omega arith) (omega arith)
      third_budget refl peer_encrypts

-- with_bob three messages on, with the key of the third one still in the cache.
abbrev third_cached : SkippedKey
third_cached = record { dh_pub = replicate 32 10; n = 2; message_key = third_key; created_at = 90 }

abbrev ahead : Session
ahead = record with_bob {
  chain_key_recv = chain_at toy (replicate 32 12) 3;
  nr = 3;
  skipped = third_cached ∷ [];
}

ahead-Receives : Receives toy (replicate 32 12) ahead
ahead-Receives = record {
  knows_peer = refl;
  has_chain = refl;
  at_chain = refl;
  cached = (record { earlier = λ _. omega arith; same_key = λ _. refl }, tt);
}

third_found :
    find_skipped third (expire_skipped_keys 100 ahead).1.skipped 0 ≡ some (0, third_cached)
unfolding find_skipped expire_skipped_keys
third_found = rw (same_bytes_refl (replicate 32 10)) refl

decrypt_delivers_late_example :
    (decrypt toy third third_text prefix none drawn clock ahead
      ≡ (ok hello, without_key 100 0 ahead))
    × Receives toy (replicate 32 12) (without_key 100 0 ahead)
decrypt_delivers_late_example =
    decrypt_delivers_late toy toy_laws (replicate 32 12) third hello third_text prefix third_aad
      nonce third_key none drawn clock ahead 0 third_cached ahead-Receives third_aad_bytes refl
      third_found refl third_keyed third_sealed

-- One key is fresh, one is too old.
abbrev aging : Session
aging = record ahead {
  skipped = third_cached ∷ record third_cached { created_at = 5900000 } ∷ third_cached ∷ [];
}

aging_expires :
    ((expire_skipped_keys 6000000 aging).0 ≡ 2)
    × (length (expire_skipped_keys 6000000 aging).1.skipped ≡ 1)
unfolding expire_skipped_keys
aging_expires = (refl, refl)

-- All keys are too old.
ahead_expires : expire_skipped_keys 6000000 ahead ≡ (1, record ahead { skipped = [] })
unfolding expire_skipped_keys
ahead_expires = refl

expire_skipped_keys_exact_example :
    Expired 6000000 aging.skipped
      (expire_skipped_keys 6000000 aging).1.skipped
      (expire_skipped_keys 6000000 aging).0
    × ((expire_skipped_keys 6000000 aging).1
        ≡ record aging { skipped = (expire_skipped_keys 6000000 aging).1.skipped })
expire_skipped_keys_exact_example = expire_skipped_keys_exact 6000000 aging
