-- ===== src/Prekey.antt =====
-- include/ratchet/prekey.hpp and src/prekey.cpp: signed and one-time prekeys. What is drawn at random
-- (key pairs) and read off the clock is an argument.
use ratchet_usb.Prelude.{
  ℕ, ◌+◌, ◌%◌, ◌^◌, ◌<◌, ◌≡◌, sym, ap, ◌∙◌, Bool, List, [], ◌∷◌, length, codes, arith,
}
use ratchet_usb.Outcome.{Action, Result, ok, pure, built, ok-injective, ◌>>=◌, ◌>>◌, ◌>=>◌}
use ratchet_usb.Serial.Writer
use ratchet_usb.Serial.Writer.{Writing}
use ratchet_usb.Serial.Reader
use ratchet_usb.Serial.Trip.{Trip, Trip-bind, Trip-last, Trip-str, Trip-u32, Trip-bytes, Trip-whole}
use ratchet_usb.Store.{SignedPrekey, OneTimePrekey}
use ratchet_usb.Ratchet.{KeyPair}
use ratchet_usb.Identity.{Ed25519}

-- kSignedPrekeyContext
abbrev pub signed_prekey_context : List ℕ
signed_prekey_context = codes "Ratchet-USB/v2/signed-prekey"

unfoldable pub write_payload : ℕ → List ℕ → Writing
write_payload id pk = do Writer.str signed_prekey_context; Writer.u32 id; Writer.bytes pk

unfoldable pub spk_signing_payload : ℕ → List ℕ → Result (List ℕ)
unfolding write_payload
spk_signing_payload id pk = built (write_payload id pk)

module _ (ed : Ed25519) where
  unfoldable pub generate_signed_prekey : List ℕ → ℕ → KeyPair → ℕ → Result SignedPrekey
  unfolding spk_signing_payload
  generate_signed_prekey identity_sk id drawn now = spk_signing_payload id drawn.pk >=> λ msg.
      ok (record {
        id = id;
        pub_key = drawn.pk;
        sk = drawn.sk;
        signature = ed.sign identity_sk msg;
        created_at = now;
      })

  unfoldable pub resign_signed_prekey : List ℕ → SignedPrekey → Result SignedPrekey
  unfolding spk_signing_payload
  resign_signed_prekey identity_sk spk = spk_signing_payload spk.id spk.pub_key >=> λ msg.
      ok (record spk { signature = ed.sign identity_sk msg })

  unfoldable pub verify_signed_prekey_signature : List ℕ → ℕ → List ℕ → List ℕ → Result Bool
  unfolding spk_signing_payload
  verify_signed_prekey_signature identity_pk spk_id spk_pub signature =
      spk_signing_payload spk_id spk_pub >=> λ msg. ok (ed.verify identity_pk msg signature)

-- One prekey for each key pair drawn; ids wrap around at 32 bits.
unfoldable pub generate_one_time_prekeys : ℕ → List KeyPair → List OneTimePrekey
generate_one_time_prekeys start_id [] = []
generate_one_time_prekeys start_id (drawn ∷ more) =
    record { id = start_id; pub_key = drawn.pk; sk = drawn.sk }
    ∷ generate_one_time_prekeys ((start_id + 1) % 2 ^ 32) more

-- What a reader of a payload sees.
read_payload : Action (ℕ × List ℕ)
read_payload = do context ← Reader.str; id ← Reader.u32; pk ← Reader.bytes 32; pure (id, pk)

Trip-payload :
    (id : ℕ) (pk : List ℕ)
    → id < 2 ^ 32
    → length pk ≡ 32
    → Trip (write_payload id pk) read_payload (id, pk)
unfolding write_payload read_payload
Trip-payload id pk fits size =
    Trip-bind _ _ (Trip-str signed_prekey_context (omega arith))
      (Trip-bind _ _ (Trip-u32 id fits) (Trip-last _ (Trip-bytes 32 pk size)))

-- Prekeys with 32-bit ids and 32-byte public keys that are signed as the same bytes have the same
-- id and the same key, so a signature is one of a single id and key.
pub spk_signing_payload_injective :
    (id id' : ℕ) (pk pk' : List ℕ)
    → id < 2 ^ 32
    → id' < 2 ^ 32
    → length pk ≡ 32
    → length pk' ≡ 32
    → spk_signing_payload id pk ≡ spk_signing_payload id' pk'
    → (id ≡ id') × (pk ≡ pk')
unfolding spk_signing_payload
spk_signing_payload_injective id id' pk pk' fits fits' size size' same =
    let t = Trip-payload id pk fits size in
    let t' = Trip-payload id' pk' fits' size' in
    let image : t.image ≡ t'.image =
      ok-injective (sym (Trip-whole t).0 ∙ same ∙ (Trip-whole t').0) in
    let read = ok-injective (sym (Trip-whole t).1 ∙ ap read_payload image ∙ (Trip-whole t').1) in
    (ap (λ r. r.0.0) read, ap (λ r. r.0.1) read)
