-- ===== src/Group/Wrapper.antt =====
-- src/group.cpp: a wrapper opens for the member that it was sealed to.
use ratchet_usb.Prelude.{ℕ, ◌+◌, ◌^◌, ◌<◌, ◌≡◌, refl, ◌∙◌, List, [], length, some, le→ltb, arith}
use ratchet_usb.Outcome.{ok}
use ratchet_usb.Serial.Reader
use ratchet_usb.Serial.Trip.{Trip, Trip-bind, Trip-last, Trip-bytes, Trip-blob, Trip-whole}
use ratchet_usb.Crypto.{Crypto, CryptoLaws, tag_bytes}
use ratchet_usb.Kdf.{extract, expand, fallback_expand}
use ratchet_usb.Identity.{Ed25519}
use ratchet_usb.Ratchet.{KeyPair, dh}
use ratchet_usb.X3dh.Dh.{ConversionLaws, converts, converts_pair, meets}
use ratchet_usb.Group.{
  write_wrapper, read_wrapper, wrapper_salt, wrapper_info, derive_wrapper_key, seal_wrapper,
  open_wrapper, unseal_wrapper,
}

-- The three fields come back.
Trip-wrapper :
    (pk nonce ct : List ℕ)
    → length pk ≡ 32
    → length nonce ≡ 12
    → length ct < 2 ^ 32
    → Trip (write_wrapper pk nonce ct) read_wrapper (pk, nonce, ct)
unfolding write_wrapper read_wrapper
Trip-wrapper pk nonce ct p n h =
    Trip-bind _ _ (Trip-bytes 32 pk p)
      (Trip-bind _ _ (Trip-bytes 12 nonce n) (Trip-last (λ xs. (pk, nonce, xs)) (Trip-blob ct h)))

module _ (c : Crypto) (laws : CryptoLaws c) (ed : Ed25519) (conv : ConversionLaws c ed)
    (sk nonce inner shared : List ℕ) (ephemeral : KeyPair)
    (paired : ephemeral.pk ≡ c.public_of ephemeral.sk) (size : length ephemeral.pk ≡ 32)
    (drawn : length nonce ≡ 12) (fits : length inner + 16 < 2 ^ 32)
    (agreed : dh c ephemeral.sk (c.public_of (conv.converted sk)) ≡ ok shared) where
  key : List ℕ
  key = fallback_expand c 32 wrapper_info (extract c wrapper_salt shared)

  derived : derive_wrapper_key c shared ≡ ok key
  unfolding derive_wrapper_key expand key
  derived = refl

  sealed : List ℕ
  sealed = c.seal key nonce [] inner

  length-sealed : length sealed ≡ length inner + tag_bytes
  unfolding sealed
  length-sealed = laws.length-seal key nonce [] inner

  opens : c.unseal key nonce [] sealed ≡ some inner
  unfolding sealed
  opens = laws.unseal-seal key nonce [] inner

  trip : Trip (write_wrapper ephemeral.pk nonce sealed) read_wrapper (ephemeral.pk, nonce, sealed)
  trip = Trip-wrapper ephemeral.pk nonce sealed size drawn (omega (arith, length-sealed))

  met : dh c (conv.converted sk) ephemeral.pk ≡ ok shared
  met =
      meets c laws ed conv (conv.converted sk) ephemeral.sk (c.public_of (conv.converted sk))
        ephemeral.pk refl paired
      ∙ agreed

  writes : seal_wrapper c ed (ed.public_of sk) inner ephemeral nonce ≡ ok trip.image
  unfolding seal_wrapper sealed
  writes = rw (converts c laws ed conv sk, agreed, derived) (Trip-whole trip).0

  unwraps : open_wrapper c ed sk (ed.public_of sk) ((ephemeral.pk, nonce, sealed), []) ≡ ok inner
  unfolding open_wrapper Reader.at_end
  unwraps =
      rw
        (
          le→ltb (length sealed) tag_bytes (omega (arith, length-sealed)),
          converts_pair c laws ed conv sk,
          met,
          derived,
          opens,
        )
        refl

  reads : unseal_wrapper c ed sk (ed.public_of sk) trip.image ≡ ok inner
  unfolding unseal_wrapper
  reads = rw ((Trip-whole trip).1) unwraps

  -- A member opens the wrapper that was sealed to its identity. Where the ephemeral keys are a
  -- pair, the key and the nonce have their sizes, the text fits a length-prefixed field,
  -- Diffie-Hellman with the member's key succeeds and the libraries obey their laws, `seal_wrapper`
  -- returns a wrapper, and `unseal_wrapper` of it with the member's identity keys returns the text.
  pub unseal_wrapper-seal_wrapper :
      (wrapper : List ℕ) × (seal_wrapper c ed (ed.public_of sk) inner ephemeral nonce ≡ ok wrapper)
      × (unseal_wrapper c ed sk (ed.public_of sk) wrapper ≡ ok inner)
  unseal_wrapper-seal_wrapper = (trip.image, writes, reads)
