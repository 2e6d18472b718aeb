-- ===== src/Group.antt =====
-- src/group.cpp: the parts of a group message. The content key in its wrapper, the wrapper sealed to
-- a member's identity, and the content that all members open.
pub mod Wrapper
pub mod Content
use ratchet_usb.Prelude.{
  ◌-◌, ◌∷◌, replicate, ℕ, ◌+◌, ◌%◌, ◌^◌, not, List, [], ◌++◌, length, take, drop, Option, none,
  some, codes, ltb, ◌==◌, same_bytes, if◌then◌else◌,
}
use ratchet_usb.Outcome.{
  Action, Result, ok, err, pure, built, ◌>>=◌, ◌>>◌, ◌>=>◌, trailing_wrapper_data,
  wrapper_too_short, wrapper_not_opened, group_content_too_short, group_content_not_opened,
  group_padding,
}
use ratchet_usb.Serial.Writer
use ratchet_usb.Serial.Writer.{Writing}
use ratchet_usb.Serial.Reader
use ratchet_usb.Crypto.{Crypto, tag_bytes}
use ratchet_usb.Kdf.{extract, expand}
use ratchet_usb.Identity.{Ed25519, identity_dh_keypair, identity_dh_public}
use ratchet_usb.Ratchet.{KeyPair, dh}
use ratchet_usb.Ratchet.Padding.{padded_payload_size, unpad}

-- kGroupMagic, kKeyMagic, kGroupVersion, kKeyPayloadBytes, kSignDomain
abbrev pub group_magic : List ℕ
group_magic = codes "RGRP"

abbrev pub key_magic : List ℕ
key_magic = codes "RGK1"

abbrev pub group_version : ℕ
group_version = 1

abbrev pub key_payload_bytes : ℕ
key_payload_bytes = 52

abbrev pub sign_domain : List ℕ
sign_domain = codes "Ratchet-USB/v1/group-sender"

unfoldable pub make_key_payload : List ℕ → List ℕ → Result (List ℕ)
make_key_payload group_id content_key =
    built (do Writer.bytes key_magic; Writer.bytes group_id; Writer.bytes content_key)

-- The group's id and the content key.
unfoldable pub parse_key_payload : List ℕ → Option (List ℕ × List ℕ)
parse_key_payload payload =
    if not (length payload == key_payload_bytes)
    then none
    else if not (same_bytes (take 4 payload) key_magic)
    then none
    else some (take 16 (drop 4 payload), take 32 (drop 20 payload))

-- kSalt and kInfo of derive_wrapper_key
abbrev pub wrapper_salt : List ℕ
wrapper_salt = codes "Ratchet-USB/v1/group-wrapper"

abbrev pub wrapper_info : List ℕ
wrapper_info = codes "Ratchet-USB/v1/group-wrapper-key"

unfoldable pub write_wrapper : List ℕ → List ℕ → List ℕ → Writing
write_wrapper ephemeral_pub nonce ciphertext = do
  Writer.bytes ephemeral_pub
  Writer.bytes nonce
  Writer.blob ciphertext

unfoldable pub read_wrapper : Action (List ℕ × List ℕ × List ℕ)
read_wrapper = do
  ephemeral_pub ← Reader.bytes 32
  nonce ← Reader.bytes 12
  ciphertext ← Reader.blob
  pure (ephemeral_pub, nonce, ciphertext)

module _ (c : Crypto) where
  unfoldable pub content_aad : List ℕ → List ℕ → List (List ℕ) → Result (List ℕ)
  content_aad group_id sender wrappers =
      built (Writer.for_each Writer.str wrappers) >=> λ wrapper_bytes. built (do
        Writer.bytes group_magic
        Writer.u8 group_version
        Writer.bytes group_id
        Writer.bytes sender
        Writer.u32 (length wrappers % 2 ^ 32)
        Writer.bytes (c.sha256 wrapper_bytes))

  unfoldable pub derive_wrapper_key : List ℕ → Result (List ℕ)
  derive_wrapper_key shared = expand c 32 wrapper_info (extract c wrapper_salt shared)

  -- The ephemeral key pair and the nonce are drawn.
  unfoldable pub seal_wrapper : Ed25519 → List ℕ → List ℕ → KeyPair → List ℕ → Result (List ℕ)
  unfolding derive_wrapper_key write_wrapper
  seal_wrapper ed recipient_identity inner_block ephemeral nonce =
      identity_dh_public ed recipient_identity >=> λ recipient_dh.
      dh c ephemeral.sk recipient_dh >=> λ shared. derive_wrapper_key shared >=> λ key.
      built (write_wrapper ephemeral.pk nonce (c.seal key nonce [] inner_block))

  -- The part of `unseal_wrapper` behind the reader.
  unfoldable pub open_wrapper :
      Ed25519 → List ℕ → List ℕ → (List ℕ × List ℕ × List ℕ) × List ℕ → Result (List ℕ)
  unfolding derive_wrapper_key
  open_wrapper ed my_identity_sk my_identity_pk ((ephemeral_pub, nonce, ciphertext), rest) =
      if not (Reader.at_end rest)
      then err trailing_wrapper_data
      else if ltb (length ciphertext) tag_bytes
      then err wrapper_too_short
      else identity_dh_keypair ed my_identity_sk my_identity_pk >=> λ mine.
          dh c mine.0 ephemeral_pub >=> λ shared. derive_wrapper_key shared >=> λ key.
          elim (c.unseal key nonce [] ciphertext) [
            | none ↦ err wrapper_not_opened
            | some plaintext ↦ ok plaintext
          ]

  unfoldable pub unseal_wrapper : Ed25519 → List ℕ → List ℕ → List ℕ → Result (List ℕ)
  unfolding read_wrapper open_wrapper
  unseal_wrapper ed my_identity_sk my_identity_pk wrapper =
      read_wrapper wrapper >=> λ parsed. open_wrapper ed my_identity_sk my_identity_pk parsed

  unfoldable pub transcript_digest : List ℕ → List ℕ → List ℕ → List ℕ
  transcript_digest aad ciphertext nonce = c.sha256 (sign_domain ++ (aad ++ (nonce ++ ciphertext)))

  -- A buffer of zeros of the padded size, with the text and the delimiter 0x80 written to it.
  unfoldable pub encrypt_content : List ℕ → List ℕ → List ℕ → List ℕ → Result (List ℕ)
  unfolding padded_payload_size
  encrypt_content content_key plaintext nonce aad =
      padded_payload_size (length plaintext) >=> λ target_len. ok (
        c.seal content_key nonce aad
          (plaintext ++ 128 ∷ replicate (target_len - (length plaintext + 1)) 0))

  -- The padding is that of `aead_decrypt`, tested by the same steps with an error of its own.
  unfoldable pub decrypt_content : List ℕ → List ℕ → List ℕ → List ℕ → Result (List ℕ)
  unfolding unpad
  decrypt_content content_key ciphertext nonce aad =
      if ltb (length ciphertext) tag_bytes
      then err group_content_too_short
      else elim (c.unseal content_key nonce aad ciphertext) [
        | none ↦ err group_content_not_opened
        | some pt ↦ elim (unpad pt) [ ok plaintext ↦ ok plaintext | err e ↦ err group_padding ]
      ]
