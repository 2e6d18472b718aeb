-- ===== src/Rollback.antt =====
-- include/ratchet/rollback.hpp and src/rollback.cpp: the host's anchor, which detects an old copy
-- of the vault.
pub mod RoundTrip
pub mod Validated
use ratchet_usb.Prelude.{
  ℕ, ◌+◌, ◌-◌, ◌%◌, ◌^◌, Bool, true, false, not, ◌&&◌, ◌||◌, List, [], ◌++◌, replicate, Option,
  none, some, codes, ltb, ◌==◌, same_bytes, if◌then◌else◌,
}
use ratchet_usb.Outcome.{
  Action, Result, ok, err, pure, built, guard, ◌>>=◌, ◌>>◌, ◌>=>◌, corrupt_anchor,
  unsupported_anchor, trailing_anchor_data, unauthenticated_anchor, anchor_of_other_vault,
  anchor_not_authentic, rollback_detected, fork_detected, generation_gap,
}
use ratchet_usb.Serial.Writer
use ratchet_usb.Serial.Writer.{Writing}
use ratchet_usb.Serial.Reader
use ratchet_usb.Crypto.{Crypto}
use ratchet_usb.Kdf.{extract, expand}
use ratchet_usb.Wire.{Base64}
use ratchet_usb.Store.{VaultStore}

pub record AnchorRecord : Type 0 where
  pub vault_id : List ℕ
  pub generation : ℕ
  pub vault_digest : List ℕ
  pub authenticated : Bool
  pub mac : List ℕ

pub data AnchorStatus : Type 0 where
  protected unprotected advanced_after_crash : AnchorStatus

-- kLegacyMagic, kMacMagic, kMacInfo
abbrev pub legacy_magic : List ℕ
legacy_magic = codes "RANCHOR1"

abbrev pub mac_magic : List ℕ
mac_magic = codes "RANCHOR2"

abbrev pub mac_info : List ℕ
mac_info = codes "Ratchet-USB/v4/rollback-anchor"

unfoldable pub write_fields : List ℕ → AnchorRecord → Writing
write_fields magic anchor = do
  Writer.bytes magic
  Writer.bytes anchor.vault_id
  Writer.u64 anchor.generation
  Writer.bytes anchor.vault_digest

unfoldable pub mac_message : AnchorRecord → Result (List ℕ)
unfolding write_fields
mac_message anchor = built (write_fields mac_magic anchor)

module _ (c : Crypto) where
  unfoldable pub derive_mac_key : List ℕ → Result (List ℕ)
  derive_mac_key seed = expand c 32 mac_info (extract c [] seed)

  -- The tag of a record under the key of a seed.
  unfoldable pub tag_of : AnchorRecord → List ℕ → Result (List ℕ)
  unfolding derive_mac_key mac_message
  tag_of anchor seed =
      derive_mac_key seed >=> λ key. mac_message anchor >=> λ message. ok (c.hmac key message)

  unfoldable pub authenticate : AnchorRecord → List ℕ → Result AnchorRecord
  unfolding tag_of
  authenticate anchor seed =
      tag_of anchor seed >=> λ tag. ok (record anchor { mac = tag; authenticated = true })

  unfoldable pub authentic_for : AnchorRecord → VaultStore → Result Bool
  unfolding tag_of
  authentic_for anchor usb =
      if not anchor.authenticated || not (same_bytes anchor.vault_id usb.vault_id)
      then ok false
      else tag_of anchor usb.seed >=> λ tag. ok (same_bytes tag anchor.mac)

  -- The last part of `validate`: the generations and the chain of digests.
  unfoldable pub check_generation : AnchorRecord → VaultStore → List ℕ → Result AnchorStatus
  check_generation anchor usb usb_digest =
      if ltb usb.generation anchor.generation
      then err rollback_detected
      else if usb.generation == anchor.generation
      then (if same_bytes anchor.vault_digest usb_digest then ok protected else err fork_detected)
      else if not (anchor.generation == 2 ^ 64 - 1)
          && (usb.generation == (anchor.generation + 1) % 2 ^ 64
              && same_bytes usb.previous_digest anchor.vault_digest)
      then ok advanced_after_crash
      else err generation_gap

  unfoldable pub validate : AnchorRecord → VaultStore → List ℕ → Result AnchorStatus
  unfolding tag_of check_generation
  validate anchor usb usb_digest =
      if not anchor.authenticated
      then err unauthenticated_anchor
      else if not (same_bytes anchor.vault_id usb.vault_id)
      then err anchor_of_other_vault
      else tag_of anchor usb.seed >=> λ tag.
          if not (same_bytes tag anchor.mac)
          then err anchor_not_authentic
          else check_generation anchor usb usb_digest

-- `base64` is libsodium's, in the variant for URLs without padding.
unfoldable pub encode_anchor : Base64 → AnchorRecord → Result (List ℕ)
unfolding mac_message write_fields
encode_anchor base64 anchor =
    (if anchor.authenticated
      then (mac_message anchor >=> λ raw. ok (raw ++ anchor.mac))
      else built (write_fields legacy_magic anchor))
    >=> λ raw. ok (base64.to_base64 raw)

unfoldable pub read_anchor : Action AnchorRecord
read_anchor = do
  magic ← Reader.bytes 8
  guard (same_bytes magic mac_magic || same_bytes magic legacy_magic) unsupported_anchor
  vault_id ← Reader.bytes 16
  generation ← Reader.u64
  vault_digest ← Reader.bytes 32
  mac ← Reader.read_or (same_bytes magic mac_magic) (replicate 32 0) (Reader.bytes 32)
  pure (record {
    vault_id = vault_id;
    generation = generation;
    vault_digest = vault_digest;
    authenticated = same_bytes magic mac_magic;
    mac = mac;
  })

unfoldable pub decode_anchor : Base64 → List ℕ → Result AnchorRecord
unfolding read_anchor
decode_anchor base64 text = elim (base64.of_base64 text) [
  | none ↦ err corrupt_anchor
  | some raw ↦ read_anchor raw >=> λ (anchor, rest).
      if Reader.at_end rest then ok anchor else err trailing_anchor_data
]
