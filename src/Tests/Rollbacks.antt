-- ===== src/Tests/Rollbacks.antt =====
-- The rollback anchor at a concrete input.
use ratchet_usb.Prelude.{List, ℕ, ◌≡◌, refl, true, replicate, same_bytes, arith}
use ratchet_usb.Outcome.{ok}
use ratchet_usb.Serial.Writer
use ratchet_usb.Kdf.{extract, expand, fallback_expand}
use ratchet_usb.Rollback.{
  AnchorRecord, advanced_after_crash, tag_of, validate, encode_anchor, decode_anchor,
}
use ratchet_usb.Rollback.RoundTrip.{IsAnchor, decode_anchor-encode_anchor}
use ratchet_usb.Rollback.Validated.{IsCurrent, validate-IsCurrent}
use ratchet_usb.Tests.Samples.{toy, plain, plain_laws}
use ratchet_usb.Tests.Vaults.{vault}

-- The anchor of the state before the vault's.
abbrev anchor : AnchorRecord
anchor = record {
  vault_id = replicate 16 19;
  generation = 1099511627775;
  vault_digest = replicate 32 20;
  authenticated = true;
  mac = replicate 32 220;
}

anchor_valid : validate toy anchor vault (replicate 32 99) ≡ ok advanced_after_crash
unfolding same_bytes validate extract expand fallback_expand Writer.bytes Writer.u64 Writer.u32
anchor_valid = refl

validate-IsCurrent_example :
    (anchor.authenticated ≡ true)
    × (anchor.vault_id ≡ vault.vault_id)
    × (tag_of toy anchor vault.seed ≡ ok anchor.mac)
    × IsCurrent toy anchor vault (replicate 32 99) advanced_after_crash
validate-IsCurrent_example =
    validate-IsCurrent toy anchor vault (replicate 32 99) advanced_after_crash (omega arith)
      anchor_valid

anchor-IsAnchor : IsAnchor anchor
anchor-IsAnchor = record {
  id_size = refl;
  generation_fits = omega arith;
  digest_size = refl;
  mac_size = refl;
  untagged = λ e. absurd (cc e);
}

decode_anchor-encode_anchor_example :
    (text : List ℕ) × (encode_anchor plain anchor ≡ ok text)
    × (decode_anchor plain text ≡ ok anchor)
decode_anchor-encode_anchor_example =
    decode_anchor-encode_anchor anchor anchor-IsAnchor plain plain_laws.of_base64-to_base64
