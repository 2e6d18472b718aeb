-- ===== src/Outcome.antt =====
-- Results: a thrown `Error` (include/ratchet/secure.hpp) is a value, and a reader or writer of
-- bytes is an action on a list of bytes.
use ratchet_usb.Prelude.{ℕ, ◌≡◌, Bool, true, false, List, []}

-- The errors that the modelled code throws, one for each message.
pub data Error : Type 0 where
  -- include/ratchet/serial.hpp
  field_too_long truncated secure_blob_too_long : Error
  -- src/wire.cpp
  block_too_long altered_dashes begin_missing end_missing : Error
  payload_too_long invalid_base64 decoded_too_long : Error
  -- src/message.cpp
  noncanonical_flag legacy_message unsupported_message invalid_spqr_length : Error
  trailing_envelope_data : Error
  -- src/kdf.cpp, src/x25519.cpp
  unsupported_output_length low_order_point : Error
  -- src/ratchet.cpp
  plaintext_too_long ciphertext_too_short authentication_failed invalid_padding : Error
  too_many_skipped no_sending_chain : Error
  -- src/store.cpp
  mismatched_ml_kem_key invalid_card_suite invalid_alias invalid_minimum_suite : Error
  invalid_session_state spqr_state_too_long handshake_history_full : Error
  wrong_store_format unsupported_store_version trailing_store_data : Error
  -- src/rollback.cpp
  corrupt_anchor unsupported_anchor trailing_anchor_data unauthenticated_anchor : Error
  anchor_of_other_vault anchor_not_authentic rollback_detected fork_detected : Error
  generation_gap : Error
  -- src/passphrase.cpp
  word_count_out_of_range : Error
  -- src/pq.cpp
  kem_public_import kem_private_import dsa_private_import dsa_public_import : Error
  kem_keygen_setup kem_seed_not_retained kem_keygen kem_public_export : Error
  kem_encapsulation_setup kem_encapsulation message_authentication : Error
  dsa_public_export dsa_signing_setup dsa_signing dsa_verification_setup : Error
  -- src/identity.cpp
  identity_derivation secret_conversion public_conversion : Error
  -- src/x3dh.cpp
  xwing_combiner not_a_card unsupported_card trailing_card_data unsupported_hybrid_suite : Error
  card_signature card_pq_signature hybrid_prekey trailing_signed_body prekey_signature : Error
  card_missing stored_card_invalid xwing_without_bundle : Error
  -- src/session.cpp
  no_such_contact contact_unverified message_too_long hybrid_card_required : Error
  suite_below_minimum card_suite_unsupported session_read_only session_suite_mismatch : Error
  session_closed unknown_contact opening_incomplete opening_replayed prekey_gone : Error
  one_time_prekey_used pq_prekey_unknown pq_one_time_prekey_used session_established : Error
  tie_break_lost no_session suite_mismatch unrecognised_sender : Error
  -- src/vault.cpp
  time_cost_out_of_range mem_cost_out_of_range key_derivation header_size : Error
  header_incomplete not_a_vault unsupported_vault empty_passphrase unsealable_version : Error
  ciphertext_size vault_too_short vault_too_long vault_not_opened : Error
  -- src/group.cpp
  trailing_wrapper_data wrapper_too_short wrapper_not_opened : Error
  group_content_too_short group_content_not_opened group_padding : Error

pub data Result {ℓ} (A : Type ℓ) : Type ℓ where
  ok : A → Result A
  err : Error → Result A

abbrev pub Action {ℓ} : Type ℓ → Type ℓ
Action A = List ℕ → Result (A × List ℕ)

module _ {ℓ} {A : Type ℓ} where
  abbrev pub pure : A → Action A
  pure a s = ok (a, s)

  abbrev pub throw : Error → Action A
  throw e s = err e

infixl 5 ◌>>=◌ ◌>>◌
abbrev pub ◌>>=◌ {ℓ κ} : {A : Type ℓ} {B : Type κ} → Action A → (A → Action B) → Action B
◌>>=◌ m f s = elim (m s) [ ok (a, t) ↦ f a t | err e ↦ err e ]

abbrev pub ◌>>◌ {ℓ} : {B : Type ℓ} → Action (Unit {0}) → Action B → Action B
◌>>◌ m k s = elim (m s) [ ok (a, t) ↦ k t | err e ↦ err e ]

-- `if (!test) throw e;`
abbrev pub guard : Bool → Error → Action (Unit {0})
guard true e = pure tt
guard false e = throw e

-- A call between two reads, which may throw.
abbrev pub call {ℓ} : {A : Type ℓ} → Result A → Action A
call r s = elim r [ ok a ↦ ok (a, s) | err e ↦ err e ]

-- An action on a fresh sink or a whole input, with the final state dropped or kept.
abbrev pub built : Action (Unit {0}) → Result (List ℕ)
built w = elim (w []) [ ok (a, out) ↦ ok out | err e ↦ err e ]

infixl 5 ◌>=>◌
abbrev pub ◌>=>◌ {ℓ κ} : {A : Type ℓ} {B : Type κ} → Result A → (A → Result B) → Result B
ok a >=> f = f a
err e >=> f = err e

pub ok-injective {ℓ} : {A : Type ℓ} {a b : A} → ok a ≡ ok b → a ≡ b
ok-injective p = cc
