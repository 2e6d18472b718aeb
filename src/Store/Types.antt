-- ===== src/Store/Types.antt =====
-- The structs of include/ratchet/store.hpp, include/ratchet/prekey.hpp and include/ratchet/pq.hpp.
-- Fixed-size arrays and secure buffers are lists of bytes.
use ratchet_usb.Prelude.{ℕ, Bool, Option, List}
use ratchet_usb.Protocol.{ProtocolSuite}

abbrev pub max_alias_bytes : ℕ
max_alias_bytes = 128

-- Maximum number of accepted handshakes stored in a vault.
abbrev pub max_accepted_handshakes : ℕ
max_accepted_handshakes = 512

pub record PeerOtpk : Type 0 where
  pub id : ℕ
  pub pub_key : List ℕ

pub record PeerPqPrekey : Type 0 where
  pub id : ℕ
  pub pub_key : List ℕ

pub record PeerPqBundle : Type 0 where
  pub signed_prekey : PeerPqPrekey
  pub ed_signature : List ℕ
  pub pq_signature : List ℕ
  pub one_time_prekeys : List PeerPqPrekey

pub record PeerCard : Type 0 where
  pub maximum_suite : ProtocolSuite
  pub spk_id : ℕ
  pub spk_pub : List ℕ
  pub spk_signature : List ℕ
  pub one_time_prekeys : List PeerOtpk
  pub pq_identity_pub : List ℕ
  pub pq_bundle : Option PeerPqBundle

pub record MlKemKeyPair : Type 0 where
  pub public_key : List ℕ
  pub private_seed : List ℕ

pub record PqPrekey : Type 0 where
  pub id : ℕ
  pub key : MlKemKeyPair
  pub created_at : ℕ

pub record SignedPrekey : Type 0 where
  pub id : ℕ
  pub pub_key : List ℕ
  pub sk : List ℕ
  pub signature : List ℕ
  pub created_at : ℕ

pub record OneTimePrekey : Type 0 where
  pub id : ℕ
  pub pub_key : List ℕ
  pub sk : List ℕ

pub record Contact : Type 0 where
  pub alias : List ℕ
  pub identity_pub : List ℕ
  pub verified : Bool
  pub minimum_suite : ProtocolSuite
  pub card : Option PeerCard

pub record SkippedKey : Type 0 where
  pub dh_pub : List ℕ
  pub n : ℕ
  pub message_key : List ℕ
  pub created_at : ℕ

pub record AcceptedHandshake : Type 0 where
  pub initiator_identity : List ℕ
  pub ephemeral_pub : List ℕ
  pub accepted_at : ℕ
  pub spk_id : ℕ

pub data Status : Type 0 where
  pending confirmed closed : Status

-- Double Ratchet state for one contact.
pub record Session : Type 0 where
  pub contact_index : ℕ
  pub suite : ProtocolSuite
  pub status : Status
  pub session_id : List ℕ
  pub legacy_read_only : Bool
  pub spqr_state : List ℕ
  pub root_key : List ℕ
  pub has_dhs : Bool
  pub dhs_sk : List ℕ
  pub dhs_pub : List ℕ
  pub has_dhr : Bool
  pub dhr_pub : List ℕ
  pub has_cks : Bool
  pub chain_key_send : List ℕ
  pub has_ckr : Bool
  pub chain_key_recv : List ℕ
  pub ns : ℕ
  pub nr : ℕ
  pub pn : ℕ
  pub skipped : List SkippedKey

pub record VaultStore : Type 0 where
  pub vault_id : List ℕ
  pub generation : ℕ
  pub previous_digest : List ℕ
  pub seed : List ℕ
  pub next_spk_id : ℕ
  pub signed_prekeys : List SignedPrekey
  pub next_otpk_id : ℕ
  pub one_time_prekeys : List OneTimePrekey
  pub next_pq_prekey_id : ℕ
  pub pq_signed_prekeys : List PqPrekey
  pub pq_one_time_prekeys : List PqPrekey
  pub contacts : List Contact
  pub sessions : List Session
  pub accepted_handshakes : List AcceptedHandshake
