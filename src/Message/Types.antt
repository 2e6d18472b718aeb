-- ===== src/Message/Types.antt =====
-- The structs of include/ratchet/message.hpp, and what their C++ types promise.
use ratchet_usb.Prelude.{
  ℕ, ◌*◌, ◌^◌, ◌≤◌, ◌<◌, ◌≡◌, true, ◌⊎◌, Option, none, some, List, length, codes,
}
use ratchet_usb.Protocol.{ProtocolSuite, hybrid_pqxdh_v1, uses_triple_ratchet}

-- RMSG
abbrev pub message_magic : List ℕ
message_magic = codes "RMSG"

-- kMaxEnvelopeBytes, kMaxPlaintextBytes, kSenderIdBytes, kMlKem768CiphertextBytes
abbrev pub max_envelope_bytes : ℕ
max_envelope_bytes = 8 * 1024 * 1024

abbrev pub max_plaintext_bytes : ℕ
max_plaintext_bytes = 4 * 1024 * 1024

abbrev pub sender_id_bytes : ℕ
sender_id_bytes = 8

abbrev pub ml_kem_ciphertext_bytes : ℕ
ml_kem_ciphertext_bytes = 1088

-- The largest SPQR message that an envelope carries.
abbrev pub max_spqr_bytes : ℕ
max_spqr_bytes = 1024 * 1024

pub record InitialFields : Type 0 where
  pub initiator_identity_pub : List ℕ
  pub spk_id : ℕ
  pub otpk_id : Option ℕ
  pub pq_spk_id : Option ℕ
  pub pq_spk_ciphertext : Option (List ℕ)
  pub pq_otpk_id : Option ℕ
  pub pq_otpk_ciphertext : Option (List ℕ)

pub record RatchetHeader : Type 0 where
  pub dh_pub : List ℕ
  pub pn : ℕ
  pub n : ℕ

pub record Envelope : Type 0 where
  pub version : ℕ
  pub suite : ProtocolSuite
  pub sender_id : List ℕ
  pub initial : Option InitialFields
  pub spqr_message : List ℕ
  pub header : RatchetHeader
  pub ciphertext : List ℕ

abbrev pub IsU32 : ℕ → Type 0
IsU32 n = n < 2 ^ 32

abbrev pub Optionally {ℓ κ} : {A : Type ℓ} → (A → Type κ) → Option A → Type κ
Optionally P none = Unit
Optionally P (some a) = P a

-- An ML-KEM prekey id comes with its ciphertext, or neither is there.
abbrev pub Paired : Option ℕ → Option (List ℕ) → Type 0
Paired none none = Unit
Paired none (some ct) = ⊥
Paired (some id) none = ⊥
Paired (some id) (some ct) = IsU32 id × (length ct ≡ ml_kem_ciphertext_bytes)

-- uint32_t fields and std::array sizes.
pub record IsInitial (f : InitialFields) : Type 0 where
  pub identity_size : length f.initiator_identity_pub ≡ 32
  pub spk_fits : IsU32 f.spk_id
  pub otpk_fits : Optionally IsU32 f.otpk_id
  pub spk_paired : Paired f.pq_spk_id f.pq_spk_ciphertext
  pub otpk_paired : Paired f.pq_otpk_id f.pq_otpk_ciphertext

pub record IsHeader (h : RatchetHeader) : Type 0 where
  pub dh_size : length h.dh_pub ≡ 32
  pub pn_fits : IsU32 h.pn
  pub n_fits : IsU32 h.n

-- Version 2 is the hybrid suite without SPQR; version 3 is a Triple Ratchet suite with it.
abbrev pub Versioned : Envelope → Type 0
Versioned e =
    ((e.version ≡ 2) × (e.suite ≡ hybrid_pqxdh_v1) × (length e.spqr_message ≡ 0))
    ⊎ ((e.version ≡ 3)
        × (uses_triple_ratchet e.suite ≡ true)
        × (1 ≤ length e.spqr_message)
        × (length e.spqr_message ≤ max_spqr_bytes))

pub record IsEnvelope (e : Envelope) : Type 0 where
  pub versioned : Versioned e
  pub sender_size : length e.sender_id ≡ sender_id_bytes
  pub initial_ok : Optionally IsInitial e.initial
  pub header_ok : IsHeader e.header
  pub ciphertext_fits : IsU32 (length e.ciphertext)
