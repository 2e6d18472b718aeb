-- ===== src/Store/Read.antt =====
-- src/store.cpp: the readers of the vault's records, at every version of the format, and parse.
use ratchet_usb.Prelude.{
  ℕ, zero, suc, Bool, true, false, not, ◌||◌, List, length, replicate, Option, none, ltb, leb, ◌==◌,
  if◌then◌else◌, same_bytes,
}
use ratchet_usb.Outcome.{
  Action, Result, call, pure, guard, ◌>>=◌, ◌>>◌, mismatched_ml_kem_key, invalid_card_suite,
  invalid_alias, invalid_minimum_suite,
}
use ratchet_usb.Serial.Reader
use ratchet_usb.Protocol.{ProtocolSuite, suite_of, known_suite, classic_v2, hybrid_pqxdh_v1}
use ratchet_usb.Store.Types.{
  MlKemKeyPair, PeerOtpk, PeerPqPrekey, PeerPqBundle, PeerCard, PqPrekey, SignedPrekey,
  OneTimePrekey, Contact, SkippedKey, Status, pending, confirmed, closed, max_alias_bytes,
}

-- The sizes of ML-KEM-768 keys and seeds and of ML-DSA-65 keys and signatures.
abbrev pub ml_kem_public_key_bytes : ℕ
ml_kem_public_key_bytes = 1184

abbrev pub ml_kem_seed_bytes : ℕ
ml_kem_seed_bytes = 64

abbrev pub ml_dsa_public_key_bytes : ℕ
ml_dsa_public_key_bytes = 1952

abbrev pub ml_dsa_signature_bytes : ℕ
ml_dsa_signature_bytes = 3309

-- `r.u8() != 0`
unfoldable pub read_bool : Action Bool
read_bool = do value ← Reader.u8; pure (not (value == 0))

-- static_cast<Session::Status>(code), which the code applies to 1, 2 and 3 only.
abbrev pub status_of : ℕ → Status
status_of (suc zero) = pending
status_of (suc (suc zero)) = confirmed
status_of code = closed

-- `from_seed` is pq::ml_kem_768_from_seed, which Pq models; it may throw.
unfoldable pub read_pq_prekey : (List ℕ → Result MlKemKeyPair) → Action PqPrekey
read_pq_prekey from_seed = do
  id ← Reader.u32
  public_key ← Reader.bytes ml_kem_public_key_bytes
  private_seed ← Reader.bytes ml_kem_seed_bytes
  created_at ← Reader.u64
  reconstructed ← call (from_seed private_seed)
  guard (same_bytes reconstructed.public_key public_key) mismatched_ml_kem_key
  pure (record {
    id = id;
    key = record { public_key = public_key; private_seed = private_seed };
    created_at = created_at;
  })

unfoldable pub read_signed_prekey : ℕ → Action SignedPrekey
read_signed_prekey version = do
  id ← Reader.u32
  pk ← Reader.bytes 32
  sk ← Reader.bytes 32
  signature ← Reader.bytes 64
  created_at ← Reader.read_or (leb 2 version) 0 Reader.u64
  pure (record { id = id; pub_key = pk; sk = sk; signature = signature; created_at = created_at })

unfoldable pub read_one_time_prekey : Action OneTimePrekey
read_one_time_prekey = do
  id ← Reader.u32
  pk ← Reader.bytes 32
  sk ← Reader.bytes 32
  pure (record { id = id; pub_key = pk; sk = sk })

unfoldable pub read_suite : Bool → Action ProtocolSuite
read_suite on_card = do
  suite ← Reader.u8
  guard (known_suite suite) (if on_card then invalid_card_suite else invalid_minimum_suite)
  pure (suite_of suite)

unfoldable pub read_peer_otpk : Action PeerOtpk
read_peer_otpk = do id ← Reader.u32; pk ← Reader.bytes 32; pure (record { id = id; pub_key = pk })

unfoldable pub read_peer_pq_prekey : Action PeerPqPrekey
read_peer_pq_prekey = do
  id ← Reader.u32
  pk ← Reader.bytes ml_kem_public_key_bytes
  pure (record { id = id; pub_key = pk })

unfoldable pub read_pq_bundle : Action PeerPqBundle
unfolding read_peer_pq_prekey
read_pq_bundle = do
  id ← Reader.u32
  pk ← Reader.bytes ml_kem_public_key_bytes
  ed ← Reader.bytes 64
  pq ← Reader.bytes ml_dsa_signature_bytes
  one_time ← Reader.counted read_peer_pq_prekey
  pure (record {
    signed_prekey = record { id = id; pub_key = pk };
    ed_signature = ed;
    pq_signature = pq;
    one_time_prekeys = one_time;
  })

-- `if (r.u8() != 0) { ... }`
unfoldable pub read_optional_bundle : Action (Option PeerPqBundle)
unfolding read_bool read_pq_bundle
read_optional_bundle = do present ← read_bool; Reader.read_if present read_pq_bundle

unfoldable pub read_peer_card : ℕ → Action PeerCard
unfolding read_suite read_peer_otpk read_optional_bundle
read_peer_card version = do
  suite ←
      Reader.read_or (leb 9 version) (if leb 7 version then hybrid_pqxdh_v1 else classic_v2)
        (read_suite true)
  spk_id ← Reader.u32
  spk_pub ← Reader.bytes 32
  spk_signature ← Reader.bytes 64
  one_time ← Reader.counted read_peer_otpk
  identity ←
      Reader.read_or (leb 7 version) (replicate ml_dsa_public_key_bytes 0)
        (Reader.bytes ml_dsa_public_key_bytes)
  bundle ← Reader.read_or (leb 7 version) none read_optional_bundle
  pure (record {
    maximum_suite = suite;
    spk_id = spk_id;
    spk_pub = spk_pub;
    spk_signature = spk_signature;
    one_time_prekeys = one_time;
    pq_identity_pub = identity;
    pq_bundle = bundle;
  })

unfoldable pub read_card : ℕ → Action (Option PeerCard)
unfolding read_bool read_peer_card
read_card version = do present ← read_bool; Reader.read_if present (read_peer_card version)

unfoldable pub read_contact : ℕ → Action Contact
unfolding read_bool read_suite read_card
read_contact version = do
  alias ← Reader.str
  guard (not (length alias == 0 || ltb max_alias_bytes (length alias))) invalid_alias
  identity ← Reader.bytes 32
  verified ← read_bool
  minimum ← Reader.read_or (leb 6 version) classic_v2 (read_suite false)
  card ← read_card version
  pure (record {
    alias = alias;
    identity_pub = identity;
    verified = verified;
    minimum_suite = minimum;
    card = card;
  })

-- `now` is the clock at the call, which a version before 3 reads.
unfoldable pub read_skipped_key : ℕ → ℕ → Action SkippedKey
read_skipped_key now version = do
  dh_pub ← Reader.bytes 32
  n ← Reader.u32
  message_key ← Reader.bytes 32
  created_at ← Reader.read_or (leb 3 version) now Reader.u64
  pure (record { dh_pub = dh_pub; n = n; message_key = message_key; created_at = created_at })
