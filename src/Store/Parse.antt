-- ===== src/Store/Parse.antt =====
-- src/store.cpp: read_session, at every version of the format, and parse.
use ratchet_usb.Prelude.{
  ℕ, Bool, false, not, ◌||◌, List, [], replicate, ltb, leb, if◌then◌else◌, same_bytes,
}
use ratchet_usb.Outcome.{
  Action, Result, ok, err, pure, guard, ◌>>=◌, ◌>>◌, ◌>=>◌, invalid_session_state,
  wrong_store_format, unsupported_store_version, trailing_store_data,
}
use ratchet_usb.Serial.Reader
use ratchet_usb.Protocol.{ProtocolSuite, suite_of, known_suite, classic_v2}
use ratchet_usb.Store.Types.{
  MlKemKeyPair, PqPrekey, AcceptedHandshake, Status, pending, Session, VaultStore,
}
use ratchet_usb.Store.Write.{store_magic, store_version, max_spqr_state_bytes}
use ratchet_usb.Store.Read.{
  read_bool, status_of, read_pq_prekey, read_signed_prekey, read_one_time_prekey, read_contact,
  read_skipped_key,
}

-- What a session carries since version 6.
pub record Tagging : Type 0 where
  pub suite : ProtocolSuite
  pub status : Status
  pub session_id : List ℕ
  pub legacy_read_only : Bool
  pub spqr_state : List ℕ

-- The fields of a session that an earlier version does not have.
abbrev pub untagged : Tagging
untagged = record {
  suite = classic_v2;
  status = pending;
  session_id = replicate 32 0;
  legacy_read_only = false;
  spqr_state = [];
}

unfoldable pub read_tagging : ℕ → Action Tagging
unfolding read_bool
read_tagging version = do
  suite ← Reader.u8
  status ← Reader.u8
  guard (not (not (known_suite suite) || (ltb status 1 || ltb 3 status))) invalid_session_state
  session_id ← Reader.bytes 32
  legacy ← Reader.read_or (leb 8 version) false read_bool
  spqr ← Reader.read_or (leb 9 version) [] (Reader.secure_blob max_spqr_state_bytes)
  pure (record {
    suite = suite_of suite;
    status = status_of status;
    session_id = session_id;
    legacy_read_only = legacy;
    spqr_state = spqr;
  })

unfoldable pub read_session : ℕ → ℕ → Action Session
unfolding read_tagging read_bool read_skipped_key
read_session now version = do
  contact_index ← Reader.u32
  tagging ← Reader.read_or (leb 6 version) untagged (read_tagging version)
  root_key ← Reader.bytes 32
  has_dhs ← read_bool
  dhs_sk ← Reader.bytes 32
  dhs_pub ← Reader.bytes 32
  has_dhr ← read_bool
  dhr_pub ← Reader.bytes 32
  has_cks ← read_bool
  chain_key_send ← Reader.bytes 32
  has_ckr ← read_bool
  chain_key_recv ← Reader.bytes 32
  ns ← Reader.u32
  nr ← Reader.u32
  pn ← Reader.u32
  skipped ← Reader.counted (read_skipped_key now version)
  pure (record {
    contact_index = contact_index;
    suite = tagging.suite;
    status = tagging.status;
    session_id = tagging.session_id;
    legacy_read_only = tagging.legacy_read_only;
    spqr_state = tagging.spqr_state;
    root_key = root_key;
    has_dhs = has_dhs;
    dhs_sk = dhs_sk;
    dhs_pub = dhs_pub;
    has_dhr = has_dhr;
    dhr_pub = dhr_pub;
    has_cks = has_cks;
    chain_key_send = chain_key_send;
    has_ckr = has_ckr;
    chain_key_recv = chain_key_recv;
    ns = ns;
    nr = nr;
    pn = pn;
    skipped = skipped;
  })

unfoldable pub read_handshake : ℕ → Action AcceptedHandshake
read_handshake version = do
  initiator ← Reader.bytes 32
  ephemeral ← Reader.bytes 32
  accepted_at ← Reader.u64
  spk_id ← Reader.read_or (leb 10 version) 0 Reader.u32
  pure (record {
    initiator_identity = initiator;
    ephemeral_pub = ephemeral;
    accepted_at = accepted_at;
    spk_id = spk_id;
  })

-- The identity of the vault: its id, its generation and the digest of its previous state.
unfoldable pub read_lineage : Action (List ℕ × ℕ × List ℕ)
read_lineage = do
  vault_id ← Reader.bytes 16
  generation ← Reader.u64
  previous ← Reader.bytes 32
  pure (vault_id, generation, previous)

-- The ML-KEM prekeys: the next id, the signed ones and the one-time ones.
unfoldable pub read_pq_prekeys :
    (List ℕ → Result MlKemKeyPair) → Action (ℕ × List PqPrekey × List PqPrekey)
unfolding read_pq_prekey
read_pq_prekeys from_seed = do
  next ← Reader.u32
  signed ← Reader.counted (read_pq_prekey from_seed)
  one_time ← Reader.counted (read_pq_prekey from_seed)
  pure (next, signed, one_time)

unfoldable pub read_store : (List ℕ → Result MlKemKeyPair) → ℕ → Action VaultStore
unfolding read_lineage read_signed_prekey read_one_time_prekey read_pq_prekeys read_contact
    read_session read_handshake
read_store from_seed now = do
  magic ← Reader.bytes 4
  guard (same_bytes magic store_magic) wrong_store_format
  version ← Reader.u8
  guard (not (ltb version 1 || ltb store_version version)) unsupported_store_version
  lineage ← Reader.read_or (leb 5 version) (replicate 16 0, 0, replicate 32 0) read_lineage
  seed ← Reader.bytes 32
  next_spk_id ← Reader.u32
  signed_prekeys ← Reader.counted (read_signed_prekey version)
  next_otpk_id ← Reader.u32
  one_time_prekeys ← Reader.counted read_one_time_prekey
  pq_prekeys ← Reader.read_or (leb 7 version) (1, [], []) (read_pq_prekeys from_seed)
  contacts ← Reader.counted (read_contact version)
  sessions ← Reader.counted (read_session now version)
  handshakes ← Reader.read_or (leb 4 version) [] (Reader.counted (read_handshake version))
  pure (record {
    vault_id = lineage.0;
    generation = lineage.1;
    previous_digest = lineage.2;
    seed = seed;
    next_spk_id = next_spk_id;
    signed_prekeys = signed_prekeys;
    next_otpk_id = next_otpk_id;
    one_time_prekeys = one_time_prekeys;
    next_pq_prekey_id = pq_prekeys.0;
    pq_signed_prekeys = pq_prekeys.1;
    pq_one_time_prekeys = pq_prekeys.2;
    contacts = contacts;
    sessions = sessions;
    accepted_handshakes = handshakes;
  })

unfoldable pub parse : (List ℕ → Result MlKemKeyPair) → ℕ → List ℕ → Result VaultStore
unfolding read_store
parse from_seed now text = read_store from_seed now text >=> λ (store, rest).
    if Reader.at_end rest then ok store else err trailing_store_data
