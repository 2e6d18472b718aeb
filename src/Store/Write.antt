-- ===== src/Store/Write.antt =====
-- src/store.cpp: the writers of the vault's records and serialize.
use ratchet_usb.Prelude.{
  ℕ, ◌*◌, ◌%◌, ◌^◌, Bool, true, false, not, List, length, Option, none, some, ltb, codes,
}
use ratchet_usb.Outcome.{Result, guard, built, ◌>>◌, spqr_state_too_long}
use ratchet_usb.Serial.Writer
use ratchet_usb.Serial.Writer.{Writing}
use ratchet_usb.Protocol.{suite_code}
use ratchet_usb.Store.Types.{
  PeerOtpk, PeerPqPrekey, PeerPqBundle, PeerCard, PqPrekey, SignedPrekey, OneTimePrekey, Contact,
  SkippedKey, AcceptedHandshake, Status, pending, confirmed, closed, Session, VaultStore,
}

-- kStoreMagic, kStoreVersion
abbrev pub store_magic : List ℕ
store_magic = codes "RSTR"

abbrev pub store_version : ℕ
store_version = 10

-- The largest SPQR state that a vault holds.
abbrev pub max_spqr_state_bytes : ℕ
max_spqr_state_bytes = 8 * 1024 * 1024

-- `flag ? 1 : 0`
unfoldable pub write_bool : Bool → Writing
write_bool true = Writer.u8 1
write_bool false = Writer.u8 0

-- static_cast<uint8_t>(s.status)
abbrev pub status_code : Status → ℕ
status_code pending = 1
status_code confirmed = 2
status_code closed = 3

unfoldable pub write_pq_prekey : PqPrekey → Writing
write_pq_prekey p = do
  Writer.u32 p.id
  Writer.bytes p.key.public_key
  Writer.bytes p.key.private_seed
  Writer.u64 p.created_at

unfoldable pub write_signed_prekey : SignedPrekey → Writing
write_signed_prekey spk = do
  Writer.u32 spk.id
  Writer.bytes spk.pub_key
  Writer.bytes spk.sk
  Writer.bytes spk.signature
  Writer.u64 spk.created_at

unfoldable pub write_one_time_prekey : OneTimePrekey → Writing
write_one_time_prekey otpk = do Writer.u32 otpk.id; Writer.bytes otpk.pub_key; Writer.bytes otpk.sk

unfoldable pub write_peer_otpk : PeerOtpk → Writing
write_peer_otpk o = do Writer.u32 o.id; Writer.bytes o.pub_key

unfoldable pub write_peer_pq_prekey : PeerPqPrekey → Writing
write_peer_pq_prekey p = do Writer.u32 p.id; Writer.bytes p.pub_key

unfoldable pub write_pq_bundle : Option PeerPqBundle → Writing
unfolding write_peer_pq_prekey
write_pq_bundle none = Writer.u8 0
write_pq_bundle (some pqb) = do
  Writer.u8 1
  Writer.u32 pqb.signed_prekey.id
  Writer.bytes pqb.signed_prekey.pub_key
  Writer.bytes pqb.ed_signature
  Writer.bytes pqb.pq_signature
  Writer.counted write_peer_pq_prekey pqb.one_time_prekeys

unfoldable pub write_peer_card : PeerCard → Writing
unfolding write_peer_otpk write_pq_bundle
write_peer_card card = do
  Writer.u8 (suite_code card.maximum_suite)
  Writer.u32 card.spk_id
  Writer.bytes card.spk_pub
  Writer.bytes card.spk_signature
  Writer.counted write_peer_otpk card.one_time_prekeys
  Writer.bytes card.pq_identity_pub
  write_pq_bundle card.pq_bundle

unfoldable pub write_card : Option PeerCard → Writing
unfolding write_peer_card
write_card none = Writer.u8 0
write_card (some card) = do Writer.u8 1; write_peer_card card

unfoldable pub write_contact : Contact → Writing
unfolding write_bool write_card
write_contact contact = do
  Writer.str contact.alias
  Writer.bytes contact.identity_pub
  write_bool contact.verified
  Writer.u8 (suite_code contact.minimum_suite)
  write_card contact.card

unfoldable pub write_skipped_key : SkippedKey → Writing
write_skipped_key sk = do
  Writer.bytes sk.dh_pub
  Writer.u32 sk.n
  Writer.bytes sk.message_key
  Writer.u64 sk.created_at

-- What a session carries since version 6.
unfoldable pub write_tagging : Session → Writing
unfolding write_bool
write_tagging s = do
  Writer.u8 (suite_code s.suite)
  Writer.u8 (status_code s.status)
  Writer.bytes s.session_id
  write_bool s.legacy_read_only
  guard (not (ltb max_spqr_state_bytes (length s.spqr_state))) spqr_state_too_long
  Writer.blob s.spqr_state

unfoldable pub write_session : Session → Writing
unfolding write_tagging write_bool write_skipped_key
write_session s = do
  Writer.u32 (s.contact_index % 2 ^ 32)
  write_tagging s
  Writer.bytes s.root_key
  write_bool s.has_dhs
  Writer.bytes s.dhs_sk
  Writer.bytes s.dhs_pub
  write_bool s.has_dhr
  Writer.bytes s.dhr_pub
  write_bool s.has_cks
  Writer.bytes s.chain_key_send
  write_bool s.has_ckr
  Writer.bytes s.chain_key_recv
  Writer.u32 s.ns
  Writer.u32 s.nr
  Writer.u32 s.pn
  Writer.counted write_skipped_key s.skipped

unfoldable pub write_handshake : AcceptedHandshake → Writing
write_handshake h = do
  Writer.bytes h.initiator_identity
  Writer.bytes h.ephemeral_pub
  Writer.u64 h.accepted_at
  Writer.u32 h.spk_id

-- The identity of the vault: its id, its generation and the digest of its previous state.
unfoldable pub write_lineage : VaultStore → Writing
write_lineage store = do
  Writer.bytes store.vault_id
  Writer.u64 store.generation
  Writer.bytes store.previous_digest

unfoldable pub write_pq_prekeys : VaultStore → Writing
unfolding write_pq_prekey
write_pq_prekeys store = do
  Writer.u32 store.next_pq_prekey_id
  Writer.counted write_pq_prekey store.pq_signed_prekeys
  Writer.counted write_pq_prekey store.pq_one_time_prekeys

unfoldable pub write_store : VaultStore → Writing
unfolding write_lineage write_signed_prekey write_one_time_prekey write_pq_prekeys write_contact
    write_session write_handshake
write_store store = do
  Writer.bytes store_magic
  Writer.u8 store_version
  write_lineage store
  Writer.bytes store.seed
  Writer.u32 store.next_spk_id
  Writer.counted write_signed_prekey store.signed_prekeys
  Writer.u32 store.next_otpk_id
  Writer.counted write_one_time_prekey store.one_time_prekeys
  write_pq_prekeys store
  Writer.counted write_contact store.contacts
  Writer.counted write_session store.sessions
  Writer.counted write_handshake store.accepted_handshakes

unfoldable pub serialize : VaultStore → Result (List ℕ)
unfolding write_store
serialize store = built (write_store store)
