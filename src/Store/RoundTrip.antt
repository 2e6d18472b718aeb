-- ===== src/Store/RoundTrip.antt =====
-- parse reads back what serialize wrote.
use ratchet_usb.Prelude.{
  ℕ, ◌%◌, ◌^◌, ◌≤◌, ◌<◌, ◌≡◌, refl, ap₂, subst, true, not, ◌||◌, List, length, All, ltb, le→ltb,
  same_bytes_refl, arith,
}
use ratchet_usb.Outcome.{Result, ok, ◌>=>◌}
use ratchet_usb.Serial.Reader
use ratchet_usb.Serial.Trip.{
  Trip, Trip-bind, Trip-last, Trip-guard, Trip-guard_write, Trip-whole, Trip-u8, Trip-u32, Trip-u64,
  Trip-bytes, Trip-secure_blob, Trip-All,
}
use ratchet_usb.Protocol.{
  ProtocolSuite, suite_code, known_suite, suite_of-suite_code, known_suite-suite_code,
}
use ratchet_usb.Store.Types.{MlKemKeyPair, Status, pending, confirmed, closed, Session, VaultStore}
use ratchet_usb.Store.Write.{
  store_magic, store_version, max_spqr_state_bytes, status_code, write_tagging, write_session,
  write_lineage, write_pq_prekeys, write_store, serialize,
}
use ratchet_usb.Store.Parse.{
  Tagging, read_tagging, read_session, read_lineage, read_pq_prekeys, read_store, parse,
}
use ratchet_usb.Store.Fields.{
  IsPqPrekey, IsSignedPrekey, IsOneTimePrekey, IsContact, IsSkippedKey, IsHandshake, Trip-bool,
  status_of-status_code, Trip-pq_prekey, Trip-signed_prekey, Trip-one_time_prekey, Trip-contact,
  Trip-skipped_key, Trip-handshake,
}

-- What the C++ types of a session promise, and the limit on its SPQR state.
pub record IsSession (s : Session) : Type 0 where
  pub contact_fits : s.contact_index < 2 ^ 32
  pub id_size : length s.session_id ≡ 32
  pub spqr_fits : length s.spqr_state ≤ max_spqr_state_bytes
  pub root_size : length s.root_key ≡ 32
  pub dhs_sk_size : length s.dhs_sk ≡ 32
  pub dhs_pub_size : length s.dhs_pub ≡ 32
  pub dhr_pub_size : length s.dhr_pub ≡ 32
  pub send_size : length s.chain_key_send ≡ 32
  pub recv_size : length s.chain_key_recv ≡ 32
  pub ns_fits : s.ns < 2 ^ 32
  pub nr_fits : s.nr < 2 ^ 32
  pub pn_fits : s.pn < 2 ^ 32
  pub count_fits : length s.skipped < 2 ^ 32
  pub skipped_ok : All IsSkippedKey s.skipped

known_status :
    (p : ProtocolSuite) (t : Status)
    → not (not (known_suite (suite_code p)) || (ltb (status_code t) 1 || ltb 3 (status_code t)))
      ≡ true
known_status p pending = rw (known_suite-suite_code p) refl
known_status p confirmed = rw (known_suite-suite_code p) refl
known_status p closed = rw (known_suite-suite_code p) refl

small : (n : ℕ) → n < 2 ^ 32 → n % 2 ^ 32 ≡ n
small n h = omega arith

-- What a vault holds is well formed. No list is longer than its 32-bit count.
pub record IsStore (from_seed : List ℕ → Result MlKemKeyPair) (v : VaultStore) : Type 0 where
  pub vault_id_size : length v.vault_id ≡ 16
  pub generation_fits : v.generation < 2 ^ 64
  pub digest_size : length v.previous_digest ≡ 32
  pub seed_size : length v.seed ≡ 32
  pub spk_id_fits : v.next_spk_id < 2 ^ 32
  pub spk_count : length v.signed_prekeys < 2 ^ 32
  pub spks_ok : All IsSignedPrekey v.signed_prekeys
  pub otpk_id_fits : v.next_otpk_id < 2 ^ 32
  pub otpk_count : length v.one_time_prekeys < 2 ^ 32
  pub otpks_ok : All IsOneTimePrekey v.one_time_prekeys
  pub pq_id_fits : v.next_pq_prekey_id < 2 ^ 32
  pub pq_count : length v.pq_signed_prekeys < 2 ^ 32
  pub pqs_ok : All (IsPqPrekey from_seed) v.pq_signed_prekeys
  pub pq_one_time_count : length v.pq_one_time_prekeys < 2 ^ 32
  pub pq_one_time_ok : All (IsPqPrekey from_seed) v.pq_one_time_prekeys
  pub contact_count : length v.contacts < 2 ^ 32
  pub contacts_ok : All IsContact v.contacts
  pub session_count : length v.sessions < 2 ^ 32
  pub sessions_ok : All IsSession v.sessions
  pub handshake_count : length v.accepted_handshakes < 2 ^ 32
  pub handshakes_ok : All IsHandshake v.accepted_handshakes

Trip-tagging :
    (s : Session)
    → IsSession s
    → Trip (write_tagging s) (read_tagging store_version) (record {
      suite = s.suite;
      status = s.status;
      session_id = s.session_id;
      legacy_read_only = s.legacy_read_only;
      spqr_state = s.spqr_state;
    })
unfolding write_tagging read_tagging
Trip-tagging s h =
    subst {A = ProtocolSuite × Status}
      (λ p. Trip (write_tagging s) (read_tagging store_version) (tagged p.0 p.1))
      (ap₂ (λ p t. (p, t)) (suite_of-suite_code s.suite) (status_of-status_code s.status))
      (Trip-bind _ _ (Trip-u8 (suite_code s.suite)) (
        Trip-bind _ _ (Trip-u8 (status_code s.status)) (
          Trip-guard _ _ _ (known_status s.suite s.status) (
            Trip-bind _ _ (Trip-bytes 32 s.session_id h.id_size) (
              Trip-bind _ _ (Trip-bool s.legacy_read_only) (
                Trip-guard_write _ _ _
                  (rw (le→ltb max_spqr_state_bytes (length s.spqr_state) h.spqr_fits))
                  (Trip-last _ (
                    Trip-secure_blob max_spqr_state_bytes s.spqr_state h.spqr_fits
                      (omega (arith, h.spqr_fits))))))))))
  where
    tagged : ProtocolSuite → Status → Tagging
    tagged p t = record {
      suite = p;
      status = t;
      session_id = s.session_id;
      legacy_read_only = s.legacy_read_only;
      spqr_state = s.spqr_state;
    }

pub Trip-session :
    (now : ℕ) (s : Session)
    → IsSession s
    → Trip (write_session s) (read_session now store_version) s
unfolding write_session read_session
Trip-session now s h = rw (small s.contact_index h.contact_fits) (
    Trip-bind _ _ (Trip-u32 s.contact_index h.contact_fits) (
      Trip-bind _ _ (Trip-tagging s h) (
        Trip-bind _ _ (Trip-bytes 32 s.root_key h.root_size) (
          Trip-bind _ _ (Trip-bool s.has_dhs) (
            Trip-bind _ _ (Trip-bytes 32 s.dhs_sk h.dhs_sk_size) (
              Trip-bind _ _ (Trip-bytes 32 s.dhs_pub h.dhs_pub_size) (
                Trip-bind _ _ (Trip-bool s.has_dhr) (
                  Trip-bind _ _ (Trip-bytes 32 s.dhr_pub h.dhr_pub_size) (
                    Trip-bind _ _ (Trip-bool s.has_cks) (
                      Trip-bind _ _ (Trip-bytes 32 s.chain_key_send h.send_size) (
                        Trip-bind _ _ (Trip-bool s.has_ckr) (
                          Trip-bind _ _ (Trip-bytes 32 s.chain_key_recv h.recv_size) (
                            Trip-bind _ _ (Trip-u32 s.ns h.ns_fits) (
                              Trip-bind _ _ (Trip-u32 s.nr h.nr_fits) (
                                Trip-bind _ _ (Trip-u32 s.pn h.pn_fits) (
                                  Trip-last _ (
                                    Trip-All IsSkippedKey _ _ (Trip-skipped_key now) s.skipped
                                      h.count_fits h.skipped_ok)))))))))))))))))

Trip-lineage :
    (v : VaultStore)
    → length v.vault_id ≡ 16
    → v.generation < 2 ^ 64
    → length v.previous_digest ≡ 32
    → Trip (write_lineage v) read_lineage (v.vault_id, v.generation, v.previous_digest)
unfolding write_lineage read_lineage
Trip-lineage v i g d =
    Trip-bind _ _ (Trip-bytes 16 v.vault_id i)
      (Trip-bind _ _ (Trip-u64 v.generation g) (Trip-last _ (Trip-bytes 32 v.previous_digest d)))

module _ (from_seed : List ℕ → Result MlKemKeyPair) (now : ℕ) (v : VaultStore) where
  Trip-pq_prekeys :
      IsStore from_seed v
      → Trip
          (write_pq_prekeys v)
          (read_pq_prekeys from_seed)
          (v.next_pq_prekey_id, v.pq_signed_prekeys, v.pq_one_time_prekeys)
  unfolding write_pq_prekeys read_pq_prekeys
  Trip-pq_prekeys h = Trip-bind _ _ (Trip-u32 v.next_pq_prekey_id h.pq_id_fits) (
      Trip-bind _ _
        (Trip-All (IsPqPrekey from_seed) _ _ (Trip-pq_prekey from_seed) v.pq_signed_prekeys
          h.pq_count h.pqs_ok)
        (Trip-last _ (
          Trip-All (IsPqPrekey from_seed) _ _ (Trip-pq_prekey from_seed) v.pq_one_time_prekeys
            h.pq_one_time_count h.pq_one_time_ok)))

  Trip-store : IsStore from_seed v → Trip (write_store v) (read_store from_seed now) v
  unfolding write_store read_store
  Trip-store h = Trip-bind _ _ (Trip-bytes 4 store_magic refl) (
      Trip-guard _ _ _ (same_bytes_refl store_magic) (
        Trip-bind _ _ (Trip-u8 store_version) (
          Trip-bind _ _ (Trip-lineage v h.vault_id_size h.generation_fits h.digest_size) (
            Trip-bind _ _ (Trip-bytes 32 v.seed h.seed_size) (
              Trip-bind _ _ (Trip-u32 v.next_spk_id h.spk_id_fits) (
                Trip-bind _ _
                  (Trip-All IsSignedPrekey _ _ Trip-signed_prekey v.signed_prekeys h.spk_count
                    h.spks_ok)
                  (Trip-bind _ _ (Trip-u32 v.next_otpk_id h.otpk_id_fits) (
                    Trip-bind _ _
                      (Trip-All IsOneTimePrekey _ _ Trip-one_time_prekey v.one_time_prekeys
                        h.otpk_count h.otpks_ok)
                      (Trip-bind _ _ (Trip-pq_prekeys h) (
                        Trip-bind _ _
                          (Trip-All IsContact _ _ Trip-contact v.contacts h.contact_count
                            h.contacts_ok)
                          (Trip-bind _ _
                            (Trip-All IsSession _ _ (Trip-session now) v.sessions h.session_count
                              h.sessions_ok)
                            (Trip-last _ (
                              Trip-All IsHandshake _ _ Trip-handshake v.accepted_handshakes
                                h.handshake_count h.handshakes_ok)))))))))))))

  -- A vault whose integers, arrays, aliases and lists fit the format, and whose ML-KEM key pairs
  -- are the ones of their seeds, is serialized, and `parse` reads the bytes back as the same vault,
  -- whatever the clock says.
  pub parse-serialize :
      IsStore from_seed v
      → (text : List ℕ) × (serialize v ≡ ok text) × (parse from_seed now text ≡ ok v)
  unfolding serialize parse
  parse-serialize h =
      let t = Trip-store h in
      (t.image, (Trip-whole t).0, rw ((Trip-whole t).1, ◌>=>◌) (unfold Reader.at_end in refl))
