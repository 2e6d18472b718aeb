-- ===== src/Store/Fields.antt =====
-- The records of a vault come back as they were written by the current version.
use ratchet_usb.Prelude.{
  ℕ, ◌^◌, ◌≤◌, ◌<◌, ◌≡◌, refl, Bool, true, false, not, ◌||◌, List, length, All, Option, none, some,
  ltb, ◌==◌, same_bytes_refl, arith,
}
use ratchet_usb.Outcome.{Result, ok, ◌>>=◌, ◌>>◌, guard}
use ratchet_usb.Serial.Writer
use ratchet_usb.Serial.Trip.{
  Trip, Trip-bind, Trip-last, Trip-guard, Trip-more, Trip-u8, Trip-u32, Trip-u64, Trip-bytes,
  Trip-str, Trip-All,
}
use ratchet_usb.Protocol.{ProtocolSuite, suite_code, suite_of-suite_code, known_suite-suite_code}
use ratchet_usb.Store.Types.{
  MlKemKeyPair, PeerOtpk, PeerPqPrekey, PeerPqBundle, PeerCard, PqPrekey, SignedPrekey,
  OneTimePrekey, Contact, SkippedKey, AcceptedHandshake, Status, pending, confirmed, closed,
  max_alias_bytes,
}
use ratchet_usb.Store.Write.{
  write_bool, status_code, write_pq_prekey, write_signed_prekey, write_one_time_prekey,
  write_peer_otpk, write_peer_pq_prekey, write_pq_bundle, write_peer_card, write_card,
  write_contact, write_skipped_key, write_handshake, store_version,
}
use ratchet_usb.Store.Read.{
  read_bool, status_of, read_pq_prekey, read_signed_prekey, read_one_time_prekey, read_suite,
  read_peer_otpk, read_peer_pq_prekey, read_pq_bundle, read_optional_bundle, read_peer_card,
  read_card, read_contact, read_skipped_key, ml_kem_public_key_bytes, ml_kem_seed_bytes,
  ml_dsa_public_key_bytes, ml_dsa_signature_bytes,
}
use ratchet_usb.Store.Parse.{read_handshake}

-- What the C++ types promise: widths of integers and sizes of arrays.
pub record IsPqPrekey (from_seed : List ℕ → Result MlKemKeyPair) (p : PqPrekey) : Type 0 where
  pub id_fits : p.id < 2 ^ 32
  pub public_size : length p.key.public_key ≡ ml_kem_public_key_bytes
  pub seed_size : length p.key.private_seed ≡ ml_kem_seed_bytes
  pub date_fits : p.created_at < 2 ^ 64
  -- The key pair is the one of its seed.
  pub matching : from_seed p.key.private_seed ≡ ok p.key

pub record IsSignedPrekey (p : SignedPrekey) : Type 0 where
  pub id_fits : p.id < 2 ^ 32
  pub public_size : length p.pub_key ≡ 32
  pub secret_size : length p.sk ≡ 32
  pub signature_size : length p.signature ≡ 64
  pub date_fits : p.created_at < 2 ^ 64

pub record IsOneTimePrekey (p : OneTimePrekey) : Type 0 where
  pub id_fits : p.id < 2 ^ 32
  pub public_size : length p.pub_key ≡ 32
  pub secret_size : length p.sk ≡ 32

pub record IsPeerOtpk (o : PeerOtpk) : Type 0 where
  pub id_fits : o.id < 2 ^ 32
  pub public_size : length o.pub_key ≡ 32

pub record IsPeerPqPrekey (o : PeerPqPrekey) : Type 0 where
  pub id_fits : o.id < 2 ^ 32
  pub public_size : length o.pub_key ≡ ml_kem_public_key_bytes

pub record IsBundle (b : PeerPqBundle) : Type 0 where
  pub signed_ok : IsPeerPqPrekey b.signed_prekey
  pub ed_size : length b.ed_signature ≡ 64
  pub pq_size : length b.pq_signature ≡ ml_dsa_signature_bytes
  pub count_fits : length b.one_time_prekeys < 2 ^ 32
  pub one_time_ok : All IsPeerPqPrekey b.one_time_prekeys

abbrev pub IfSome {ℓ κ} : {A : Type ℓ} → (A → Type κ) → Option A → Type κ
IfSome P none = Unit
IfSome P (some a) = P a

pub record IsCard (c : PeerCard) : Type 0 where
  pub spk_id_fits : c.spk_id < 2 ^ 32
  pub spk_size : length c.spk_pub ≡ 32
  pub signature_size : length c.spk_signature ≡ 64
  pub count_fits : length c.one_time_prekeys < 2 ^ 32
  pub one_time_ok : All IsPeerOtpk c.one_time_prekeys
  pub identity_size : length c.pq_identity_pub ≡ ml_dsa_public_key_bytes
  pub bundle_ok : IfSome IsBundle c.pq_bundle

pub record IsContact (c : Contact) : Type 0 where
  pub alias_some : 1 ≤ length c.alias
  pub alias_fits : length c.alias ≤ max_alias_bytes
  pub identity_size : length c.identity_pub ≡ 32
  pub card_ok : IfSome IsCard c.card

pub record IsSkippedKey (k : SkippedKey) : Type 0 where
  pub dh_size : length k.dh_pub ≡ 32
  pub n_fits : k.n < 2 ^ 32
  pub key_size : length k.message_key ≡ 32
  pub date_fits : k.created_at < 2 ^ 64

pub record IsHandshake (h : AcceptedHandshake) : Type 0 where
  pub identity_size : length h.initiator_identity ≡ 32
  pub ephemeral_size : length h.ephemeral_pub ≡ 32
  pub date_fits : h.accepted_at < 2 ^ 64
  pub spk_fits : h.spk_id < 2 ^ 32

pub Trip-bool : (b : Bool) → Trip (write_bool b) read_bool b
unfolding write_bool read_bool
Trip-bool true = Trip-more _ (λ rest. refl) (Trip-u8 1)
Trip-bool false = Trip-more _ (λ rest. refl) (Trip-u8 0)

Trip-suite :
    (on_card : Bool) (s : ProtocolSuite) → Trip (Writer.u8 (suite_code s)) (read_suite on_card) s
unfolding read_suite
Trip-suite on_card s =
    Trip-more _ (λ rest. rw (known_suite-suite_code s, ◌>>◌, guard, suite_of-suite_code s) refl)
      (Trip-u8 (suite_code s))

pub status_of-status_code : (s : Status) → status_of (status_code s) ≡ s
status_of-status_code pending = refl
status_of-status_code confirmed = refl
status_of-status_code closed = refl

pub Trip-pq_prekey :
    (from_seed : List ℕ → Result MlKemKeyPair) (p : PqPrekey)
    → IsPqPrekey from_seed p
    → Trip (write_pq_prekey p) (read_pq_prekey from_seed) p
unfolding write_pq_prekey read_pq_prekey
Trip-pq_prekey from_seed p h = Trip-bind _ _ (Trip-u32 p.id h.id_fits) (
    Trip-bind _ _ (Trip-bytes ml_kem_public_key_bytes p.key.public_key h.public_size) (
      Trip-bind _ _ (Trip-bytes ml_kem_seed_bytes p.key.private_seed h.seed_size) (
        Trip-more _
          (λ rest. rw (h.matching, ◌>>=◌, same_bytes_refl p.key.public_key, ◌>>◌, guard) refl)
          (Trip-u64 p.created_at h.date_fits))))

pub Trip-signed_prekey :
    (p : SignedPrekey)
    → IsSignedPrekey p
    → Trip (write_signed_prekey p) (read_signed_prekey store_version) p
unfolding write_signed_prekey read_signed_prekey
Trip-signed_prekey p h = Trip-bind _ _ (Trip-u32 p.id h.id_fits) (
    Trip-bind _ _ (Trip-bytes 32 p.pub_key h.public_size) (
      Trip-bind _ _ (Trip-bytes 32 p.sk h.secret_size) (
        Trip-bind _ _ (Trip-bytes 64 p.signature h.signature_size)
          (Trip-last _ (Trip-u64 p.created_at h.date_fits)))))

pub Trip-one_time_prekey :
    (p : OneTimePrekey) → IsOneTimePrekey p → Trip (write_one_time_prekey p) read_one_time_prekey p
unfolding write_one_time_prekey read_one_time_prekey
Trip-one_time_prekey p h = Trip-bind _ _ (Trip-u32 p.id h.id_fits) (
    Trip-bind _ _ (Trip-bytes 32 p.pub_key h.public_size)
      (Trip-last _ (Trip-bytes 32 p.sk h.secret_size)))

pub Trip-peer_otpk : (o : PeerOtpk) → IsPeerOtpk o → Trip (write_peer_otpk o) read_peer_otpk o
unfolding write_peer_otpk read_peer_otpk
Trip-peer_otpk o h =
    Trip-bind _ _ (Trip-u32 o.id h.id_fits) (Trip-last _ (Trip-bytes 32 o.pub_key h.public_size))

pub Trip-peer_pq_prekey :
    (o : PeerPqPrekey) → IsPeerPqPrekey o → Trip (write_peer_pq_prekey o) read_peer_pq_prekey o
unfolding write_peer_pq_prekey read_peer_pq_prekey
Trip-peer_pq_prekey o h =
    Trip-bind _ _ (Trip-u32 o.id h.id_fits)
      (Trip-last _ (Trip-bytes ml_kem_public_key_bytes o.pub_key h.public_size))

Trip-bundle :
    (o : Option PeerPqBundle) → IfSome IsBundle o → Trip (write_pq_bundle o) read_optional_bundle o
unfolding write_pq_bundle read_optional_bundle read_pq_bundle write_bool
Trip-bundle none h = Trip-more _ (λ rest. refl) (Trip-bool false)
Trip-bundle (some b) h = Trip-bind _ _ (Trip-bool true) (
    Trip-last some (
      Trip-bind _ _ (Trip-u32 b.signed_prekey.id h.signed_ok.id_fits) (
        Trip-bind _ _
          (Trip-bytes ml_kem_public_key_bytes b.signed_prekey.pub_key h.signed_ok.public_size)
          (Trip-bind _ _ (Trip-bytes 64 b.ed_signature h.ed_size) (
            Trip-bind _ _ (Trip-bytes ml_dsa_signature_bytes b.pq_signature h.pq_size) (
              Trip-last _ (
                Trip-All IsPeerPqPrekey _ _ Trip-peer_pq_prekey b.one_time_prekeys h.count_fits
                  h.one_time_ok)))))))

Trip-peer_card :
    (c : PeerCard) → IsCard c → Trip (write_peer_card c) (read_peer_card store_version) c
unfolding write_peer_card read_peer_card
Trip-peer_card c h = Trip-bind _ _ (Trip-suite true c.maximum_suite) (
    Trip-bind _ _ (Trip-u32 c.spk_id h.spk_id_fits) (
      Trip-bind _ _ (Trip-bytes 32 c.spk_pub h.spk_size) (
        Trip-bind _ _ (Trip-bytes 64 c.spk_signature h.signature_size) (
          Trip-bind _ _
            (Trip-All IsPeerOtpk _ _ Trip-peer_otpk c.one_time_prekeys h.count_fits h.one_time_ok)
            (Trip-bind _ _ (Trip-bytes ml_dsa_public_key_bytes c.pq_identity_pub h.identity_size)
              (Trip-last _ (Trip-bundle c.pq_bundle h.bundle_ok)))))))

Trip-card :
    (o : Option PeerCard) → IfSome IsCard o → Trip (write_card o) (read_card store_version) o
unfolding write_card read_card write_bool
Trip-card none h = Trip-more _ (λ rest. refl) (Trip-bool false)
Trip-card (some c) h = Trip-bind _ _ (Trip-bool true) (Trip-last some (Trip-peer_card c h))

pub Trip-contact :
    (c : Contact) → IsContact c → Trip (write_contact c) (read_contact store_version) c
unfolding write_contact read_contact
Trip-contact c h = Trip-bind _ _ (Trip-str c.alias (omega (arith, h.alias_fits))) (
    Trip-guard _ _ _ named (
      Trip-bind _ _ (Trip-bytes 32 c.identity_pub h.identity_size) (
        Trip-bind _ _ (Trip-bool c.verified) (
          Trip-bind _ _ (Trip-suite false c.minimum_suite)
            (Trip-last _ (Trip-card c.card h.card_ok))))))
  where
    named : not (length c.alias == 0 || ltb max_alias_bytes (length c.alias)) ≡ true
    named = ground (arith, h.alias_some, h.alias_fits)

pub Trip-skipped_key :
    (now : ℕ) (k : SkippedKey)
    → IsSkippedKey k
    → Trip (write_skipped_key k) (read_skipped_key now store_version) k
unfolding write_skipped_key read_skipped_key
Trip-skipped_key now k h = Trip-bind _ _ (Trip-bytes 32 k.dh_pub h.dh_size) (
    Trip-bind _ _ (Trip-u32 k.n h.n_fits) (
      Trip-bind _ _ (Trip-bytes 32 k.message_key h.key_size)
        (Trip-last _ (Trip-u64 k.created_at h.date_fits))))

pub Trip-handshake :
    (h : AcceptedHandshake)
    → IsHandshake h
    → Trip (write_handshake h) (read_handshake store_version) h
unfolding write_handshake read_handshake
Trip-handshake h ok_h = Trip-bind _ _ (Trip-bytes 32 h.initiator_identity ok_h.identity_size) (
    Trip-bind _ _ (Trip-bytes 32 h.ephemeral_pub ok_h.ephemeral_size) (
      Trip-bind _ _ (Trip-u64 h.accepted_at ok_h.date_fits)
        (Trip-last _ (Trip-u32 h.spk_id ok_h.spk_fits))))
