-- ===== src/Tests/Sessions.antt =====
-- Two people who open a session, at concrete inputs.
use ratchet_usb.Prelude.{
  length, ℕ, ◌≡◌, refl, Bool, true, false, List, [], ◌∷◌, replicate, Option, none, some, codes,
}
use ratchet_usb.Outcome.{Result, ok, err, opening_replayed}
use ratchet_usb.Protocol.{hybrid_pqxdh_v1, x_wing_triple_ratchet_v1}
use ratchet_usb.Store.{
  VaultStore, Contact, PeerCard, PeerPqBundle, SignedPrekey, OneTimePrekey, PqPrekey,
}
use ratchet_usb.Ratchet.{KeyPair}
use ratchet_usb.X3dh.{Draws, InitiatorResult, initiate}
use ratchet_usb.Session.{Identity, SendDraws, ReceiveDraws, ReceiveResult, send, receive}
use ratchet_usb.Session.Replayed.{receive_again}
use ratchet_usb.Tests.Samples.{mix}
use ratchet_usb.Tests.Libraries.{toy_libraries}

abbrev pub pair : ℕ → KeyPair
pair n = record { sk = replicate 32 n; pk = replicate 32 n }

abbrev pub me_alice : Identity
me_alice = record { sk = replicate 32 11; pk = replicate 32 11 }

abbrev pub me_bob : Identity
me_bob = record { sk = replicate 32 12; pk = replicate 32 12 }

abbrev pub bob_spk : SignedPrekey
bob_spk = record {
  id = 5;
  pub_key = replicate 32 21;
  sk = replicate 32 21;
  signature = replicate 64 42;
  created_at = 0;
}

abbrev pub bob_otpk : OneTimePrekey
bob_otpk = record { id = 6; pub_key = replicate 32 22; sk = replicate 32 22 }

abbrev pub pq_key : ℕ → ℕ → PqPrekey
pq_key id n = record {
  id = id;
  key = record {
    public_key = replicate 1184 (mix (replicate 64 n));
    private_seed = replicate 64 n;
  };
  created_at = 0;
}

abbrev pub card_bundle : PeerPqBundle
card_bundle = record {
  signed_prekey = record { id = 7; pub_key = (pq_key 7 31).key.public_key };
  ed_signature = replicate 64 0;
  pq_signature = replicate 3309 0;
  one_time_prekeys = record { id = 8; pub_key = (pq_key 8 32).key.public_key } ∷ [];
}

abbrev pub card_of_bob : PeerCard
card_of_bob = record {
  maximum_suite = x_wing_triple_ratchet_v1;
  spk_id = 5;
  spk_pub = replicate 32 21;
  spk_signature = replicate 64 42;
  one_time_prekeys = record { id = 6; pub_key = replicate 32 22 } ∷ [];
  pq_identity_pub = replicate 1952 0;
  pq_bundle = some card_bundle;
}

abbrev pub friend : Identity → Option PeerCard → Contact
friend who card = record {
  alias = codes "friend";
  identity_pub = who.pk;
  verified = true;
  minimum_suite = hybrid_pqxdh_v1;
  card = card;
}

abbrev pub vault_with : Contact → VaultStore
vault_with contact = record {
  vault_id = replicate 16 1;
  generation = 1;
  previous_digest = replicate 32 0;
  seed = replicate 32 0;
  next_spk_id = 9;
  signed_prekeys = [];
  next_otpk_id = 9;
  one_time_prekeys = [];
  next_pq_prekey_id = 9;
  pq_signed_prekeys = [];
  pq_one_time_prekeys = [];
  contacts = contact ∷ [];
  sessions = [];
  accepted_handshakes = [];
}

abbrev pub vault_of_alice : VaultStore
vault_of_alice = vault_with (friend me_bob (some card_of_bob))

abbrev pub vault_of_bob : VaultStore
vault_of_bob = record (vault_with (friend me_alice none)) {
  signed_prekeys = bob_spk ∷ [];
  one_time_prekeys = bob_otpk ∷ [];
  pq_signed_prekeys = pq_key 7 31 ∷ [];
  pq_one_time_prekeys = pq_key 8 32 ∷ [];
}

abbrev pub alice_draws : SendDraws
alice_draws = record {
  handshake = record {
    ephemeral = pair 41;
    pick = 3;
    static_draw = 1 ∷ [];
    pq_pick = 4;
    one_time_draw = 2 ∷ [];
  };
  spqr_draw = [];
  nonce = replicate 12 9;
}

abbrev pub bob_draws : ReceiveDraws
bob_draws = record {
  fresh = pair 51;
  clock = record { at_expire = 0; at_previous = 0; at_current = 0 };
  accepted_at = 1000;
}

abbrev pub sent : Result (List ℕ) × VaultStore
sent = send toy_libraries me_alice 0 (codes "hello") alice_draws vault_of_alice

abbrev pub block : List ℕ
block = elim (sent.0) [ ok b ↦ b | err e ↦ [] ]

abbrev pub received : Result ReceiveResult × VaultStore
received = receive toy_libraries me_bob block bob_draws vault_of_bob

abbrev pub hello : ReceiveResult
hello = record {
  contact_index = 0;
  alias = codes "friend";
  plaintext = codes "hello";
  session_established = true;
}

-- What Alice sends Bob receives.
pub accepted : received ≡ (ok hello, received.1)
unfolding ratchet_usb.Serial.Writer.bytes ratchet_usb.Serial.Writer.u8 ratchet_usb.Serial.Writer.u32
    ratchet_usb.Serial.Writer.u64 ratchet_usb.Serial.Writer.blob ratchet_usb.Serial.Writer.str
    ratchet_usb.Serial.Writer.for_each ratchet_usb.Serial.Writer.counted
    ratchet_usb.Serial.Reader.need ratchet_usb.Serial.Reader.fetch ratchet_usb.Serial.Reader.advance
    ratchet_usb.Serial.Reader.u8 ratchet_usb.Serial.Reader.u32 ratchet_usb.Serial.Reader.bytes
    ratchet_usb.Serial.Reader.u64 ratchet_usb.Serial.Reader.blob
    ratchet_usb.Serial.Reader.secure_blob ratchet_usb.Serial.Reader.str
    ratchet_usb.Serial.Reader.at_end ratchet_usb.Serial.Reader.remaining
    ratchet_usb.Serial.Reader.bounded_count ratchet_usb.Serial.Reader.repeat
    ratchet_usb.Serial.Reader.counted ratchet_usb.Wire.is_space ratchet_usb.Wire.strip_whitespace
    ratchet_usb.Wire.wrap_lines ratchet_usb.Wire.encode_block ratchet_usb.Wire.decode_payload
    ratchet_usb.Wire.decode_block ratchet_usb.Message.Write.sender_id_for
    ratchet_usb.Message.Write.write_header ratchet_usb.Message.Write.header_aad
    ratchet_usb.Message.Write.write_optional_id ratchet_usb.Message.Write.write_pq_pair
    ratchet_usb.Message.Write.write_initial ratchet_usb.Message.Write.write_prefix
    ratchet_usb.Message.Write.envelope_aad_prefix ratchet_usb.Message.Write.is_hybrid
    ratchet_usb.Message.Write.is_triple ratchet_usb.Message.Write.encode_body
    ratchet_usb.Message.Write.encode ratchet_usb.Message.Read.read_flag
    ratchet_usb.Message.Read.read_optional_id ratchet_usb.Message.Read.read_present_pair
    ratchet_usb.Message.Read.read_pq_pair ratchet_usb.Message.Read.read_fields
    ratchet_usb.Message.Read.read_initial ratchet_usb.Message.Read.read_header
    ratchet_usb.Message.Read.read_spqr ratchet_usb.Message.Read.hybrid_codes
    ratchet_usb.Message.Read.triple_codes ratchet_usb.Message.Read.decode_body
    ratchet_usb.Message.Read.decode ratchet_usb.Kdf.hmac ratchet_usb.Kdf.fallback_extract
    ratchet_usb.Kdf.extract ratchet_usb.Kdf.expand_loop ratchet_usb.Kdf.fallback_expand
    ratchet_usb.Kdf.expand ratchet_usb.Ratchet.Padding.bucket
    ratchet_usb.Ratchet.Padding.padded_payload_size ratchet_usb.Ratchet.Padding.pad
    ratchet_usb.Ratchet.Padding.skip_zeros ratchet_usb.Ratchet.Padding.unpad ratchet_usb.Ratchet.dh
    ratchet_usb.Ratchet.kdf_rk ratchet_usb.Ratchet.kdf_ck ratchet_usb.Ratchet.split_initial_secret
    ratchet_usb.Ratchet.combine_message_keys ratchet_usb.Ratchet.aead_key
    ratchet_usb.Ratchet.aead_encrypt ratchet_usb.Ratchet.aead_decrypt
    ratchet_usb.Ratchet.root_to_recv ratchet_usb.Ratchet.root_to_send ratchet_usb.Ratchet.dh_ratchet
    ratchet_usb.Ratchet.stash ratchet_usb.Ratchet.stash_until ratchet_usb.Ratchet.skip_message_keys
    ratchet_usb.Ratchet.init_sender ratchet_usb.Ratchet.init_receiver ratchet_usb.Ratchet.encrypt
    ratchet_usb.Ratchet.stale ratchet_usb.Ratchet.keep_fresh ratchet_usb.Ratchet.expire_skipped_keys
    ratchet_usb.Ratchet.matches ratchet_usb.Ratchet.find_skipped ratchet_usb.Ratchet.clone_session
    ratchet_usb.Ratchet.decrypt_cached ratchet_usb.Ratchet.follow_ratchet
    ratchet_usb.Ratchet.decrypt_next ratchet_usb.Ratchet.decrypt_fresh
    ratchet_usb.Ratchet.decrypt_found ratchet_usb.Ratchet.decrypt_in_place
    ratchet_usb.Ratchet.decrypt ratchet_usb.Store.same_handshake ratchet_usb.Store.accepted_in
    ratchet_usb.Store.handshake_already_accepted ratchet_usb.Store.holds_prekey
    ratchet_usb.Store.spent ratchet_usb.Store.keep_unspent ratchet_usb.Store.prune_old_handshakes
    ratchet_usb.Store.history_full ratchet_usb.Store.append_handshake
    ratchet_usb.Store.append_if_room ratchet_usb.Store.remember_handshake
    ratchet_usb.Store.first_index ratchet_usb.Store.find_contact
    ratchet_usb.Store.find_contact_by_identity ratchet_usb.Store.find_session
    ratchet_usb.X3dh.derive_shared_secret ratchet_usb.X3dh.combine_hybrid
    ratchet_usb.X3dh.combine_xwing ratchet_usb.X3dh.xwing_combine ratchet_usb.X3dh.pair_one_time
    ratchet_usb.X3dh.fill_xwing_pair ratchet_usb.X3dh.picked ratchet_usb.X3dh.without_picked
    ratchet_usb.X3dh.card_of ratchet_usb.X3dh.dh_with ratchet_usb.X3dh.encapsulate_picked
    ratchet_usb.X3dh.combine ratchet_usb.X3dh.take_otpk ratchet_usb.X3dh.take_pq_otpk
    ratchet_usb.X3dh.decapsulate_paired ratchet_usb.X3dh.my_dh4 ratchet_usb.X3dh.respond
    ratchet_usb.X3dh.respond_combine ratchet_usb.X3dh.initiate_pq ratchet_usb.X3dh.initiate_with
    ratchet_usb.X3dh.initiate ratchet_usb.X3dh.respond_hybrid ratchet_usb.Session.session_id_for
    ratchet_usb.Session.contact_at ratchet_usb.Session.session_in ratchet_usb.Session.put_session
    ratchet_usb.Session.put_contact ratchet_usb.Session.same_suite ratchet_usb.Session.bytes_less
    ratchet_usb.Session.hybrid_card_of ratchet_usb.Session.selected_suite
    ratchet_usb.Session.working_copy ratchet_usb.Session.is_closed ratchet_usb.Session.begin_sending
    ratchet_usb.Session.open_sending ratchet_usb.Session.open_if_needed
    ratchet_usb.Session.encrypt_envelope ratchet_usb.Session.name_session
    ratchet_usb.Session.compose ratchet_usb.Session.send ratchet_usb.Session.found_at
    ratchet_usb.Session.known_initiator ratchet_usb.Session.required_pq
    ratchet_usb.Session.prune_if_full ratchet_usb.Session.signed_prekey_of
    ratchet_usb.Session.one_time_prekey_of ratchet_usb.Session.pq_signed_prekey_of
    ratchet_usb.Session.pq_one_time_prekey_of ratchet_usb.Session.may_replace
    ratchet_usb.Session.commit ratchet_usb.Session.at_session ratchet_usb.Session.begin_receiving
    ratchet_usb.Session.decrypt_triple ratchet_usb.Session.decrypt_plain
    ratchet_usb.Session.decrypt_opening ratchet_usb.Session.decrypt_in_session
    ratchet_usb.Session.finish_opening ratchet_usb.Session.accept_opening
    ratchet_usb.Session.receive_opening ratchet_usb.Session.sender_of ratchet_usb.Session.session_of
    ratchet_usb.Session.receive_ordinary ratchet_usb.Session.receive_envelope
    ratchet_usb.Session.receive ratchet_usb.Session.expire_all
    ratchet_usb.Session.expire_skipped_keys ratchet_usb.Pq.ml_kem_768_from_seed
    ratchet_usb.Pq.ml_kem_768_encapsulate ratchet_usb.Pq.ml_kem_768_decapsulate
    ratchet_usb.Pq.ml_dsa_65_from_seed ratchet_usb.Pq.ml_dsa_65_sign ratchet_usb.Pq.ml_dsa_65_verify
    ratchet_usb.Identity.derive_master_seed ratchet_usb.Identity.derive_identity
    ratchet_usb.Identity.derive_pq_identity ratchet_usb.Identity.identity_dh_public
    ratchet_usb.Identity.identity_dh_keypair ratchet_usb.Identity.to_hex
    ratchet_usb.Identity.group_hex ratchet_usb.Identity.fingerprint ratchet_usb.Prekey.write_payload
    ratchet_usb.Prekey.spk_signing_payload ratchet_usb.Prekey.generate_signed_prekey
    ratchet_usb.Prekey.resign_signed_prekey ratchet_usb.Prekey.verify_signed_prekey_signature
    ratchet_usb.Prekey.generate_one_time_prekeys ratchet_usb.Protocol.suite_at_least
    ratchet_usb.Protocol.known_suite ratchet_usb.Protocol.uses_triple_ratchet
    ratchet_usb.Protocol.uses_xwing_combiner ratchet_usb.Exec.pure ratchet_usb.Exec.lift
    ratchet_usb.Exec.calls ratchet_usb.Exec.gets ratchet_usb.Exec.modify ratchet_usb.Exec.guard
    ratchet_usb.Exec.◌>>=◌ ratchet_usb.Prelude.same_bytes ratchet_usb.Prelude.starts_with
    ratchet_usb.Prelude.cut
accepted = refl

receive_again_example :
    receive toy_libraries me_bob block bob_draws received.1 ≡ (err opening_replayed, received.1)
receive_again_example =
    receive_again toy_libraries me_bob block bob_draws bob_draws vault_of_bob received.1 hello
      accepted refl
