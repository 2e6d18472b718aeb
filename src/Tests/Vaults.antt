-- ===== src/Tests/Vaults.antt =====
-- The vault at concrete inputs.
use ratchet_usb.Prelude.{
  ℕ, ◌^◌, ◌≡◌, refl, true, false, List, [], ◌∷◌, replicate, none, some, codes, ◌==◌, same_bytes,
  arith,
}
use ratchet_usb.Outcome.{Result, ok}
use ratchet_usb.Protocol.{classic_v2, hybrid_pqxdh_v1, triple_ratchet_v1}
use ratchet_usb.Store.{
  MlKemKeyPair, VaultStore, SignedPrekey, Contact, Session, AcceptedHandshake, PqPrekey, pending,
  serialize, parse, handshake_already_accepted, remember_handshake, spent, find_contact,
  find_contact_by_identity, find_session,
}
use ratchet_usb.Pq.{ml_kem_768_from_seed}
use ratchet_usb.Tests.Libraries.{toy_ssl}
use ratchet_usb.Store.RoundTrip.{IsStore, parse-serialize}
use ratchet_usb.Store.Replay.{
  IsCapped, IsRemembered, remember-IsCapped, remember_handshake-IsRemembered,
  remember_handshake_keeps_live,
}
use ratchet_usb.Store.Found.{IsFirst, find-IsFirst}

abbrev pub alice : Contact
alice = record {
  alias = codes "alice";
  identity_pub = replicate 32 1;
  verified = true;
  minimum_suite = classic_v2;
  card = none;
}

abbrev pub bob : Contact
bob = record {
  alias = codes "bob";
  identity_pub = replicate 32 2;
  verified = true;
  minimum_suite = hybrid_pqxdh_v1;
  card = some (record {
    maximum_suite = triple_ratchet_v1;
    spk_id = 3;
    spk_pub = replicate 32 3;
    spk_signature = replicate 64 4;
    one_time_prekeys = [];
    pq_identity_pub = replicate 1952 5;
    pq_bundle = none;
  });
}

abbrev pub with_bob : Session
with_bob = record {
  contact_index = 1;
  suite = hybrid_pqxdh_v1;
  status = pending;
  session_id = replicate 32 6;
  legacy_read_only = false;
  spqr_state = [];
  root_key = replicate 32 7;
  has_dhs = true;
  dhs_sk = replicate 32 8;
  dhs_pub = replicate 32 9;
  has_dhr = true;
  dhr_pub = replicate 32 10;
  has_cks = true;
  chain_key_send = replicate 32 11;
  has_ckr = true;
  chain_key_recv = replicate 32 12;
  ns = 1;
  nr = 0;
  pn = 0;
  skipped = [];
}

abbrev pub opening : AcceptedHandshake
opening = record {
  initiator_identity = replicate 32 1;
  ephemeral_pub = replicate 32 13;
  accepted_at = 5;
  spk_id = 1;
}

abbrev pub prekey : SignedPrekey
prekey = record {
  id = 1;
  pub_key = replicate 32 14;
  sk = replicate 32 15;
  signature = replicate 64 16;
  created_at = 4;
}

abbrev pub pq_prekey : PqPrekey
pq_prekey = record {
  id = 2;
  key = record { public_key = replicate 1184 17; private_seed = replicate 64 18 };
  created_at = 3;
}

-- The public key of every seed, as pq_prekey has it.
abbrev from_seed : List ℕ → Result MlKemKeyPair
from_seed = ml_kem_768_from_seed (record toy_ssl { kem_public = λ seed. some (replicate 1184 17) })

abbrev pub vault : VaultStore
vault = record {
  vault_id = replicate 16 19;
  generation = 2 ^ 40;
  previous_digest = replicate 32 20;
  seed = replicate 32 21;
  next_spk_id = 2;
  signed_prekeys = prekey ∷ [];
  next_otpk_id = 1;
  one_time_prekeys = [];
  next_pq_prekey_id = 3;
  pq_signed_prekeys = pq_prekey ∷ [];
  pq_one_time_prekeys = [];
  contacts = alice ∷ bob ∷ [];
  sessions = with_bob ∷ [];
  accepted_handshakes = opening ∷ [];
}

vault-IsStore : IsStore from_seed vault
unfolding ml_kem_768_from_seed
vault-IsStore = record {
  vault_id_size = refl;
  generation_fits = omega arith;
  digest_size = refl;
  seed_size = refl;
  spk_id_fits = omega arith;
  spk_count = omega arith;
  spks_ok = (
    record {
      id_fits = omega arith;
      public_size = refl;
      secret_size = refl;
      signature_size = refl;
      date_fits = omega arith;
    },
    tt,
  );
  otpk_id_fits = omega arith;
  otpk_count = omega arith;
  otpks_ok = tt;
  pq_id_fits = omega arith;
  pq_count = omega arith;
  pqs_ok = (
    record {
      id_fits = omega arith;
      public_size = refl;
      seed_size = refl;
      date_fits = omega arith;
      matching = refl;
    },
    tt,
  );
  pq_one_time_count = omega arith;
  pq_one_time_ok = tt;
  contact_count = omega arith;
  contacts_ok = (
    record {
      alias_some = omega arith;
      alias_fits = omega arith;
      identity_size = refl;
      card_ok = tt;
    },
    (
      record {
        alias_some = omega arith;
        alias_fits = omega arith;
        identity_size = refl;
        card_ok = record {
          spk_id_fits = omega arith;
          spk_size = refl;
          signature_size = refl;
          count_fits = omega arith;
          one_time_ok = tt;
          identity_size = refl;
          bundle_ok = tt;
        };
      },
      tt,
    ),
  );
  session_count = omega arith;
  sessions_ok = (
    record {
      contact_fits = omega arith;
      id_size = refl;
      spqr_fits = omega arith;
      root_size = refl;
      dhs_sk_size = refl;
      dhs_pub_size = refl;
      dhr_pub_size = refl;
      send_size = refl;
      recv_size = refl;
      ns_fits = omega arith;
      nr_fits = omega arith;
      pn_fits = omega arith;
      count_fits = omega arith;
      skipped_ok = tt;
    },
    tt,
  );
  handshake_count = omega arith;
  handshakes_ok = (
    record {
      identity_size = refl;
      ephemeral_size = refl;
      date_fits = omega arith;
      spk_fits = omega arith;
    },
    tt,
  );
}

parse-serialize_example :
    (text : List ℕ) × (serialize vault ≡ ok text) × (parse from_seed 77 text ≡ ok vault)
parse-serialize_example = parse-serialize from_seed 77 vault vault-IsStore

remember-IsCapped_example :
    IsCapped (remember_handshake (replicate 32 2) (replicate 32 30) 9 1 vault).1
remember-IsCapped_example =
    remember-IsCapped (replicate 32 2) (replicate 32 30) 9 1 vault (unfold IsCapped in omega arith)

remember_handshake-IsRemembered_example :
    IsRemembered
      (replicate 32 2)
      (replicate 32 30)
      9
      1
      vault
      (remember_handshake (replicate 32 2) (replicate 32 30) 9 1 vault)
remember_handshake-IsRemembered_example =
    remember_handshake-IsRemembered (replicate 32 2) (replicate 32 30) 9 1 vault

-- The handshake of the vault names the prekey that is still there.
opening_unspent : spent vault.signed_prekeys opening ≡ false
unfolding spent
opening_unspent = refl

remember_handshake_keeps_live_example :
    handshake_already_accepted
      (replicate 32 1)
      (replicate 32 13)
      (remember_handshake (replicate 32 2) (replicate 32 30) 9 1 vault).1
    ≡ true
remember_handshake_keeps_live_example =
    remember_handshake_keeps_live (replicate 32 2) (replicate 32 30) 9 1 vault opening [] [] refl
      opening_unspent

find-IsFirst_example :
    IsFirst
      (λ (c : Contact). same_bytes c.alias (codes "bob"))
      vault.contacts
      0
      (find_contact (codes "bob") vault)
    × IsFirst
        (λ (c : Contact). same_bytes c.identity_pub (replicate 32 1))
        vault.contacts
        0
        (find_contact_by_identity (replicate 32 1) vault)
    × IsFirst (λ (s : Session). s.contact_index == 1) vault.sessions 0 (find_session 1 vault)
find-IsFirst_example = find-IsFirst (codes "bob") (replicate 32 1) 1 vault
