-- ===== src/Ratchet/Steps.antt =====
-- src/ratchet.cpp: dh_ratchet, skip_message_keys, init_sender, init_receiver, encrypt and
-- expire_skipped_keys.
use ratchet_usb.Prelude.{
  ℕ, zero, suc, ◌+◌, ◌-◌, ◌*◌, ◌%◌, ◌^◌, Bool, true, false, not, ◌&&◌, List, [], ◌∷◌, ◌++◌, length,
  Option, ltb, if◌then◌else◌,
}
use ratchet_usb.Outcome.{ok, err, too_many_skipped, no_sending_chain}
use ratchet_usb.Exec.{Exec, pure, lift, calls, gets, modify, guard, ◌>>=◌, ◌>>◌}
use ratchet_usb.Crypto.{Crypto}
use ratchet_usb.Message.{RatchetHeader}
use ratchet_usb.Message.Write.{header_aad}
use ratchet_usb.Store.{Session, SkippedKey}
use ratchet_usb.Ratchet.Keys.{dh, kdf_rk, kdf_ck, aead_key, aead_encrypt}

-- kMaxSkip, kSkippedKeyMaxAgeSeconds
abbrev pub max_skip : ℕ
max_skip = 1000

abbrev pub skipped_key_max_age_seconds : ℕ
skipped_key_max_age_seconds = 7 * 24 * 60 * 60

-- A key pair drawn by x25519::generate_keypair.
pub record KeyPair : Type 0 where
  pub sk : List ℕ
  pub pk : List ℕ

module _ (c : Crypto) where
  -- kdf_rk(s.root_key, dh_out, s.root_key, s.chain_key_recv), and the flag.
  unfoldable pub root_to_recv : Exec Session (Unit {0})
  root_to_recv = do
    dh_out ← calls (λ s. dh c s.dhs_sk s.dhr_pub)
    keys ← calls (λ s. kdf_rk c s.root_key dh_out)
    modify (λ s. record s { root_key = keys.0; chain_key_recv = keys.1; has_ckr = true })

  unfoldable pub root_to_send : Exec Session (Unit {0})
  root_to_send = do
    dh_out ← calls (λ s. dh c s.dhs_sk s.dhr_pub)
    keys ← calls (λ s. kdf_rk c s.root_key dh_out)
    modify (λ s. record s { root_key = keys.0; chain_key_send = keys.1; has_cks = true })

  unfoldable pub dh_ratchet : List ℕ → KeyPair → Exec Session (Unit {0})
  unfolding root_to_recv root_to_send
  dh_ratchet new_dhr_pub fresh = do
    modify (λ s. record s { pn = s.ns; ns = 0; nr = 0; dhr_pub = new_dhr_pub; has_dhr = true })
    root_to_recv
    modify (λ s. record s { dhs_sk = fresh.sk; dhs_pub = fresh.pk })
    root_to_send

  -- One round of the loop: the key of message `nr` is stashed and the chain moves on.
  unfoldable pub stash : ℕ → Session → Session
  unfolding kdf_ck
  stash now s = record s {
    chain_key_recv = (kdf_ck c s.chain_key_recv).0;
    skipped =
        s.skipped
        ++ record {
          dh_pub = s.dhr_pub;
          n = s.nr;
          message_key = (kdf_ck c s.chain_key_recv).1;
          created_at = now;
        }
          ∷ [];
    nr = (s.nr + 1) % 2 ^ 32;
  }

  -- `while (s.nr < until)`, on fuel.
  unfoldable pub stash_until : ℕ → ℕ → ℕ → Session → Session
  unfolding stash
  stash_until zero until now s = s
  stash_until (suc fuel) until now s =
      let rest = stash_until fuel until now (stash now s) in if ltb s.nr until then rest else s

  -- The loop makes `until - s.nr` rounds.
  unfoldable pub skip_message_keys : ℕ → ℕ → Exec Session (Unit {0})
  unfolding stash_until
  skip_message_keys until now s =
      if not s.has_ckr
      then (ok tt, s)
      else if ltb until s.nr
      then (ok tt, s)
      else if ltb max_skip (length s.skipped + (until - s.nr))
      then (err too_many_skipped, s)
      else (ok tt, stash_until (until - s.nr) until now s)

  unfoldable pub init_sender : List ℕ → KeyPair → List ℕ → Exec Session (Unit {0})
  init_sender shared_secret ephemeral bob_dh_pub = do
    modify (λ s. record s {
      dhs_sk = ephemeral.sk;
      dhs_pub = ephemeral.pk;
      has_dhs = true;
      dhr_pub = bob_dh_pub;
      has_dhr = true;
    })
    dh_out ← calls (λ s. dh c s.dhs_sk s.dhr_pub)
    keys ← lift (kdf_rk c shared_secret dh_out)
    modify (λ s. record s {
      root_key = keys.0;
      chain_key_send = keys.1;
      has_cks = true;
      has_ckr = false;
      ns = 0;
      nr = 0;
      pn = 0;
      skipped = [];
    })

  unfoldable pub init_receiver : List ℕ → KeyPair → Exec Session (Unit {0})
  init_receiver shared_secret spk = modify (λ s. record s {
    dhs_sk = spk.sk;
    dhs_pub = spk.pk;
    has_dhs = true;
    has_dhr = false;
    root_key = shared_secret;
    has_cks = false;
    has_ckr = false;
    ns = 0;
    nr = 0;
    pn = 0;
    skipped = [];
  })

  -- The header and the ciphertext of one message.
  unfoldable pub encrypt :
      List ℕ → List ℕ → List ℕ → Option (List ℕ) → Exec Session (RatchetHeader × List ℕ)
  unfolding kdf_ck
  encrypt plaintext nonce aad_prefix pq_message_key = do
    has_cks ← gets (λ s. s.has_cks)
    guard has_cks no_sending_chain
    keys ← gets (λ s. kdf_ck c s.chain_key_send)
    header ← gets (λ s. record { dh_pub = s.dhs_pub; pn = s.pn; n = s.ns })
    modify (λ s. record s { chain_key_send = keys.0; ns = (s.ns + 1) % 2 ^ 32 })
    ratchet_aad ← lift (header_aad header)
    key ← lift (aead_key c keys.1 pq_message_key)
    ciphertext ← lift (aead_encrypt c key nonce plaintext (aad_prefix ++ ratchet_aad))
    pure (header, ciphertext)

-- `now > sk.created_at && now - sk.created_at > kSkippedKeyMaxAgeSeconds`
unfoldable pub stale : ℕ → SkippedKey → Bool
stale now sk = ltb sk.created_at now && ltb skipped_key_max_age_seconds (now - sk.created_at)

-- remove_if and erase.
unfoldable pub keep_fresh : ℕ → List SkippedKey → List SkippedKey
unfolding stale
keep_fresh now [] = []
keep_fresh now (sk ∷ sks) =
    let rest = keep_fresh now sks in if stale now sk then rest else sk ∷ rest

-- The number of keys that were dropped.
unfoldable pub expire_skipped_keys : ℕ → Session → ℕ × Session
unfolding keep_fresh
expire_skipped_keys now s = (
  length s.skipped - length (keep_fresh now s.skipped),
  record s { skipped = keep_fresh now s.skipped },
)
