-- ===== src/Ratchet/Decrypt.antt =====
-- src/ratchet.cpp: decrypt_in_place and decrypt; src/store.cpp: clone_session.
use ratchet_usb.Prelude.{
  ℕ, suc, ◌+◌, ◌%◌, ◌^◌, Bool, not, ◌&&◌, ◌||◌, List, [], ◌∷◌, ◌++◌, remove_at, Option, none, some,
  ◌==◌, same_bytes, if◌then◌else◌,
}
use ratchet_usb.Outcome.{Result, ok, err}
use ratchet_usb.Exec.{Exec, pure, lift, gets, modify, ◌>>=◌, ◌>>◌}
use ratchet_usb.Crypto.{Crypto}
use ratchet_usb.Message.{RatchetHeader}
use ratchet_usb.Message.Write.{header_aad}
use ratchet_usb.Store.{Session, SkippedKey}
use ratchet_usb.Ratchet.Keys.{kdf_ck, aead_key, aead_decrypt}
use ratchet_usb.Ratchet.Steps.{KeyPair, dh_ratchet, skip_message_keys, expire_skipped_keys}

-- The three readings of the clock in one call.
pub record Clock : Type 0 where
  pub at_expire : ℕ
  pub at_previous : ℕ
  pub at_current : ℕ

-- `it->dh_pub == header.dh_pub && it->n == header.n`
unfoldable pub matches : RatchetHeader → SkippedKey → Bool
matches header sk = same_bytes sk.dh_pub header.dh_pub && sk.n == header.n

-- The first cached key of the header, with its index.
unfoldable pub find_skipped : RatchetHeader → List SkippedKey → ℕ → Option (ℕ × SkippedKey)
unfolding matches
find_skipped header [] i = none
find_skipped header (sk ∷ sks) i =
    let later = find_skipped header sks (suc i) in if matches header sk then some (i, sk) else later

unfoldable pub clone_session : Session → Session
clone_session s = record {
  contact_index = s.contact_index;
  suite = s.suite;
  status = s.status;
  session_id = s.session_id;
  legacy_read_only = s.legacy_read_only;
  spqr_state = s.spqr_state;
  root_key = s.root_key;
  has_dhs = s.has_dhs;
  dhs_sk = s.dhs_sk;
  dhs_pub = s.dhs_pub;
  has_dhr = s.has_dhr;
  dhr_pub = s.dhr_pub;
  has_cks = s.has_cks;
  chain_key_send = s.chain_key_send;
  has_ckr = s.has_ckr;
  chain_key_recv = s.chain_key_recv;
  ns = s.ns;
  nr = s.nr;
  pn = s.pn;
  skipped = s.skipped;
}

module _ (c : Crypto) (pq_message_key : Option (List ℕ)) (ciphertext aad : List ℕ) where
  -- A cached key: decrypt first, erase second.
  unfoldable pub decrypt_cached : ℕ → SkippedKey → Exec Session (List ℕ)
  decrypt_cached i sk = do
    key ← lift (aead_key c sk.message_key pq_message_key)
    plaintext ← lift (aead_decrypt c key ciphertext aad)
    modify (λ s. record s { skipped = remove_at s.skipped i })
    pure plaintext

  -- The DH ratchet step, if the header carries a new key.
  unfoldable pub follow_ratchet : RatchetHeader → KeyPair → Clock → Exec Session (Unit {0})
  unfolding skip_message_keys dh_ratchet
  follow_ratchet header fresh clock s =
      if not s.has_dhr || not (same_bytes header.dh_pub s.dhr_pub)
      then (do skip_message_keys c header.pn clock.at_previous; dh_ratchet c header.dh_pub fresh) s
      else (ok tt, s)

  -- The key of the message itself.
  unfoldable pub decrypt_next : Exec Session (List ℕ)
  unfolding kdf_ck
  decrypt_next = do
    keys ← gets (λ s. kdf_ck c s.chain_key_recv)
    modify (λ s. record s { chain_key_recv = keys.0; nr = (s.nr + 1) % 2 ^ 32 })
    key ← lift (aead_key c keys.1 pq_message_key)
    lift (aead_decrypt c key ciphertext aad)

  unfoldable pub decrypt_fresh : RatchetHeader → KeyPair → Clock → Exec Session (List ℕ)
  unfolding follow_ratchet decrypt_next
  decrypt_fresh header fresh clock = do
    follow_ratchet header fresh clock
    skip_message_keys c header.n clock.at_current
    decrypt_next

  unfoldable pub decrypt_found :
      RatchetHeader → KeyPair → Clock → Option (ℕ × SkippedKey) → Exec Session (List ℕ)
  unfolding decrypt_cached decrypt_fresh
  decrypt_found header fresh clock none = decrypt_fresh header fresh clock
  decrypt_found header fresh clock (some (i, sk)) = decrypt_cached i sk

module _ (c : Crypto) where
  unfoldable pub decrypt_in_place :
      RatchetHeader → List ℕ → List ℕ → Option (List ℕ) → KeyPair → Clock → Exec Session (List ℕ)
  unfolding decrypt_found
  decrypt_in_place header ciphertext aad_prefix pq_message_key fresh clock = do
    modify (λ s. (expire_skipped_keys clock.at_expire s).1)
    ratchet_aad ← lift (header_aad header)
    found ← gets (λ s. find_skipped header s.skipped 0)
    decrypt_found c pq_message_key ciphertext (aad_prefix ++ ratchet_aad) header fresh clock found

  -- The copy is adopted on success only.
  abbrev pub adopt : Session → Result (List ℕ) × Session → Result (List ℕ) × Session
  adopt s (ok plaintext, candidate) = (ok plaintext, candidate)
  adopt s (err e, candidate) = (err e, s)

  unfoldable pub decrypt :
      RatchetHeader → List ℕ → List ℕ → Option (List ℕ) → KeyPair → Clock → Exec Session (List ℕ)
  unfolding decrypt_in_place clone_session
  decrypt header ciphertext aad_prefix pq_message_key fresh clock s =
      adopt s
        (decrypt_in_place header ciphertext aad_prefix pq_message_key fresh clock (clone_session s))
