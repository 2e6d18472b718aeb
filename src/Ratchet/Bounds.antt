-- ===== src/Ratchet/Bounds.antt =====
-- The skipped-key cache never outgrows its budget, and the counters stay 32-bit words.
use ratchet_usb.Prelude.{
  ℕ, zero, suc, ◌+◌, ◌-◌, ◌%◌, ◌^◌, ◌≤◌, ◌<◌, ◌≡◌, inl, inr, true, not, ◌||◌, List, [], ◌∷◌, length,
  length-append, remove_at, Bool-cases, Option, none, some, ltb, same_bytes, arith,
}
use ratchet_usb.Outcome.{Result, ok, err}
use ratchet_usb.Exec.{modify, ◌>>◌}
use ratchet_usb.Exec.Keeps.{Keeps, Keeps-bind, Keeps-modify, keeps_rules}
use ratchet_usb.Crypto.{Crypto}
use ratchet_usb.Message.{RatchetHeader}
use ratchet_usb.Store.{Session, SkippedKey}
use ratchet_usb.Ratchet.Steps.{
  KeyPair, max_skip, dh_ratchet, root_to_recv, root_to_send, stash, stash_until, skip_message_keys,
  stale, keep_fresh, expire_skipped_keys,
}
use ratchet_usb.Ratchet.Decrypt.{
  Clock, decrypt_cached, follow_ratchet, decrypt_next, decrypt_fresh, decrypt_found,
  decrypt_in_place, adopt, clone_session, decrypt,
}

pub record IsBounded (s : Session) : Type 0 where
  pub cache : length s.skipped ≤ max_skip
  pub ns_fits : s.ns < 2 ^ 32
  pub nr_fits : s.nr < 2 ^ 32
  pub pn_fits : s.pn < 2 ^ 32

length-remove_at-le : {A : Type 0} (xs : List A) (i : ℕ) → length (remove_at xs i) ≤ length xs
length-remove_at-le [] i = omega arith
length-remove_at-le (x ∷ xs) zero = omega arith
length-remove_at-le (x ∷ xs) (suc i) = omega (arith, length-remove_at-le xs i)

pub length-keep_fresh-le :
    (now : ℕ) (sks : List SkippedKey) → length (keep_fresh now sks) ≤ length sks
unfolding keep_fresh
length-keep_fresh-le now [] = omega arith
length-keep_fresh-le now (sk ∷ sks) = elim (Bool-cases (stale now sk)) [
  | inl gone ↦ rw gone (omega (arith, length-keep_fresh-le now sks))
  | inr kept ↦ rw kept (omega (arith, length-keep_fresh-le now sks))
]

module _ (c : Crypto) where
  -- Each round of the loop stashes one key.
  stash_until-IsBounded :
      (fuel until now : ℕ) (s : Session)
      → length s.skipped + fuel ≤ max_skip
      → IsBounded s
      → IsBounded (stash_until c fuel until now s)
  unfolding stash_until
  stash_until-IsBounded zero until now s h b = b
  stash_until-IsBounded (suc fuel) until now s h b = elim (Bool-cases (ltb s.nr until)) [
    | inr done ↦ rw done b
    | inl more ↦ rw more (
        stash_until-IsBounded fuel until now (stash c now s)
          (unfold stash in omega (arith, length-append s.skipped (key ∷ [])))
          (unfold stash in
            record {
              cache = omega (arith, length-append s.skipped (key ∷ []));
              ns_fits = b.ns_fits;
              nr_fits = omega arith;
              pn_fits = b.pn_fits;
            }))
  ]
    where
      key : SkippedKey
      key = record {
        dh_pub = s.dhr_pub;
        n = s.nr;
        message_key = (c.hmac s.chain_key_recv (1 ∷ []));
        created_at = now;
      }

  skip_message_keys-IsBounded : (until now : ℕ) → Keeps IsBounded (skip_message_keys c until now)
  unfolding skip_message_keys
  skip_message_keys-IsBounded until now = record {
    at = λ s b. ground (arith, b, stash_until-IsBounded (until - s.nr) until now s);
  }

  -- What leaves the cache and the counters alone.
  keys_only :
      (f : Session → Session)
      → ((s : Session)
          → ((f s).skipped ≡ s.skipped) × ((f s).ns ≡ s.ns) × ((f s).nr ≡ s.nr) × ((f s).pn ≡ s.pn))
      → Keeps IsBounded (modify f)
  keys_only f same = Keeps-modify f λ s b.
      let e = same s in
      record {
        cache = rw e.0 b.cache;
        ns_fits = rw e.1 b.ns_fits;
        nr_fits = rw e.2 b.nr_fits;
        pn_fits = rw e.3 b.pn_fits;
      }

  root_to_recv-IsBounded : Keeps IsBounded (root_to_recv c)
  unfolding root_to_recv
  root_to_recv-IsBounded = search (keeps_rules, keys_only)

  root_to_send-IsBounded : Keeps IsBounded (root_to_send c)
  unfolding root_to_send
  root_to_send-IsBounded = search (keeps_rules, keys_only)

  turn-IsBounded :
      (pk : List ℕ) (s : Session)
      → IsBounded s
      → IsBounded (record s { pn = s.ns; ns = 0; nr = 0; dhr_pub = pk; has_dhr = true })
  turn-IsBounded pk s b = omega arith

  dh_ratchet-IsBounded : (pk : List ℕ) (fresh : KeyPair) → Keeps IsBounded (dh_ratchet c pk fresh)
  unfolding dh_ratchet
  dh_ratchet-IsBounded pk fresh =
      search
        (keeps_rules, keys_only, turn-IsBounded, root_to_recv-IsBounded, root_to_send-IsBounded)

  received-IsBounded :
      (ck : List ℕ) (s : Session)
      → IsBounded s
      → IsBounded (record s { chain_key_recv = ck; nr = (s.nr + 1) % 2 ^ 32 })
  received-IsBounded ck s b = omega arith

  erased-IsBounded :
      (i : ℕ) (s : Session) → IsBounded s → IsBounded (record s { skipped = remove_at s.skipped i })
  erased-IsBounded i s b = omega (arith, length-remove_at-le s.skipped i)

  expired-IsBounded :
      (now : ℕ) (s : Session)
      → IsBounded s
      → IsBounded (record s { skipped = keep_fresh now s.skipped })
  expired-IsBounded now s b = omega (arith, length-keep_fresh-le now s.skipped)

  module _ (pq : Option (List ℕ)) (ciphertext aad : List ℕ) (header : RatchetHeader)
      (fresh : KeyPair) (clock : Clock) where
    decrypt_cached-IsBounded :
        (i : ℕ) (sk : SkippedKey) → Keeps IsBounded (decrypt_cached c pq ciphertext aad i sk)
    unfolding decrypt_cached
    decrypt_cached-IsBounded i sk = search (keeps_rules, erased-IsBounded) depth 12

    follow_ratchet-IsBounded :
        Keeps IsBounded (follow_ratchet c pq ciphertext aad header fresh clock)
    unfolding follow_ratchet
    follow_ratchet-IsBounded = record {
      at = λ s b. elim (Bool-cases (not s.has_dhr || not (same_bytes header.dh_pub s.dhr_pub))) [
        | inl new ↦ rw new (both.at s b)
        | inr old ↦ rw old b
      ];
    }
      where
        both :
            Keeps IsBounded
              (skip_message_keys c header.pn clock.at_previous >> dh_ratchet c header.dh_pub fresh)
        both =
            Keeps-bind _ _ (skip_message_keys-IsBounded header.pn clock.at_previous)
              (λ _. dh_ratchet-IsBounded header.dh_pub fresh)

    decrypt_next-IsBounded : Keeps IsBounded (decrypt_next c pq ciphertext aad)
    unfolding decrypt_next
    decrypt_next-IsBounded = search (keeps_rules, received-IsBounded) depth 12

    decrypt_found-IsBounded :
        (found : Option (ℕ × SkippedKey))
        → Keeps IsBounded (decrypt_found c pq ciphertext aad header fresh clock found)
    unfolding decrypt_found decrypt_fresh
    decrypt_found-IsBounded none =
        search (
          keeps_rules, follow_ratchet-IsBounded, skip_message_keys-IsBounded,
          decrypt_next-IsBounded,
        )
    decrypt_found-IsBounded (some (i, sk)) = decrypt_cached-IsBounded i sk

  in_place-IsBounded :
      (header : RatchetHeader) (ciphertext aad_prefix : List ℕ) (pq : Option (List ℕ))
      (fresh : KeyPair) (clock : Clock)
      → Keeps IsBounded (decrypt_in_place c header ciphertext aad_prefix pq fresh clock)
  unfolding decrypt_in_place expire_skipped_keys
  in_place-IsBounded header ciphertext aad_prefix pq fresh clock =
      search (keeps_rules, expired-IsBounded, decrypt_found-IsBounded) depth 12

  -- No header, ciphertext or clock, forged or not, makes the cache of skipped keys outgrow kMaxSkip
  -- or a counter leave its 32-bit word: not in the session that `decrypt` leaves, and not in the
  -- copy that it advances, also where it throws.
  pub decrypt-IsBounded :
      (header : RatchetHeader) (ciphertext aad_prefix : List ℕ) (pq : Option (List ℕ))
      (fresh : KeyPair) (clock : Clock) (s : Session)
      → IsBounded s
      → IsBounded (decrypt_in_place c header ciphertext aad_prefix pq fresh clock s).1
        × IsBounded (decrypt c header ciphertext aad_prefix pq fresh clock s).1
  unfolding decrypt clone_session
  decrypt-IsBounded header ciphertext aad_prefix pq fresh clock s b =
      (inner, adopted (decrypt_in_place c header ciphertext aad_prefix pq fresh clock s) inner)
    where
      inner : IsBounded (decrypt_in_place c header ciphertext aad_prefix pq fresh clock s).1
      inner = (in_place-IsBounded header ciphertext aad_prefix pq fresh clock).at s b

      adopted : (r : Result (List ℕ) × Session) → IsBounded r.1 → IsBounded (adopt c s r).1
      adopted (ok p, t) h = h
      adopted (err e, t) h = b
