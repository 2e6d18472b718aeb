-- ===== src/Ratchet/Chain.antt =====
-- A message chain, as the specification of both of its ends.
use ratchet_usb.Prelude.{
  ℕ, zero, suc, ◌+◌, ◌%◌, ◌^◌, ◌≤◌, ◌<◌, ◌≡◌, refl, ap, inl, inr, true, List, [], ◌∷◌, All,
  All-append, Bool-cases, lt→ltb, arith,
}
use ratchet_usb.Crypto.{Crypto}
use ratchet_usb.Store.{Session, SkippedKey}
use ratchet_usb.Ratchet.Keys.{kdf_ck}
use ratchet_usb.Ratchet.Steps.{stash, stash_until, stale, keep_fresh}

module _ (c : Crypto) (ck : List ℕ) where
  -- The chain key before message n of the chain that starts at `ck`, and the key of message n.
  unfoldable pub chain_at : ℕ → List ℕ
  chain_at zero = ck
  chain_at (suc n) = c.hmac (chain_at n) (2 ∷ [])

  unfoldable pub message_key_at : ℕ → List ℕ
  unfolding chain_at
  message_key_at n = c.hmac (chain_at n) (1 ∷ [])

  -- A cached key of the current peer key is the chain's key of an earlier message.
  pub record Agrees (dhr_pub : List ℕ) (nr : ℕ) (sk : SkippedKey) : Type 0 where
    pub earlier : sk.dh_pub ≡ dhr_pub → sk.n < nr
    pub same_key : sk.dh_pub ≡ dhr_pub → sk.message_key ≡ message_key_at sk.n

  -- The receiving end of the chain.
  pub record Receives (s : Session) : Type 0 where
    pub knows_peer : s.has_dhr ≡ true
    pub has_chain : s.has_ckr ≡ true
    pub at_chain : s.chain_key_recv ≡ chain_at s.nr
    pub cached : All (Agrees s.dhr_pub s.nr) s.skipped

  pub later :
      (dhr : List ℕ) {m n : ℕ} (sks : List SkippedKey)
      → m ≤ n
      → All (Agrees dhr m) sks
      → All (Agrees dhr n) sks
  later dhr [] h a = tt
  later dhr (sk ∷ sks) h a = (
    record { earlier = λ e. omega (arith, a.0.earlier e); same_key = a.0.same_key },
    later dhr sks h a.1,
  )

  pub keep_fresh-All :
      (P : SkippedKey → Type 0) (now : ℕ) (sks : List SkippedKey)
      → All P sks
      → All P (keep_fresh now sks)
  unfolding keep_fresh
  keep_fresh-All P now [] a = tt
  keep_fresh-All P now (sk ∷ sks) a = elim (Bool-cases (stale now sk)) [
    | inl gone ↦ rw gone (keep_fresh-All P now sks a.1)
    | inr kept ↦ rw kept (a.0, keep_fresh-All P now sks a.1)
  ]

  pub next_word : (n : ℕ) → n + 1 < 2 ^ 32 → (n + 1) % 2 ^ 32 ≡ suc n
  next_word n h = omega arith

  -- A stashed key is the chain's.
  stash-Receives :
      (now : ℕ) (s : Session) → s.nr + 1 < 2 ^ 32 → Receives s → Receives (stash c now s)
  unfolding stash kdf_ck chain_at message_key_at
  stash-Receives now s fits r = rw (next_word s.nr fits) (record {
    knows_peer = r.knows_peer;
    has_chain = r.has_chain;
    at_chain = rw r.at_chain;
    cached =
        All-append (Agrees s.dhr_pub (suc s.nr)) s.skipped _
          (later s.dhr_pub s.skipped (omega arith) r.cached)
          (
            record {
              earlier = λ e. omega arith;
              same_key = λ e. ap (λ k. c.hmac k (1 ∷ [])) r.at_chain;
            },
            tt,
          );
  })

  -- The loop reaches `until` on the fuel that it is given.
  pub stash_until-Receives :
      (fuel until now : ℕ) (s : Session)
      → until ≡ s.nr + fuel
      → until < 2 ^ 32
      → Receives s
      → Receives (stash_until c fuel until now s)
        × ((stash_until c fuel until now s).nr ≡ until)
        × ((stash_until c fuel until now s).dhr_pub ≡ s.dhr_pub)
  unfolding stash_until
  stash_until-Receives zero until now s e fits r = (r, omega arith, refl)
  stash_until-Receives (suc fuel) until now s e fits r = rw (lt→ltb s.nr until (omega arith)) (
      stash_until-Receives fuel until now (stash c now s) (unfold stash in omega arith) fits
        (stash-Receives now s (omega arith) r))
