-- ===== src/Session/Consumed.antt =====
-- src/session.cpp: an accepted opening uses up the one-time prekeys that it names.
use ratchet_usb.Prelude.{
  ℕ, zero, suc, ◌+◌, ◌≡◌, refl, sym, ap, subst, ◌∙◌, Bool, true, List, [], ◌∷◌, ◌++◌, length,
  Option, none, some, some-injective, get_elem?, remove_at, ◌==◌, arith,
}
use ratchet_usb.Outcome.{
  Error, ok, err, ok-injective, one_time_prekey_used, pq_one_time_prekey_used,
}
use ratchet_usb.Exec.Done.{lift-ok}
use ratchet_usb.Message.{Envelope, InitialFields}
use ratchet_usb.Message.Read.{decode}
use ratchet_usb.Store.{VaultStore, OneTimePrekey, PqPrekey, first_index, find_session}
use ratchet_usb.Store.Found.{IsFirst, first_index-IsFirst}
use ratchet_usb.Session.Types.{Libraries, Identity}
use ratchet_usb.Session.Receive.{ReceiveDraws, ReceiveResult, receive, receive_envelope}
use ratchet_usb.Session.Lookup.{
  one_time_prekey_of, pq_one_time_prekey_of, prune_if_full, erase_found, found_at,
}
use ratchet_usb.Session.Accepted.{Passed, receive_opening-Passed}
use ratchet_usb.Session.History.{history_after-WithHistory, prune_if_full-WithHistory}
use ratchet_usb.Session.Replayed.{commit-parts, ordinary_not_established}

-- The list `ys` is `xs` without one element of the id, or the same where no id is given.
pub data UsedUp {A : Type 0} (id_of : A → ℕ) (xs : List A) : Option ℕ → List A → Type 0 where
  nothing_named : UsedUp id_of xs none xs
  one_removed :
      (id i : ℕ) (a : A)
      → get_elem? xs i ≡ some a
      → id_of a ≡ id
      → UsedUp id_of xs (some id) (remove_at xs i)

module _ {A : Type 0} (id_of : A → ℕ) where
  eqb→eq : (n m : ℕ) → (n == m) ≡ true → n ≡ m
  eqb→eq n m h = ground arith

  get_elem?-append :
      (before : List A) (x : A) (after : List A) (i : ℕ)
      → i ≡ length before + 0
      → get_elem? (before ++ x ∷ after) i ≡ some x
  get_elem?-append [] x after i h = rw h refl
  get_elem?-append (y ∷ before) x after zero h = absurd (omega arith)
  get_elem?-append (y ∷ before) x after (suc i) h = get_elem?-append before x after i (omega arith)

  -- A found index and element are those of the id.
  found_at-first_index :
      (id : ℕ) (xs : List A) (found : ℕ × A)
      → found_at xs (first_index (λ p. id_of p == id) xs 0) ≡ some found
      → (get_elem? xs found.0 ≡ some found.1) × (id_of found.1 ≡ id)
  unfolding found_at
  found_at-first_index id xs found h =
      by_index (first_index test xs 0) refl (first_index-IsFirst test xs 0)
    where
      test : A → Bool
      test p = id_of p == id

      by_index :
          (at : Option ℕ)
          → first_index test xs 0 ≡ at
          → IsFirst test xs 0 at
          → (get_elem? xs found.0 ≡ some found.1) × (id_of found.1 ≡ id)
      by_index none e first = absurd (cc (rw (e, found_at) at h))
      by_index (some j) e (before, x, after, split, at, misses, hit) =
          let here : get_elem? xs j ≡ some x =
            ap (λ ys. get_elem? ys j) split ∙ get_elem?-append before x after j at in
          let same : (j, x) ≡ found = some-injective (rw (e, found_at, here) at h) in
          subst (λ q. (get_elem? xs q.0 ≡ some q.1) × (id_of q.1 ≡ id)) same
            (here, eqb→eq (id_of x) id hit)

  -- The searches of `receive` for a named prekey.
  searched-UsedUp :
      (e : Error) (id : ℕ) (xs : List A) (r found : Option (ℕ × A))
      → found_at xs (first_index (λ p. id_of p == id) xs 0) ≡ r
      → elim r [ none ↦ err e | some q ↦ ok (some q) ] ≡ ok found
      → UsedUp id_of xs (some id) (erase_found found xs)
  searched-UsedUp e id xs none found h g = absurd (cc g)
  searched-UsedUp e id xs (some q) found h g =
      let (at, of) = found_at-first_index id xs q h in
      subst (λ z. UsedUp id_of xs (some id) (erase_found z xs)) (ok-injective g)
        (one_removed id q.0 q.1 at of)

one_time_prekey_of-UsedUp :
    (named : Option ℕ) (vault : VaultStore) (found : Option (ℕ × OneTimePrekey))
    → one_time_prekey_of named vault ≡ ok found
    → UsedUp (λ p. p.id) vault.one_time_prekeys named (erase_found found vault.one_time_prekeys)
unfolding one_time_prekey_of
one_time_prekey_of-UsedUp none vault found h =
    subst
      (λ q. UsedUp (λ p. p.id) vault.one_time_prekeys none (erase_found q vault.one_time_prekeys))
      (ok-injective h) nothing_named
one_time_prekey_of-UsedUp (some id) vault found h =
    searched-UsedUp (λ p. p.id) one_time_prekey_used id vault.one_time_prekeys _ found refl h

pq_one_time_prekey_of-UsedUp :
    (named : Option ℕ) (ct : Option (List ℕ)) (vault : VaultStore) (found : Option (ℕ × PqPrekey))
    → pq_one_time_prekey_of named ct vault ≡ ok found
    → UsedUp
        (λ p. p.id)
        vault.pq_one_time_prekeys
        named
        (erase_found found vault.pq_one_time_prekeys)
unfolding pq_one_time_prekey_of
pq_one_time_prekey_of-UsedUp none none vault found h =
    subst
      (λ q.
        UsedUp (λ p. p.id) vault.pq_one_time_prekeys none (erase_found q vault.pq_one_time_prekeys))
      (ok-injective h) nothing_named
pq_one_time_prekey_of-UsedUp none (some ct) vault found h = absurd (cc h)
pq_one_time_prekey_of-UsedUp (some id) none vault found h = absurd (cc h)
pq_one_time_prekey_of-UsedUp (some id) (some ct) vault found h =
    searched-UsedUp (λ p. p.id) pq_one_time_prekey_used id vault.pq_one_time_prekeys _ found refl h

module _ (lib : Libraries) (me : Identity) where
  Passed-UsedUp :
      (env : Envelope) (f : InitialFields) (draws : ReceiveDraws) (vault vault' : VaultStore)
      (r : ReceiveResult)
      → Passed lib env f draws vault vault' r
      → UsedUp (λ p. p.id) vault.one_time_prekeys f.otpk_id vault'.one_time_prekeys
        × UsedUp (λ p. p.id) vault.pq_one_time_prekeys f.pq_otpk_id vault'.pq_one_time_prekeys
  Passed-UsedUp env f draws vault vault' r p =
      let a = p.accepted in
      let pruned = prune_if_full-WithHistory vault in
      let before = history_after-WithHistory lib env f draws vault vault' r p in
      let parts =
        commit-parts env p.index p.contact a.fresh a.otpk a.pq_otpk a.history
          (find_session p.index (prune_if_full vault)) in
      (
        subst (UsedUp (λ p. p.id) vault.one_time_prekeys f.otpk_id)
            (sym (
              ap (λ v. v.one_time_prekeys) a.committed
              ∙ parts.2
              ∙ ap (λ v. erase_found a.otpk v.one_time_prekeys) before))
            (subst (λ xs. UsedUp (λ p. p.id) xs f.otpk_id (erase_found a.otpk xs))
              (ap (λ v. v.one_time_prekeys) pruned)
              (one_time_prekey_of-UsedUp f.otpk_id (prune_if_full vault) a.otpk a.otpk_found)),
        subst (UsedUp (λ p. p.id) vault.pq_one_time_prekeys f.pq_otpk_id)
            (sym (
              ap (λ v. v.pq_one_time_prekeys) a.committed
              ∙ parts.3
              ∙ ap (λ v. erase_found a.pq_otpk v.pq_one_time_prekeys) before))
            (subst (λ xs. UsedUp (λ p. p.id) xs f.pq_otpk_id (erase_found a.pq_otpk xs))
              (ap (λ v. v.pq_one_time_prekeys) pruned)
              (pq_one_time_prekey_of-UsedUp f.pq_otpk_id f.pq_otpk_ciphertext (prune_if_full vault)
                a.pq_otpk a.pq_otpk_found)),
      )

  -- An accepted opening uses up the one-time prekeys that it names. When `receive` has accepted a
  -- block as an opening, the block decodes to an envelope with initial fields, and of either kind,
  -- X25519 and ML-KEM, the vault has lost exactly one one-time prekey, whose id is the one that the
  -- fields name, or none where they name none.
  pub receive-UsedUp :
      (block : List ℕ) (draws : ReceiveDraws) (vault vault' : VaultStore) (r : ReceiveResult)
      → receive lib me block draws vault ≡ (ok r, vault')
      → r.session_established ≡ true
      → (env : Envelope) × (f : InitialFields) × (decode lib.base64 block ≡ ok env)
        × (env.initial ≡ some f)
        × UsedUp (λ p. p.id) vault.one_time_prekeys f.otpk_id vault'.one_time_prekeys
        × UsedUp (λ p. p.id) vault.pq_one_time_prekeys f.pq_otpk_id vault'.pq_one_time_prekeys
  unfolding receive
  receive-UsedUp block draws vault vault' r h established =
      let (env, decoded, h0) = lift-ok (decode lib.base64 block) _ vault vault' r h in
      let (f, named, used, pq_used) = by_initial env env.initial refl h0 in
      (env, f, decoded, named, used, pq_used)
    where
      by_initial :
          (env : Envelope) (initial : Option InitialFields)
          → env.initial ≡ initial
          → receive_envelope lib me draws env initial vault ≡ (ok r, vault')
          → (f : InitialFields) × (env.initial ≡ some f)
            × UsedUp (λ p. p.id) vault.one_time_prekeys f.otpk_id vault'.one_time_prekeys
            × UsedUp (λ p. p.id) vault.pq_one_time_prekeys f.pq_otpk_id vault'.pq_one_time_prekeys
      by_initial env none e g = absurd (
          cc (
            established,
            ordinary_not_established lib me env draws vault vault' r (unfold receive_envelope in g),
          ))
      by_initial env (some f) e g =
          let (used, pq_used) = Passed-UsedUp env f draws vault vault' r (
            receive_opening-Passed lib me env f draws vault vault' r
              (unfold receive_envelope in g)) in
          (f, e, used, pq_used)
