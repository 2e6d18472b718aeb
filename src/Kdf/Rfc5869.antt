-- ===== src/Kdf/Rfc5869.antt =====
-- HKDF-Expand as RFC 5869 states it, and that the loop of src/kdf.cpp computes it.
use ratchet_usb.Prelude.{
  ℕ, zero, suc, ◌+◌, ◌-◌, ◌*◌, ◌%◌, ◌≤◌, ◌<◌, ◌≡◌, refl, subst, take-min, take-append_split, ◌||◌,
  ap₂, ◌⊎◌, sym, ap, ◌∙◌, inl, inr, false, List, [], ◌∷◌, ◌++◌, append-nil, append_assoc, length,
  length-append, length-take, take, Bool-cases, ltb, ltb→lt, le→ltb, lt→ltb, ◌==◌, if◌then◌else◌,
  arith,
}
use Prim.Native.Nat.{min}
use ratchet_usb.Outcome.{ok}
use ratchet_usb.Crypto.{Crypto, CryptoLaws}
use ratchet_usb.Kdf.{prk_bytes, hmac, expand_loop, fallback_expand, expand}

module _ (c : Crypto) (info prk : List ℕ) where
  -- T(0) is empty, T(i + 1) = HMAC(PRK, T(i) || info || i + 1).
  unfoldable pub block_of : ℕ → List ℕ
  block_of zero = []
  block_of (suc i) = c.hmac prk (block_of i ++ (info ++ suc i ∷ []))

  -- T(i + 1) || ... || T(i + n)
  unfoldable pub stream : ℕ → ℕ → List ℕ
  unfolding block_of
  stream i zero = []
  stream i (suc n) = block_of (suc i) ++ stream (suc i) n

  -- The first `out_len` bytes of T(1) || ... || T(255).
  unfoldable pub rfc_expand : ℕ → List ℕ
  unfolding stream
  rfc_expand out_len = take out_len (stream 0 255)

  -- The loop's input of the HMAC is the RFC's, as long as the counter fits its byte.
  chained :
      (i : ℕ)
      → i < 255
      → c.hmac prk
          ((if ltb 1 ((i + 1) % 256) then block_of i else []) ++ (info ++ (i + 1) % 256 ∷ []))
        ≡ block_of (suc i)
  unfolding block_of
  chained zero h = refl
  chained (suc i) h = rw (counts, lt→ltb 1 (suc (suc i)) (omega arith)) refl
    where
      counts : (suc i + 1) % 256 ≡ suc (suc i)
      counts = omega arith

  module _ (laws : CryptoLaws c) (out_len : ℕ) where
    loop_done :
        (fuel counter : ℕ) (block out : List ℕ)
        → out_len ≤ length out
        → expand_loop c fuel info out_len prk block counter out ≡ out
    unfolding expand_loop
    loop_done zero counter block out h = refl
    loop_done (suc fuel) counter block out h = rw (le→ltb (length out) out_len h)

    -- One round, while bytes are missing.
    loop_step :
        (fuel i : ℕ) (out : List ℕ)
        → length out < out_len
        → i < 255
        → expand_loop c (suc fuel) info out_len prk (block_of i) i out
          ≡ expand_loop c fuel info out_len prk
              (block_of (suc i))
              (suc i)
              (out ++ take (min 32 (out_len - length out)) (block_of (suc i)))
    unfolding expand_loop hmac
    loop_step fuel i out h small = rw (lt→ltb (length out) out_len h) (ap₂ go counts chains)
      where
        go : ℕ → List ℕ → List ℕ
        go k b =
            expand_loop c fuel info out_len prk b k (out ++ take (min 32 (out_len - length out)) b)

        counts : (i + 1) % 256 ≡ suc i
        counts = omega arith

        chains :
            c.hmac prk
              ((if ltb 1 ((i + 1) % 256) then block_of i else []) ++ (info ++ (i + 1) % 256 ∷ []))
            ≡ block_of (suc i)
        chains = chained i small

    length-block_of : (i : ℕ) → length (block_of (suc i)) ≡ 32
    unfolding block_of
    length-block_of i = laws.length-hmac prk _

    take_none : (out xs : List ℕ) → out_len ≤ length out → take (out_len - length out) xs ≡ []
    take_none out xs h = ap (λ (m : ℕ). take m xs) none_left
      where
        none_left : out_len - length out ≡ 0
        none_left = omega arith

    abbrev grown : ℕ → List ℕ → List ℕ
    grown i out = out ++ take (min 32 (out_len - length out)) (block_of (suc i))

    length-grown :
        (i : ℕ) (out : List ℕ) → length (grown i out) ≡ length out + min 32 (out_len - length out)
    length-grown i out = omega (
      arith,
      length-append out (take (min 32 (out_len - length out)) (block_of (suc i))),
      length-take (min 32 (out_len - length out)) (block_of (suc i)),
      length-block_of i,
    )

    regroup :
        (n i : ℕ) (out : List ℕ)
        → grown i out ++ take (out_len - length (grown i out)) (stream (suc i) n)
          ≡ out ++ take (out_len - length out) (block_of (suc i) ++ stream (suc i) n)
    regroup n i out =
        append_assoc out _ _
        ∙ ap (λ xs. out ++ xs)
            (ap₂ (λ xs (m : ℕ). xs ++ take m rest) front behind
              ∙ sym (take-append_split missing (block_of (suc i)) rest))
      where
        missing : ℕ
        missing = out_len - length out

        rest : List ℕ
        rest = stream (suc i) n

        front : take (min 32 missing) (block_of (suc i)) ≡ take missing (block_of (suc i))
        front =
            subst
              (λ (k : ℕ). take (min k missing) (block_of (suc i)) ≡ take missing (block_of (suc i)))
              (length-block_of i) (take-min missing (block_of (suc i)))

        behind : out_len - length (grown i out) ≡ missing - length (block_of (suc i))
        behind = omega (arith, length-grown i out, length-block_of i)

    -- From T(i) on, with n blocks to come, the loop appends what is missing of them.
    loop-stream :
        (n fuel i : ℕ) (out : List ℕ)
        → out_len ≤ length out + fuel
        → (length out ≡ 32 * i) ⊎ (out_len ≤ length out)
        → out_len ≤ 32 * (i + n)
        → i + n ≤ 255
        → expand_loop c fuel info out_len prk (block_of i) i out
          ≡ out ++ take (out_len - length out) (stream i n)
    unfolding stream
    loop-stream zero fuel i out enough at cap small =
        loop_done fuel i (block_of i) out (omega arith)
        ∙ sym (append-nil out)
        ∙ ap (λ xs. out ++ xs) (sym (take_none out [] (omega arith)))
    loop-stream (suc n) zero i out enough at cap small =
        loop_done zero i (block_of i) out (omega arith)
        ∙ sym (append-nil out)
        ∙ ap (λ xs. out ++ xs) (sym (take_none out _ (omega arith)))
    loop-stream (suc n) (suc fuel) i out enough at cap small =
        elim (Bool-cases (ltb (length out) out_len)) [
          | inr done ↦
              loop_done (suc fuel) i (block_of i) out (ground arith)
              ∙ sym (append-nil out)
              ∙ ap (λ xs. out ++ xs) (sym (take_none out _ (ground arith)))
          | inl more ↦
              loop_step fuel i out (ltb→lt _ _ more) (omega arith)
              ∙ loop-stream n fuel (suc i) (grown i out)
                  (omega (arith, length-grown i out, ltb→lt _ _ more))
                  (next i out (ltb→lt _ _ more) at) (omega arith) (omega arith)
              ∙ regroup n i out
        ]
      where
        next :
            (i : ℕ) (out : List ℕ)
            → length out < out_len
            → (length out ≡ 32 * i) ⊎ (out_len ≤ length out)
            → (length (grown i out) ≡ 32 * suc i) ⊎ (out_len ≤ length (grown i out))
        next i out h at = omega (arith, length-grown i out)

  fallback_expand-rfc_expand :
      (laws : CryptoLaws c) (out_len : ℕ)
      → out_len ≤ 255 * 32
      → fallback_expand c out_len info prk ≡ rfc_expand out_len
  unfolding fallback_expand rfc_expand
  fallback_expand-rfc_expand laws out_len hi =
      subst (λ b. expand_loop c out_len info out_len prk b 0 [] ≡ take out_len (stream 0 255)) empty
        (loop-stream laws out_len 255 out_len 0 [] (omega arith) (inl (omega arith)) (omega arith)
            (omega arith)
          ∙ ap (λ (m : ℕ). take m (stream 0 255)) whole)
    where
      empty : block_of 0 ≡ []
      empty = unfold block_of in refl

      whole : out_len - 0 ≡ out_len
      whole = omega arith

  -- For every output length from 1 to 255 * 32 bytes, the loop with its 8-bit counter computes
  -- HKDF-Expand as RFC 5869 states it, given that an HMAC-SHA256 has 32 bytes.
  pub expand-rfc_expand :
      (laws : CryptoLaws c) (out_len : ℕ)
      → 1 ≤ out_len
      → out_len ≤ 255 * 32
      → expand c out_len info prk ≡ ok (rfc_expand out_len)
  unfolding expand
  expand-rfc_expand laws out_len lo hi =
      rw lets_through (ap ok (fallback_expand-rfc_expand laws out_len hi))
    where
      lets_through : (out_len == 0 || ltb (255 * prk_bytes) out_len) ≡ false
      lets_through = ground arith
