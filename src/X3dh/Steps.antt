-- ===== src/X3dh/Steps.antt =====
-- include/ratchet/x3dh.hpp and src/x3dh.cpp: the parts of `initiate`, `respond` and `respond_hybrid`.
use ratchet_usb.Prelude.{
  ℕ, ◌%◌, Bool, true, false, List, [], ◌∷◌, length, get_elem?, remove_at, Option, none, some,
}
use ratchet_usb.Outcome.{Result, ok, err, ◌>=>◌, card_missing, message_authentication}
use ratchet_usb.Exec.{Exec, pure, calls, modify, ◌>>=◌, ◌>>◌}
use ratchet_usb.Crypto.{Crypto}
use ratchet_usb.Pq.{OpenSsl, ml_kem_768_encapsulate, ml_kem_768_decapsulate}
use ratchet_usb.Ratchet.{KeyPair, dh}
use ratchet_usb.Store.{
  Contact, PeerCard, PeerOtpk, PeerPqPrekey, PeerPqBundle, OneTimePrekey, PqPrekey,
}
use ratchet_usb.X3dh.Combine.{combine_hybrid, combine_xwing, fill_xwing_pair}

pub record InitiatorResult : Type 0 where
  pub shared_secret : List ℕ
  pub ephemeral : KeyPair
  pub spk_id : ℕ
  pub spk_pub : List ℕ
  pub otpk_id : Option ℕ
  pub pq_spk_id : Option ℕ
  pub pq_spk_ciphertext : Option (List ℕ)
  pub pq_otpk_id : Option ℕ
  pub pq_otpk_ciphertext : Option (List ℕ)

-- What `initiate` draws: the ephemeral key pair, the two picks of randombytes_uniform before they
-- are reduced below the size of the list, and the randomness of the two encapsulations.
pub record Draws : Type 0 where
  pub ephemeral : KeyPair
  pub pick : ℕ
  pub static_draw : List ℕ
  pub pq_pick : ℕ
  pub one_time_draw : List ℕ

-- An index below the size, drawn; and the element there.
unfoldable pub picked {ℓ} : {A : Type ℓ} → ℕ → List A → Option A
picked drawn [] = none
picked drawn (x ∷ xs) = get_elem? (x ∷ xs) (drawn % length (x ∷ xs))

unfoldable pub without_picked {ℓ} : {A : Type ℓ} → ℕ → List A → List A
without_picked drawn [] = []
without_picked drawn (x ∷ xs) = remove_at (x ∷ xs) (drawn % length (x ∷ xs))

abbrev pub is_some {ℓ} : {A : Type ℓ} → Option A → Bool
is_some none = false
is_some (some a) = true

unfoldable pub card_of : Contact → Result PeerCard
card_of contact = elim (contact.card) [ none ↦ err card_missing | some card ↦ ok card ]

-- A DH output with the public key it was computed with, for the optional one-time prekey.
unfoldable pub dh_with : Crypto → Option (List ℕ × List ℕ) → Result (Option (List ℕ × List ℕ))
dh_with c none = ok none
dh_with c (some (sk, pk)) = dh c sk pk >=> λ out. ok (some (out, pk))

abbrev pub listed : Option (List ℕ × List ℕ) → List (List ℕ)
listed none = []
listed (some (out, pk)) = out ∷ []

module _ (ssl : OpenSsl) where
  -- The optional one-time encapsulation: its id, its ciphertext and its secret.
  unfoldable pub encapsulate_picked :
      Option PeerPqPrekey → List ℕ → Result (Option (ℕ × List ℕ × List ℕ))
  encapsulate_picked none drawn = ok none
  encapsulate_picked (some key) drawn =
      ml_kem_768_encapsulate ssl key.pub_key drawn >=> λ (ct, ss). ok (some (key.id, ct, ss))

abbrev pub id_in : Option (ℕ × List ℕ × List ℕ) → Option ℕ
id_in none = none
id_in (some (id, ct, ss)) = some id

abbrev pub ciphertext_in : Option (ℕ × List ℕ × List ℕ) → Option (List ℕ)
ciphertext_in none = none
ciphertext_in (some (id, ct, ss)) = some ct

abbrev pub secret_in : Option (ℕ × List ℕ × List ℕ) → Option (List ℕ)
secret_in none = none
secret_in (some (id, ct, ss)) = some ss

abbrev pub otpk_id_of : Option PeerOtpk → Option ℕ
otpk_id_of none = none
otpk_id_of (some o) = some o.id

-- The result before the ML-KEM part.
abbrev pub classical_result : KeyPair → PeerCard → Option PeerOtpk → List ℕ → InitiatorResult
classical_result ephemeral card otpk shared = record {
  shared_secret = shared;
  ephemeral = ephemeral;
  spk_id = card.spk_id;
  spk_pub = card.spk_pub;
  otpk_id = otpk_id_of otpk;
  pq_spk_id = none;
  pq_spk_ciphertext = none;
  pq_otpk_id = none;
  pq_otpk_ciphertext = none;
}

-- `dh(eph_sk, otpk.pub, dh4)`
abbrev pub otpk_share : KeyPair → Option PeerOtpk → Option (List ℕ × List ℕ)
otpk_share eph none = none
otpk_share eph (some o) = some (eph.sk, o.pub_key)

module _ (c : Crypto) (ssl : OpenSsl) (initiator responder : List ℕ) (use_xwing : Bool) where
  -- The last step of both sides. `dh4` is the fourth DH with the one-time prekey's public key.
  unfoldable pub combine :
      List ℕ
      → List ℕ
      → List ℕ
      → List ℕ
      → List ℕ
      → Option (List ℕ)
      → Option (List ℕ × List ℕ)
      → Result (List ℕ)
  combine classical dh3 ephemeral_pub spk_pub pq_static pq_one_time dh4 = elim use_xwing [
    | true ↦ fill_xwing_pair ssl pq_static dh3 ephemeral_pub spk_pub pq_one_time dh4 >=> λ pair.
        combine_xwing c initiator responder classical pair.0 pair.1
    | false ↦ combine_hybrid c initiator responder classical pq_static pq_one_time
  ]

-- `if (!card.one_time_prekeys.empty())`: the prekey picked, which leaves the card.
unfoldable pub take_otpk : ℕ → PeerCard → Exec Contact (Option PeerOtpk)
unfolding picked without_picked
take_otpk drawn card = do
  modify (λ contact. record contact {
    card = some (record card { one_time_prekeys = without_picked drawn card.one_time_prekeys });
  })
  pure (picked drawn card.one_time_prekeys)

-- The same for the one-time prekeys of the ML-KEM bundle.
unfoldable pub take_pq_otpk : ℕ → PeerPqBundle → Exec Contact (Option PeerPqPrekey)
unfolding picked without_picked card_of
take_pq_otpk drawn bundle = do
  card ← calls card_of
  modify (λ contact. record contact {
    card = some (record card {
      pq_bundle =
          some (record bundle { one_time_prekeys = without_picked drawn bundle.one_time_prekeys });
    });
  })
  pure (picked drawn bundle.one_time_prekeys)

-- The part of a one-time prekey in `respond`.
abbrev pub my_share : List ℕ → Option OneTimePrekey → Option (List ℕ × List ℕ)
my_share their_ephemeral_pub none = none
my_share their_ephemeral_pub (some o) = some (o.sk, their_ephemeral_pub)

-- The secret of the one-time ML-KEM prekey: both the prekey and its ciphertext, or neither.
unfoldable pub decapsulate_paired :
    OpenSsl → Option PqPrekey → Option (List ℕ) → Result (Option (List ℕ))
decapsulate_paired ssl none none = ok none
decapsulate_paired ssl none (some ct) = err message_authentication
decapsulate_paired ssl (some key) none = err message_authentication
decapsulate_paired ssl (some key) (some ct) =
    ml_kem_768_decapsulate ssl key.key.private_seed ct >=> λ ss. ok (some ss)

-- `dh4` with the public key of the one-time prekey, as `combine` takes it.
unfoldable pub my_dh4 : Crypto → List ℕ → Option OneTimePrekey → Result (Option (List ℕ × List ℕ))
my_dh4 c their_ephemeral_pub none = ok none
my_dh4 c their_ephemeral_pub (some o) =
    dh c o.sk their_ephemeral_pub >=> λ out. ok (some (out, o.pub_key))
