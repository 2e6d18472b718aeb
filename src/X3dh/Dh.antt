-- ===== src/X3dh/Dh.antt =====
-- src/x3dh.cpp: the Diffie-Hellman outputs are the same on both sides.
use ratchet_usb.Prelude.{ℕ, ◌≡◌, refl, sym, ap, subst, ◌∙◌, List, ◌∷◌, Option, none, some}
use ratchet_usb.Outcome.{ok, ok-injective}
use ratchet_usb.Exec.Done.{then-ok}
use ratchet_usb.Crypto.{Crypto, CryptoLaws}
use ratchet_usb.Identity.{Ed25519, identity_dh_keypair, identity_dh_public}
use ratchet_usb.Ratchet.{KeyPair, dh}
use ratchet_usb.Store.{PeerOtpk, SignedPrekey, OneTimePrekey}
use ratchet_usb.X3dh.Combine.{derive_shared_secret}
use ratchet_usb.X3dh.Handshake.{respond}
use ratchet_usb.X3dh.Steps.{dh_with, otpk_share, my_share, my_dh4, listed}

-- The conversion of an identity's key pair to X25519 gives a key pair.
pub record ConversionLaws (c : Crypto) (ed : Ed25519) : Type 0 where
  pub converted : List ℕ → List ℕ
  pub secret_converts : (sk : List ℕ) → ed.dh_secret sk ≡ some (converted sk)
  pub public_converts :
      (sk : List ℕ) → ed.dh_public (ed.public_of sk) ≡ some (c.public_of (converted sk))

-- The prekey of the card is one's own: the same id and public key, the secret key kept.
abbrev pub OwnOtpk : Crypto → Option PeerOtpk → Option OneTimePrekey → Type 0
OwnOtpk c none none = Unit
OwnOtpk c none (some o) = ⊥
OwnOtpk c (some p) none = ⊥
OwnOtpk c (some p) (some o) =
    (p.id ≡ o.id) × (p.pub_key ≡ o.pub_key) × (o.pub_key ≡ c.public_of o.sk)

module _ (c : Crypto) (laws : CryptoLaws c) (ed : Ed25519) (conv : ConversionLaws c ed) where
  dh_agrees : (a b : List ℕ) → dh c a (c.public_of b) ≡ dh c b (c.public_of a)
  unfolding dh
  dh_agrees a b = rw (dh, laws.scalarmult_comm a b) refl

  pub meets : (a b pa pb : List ℕ) → pa ≡ c.public_of a → pb ≡ c.public_of b → dh c a pb ≡ dh c b pa
  meets a b pa pb e f = ap (dh c a) f ∙ dh_agrees a b ∙ ap (dh c b) (sym e)

  pub converts :
      (sk : List ℕ) → identity_dh_public ed (ed.public_of sk) ≡ ok (c.public_of (conv.converted sk))
  unfolding identity_dh_public
  converts sk = rw (identity_dh_public, conv.public_converts sk) refl

  pub converts_pair :
      (sk : List ℕ)
      → identity_dh_keypair ed sk (ed.public_of sk)
        ≡ ok (conv.converted sk, c.public_of (conv.converted sk))
  unfolding identity_dh_keypair
  converts_pair sk = rw (identity_dh_keypair, conv.secret_converts sk, converts sk) refl

  -- The fourth DH is the same on both sides, with the prekey's public key where it is kept.
  pub share_agrees :
      (eph : KeyPair) (theirs : Option PeerOtpk) (mine : Option OneTimePrekey)
      (dh4 : Option (List ℕ × List ℕ))
      → eph.pk ≡ c.public_of eph.sk
      → OwnOtpk c theirs mine
      → dh_with c (otpk_share eph theirs) ≡ ok dh4
      → (dh4' : Option (List ℕ × List ℕ)) × (dh_with c (my_share eph.pk mine) ≡ ok dh4')
        × (listed dh4' ≡ listed dh4)
        × (my_dh4 c eph.pk mine ≡ ok dh4)
  unfolding dh_with my_dh4
  share_agrees eph none none dh4 pair own h = (none, refl, ap listed (ok-injective h), h)
  share_agrees eph none (some o) dh4 pair own h = absurd own
  share_agrees eph (some p) none dh4 pair own h = absurd own
  share_agrees eph (some p) (some o) dh4 pair own h =
      let (out, e, same) = then-ok (dh c eph.sk p.pub_key) _ dh4 h in
      let met : dh c o.sk eph.pk ≡ ok out =
        meets o.sk eph.sk o.pub_key eph.pk own.2 pair ∙ ap (dh c eph.sk) (sym own.1) ∙ e in
      (
        some (out, eph.pk),
        rw met refl,
        ap listed (ok-injective same),
        rw met (subst (λ pk. ok (some (out, pk)) ≡ ok dh4) own.1 same),
      )

  -- The responder's three or four DH outputs are the initiator's.
  pub respond_agrees :
      (a b : List ℕ) (eph : KeyPair) (spk : SignedPrekey) (theirs : Option PeerOtpk)
      (mine : Option OneTimePrekey) (dh1 dh2 dh3 shared : List ℕ) (dh4 : Option (List ℕ × List ℕ))
      → eph.pk ≡ c.public_of eph.sk
      → spk.pub_key ≡ c.public_of spk.sk
      → OwnOtpk c theirs mine
      → dh c (conv.converted a) spk.pub_key ≡ ok dh1
      → dh c eph.sk (c.public_of (conv.converted b)) ≡ ok dh2
      → dh c eph.sk spk.pub_key ≡ ok dh3
      → dh_with c (otpk_share eph theirs) ≡ ok dh4
      → derive_shared_secret c (ed.public_of a) (ed.public_of b) (dh1 ∷ (dh2 ∷ (dh3 ∷ listed dh4)))
        ≡ ok shared
      → respond c ed b (ed.public_of b) (ed.public_of a) eph.pk spk mine ≡ ok shared
  unfolding respond
  respond_agrees a b eph spk theirs mine dh1 dh2 dh3 shared dh4 pair signed own e1 e2 e3 e4
        derived =
      let (dh4', mirrored, same, _) = share_agrees eph theirs mine dh4 pair own e4 in
      let met1 : dh c spk.sk (c.public_of (conv.converted a)) ≡ ok dh1 =
        meets spk.sk (conv.converted a) spk.pub_key _ signed refl ∙ e1 in
      let met2 : dh c (conv.converted b) eph.pk ≡ ok dh2 =
        meets (conv.converted b) eph.sk _ eph.pk refl pair ∙ e2 in
      let met3 : dh c spk.sk eph.pk ≡ ok dh3 =
        meets spk.sk eph.sk spk.pub_key eph.pk signed pair ∙ e3 in
      rw (converts_pair b, converts a, met1, met2, met3, mirrored, same) derived
