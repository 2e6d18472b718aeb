-- ===== src/Ratchet/Opening.antt =====
-- src/ratchet.cpp: init_sender, init_receiver and the receiver's first DH step.
use ratchet_usb.Prelude.{ℕ, ◌≡◌, refl, ◌∙◌, List}
use ratchet_usb.Outcome.{Result, ok}
use ratchet_usb.Exec.{◌>>=◌}
use ratchet_usb.Crypto.{Crypto, CryptoLaws}
use ratchet_usb.Store.{Session}
use ratchet_usb.Ratchet.Keys.{dh, kdf_rk}
use ratchet_usb.Ratchet.Steps.{
  KeyPair, init_sender, init_receiver, dh_ratchet, root_to_recv, root_to_send,
}
use ratchet_usb.Ratchet.Chain.{chain_at, Receives}
use ratchet_usb.Ratchet.Exchange.{Sends}

module _ (c : Crypto) (laws : CryptoLaws c) (secret : List ℕ) (ephemeral spk fresh : KeyPair)
    (a b : Session) where
  -- Both sides compute the same Diffie-Hellman output.
  dh_agrees :
      ephemeral.pk ≡ c.public_of ephemeral.sk
      → spk.pk ≡ c.public_of spk.sk
      → dh c spk.sk ephemeral.pk ≡ dh c ephemeral.sk spk.pk
  unfolding dh
  dh_agrees e s = rw (e, s, dh, laws.scalarmult_comm spk.sk ephemeral.sk) refl

  abbrev sender : Result (Unit {0}) × Session
  sender = init_sender c secret ephemeral spk.pk a

  -- The receiver's step to the key of the opening message's header.
  abbrev receiver : Result (Unit {0}) × Session
  receiver = dh_ratchet c ephemeral.pk fresh (init_receiver c secret spk b).1

  sender-Sends :
      (out root chain : List ℕ)
      → dh c ephemeral.sk spk.pk ≡ ok out
      → kdf_rk c secret out ≡ ok (root, chain)
      → (sender.0 ≡ ok tt)
        × Sends c chain sender.1
        × (sender.1.ns ≡ 0)
        × (sender.1.dhs_pub ≡ ephemeral.pk)
  unfolding init_sender chain_at ◌>>=◌
  sender-Sends out root chain d k =
      rw (d, k) (refl, record { can_send = refl; sends_at = refl }, refl, refl)

  receiver-Receives :
      (out root chain out' root' chain' : List ℕ)
      → dh c spk.sk ephemeral.pk ≡ ok out
      → kdf_rk c secret out ≡ ok (root, chain)
      → dh c fresh.sk ephemeral.pk ≡ ok out'
      → kdf_rk c root out' ≡ ok (root', chain')
      → (receiver.0 ≡ ok tt)
        × Receives c chain receiver.1
        × (receiver.1.nr ≡ 0)
        × (receiver.1.dhr_pub ≡ ephemeral.pk)
  unfolding init_receiver dh_ratchet root_to_recv root_to_send chain_at ◌>>=◌
  receiver-Receives out root chain out' root' chain' d k d' k' =
      rw (d, k, d', k')
        (
          refl,
          record { knows_peer = refl; has_chain = refl; at_chain = refl; cached = tt },
          refl,
          refl,
        )

  -- The opening puts both sides on one chain. The public keys are those of the secret keys, both
  -- sides hold the same secret, and the two Diffie-Hellman and key derivation steps succeed. Then
  -- init_sender leaves the sender at message 0 of the chain that starts at the derived key, and
  -- init_receiver followed by the DH step to the sender's ephemeral key leaves the receiver at
  -- message 0 of the same chain, with that key as its peer's.
  pub opening_agrees :
      (out root chain out' root' chain' : List ℕ)
      → ephemeral.pk ≡ c.public_of ephemeral.sk
      → spk.pk ≡ c.public_of spk.sk
      → dh c ephemeral.sk spk.pk ≡ ok out
      → kdf_rk c secret out ≡ ok (root, chain)
      → dh c fresh.sk ephemeral.pk ≡ ok out'
      → kdf_rk c root out' ≡ ok (root', chain')
      → ((sender.0 ≡ ok tt)
          × Sends c chain sender.1
          × (sender.1.ns ≡ 0)
          × (sender.1.dhs_pub ≡ ephemeral.pk))
        × ((receiver.0 ≡ ok tt)
            × Receives c chain receiver.1
            × (receiver.1.nr ≡ 0)
            × (receiver.1.dhr_pub ≡ ephemeral.pk))
  opening_agrees out root chain out' root' chain' e s d k d' k' = (
    sender-Sends out root chain d k,
    receiver-Receives out root chain out' root' chain' (dh_agrees e s ∙ d) k d' k',
  )
