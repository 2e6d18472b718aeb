-- ===== src/Tests/Exchanges.antt =====
-- What a refused and an accepted message leave behind, at concrete inputs.
use ratchet_usb.Prelude.{
  ℕ, ◌≡◌, ◌⊎◌, refl, true, List, [], ◌∷◌, replicate, get_elem?, Option, none, some, codes,
}
use ratchet_usb.Outcome.{ok, err, opening_replayed, stored_card_invalid}
use ratchet_usb.Message.{Envelope, InitialFields}
use ratchet_usb.Message.Read.{decode}
use ratchet_usb.Store.{VaultStore, Contact, history_full, prune_old_handshakes}
use ratchet_usb.Session.{send, receive}
use ratchet_usb.Session.Refused.{send_unchanged, receive_unchanged}
use ratchet_usb.Session.Replayed.{receive_again}
use ratchet_usb.Session.Runs.{receives, ends, goes_on, AllKept, Run-AllKept}
use ratchet_usb.Session.Consumed.{UsedUp, receive-UsedUp}
use ratchet_usb.Tests.Samples.{plain}
use ratchet_usb.Tests.Libraries.{toy_libraries}
use ratchet_usb.Tests.Sessions.{
  me_alice, me_bob, alice_draws, bob_draws, vault_with, friend, card_of_bob, vault_of_bob, block,
  received, hello, accepted,
}

-- A card whose signature does not verify: the handshake refuses it.
abbrev forged_vault : VaultStore
forged_vault =
    vault_with (friend me_bob (some (record card_of_bob { spk_signature = replicate 64 0 })))

refused :
    send toy_libraries me_alice 0 (codes "hello") alice_draws forged_vault
    ≡ (err stored_card_invalid, forged_vault)
unfolding ratchet_usb.Serial.Writer.bytes ratchet_usb.Serial.Writer.u8 ratchet_usb.Serial.Writer.u32
    ratchet_usb.Serial.Writer.u64 ratchet_usb.Serial.Writer.blob ratchet_usb.Serial.Writer.str
    ratchet_usb.Serial.Writer.for_each ratchet_usb.Serial.Writer.counted
    ratchet_usb.Session.session_id_for ratchet_usb.Session.contact_at ratchet_usb.Session.session_in
    ratchet_usb.Session.put_session ratchet_usb.Session.put_contact ratchet_usb.Session.same_suite
    ratchet_usb.Session.bytes_less ratchet_usb.Session.hybrid_card_of
    ratchet_usb.Session.selected_suite ratchet_usb.Session.working_copy
    ratchet_usb.Session.is_closed ratchet_usb.Session.begin_sending ratchet_usb.Session.open_sending
    ratchet_usb.Session.open_if_needed ratchet_usb.Session.encrypt_envelope
    ratchet_usb.Session.name_session ratchet_usb.Session.compose ratchet_usb.Session.send
    ratchet_usb.X3dh.picked ratchet_usb.X3dh.without_picked ratchet_usb.X3dh.card_of
    ratchet_usb.X3dh.dh_with ratchet_usb.X3dh.encapsulate_picked ratchet_usb.X3dh.combine
    ratchet_usb.X3dh.take_otpk ratchet_usb.X3dh.take_pq_otpk ratchet_usb.X3dh.decapsulate_paired
    ratchet_usb.X3dh.my_dh4 ratchet_usb.X3dh.respond ratchet_usb.X3dh.respond_combine
    ratchet_usb.X3dh.initiate_pq ratchet_usb.X3dh.initiate_with ratchet_usb.X3dh.initiate
    ratchet_usb.X3dh.respond_hybrid ratchet_usb.Prekey.write_payload
    ratchet_usb.Prekey.spk_signing_payload ratchet_usb.Prekey.generate_signed_prekey
    ratchet_usb.Prekey.resign_signed_prekey ratchet_usb.Prekey.verify_signed_prekey_signature
    ratchet_usb.Prekey.generate_one_time_prekeys ratchet_usb.Exec.pure ratchet_usb.Exec.lift
    ratchet_usb.Exec.calls ratchet_usb.Exec.gets ratchet_usb.Exec.modify ratchet_usb.Exec.guard
    ratchet_usb.Exec.◌>>=◌ ratchet_usb.Prelude.same_bytes ratchet_usb.Store.first_index
    ratchet_usb.Store.find_contact ratchet_usb.Store.find_contact_by_identity
    ratchet_usb.Store.find_session ratchet_usb.Protocol.suite_at_least
    ratchet_usb.Protocol.known_suite ratchet_usb.Protocol.uses_triple_ratchet
    ratchet_usb.Protocol.uses_xwing_combiner
refused = refl

send_unchanged_example : forged_vault ≡ forged_vault
send_unchanged_example =
    send_unchanged toy_libraries me_alice 0 (codes "hello") alice_draws forged_vault forged_vault
      stored_card_invalid refused

replayed :
    receive toy_libraries me_bob block bob_draws received.1 ≡ (err opening_replayed, received.1)
replayed =
    receive_again toy_libraries me_bob block bob_draws bob_draws vault_of_bob received.1 hello
      accepted refl

receive_unchanged_example :
    (received.1 ≡ received.1)
    ⊎ ((history_full received.1 ≡ true) × (received.1 ≡ (prune_old_handshakes received.1).1))
receive_unchanged_example =
    receive_unchanged toy_libraries me_bob block bob_draws received.1 received.1 opening_replayed
      replayed

Run-AllKept_example : AllKept vault_of_bob.contacts received.1.contacts
Run-AllKept_example =
    Run-AllKept toy_libraries me_bob vault_of_bob received.1
      (goes_on vault_of_bob received.1 received.1 (receives block bob_draws) (ends received.1))

receive-UsedUp_example :
    (env : Envelope) × (f : InitialFields) × (decode plain block ≡ ok env)
    × (env.initial ≡ some f)
    × UsedUp (λ p. p.id) vault_of_bob.one_time_prekeys f.otpk_id received.1.one_time_prekeys
    × UsedUp
        (λ p. p.id)
        vault_of_bob.pq_one_time_prekeys
        f.pq_otpk_id
        received.1.pq_one_time_prekeys
receive-UsedUp_example =
    receive-UsedUp toy_libraries me_bob block bob_draws vault_of_bob received.1 hello accepted refl
