-- ===== src/Session/Send.antt =====
-- src/session.cpp: `send`.
use ratchet_usb.Prelude.{
  ℕ, Bool, true, false, not, ◌&&◌, ◌||◌, List, [], length, replicate, Option, none, some, ltb,
  if◌then◌else◌,
}
use ratchet_usb.Outcome.{
  Result, ok, err, ◌>=>◌, contact_unverified, message_too_long, hybrid_card_required,
  suite_below_minimum, card_suite_unsupported, session_read_only, session_suite_mismatch,
  session_closed,
}
use ratchet_usb.Exec.{Exec, pure, lift, calls, gets, modify, guard, ◌>>=◌, ◌>>◌}
use ratchet_usb.Protocol.{
  ProtocolSuite, hybrid_pqxdh_v1, suite_at_least, uses_triple_ratchet, uses_xwing_combiner,
}
use ratchet_usb.Message.{Envelope, InitialFields, max_plaintext_bytes}
use ratchet_usb.Message.Write.{sender_id_for, envelope_aad_prefix, encode}
use ratchet_usb.Store.{
  Session, Contact, PeerCard, VaultStore, Status, pending, closed, find_session,
}
use ratchet_usb.Ratchet.{clone_session, split_initial_secret, init_sender, encrypt}
use ratchet_usb.X3dh.{Draws, InitiatorResult, initiate, is_some}
use ratchet_usb.Session.Types.{
  Libraries, Identity, done_by, session_id_for, fresh_session, contact_at, session_in, put_session,
  put_contact, same_suite,
}

-- What one `send` draws: for the handshake, for SPQR and the nonce of the ciphertext.
pub record SendDraws : Type 0 where
  pub handshake : Draws
  pub spqr_draw : List ℕ
  pub nonce : List ℕ

-- The card, which has an ML-KEM bundle.
unfoldable pub hybrid_card_of : Contact → Result PeerCard
hybrid_card_of contact = elim (contact.card) [
  | none ↦ err hybrid_card_required
  | some card ↦ if is_some card.pq_bundle then ok card else err hybrid_card_required
]

-- The suite of a session that has begun, else the card's.
unfoldable pub selected_suite : Option Session → PeerCard → ProtocolSuite
selected_suite none card = card.maximum_suite
selected_suite (some s) card = if s.has_dhs then s.suite else card.maximum_suite

-- The copy that `send` works on.
unfoldable pub working_copy : ℕ → Option Session → Session
working_copy contact_index none = record fresh_session { contact_index = contact_index }
working_copy contact_index (some s) = record (clone_session s) { contact_index = contact_index }

unfoldable pub is_closed : Status → Bool
is_closed closed = true
is_closed s = false

abbrev pub initial_fields : List ℕ → InitiatorResult → InitialFields
initial_fields my_identity_pk hs = record {
  initiator_identity_pub = my_identity_pk;
  spk_id = hs.spk_id;
  otpk_id = hs.otpk_id;
  pq_spk_id = hs.pq_spk_id;
  pq_spk_ciphertext = hs.pq_spk_ciphertext;
  pq_otpk_id = hs.pq_otpk_id;
  pq_otpk_ciphertext = hs.pq_otpk_ciphertext;
}

-- The envelope before the ratchet fills in the header and the ciphertext.
abbrev pub blank_envelope : List ℕ → ProtocolSuite → Option InitialFields → Envelope
blank_envelope sender_id suite initial = record {
  version = if uses_triple_ratchet suite then 3 else 2;
  suite = suite;
  sender_id = sender_id;
  initial = initial;
  spqr_message = [];
  header = record { dh_pub = replicate 32 0; pn = 0; n = 0 };
  ciphertext = [];
}

module _ (lib : Libraries) where
  -- The sending chain of an opening, for either ratchet.
  unfoldable pub begin_sending : ProtocolSuite → InitiatorResult → Exec Session (Unit {0})
  unfolding init_sender split_initial_secret
  begin_sending suite hs = elim (uses_triple_ratchet suite) [
    | true ↦ do
      secrets ← lift (split_initial_secret lib.crypto hs.shared_secret)
      state ← lift (lib.spqr.initialize true secrets.1)
      modify (λ s. record s { spqr_state = state })
      init_sender lib.crypto secrets.0 hs.ephemeral hs.spk_pub
    | false ↦ init_sender lib.crypto hs.shared_secret hs.ephemeral hs.spk_pub
  ]

  -- What follows the handshake, whose contact is handed on.
  abbrev pub after_handshake :
      Identity
      → ProtocolSuite
      → Session
      → Result InitiatorResult × Contact
      → Result (InitialFields × Session × Contact)
  after_handshake me suite s (err e, contact) = err e
  after_handshake me suite s (ok hs, contact) = done_by (begin_sending suite hs) s >=> λ (_, s').
      ok (initial_fields me.pk hs, record s' { suite = suite; status = pending }, contact)

  -- The opening handshake, on copies of the session and of the contact.
  unfoldable pub open_sending :
      Identity
      → ProtocolSuite
      → Draws
      → Session
      → Contact
      → Result (InitialFields × Session × Contact)
  unfolding initiate begin_sending
  open_sending me suite draws s contact =
      after_handshake me suite s
        (initiate lib.crypto lib.ssl lib.ed me.sk me.pk (uses_xwing_combiner suite) draws contact)

  -- `if (!s.has_cks) ... else if (closed)`
  unfoldable pub open_if_needed :
      Identity
      → ProtocolSuite
      → Draws
      → Session
      → Contact
      → Result (Option InitialFields × Session × Contact)
  unfolding open_sending
  open_if_needed me suite draws s contact =
      if not s.has_cks
      then (open_sending me suite draws s contact >=> λ (fields, s', contact').
          ok (some fields, s', contact'))
      else if is_closed s.status
      then err session_closed
      else ok (none, s, contact)

  -- The ratchet's step, which fills in the envelope.
  unfoldable pub encrypt_envelope : List ℕ → SendDraws → Envelope → Exec Session Envelope
  unfolding encrypt
  encrypt_envelope plaintext draws env = elim (uses_triple_ratchet env.suite) [
    | true ↦ do
      step ← calls (λ s. lib.spqr.send s.spqr_state draws.spqr_draw)
      aad ← lift (envelope_aad_prefix (record env { spqr_message = step.1 }))
      sealed ← encrypt lib.crypto plaintext draws.nonce aad (some step.2)
      modify (λ s. record s { spqr_state = step.0 })
      pure (record env { spqr_message = step.1; header = sealed.0; ciphertext = sealed.1 })
    | false ↦ do
      aad ← lift (envelope_aad_prefix env)
      sealed ← encrypt lib.crypto plaintext draws.nonce aad none
      pure (record env { header = sealed.0; ciphertext = sealed.1 })
  ]

  -- `if (env.initial) s.session_id = session_id_for(env)`
  unfoldable pub name_session : Envelope → Session → Result Session
  name_session env s = elim (env.initial) [
    | none ↦ ok s
    | some fields ↦ session_id_for lib.crypto env >=> λ id. ok (record s { session_id = id })
  ]

  -- From the checks to the block, on copies: the block, the session and the contact.
  unfoldable pub compose :
      Identity
      → ProtocolSuite
      → List ℕ
      → SendDraws
      → Session
      → Contact
      → Result (List ℕ × Session × Contact)
  unfolding open_if_needed encrypt_envelope name_session
  compose me suite plaintext draws s contact =
      open_if_needed me suite draws.handshake s contact >=> λ (initial, s', contact').
      done_by
        (encrypt_envelope plaintext draws
          (blank_envelope (sender_id_for lib.crypto me.pk) suite initial))
        s'
      >=> λ (env, s''). name_session env s'' >=> λ named.
          encode lib.base64 env >=> λ block. ok (block, named, contact')

  unfoldable pub send : Identity → ℕ → List ℕ → SendDraws → Exec VaultStore (List ℕ)
  unfolding contact_at hybrid_card_of find_session session_in selected_suite working_copy compose
  send me contact_index plaintext draws = do
    contact ← calls (contact_at contact_index)
    guard contact.verified contact_unverified
    guard (not (ltb max_plaintext_bytes (length plaintext))) message_too_long
    card ← lift (hybrid_card_of contact)
    existing ← gets (find_session contact_index)
    current ← gets (session_in existing)
    guard (suite_at_least (selected_suite current card) contact.minimum_suite) suite_below_minimum
    guard
        (same_suite (selected_suite current card) hybrid_pqxdh_v1
          || uses_triple_ratchet (selected_suite current card))
        card_suite_unsupported
    guard (not (working_copy contact_index current).legacy_read_only) session_read_only
    guard
        (not (
          (working_copy contact_index current).has_dhs
          && not (
              same_suite (working_copy contact_index current).suite (selected_suite current card))))
        session_suite_mismatch
    done ← lift (
        compose me (selected_suite current card) plaintext draws
          (working_copy contact_index current) contact)
    modify (put_session existing done.1)
    modify (put_contact contact_index done.2)
    pure done.0
