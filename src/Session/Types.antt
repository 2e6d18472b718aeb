-- ===== src/Session/Types.antt =====
-- src/session.cpp: what `send` and `receive` share.
use ratchet_usb.Prelude.{
  ℕ, Bool, true, false, ◌&&◌, ◌||◌, List, [], ◌∷◌, ◌++◌, replicate, set, get_elem?, Option, none,
  some, ltb, ◌==◌,
}
use ratchet_usb.Outcome.{Result, ok, err, ◌>=>◌, no_such_contact}
use ratchet_usb.Exec.{Exec}
use ratchet_usb.Crypto.{Crypto}
use ratchet_usb.Wire.{Base64}
use ratchet_usb.Protocol.{ProtocolSuite, classic_v2, suite_code}
use ratchet_usb.Message.{Envelope}
use ratchet_usb.Message.Write.{envelope_aad_prefix}
use ratchet_usb.Pq.{OpenSsl}
use ratchet_usb.Identity.{Ed25519}
use ratchet_usb.Store.{Session, Contact, VaultStore, pending}

-- The SPQR library behind spqr::initialize, spqr::send and spqr::receive, with its states as bytes.
-- `send` gives the state, the message and the key; `receive` the state and the key.
pub record Spqr : Type 0 where
  pub initialize : Bool → List ℕ → Result (List ℕ)
  pub send : List ℕ → List ℕ → Result (List ℕ × List ℕ × List ℕ)
  pub receive : List ℕ → List ℕ → Result (List ℕ × List ℕ)

-- The libraries that a message passes through.
pub record Libraries : Type 0 where
  pub base64 : Base64
  pub crypto : Crypto
  pub ed : Ed25519
  pub ssl : OpenSsl
  pub spqr : Spqr

-- An identity's signing key pair.
pub record Identity : Type 0 where
  pub sk : List ℕ
  pub pk : List ℕ

unfoldable pub session_id_for : Crypto → Envelope → Result (List ℕ)
session_id_for c env = envelope_aad_prefix env >=> λ transcript. ok (c.sha256 transcript)

-- `store::Session{}`
abbrev pub fresh_session : Session
fresh_session = record {
  contact_index = 0;
  suite = classic_v2;
  status = pending;
  session_id = replicate 32 0;
  legacy_read_only = false;
  spqr_state = [];
  root_key = replicate 32 0;
  has_dhs = false;
  dhs_sk = replicate 32 0;
  dhs_pub = replicate 32 0;
  has_dhr = false;
  dhr_pub = replicate 32 0;
  has_cks = false;
  chain_key_send = replicate 32 0;
  has_ckr = false;
  chain_key_recv = replicate 32 0;
  ns = 0;
  nr = 0;
  pn = 0;
  skipped = [];
}

-- `vault.contacts.at(i)`
unfoldable pub contact_at : ℕ → VaultStore → Result Contact
contact_at i vault = elim (get_elem? vault.contacts i) [
  | none ↦ err no_such_contact
  | some contact ↦ ok contact
]

-- The session at an index that `find_session` returned.
unfoldable pub session_in : Option ℕ → VaultStore → Option Session
session_in none vault = none
session_in (some i) vault = get_elem? vault.sessions i

-- `vault.sessions[existing] = s` or `vault.sessions.push_back(s)`
unfoldable pub put_session : Option ℕ → Session → VaultStore → VaultStore
put_session none s vault = record vault { sessions = vault.sessions ++ s ∷ [] }
put_session (some i) s vault = record vault { sessions = set vault.sessions i s }

unfoldable pub put_contact : ℕ → Contact → VaultStore → VaultStore
put_contact i contact vault = record vault { contacts = set vault.contacts i contact }

unfoldable pub same_suite : ProtocolSuite → ProtocolSuite → Bool
same_suite a b = suite_code a == suite_code b

-- `<` on std::array<uint8_t, 32>
unfoldable pub bytes_less : List ℕ → List ℕ → Bool
bytes_less xs [] = false
bytes_less [] (y ∷ ys) = true
bytes_less (x ∷ xs) (y ∷ ys) = ltb x y || (x == y && bytes_less xs ys)

-- A run on a local object, which an error drops.
abbrev pub kept : {S A : Type 0} → Result A × S → Result (A × S)
kept (ok a, s) = ok (a, s)
kept (err e, s) = err e

abbrev pub done_by : {S A : Type 0} → Exec S A → S → Result (A × S)
done_by m s = kept (m s)
