-- ===== src/Message/Fields.antt =====
-- The parts of an envelope come back as they were written.
use ratchet_usb.Prelude.{ℕ, refl, true, false, List, Option, none, some}
use ratchet_usb.Serial.Writer
use ratchet_usb.Serial.Trip.{Trip, Trip-bind, Trip-last, Trip-more, Trip-u8, Trip-u32, Trip-bytes}
use ratchet_usb.Message.Types.{
  InitialFields, RatchetHeader, IsU32, Optionally, Paired, IsInitial, IsHeader,
}
use ratchet_usb.Message.Write.{write_header, write_optional_id, write_pq_pair, write_initial}
use ratchet_usb.Message.Read.{read_flag, read_optional_id, read_pq_pair, read_initial, read_header}

Trip-flag_set : Trip (Writer.u8 1) read_flag true
unfolding read_flag
Trip-flag_set = Trip-more _ (λ rest. refl) (Trip-u8 1)

Trip-flag_clear : Trip (Writer.u8 0) read_flag false
unfolding read_flag
Trip-flag_clear = Trip-more _ (λ rest. refl) (Trip-u8 0)

Trip-optional_id :
    (o : Option ℕ) → Optionally IsU32 o → Trip (write_optional_id o) read_optional_id o
unfolding write_optional_id read_optional_id
Trip-optional_id none h = Trip-more _ (λ rest. refl) Trip-flag_clear
Trip-optional_id (some id) h = Trip-bind _ _ Trip-flag_set (Trip-last some (Trip-u32 id h))

Trip-pq_pair :
    (id : Option ℕ) (ct : Option (List ℕ))
    → Paired id ct
    → Trip (write_pq_pair id ct) read_pq_pair (id, ct)
unfolding write_pq_pair read_pq_pair
Trip-pq_pair none none h = Trip-more _ (λ rest. refl) Trip-flag_clear
Trip-pq_pair none (some ct) h = absurd h
Trip-pq_pair (some id) none h = absurd h
Trip-pq_pair (some id) (some ct) h =
    Trip-bind _ _ Trip-flag_set
      (Trip-bind _ _ (Trip-u32 id h.0) (Trip-last (λ c. (some id, some c)) (Trip-bytes _ ct h.1)))

pub Trip-initial :
    (o : Option InitialFields) → Optionally IsInitial o → Trip (write_initial o) read_initial o
unfolding write_initial read_initial
Trip-initial none h = Trip-more _ (λ rest. refl) Trip-flag_clear
Trip-initial (some f) h = Trip-bind _ _ Trip-flag_set (
    Trip-last some (
      Trip-bind _ _ (Trip-bytes 32 f.initiator_identity_pub h.identity_size) (
        Trip-bind _ _ (Trip-u32 f.spk_id h.spk_fits) (
          Trip-bind _ _ (Trip-optional_id f.otpk_id h.otpk_fits) (
            Trip-bind _ _ (Trip-pq_pair f.pq_spk_id f.pq_spk_ciphertext h.spk_paired)
              (Trip-last _ (Trip-pq_pair f.pq_otpk_id f.pq_otpk_ciphertext h.otpk_paired)))))))

pub Trip-header : (h : RatchetHeader) → IsHeader h → Trip (write_header h) read_header h
unfolding write_header read_header
Trip-header h ok_h =
    Trip-bind _ _ (Trip-bytes 32 h.dh_pub ok_h.dh_size)
      (Trip-bind _ _ (Trip-u32 h.pn ok_h.pn_fits) (Trip-last _ (Trip-u32 h.n ok_h.n_fits)))
