-- ===== src/Bridge/Replies.antt =====
-- What every answer of the bridge has in common, whatever the command and the reader.
use vusbipd_ccid.Base.{ℕ, ◌≡◌, ◌⊎◌, List, arith}
use vusbipd_ccid.Base.Result.{ok}
use vusbipd_ccid.Nfc.{NfcReader}
use vusbipd_ccid.Protocol.{
  CcidCommand, icc_power_on, icc_power_off, get_slot_status, set_parameters, xfr_block,
  CcidResponse, data_block, slot_status, parameters, SlotStatus, no_error, failed, command_slot,
  command_seq,
}
use vusbipd_ccid.Bridge.{
  CcidBridge, handle_command, refresh_card_presence, current_icc_status, xfr_ready,
}

abbrev pub response_slot : CcidResponse → ℕ
response_slot (data_block slot seq status error chain payload) = slot
response_slot (slot_status slot seq status error clock) = slot
response_slot (parameters slot seq status error protocol payload) = slot

abbrev pub response_seq : CcidResponse → ℕ
response_seq (data_block slot seq status error chain payload) = seq
response_seq (slot_status slot seq status error clock) = seq
response_seq (parameters slot seq status error protocol payload) = seq

abbrev pub response_status : CcidResponse → SlotStatus
response_status (data_block slot seq status error chain payload) = status
response_status (slot_status slot seq status error clock) = status
response_status (parameters slot seq status error protocol payload) = status

abbrev pub response_error : CcidResponse → ℕ
response_error (data_block slot seq status error chain payload) = error
response_error (slot_status slot seq status error clock) = error
response_error (parameters slot seq status error protocol payload) = error

-- The answer `r` to a command for `slot` and `seq`, in a slot that is then `b`: it carries the
-- slot and the sequence number; it reports success with no error code and the state of the slot,
-- or failure with error code 0xff.
pub record Answers {S : Type 0} (slot seq : ℕ) (b : CcidBridge S) (r : CcidResponse) : Type 0 where
  pub same_slot : response_slot r ≡ slot
  pub same_seq : response_seq r ≡ seq
  pub outcome :
      (((response_status r).command ≡ no_error)
        × (response_error r ≡ 0)
        × ((response_status r).icc ≡ current_icc_status b))
      ⊎ (((response_status r).command ≡ failed) × (response_error r ≡ 0xff))

module _ {S : Type 0} (nfc : NfcReader S) where
  xfr_ready-Answers :
      (b : CcidBridge S) (slot seq : ℕ) (payload : List ℕ) (r : CcidResponse)
      → (xfr_ready nfc b slot seq payload).1 ≡ ok r
      → Answers slot seq (xfr_ready nfc b slot seq payload).0 r
  unfolding xfr_ready
  xfr_ready-Answers b slot seq payload r e = ground arith

  -- Every answer of `handle_command` carries the slot and the sequence number of its command, and
  -- reports either success, with error code 0 and the status of the slot after the call, or failure
  -- with error code 0xff.
  pub handle_command-Answers :
      (b : CcidBridge S) (c : CcidCommand) (r : CcidResponse)
      → (handle_command nfc b c).1 ≡ ok r
      → Answers (command_slot c) (command_seq c) (handle_command nfc b c).0 r
  unfolding handle_command
  handle_command-Answers b (icc_power_on slot seq p) r e = ground arith
  handle_command-Answers b (icc_power_off slot seq) r e = ground arith
  handle_command-Answers b (get_slot_status slot seq) r e = ground arith
  handle_command-Answers b (set_parameters slot seq n payload) r e = ground arith
  handle_command-Answers b (xfr_block slot seq bwi level payload) r e = ground (
    arith,
    xfr_ready-Answers b slot seq payload r,
    xfr_ready-Answers (refresh_card_presence nfc b).0 slot seq payload r,
  )
  handle_command-Answers b c r e = ground arith
