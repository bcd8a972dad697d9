-- ===== src/Protocol.antt =====
-- src/ccid/protocol.rs: the CCID commands, responses and slot status, `CcidCommand::decode` and
-- `CcidResponse::encode`. `CcidCommand::{slot, seq}` are from src/ccid/transport.rs.
pub mod Layout
pub mod Decode
pub mod Encode
use vusbipd_ccid.Base.{
  ℕ, ◌-◌, ◌*◌, ◌^◌, bit_or, List, [], ◌∷◌, ◌++◌, length, ltb, ◌==◌, if◌then◌else◌, not,
}
use vusbipd_ccid.Base.Result.{Result, ok, ◌>>=◌, ◌>>◌, fail_if, index, slice_from}
use vusbipd_ccid.Base.Bytes.{u32, u32_from_le_bytes, u32_to_le_bytes, u16_from_le_bytes, u8}
use vusbipd_ccid.Base.Text.{Message, text, num}

abbrev pub pc_to_rdr_icc_power_on : ℕ
pc_to_rdr_icc_power_on = 0x62

abbrev pub pc_to_rdr_icc_power_off : ℕ
pc_to_rdr_icc_power_off = 0x63

abbrev pub pc_to_rdr_get_slot_status : ℕ
pc_to_rdr_get_slot_status = 0x65

abbrev pub pc_to_rdr_set_parameters : ℕ
pc_to_rdr_set_parameters = 0x61

abbrev pub pc_to_rdr_get_parameters : ℕ
pc_to_rdr_get_parameters = 0x6c

abbrev pub pc_to_rdr_reset_parameters : ℕ
pc_to_rdr_reset_parameters = 0x6d

abbrev pub pc_to_rdr_xfr_block : ℕ
pc_to_rdr_xfr_block = 0x6f

abbrev pub pc_to_rdr_abort : ℕ
pc_to_rdr_abort = 0x72

abbrev pub rdr_to_pc_data_block : ℕ
rdr_to_pc_data_block = 0x80

abbrev pub rdr_to_pc_slot_status : ℕ
rdr_to_pc_slot_status = 0x81

abbrev pub rdr_to_pc_parameters : ℕ
rdr_to_pc_parameters = 0x82

-- The fields stand in the order of the source: slot, seq, then those of the variant.
pub data CcidCommand : Type 0 where
  icc_power_on : (slot seq power_select : ℕ) → CcidCommand
  icc_power_off : (slot seq : ℕ) → CcidCommand
  get_slot_status : (slot seq : ℕ) → CcidCommand
  get_parameters : (slot seq : ℕ) → CcidCommand
  reset_parameters : (slot seq : ℕ) → CcidCommand
  set_parameters : (slot seq protocol_num : ℕ) (payload : List ℕ) → CcidCommand
  xfr_block : (slot seq bwi level_parameter : ℕ) (payload : List ℕ) → CcidCommand
  abort : (slot seq : ℕ) → CcidCommand
  unknown : (message_type slot seq : ℕ) (parameters payload : List ℕ) → CcidCommand

pub data IccStatus : Type 0 where
  active inactive not_present : IccStatus

pub data CommandStatus : Type 0 where
  no_error failed time_extension : CommandStatus

pub record SlotStatus : Type 0 where
  pub icc : IccStatus
  pub command : CommandStatus

pub data CcidResponse : Type 0 where
  data_block :
      (slot seq : ℕ) (status : SlotStatus) (error chain_parameter : ℕ) (payload : List ℕ)
      → CcidResponse
  slot_status : (slot seq : ℕ) (status : SlotStatus) (error clock_status : ℕ) → CcidResponse
  parameters :
      (slot seq : ℕ) (status : SlotStatus) (error protocol_num : ℕ) (payload : List ℕ)
      → CcidResponse

-- `as u8` of the two enums.
abbrev pub icc_code : IccStatus → ℕ
icc_code active = 0
icc_code inactive = 1
icc_code not_present = 2

abbrev pub command_code : CommandStatus → ℕ
command_code no_error = 0
command_code failed = 1
command_code time_extension = 2

abbrev pub ok_status : IccStatus → SlotStatus
ok_status icc = record { icc = icc; command = no_error }

abbrev pub failed_status : IccStatus → SlotStatus
failed_status icc = record { icc = icc; command = failed }

unfoldable pub encode_status : SlotStatus → ℕ
encode_status s = bit_or (u8 (command_code s.command * 2 ^ 6)) (icc_code s.icc)

pub data CcidProtocolError : Type 0 where
  frame_too_short : ℕ → CcidProtocolError
  length_mismatch : (expected actual : ℕ) → CcidProtocolError

-- The `#[error]` texts.
pub error_to_string : CcidProtocolError → Message
error_to_string (frame_too_short n) =
    text "CCID frame is too short: got " ∷ num n ∷ text " bytes" ∷ []
error_to_string (length_mismatch e a) =
    text "CCID payload length mismatch: header says " ∷ num e ∷ text ", frame has " ∷ num a ∷ []

-- The `match message_type` at the end of `decode`.
unfoldable pub command_of : (message_type slot seq p0 p1 p2 : ℕ) (payload : List ℕ) → CcidCommand
command_of message_type slot seq p0 p1 p2 payload =
    if message_type == pc_to_rdr_icc_power_on
    then icc_power_on slot seq p0
    else if message_type == pc_to_rdr_icc_power_off
    then icc_power_off slot seq
    else if message_type == pc_to_rdr_get_slot_status
    then get_slot_status slot seq
    else if message_type == pc_to_rdr_get_parameters
    then get_parameters slot seq
    else if message_type == pc_to_rdr_reset_parameters
    then reset_parameters slot seq
    else if message_type == pc_to_rdr_set_parameters
    then set_parameters slot seq p0 payload
    else if message_type == pc_to_rdr_xfr_block
    then xfr_block slot seq p0 (u16_from_le_bytes p1 p2) payload
    else if message_type == pc_to_rdr_abort
    then abort slot seq
    else unknown message_type slot seq (p0 ∷ p1 ∷ p2 ∷ []) payload

unfoldable pub decode : List ℕ → Result CcidProtocolError CcidCommand
decode frame = do
  fail_if (ltb (length frame) 10) (frame_too_short (length frame))
  message_type ← index frame 0
  l0 ← index frame 1
  l1 ← index frame 2
  l2 ← index frame 3
  l3 ← index frame 4
  let payload_length = u32_from_le_bytes l0 l1 l2 l3
  slot ← index frame 5
  seq ← index frame 6
  p0 ← index frame 7
  p1 ← index frame 8
  p2 ← index frame 9
  let actual_payload_length = length frame - 10
  fail_if (not (payload_length == actual_payload_length))
      (length_mismatch payload_length actual_payload_length)
  payload ← slice_from frame 10
  ok (command_of message_type slot seq p0 p1 p2 payload)

unfoldable pub header : (message_type payload_length slot seq : ℕ) (params : List ℕ) → List ℕ
header message_type payload_length slot seq params =
    message_type ∷ (u32_to_le_bytes (u32 payload_length) ++ (slot ∷ seq ∷ params))

unfoldable pub encode : CcidResponse → List ℕ
unfolding header
encode (data_block slot seq status error chain_parameter payload) =
    header rdr_to_pc_data_block (length payload) slot seq
      (encode_status status ∷ error ∷ chain_parameter ∷ [])
    ++ payload
encode (slot_status slot seq status error clock_status) =
    header rdr_to_pc_slot_status 0 slot seq (encode_status status ∷ error ∷ clock_status ∷ [])
encode (parameters slot seq status error protocol_num payload) =
    header rdr_to_pc_parameters (length payload) slot seq
      (encode_status status ∷ error ∷ protocol_num ∷ [])
    ++ payload

-- `CcidCommand::slot` and `CcidCommand::seq`
abbrev pub command_slot : CcidCommand → ℕ
command_slot (icc_power_on slot seq p) = slot
command_slot (icc_power_off slot seq) = slot
command_slot (get_slot_status slot seq) = slot
command_slot (get_parameters slot seq) = slot
command_slot (reset_parameters slot seq) = slot
command_slot (set_parameters slot seq n p) = slot
command_slot (xfr_block slot seq b l p) = slot
command_slot (abort slot seq) = slot
command_slot (unknown m slot seq ps p) = slot

abbrev pub command_seq : CcidCommand → ℕ
command_seq (icc_power_on slot seq p) = seq
command_seq (icc_power_off slot seq) = seq
command_seq (get_slot_status slot seq) = seq
command_seq (get_parameters slot seq) = seq
command_seq (reset_parameters slot seq) = seq
command_seq (set_parameters slot seq n p) = seq
command_seq (xfr_block slot seq b l p) = seq
command_seq (abort slot seq) = seq
command_seq (unknown m slot seq ps p) = seq
