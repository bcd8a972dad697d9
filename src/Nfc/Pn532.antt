-- ===== src/Nfc/Pn532.antt =====
-- src/nfc/pn532.rs: what the driver reads from the serial port and from an answer to select.
pub mod Chip
pub mod Target
pub mod Reader
pub mod Waiting
pub mod Field
pub mod Returning
pub mod Parsed
pub mod Coherence
pub mod Polling
pub mod Backoff
pub mod Exchange
pub mod Instance
pub mod Keeping
pub mod Delivery
pub mod Layout
pub mod Factory
pub mod ListTarget
pub mod Answer
pub mod Ats
pub mod Total
use vusbipd_ccid.Base.{
  ℕ, ◌+◌, ◌-◌, ◌*◌, ◌%◌, ◌≤◌, ◌≡◌, Bool, true, false, ◌&&◌, ◌||◌, not, List, [], ◌∷◌, ◌++◌, length,
  take, drop, ltb, ◌==◌, if◌then◌else◌, bit_and, bytes_eq,
}
use vusbipd_ccid.Base.Result.{
  Result, ok, err, panic, stuck, ◌>>=◌, ◌>>◌, fail_if, index, slice, slice_from, Returned, value,
  fault,
}
use vusbipd_ccid.Base.Bytes.{u8}
use vusbipd_ccid.Base.Hex.{lower_hex}
use vusbipd_ccid.Base.Text.{Message, text, num, hex}
use vusbipd_ccid.Nfc.{ReaderError, protocol, transport, io}
use mathlib.Core.List.{foldl}

abbrev pub preamble : List ℕ
preamble = 0x00 ∷ 0x00 ∷ 0xff ∷ []

abbrev pub pn532_to_host : ℕ
pn532_to_host = 0xd5

abbrev pub postamble : ℕ
postamble = 0x00

abbrev pub extended_frame_marker : List ℕ
extended_frame_marker = 0xff ∷ 0xff ∷ []

abbrev pub ats_t0_ta_present : ℕ
ats_t0_ta_present = 0x10

abbrev pub ats_t0_tb_present : ℕ
ats_t0_tb_present = 0x20

abbrev pub ats_t0_tc_present : ℕ
ats_t0_tc_present = 0x40

-- The error of the pn532 crate, with the message of the I/O error inside.
pub data Pn532Error : Type 0 where
  bad_ack bad_response_frame syntax crc_error buf_too_small timeout_ack timeout_response :
      Pn532Error
  interface_error : Message → Pn532Error

-- `std::io::Read` as the code uses it.
pub record Read (R : Type 0) : Type 0 where
  pub read_exact : R → ℕ → R × Returned Message (List ℕ)

-- `format!("{byte:02x}")` of each byte, joined.
unfoldable pub format_hex : List ℕ → List ℕ
format_hex [] = []
format_hex (byte ∷ bytes) = lower_hex byte ++ format_hex bytes

unfoldable pub map_pn532_error : Message → Pn532Error → ReaderError
map_pn532_error action bad_ack =
    protocol (text "failed to " ∷ (action ++ (text ": bad PN532 ACK" ∷ [])))
map_pn532_error action bad_response_frame =
    protocol (text "failed to " ∷ (action ++ (text ": malformed PN532 response frame" ∷ [])))
map_pn532_error action syntax =
    protocol (text "failed to " ∷ (action ++ (text ": PN532 syntax error frame" ∷ [])))
map_pn532_error action crc_error =
    protocol (text "failed to " ∷ (action ++ (text ": PN532 checksum error" ∷ [])))
map_pn532_error action buf_too_small =
    protocol (
      text "failed to " ∷ (action ++ (text ": configured PN532 response buffer is too small" ∷ [])))
map_pn532_error action timeout_ack =
    transport (text "failed to " ∷ (action ++ (text ": timeout waiting for PN532 ACK" ∷ [])))
map_pn532_error action timeout_response =
    transport (text "failed to " ∷ (action ++ (text ": timeout waiting for PN532 response" ∷ [])))
map_pn532_error action (interface_error inner) = io inner

abbrev pub can_return_cached_presence : Bool → Bool → Bool → Bool
can_return_cached_presence card_cached target_active recently_polled =
    recently_polled && (not card_cached || target_active)

abbrev pub exchange_status_keeps_target_active : ℕ → Bool
exchange_status_keeps_target_active status = status == 0x00

-- `if t0 & BIT != 0 { historical_start += 1; }`
abbrev pub bit_count : ℕ → ℕ → ℕ
bit_count t0 bit = if bit_and t0 bit == 0 then 0 else 1

unfoldable pub ats_historical_bytes : List ℕ → Result ReaderError (List ℕ)
ats_historical_bytes ats = do
  fail_if (ltb (length ats) 2)
      (protocol (text "ATS too short: " ∷ num (length ats) ∷ text " bytes" ∷ []))
  declared_len ← index ats 0
  fail_if (not (declared_len == length ats)) (
      protocol (
        text "ATS length mismatch: TL="
        ∷ num declared_len
        ∷ text " actual="
        ∷ num (length ats)
        ∷ []))
  t0 ← index ats 1
  let historical_start =
      2
      + bit_count t0 ats_t0_ta_present
      + bit_count t0 ats_t0_tb_present
      + bit_count t0 ats_t0_tc_present
  fail_if (ltb (length ats) historical_start) (
      protocol (
        text "ATS optional interface bytes exceed TL: TL="
        ∷ num declared_len
        ∷ text " T0=0x"
        ∷ hex t0
        ∷ []))
  slice_from ats historical_start

-- `fold(0u8, wrapping_add)`
abbrev pub wrapping_sum : List ℕ → ℕ
wrapping_sum = foldl (λ sum byte. u8 (sum + byte)) 0

-- The tests after the last read, on the frame.
unfoldable pub check_frame : ℕ → List ℕ → Result Pn532Error (List ℕ)
check_frame expected_response_command frame = do
  last ← index frame (length frame - 1)
  fail_if (not (last == postamble)) bad_response_frame
  tfi ← index frame 0
  command ← index frame 1
  fail_if (not (tfi == pn532_to_host) || not (command == expected_response_command))
      bad_response_frame
  summed ← slice frame 0 (length frame - 1)
  fail_if (not (wrapping_sum summed == 0)) crc_error
  slice frame 2 (length frame - 2)

module _ {R : Type 0} (read : Read R) where
  -- `reader.read_exact(&mut buffer)?`, and what is done with the bytes.
  pub read_then :
      {A : Type 0} → R → ℕ → (R → List ℕ → R × Result Pn532Error A) → R × Result Pn532Error A
  read_then {A} r n use_bytes = given (read.read_exact r n)
    where
      given : R × Returned Message (List ℕ) → R × Result Pn532Error A
      given (r', fault e) = (r', err (interface_error e))
      given (r', value bytes) = use_bytes r' bytes

  unfoldable pub receive_body : ℕ → R → ℕ → R × Result Pn532Error (List ℕ)
  unfolding read_then
  receive_body expected_response_command r frame_len =
      if frame_len == 0
      then (r, err bad_response_frame)
      else if frame_len == 1
      then (r, err syntax)
      else read_then r (frame_len + 2)
          (λ r' frame. (r', check_frame expected_response_command frame))

  -- A length, checked by the bytes that end with its complement.
  unfoldable pub receive_checked : ℕ → R → ℕ → List ℕ → R × Result Pn532Error (List ℕ)
  unfolding receive_body
  receive_checked expected_response_command r frame_len checked =
      if not (wrapping_sum checked == 0)
      then (r, err crc_error)
      else receive_body expected_response_command r frame_len

  -- The arrays have the size that was read; `read_exact` gives no other.
  receive_extended : ℕ → R → List ℕ → R × Result Pn532Error (List ℕ)
  unfolding receive_checked
  receive_extended expected_response_command r (e0 ∷ e1 ∷ e2 ∷ []) =
      receive_checked expected_response_command r (256 * e0 + e1) (e0 ∷ e1 ∷ e2 ∷ [])
  receive_extended expected_response_command r other = (r, panic)

  pub receive_header : ℕ → R → List ℕ → R × Result Pn532Error (List ℕ)
  unfolding receive_extended
  receive_header expected_response_command r (h0 ∷ h1 ∷ h2 ∷ h3 ∷ h4 ∷ []) =
      if not (bytes_eq (h0 ∷ h1 ∷ h2 ∷ []) preamble)
      then (r, err bad_response_frame)
      else if bytes_eq (h3 ∷ h4 ∷ []) extended_frame_marker
      then read_then r 3 (receive_extended expected_response_command)
      else receive_checked expected_response_command r h3 (h3 ∷ h4 ∷ [])
  receive_header expected_response_command r other = (r, panic)

  unfoldable pub receive_dynamic_response_from : R → ℕ → R × Result Pn532Error (List ℕ)
  unfolding receive_header
  receive_dynamic_response_from r expected_response_command =
      read_then r 5 (receive_header expected_response_command)
