-- ===== src/Nfc/Pn532/ListTarget.antt =====
-- examples/pn532_list_passive_target.rs: a program that lists a target and selects an applet on it.
pub mod Fields
pub mod Receive
pub mod Reception
pub mod Program
pub mod Agreement
pub mod Attempts
use vusbipd_ccid.Base.{
  ℕ, zero, suc, ◌+◌, ◌-◌, ◌*◌, ◌/◌, Bool, true, false, ◌&&◌, ◌||◌, not, Option, none, some, List,
  [], ◌∷◌, ◌++◌, length, is_empty, ltb, leb, ◌==◌, if◌then◌else◌, bytes_eq, map,
}
use vusbipd_ccid.Base.Result.{
  Result, ok, err, panic, stuck, index, slice, slice_from, Returned, value, fault,
}
use vusbipd_ccid.Base.Run.{
  Run, ◌>>=◌, ◌>>◌, give, fail, get, modify, lift, fail_when, or_else, call,
}
use vusbipd_ccid.Base.Text.{Message, text, num, chars, plain}
use vusbipd_ccid.Base.Hex.{upper_hex}
use vusbipd_ccid.Nfc.Pn532.{
  preamble, Read, Pn532Error, bad_ack, bad_response_frame, syntax, crc_error, buf_too_small,
  timeout_ack, timeout_response, interface_error, receive_checked, read_then,
}
use vusbipd_ccid.Nfc.Pn532.Chip.{BorrowedRequest, Pn532Device, wait_serial_ready, response_command}
use Fields.{Listed, listed_fields}
use vusbipd_ccid.Nfc.Pn532.Reader.{counts_no_target}
use vusbipd_ccid.Nfc.Pn532.Factory.{SerialPort}

abbrev pub baud_rate : ℕ
baud_rate = 115200

abbrev pub init_timeout_ms : ℕ
init_timeout_ms = 1000

abbrev pub poll_timeout_ms : ℕ
poll_timeout_ms = 3000

abbrev pub apdu_timeout_ms : ℕ
apdu_timeout_ms = 1000

abbrev pub total_poll_timeout_ms : ℕ
total_poll_timeout_ms = 60000

-- "COM6"
abbrev pub default_port : List ℕ
default_port = 0x43 ∷ 0x4f ∷ 0x4d ∷ 0x36 ∷ []

abbrev pub ctap_aid : List ℕ
ctap_aid = 0xa0 ∷ 0x00 ∷ 0x00 ∷ 0x06 ∷ 0x47 ∷ 0x2f ∷ 0x00 ∷ 0x01 ∷ []

abbrev pub select_ctap_aid_apdu : List ℕ
select_ctap_aid_apdu =
    0x00 ∷ 0xa4 ∷ 0x04 ∷ 0x00 ∷ 0x08 ∷ 0xa0 ∷ 0x00 ∷ 0x00 ∷ 0x06 ∷ 0x47 ∷ 0x2f ∷ 0x00 ∷ 0x01 ∷ 0x00
    ∷ []

abbrev pub rf_max_retries : List ℕ
rf_max_retries = 0x05 ∷ 0x00 ∷ 0x00 ∷ 0x02 ∷ []

-- The digits of each byte, with a space between two bytes.
unfoldable pub hex : List ℕ → List ℕ
hex [] = []
hex (byte ∷ []) = upper_hex byte
hex (byte ∷ next ∷ bytes) = upper_hex byte ++ 0x20 ∷ hex (next ∷ bytes)

-- What is printed, line after line.
abbrev pub println : {E : Type 0} → Message → Run (List Message) E (Unit {0})
println line = modify (λ printed. printed ++ line ∷ [])

-- The lines on the answer to select, or on what else follows the UID.
unfoldable pub print_ats : List ℕ → ℕ → Run (List Message) Message (Unit {0})
unfolding hex
print_ats response uid_end =
    if ltb uid_end (length response)
    then (do
      ats_len ← lift (index response uid_end)
      let ats_start = uid_end + 1
      let ats_end = ats_start + ats_len
      if leb ats_end (length response)
          then (do
            ats ← lift (slice response ats_start ats_end)
            println (text "ISO-DEP activation completed; ATS: " ∷ chars (hex ats) ∷ [])
            if ltb ats_end (length response)
                then (do
                  extra ← lift (slice_from response ats_end)
                  println (text "Target extra: " ∷ chars (hex extra) ∷ []))
                else give tt)
          else (do
            extra ← lift (slice_from response uid_end)
            println (text "ATS/extra: " ∷ chars (hex extra) ∷ [])))
    else give tt

unfoldable pub print_fields : List ℕ → Listed → Run (List Message) Message (Option ℕ)
unfolding print_ats
print_fields response l = do
  println (text "Targets: " ∷ num l.target_count ∷ [])
  println (text "Target number: " ∷ num l.target_number ∷ [])
  println (text "SENS_RES: " ∷ chars (hex l.sens_res) ∷ [])
  println (text "SEL_RES: " ∷ chars (upper_hex l.sel_res) ∷ [])
  println (text "UID: " ∷ chars (hex l.uid) ∷ [])
  print_ats response l.uid_end
  give (some l.target_number)

-- Behind the test for a target.
unfoldable pub print_target : List ℕ → Run (List Message) Message (Option ℕ)
unfolding print_fields listed_fields
print_target response = lift (listed_fields response) >>= print_fields response

unfoldable pub print_iso_type_a_target : List ℕ → Run (List Message) Message (Option ℕ)
unfolding print_target
print_iso_type_a_target response =
    if counts_no_target response
    then (println (plain "No ISO14443-A target found") >> give none)
    else print_target response

unfoldable pub print_apdu_status : List ℕ → Run (List Message) Message (Unit {0})
unfolding hex
print_apdu_status response = do
  fail_when (ltb (length response) 2)
      (text "APDU response too short for SW1/SW2: " ∷ num (length response) ∷ text " bytes" ∷ [])
  sw1 ← lift (index response (length response - 2))
  sw2 ← lift (index response (length response - 1))
  payload ← lift (slice response 0 (length response - 2))
  if not (is_empty payload)
      then println (text "APDU data: " ∷ chars (hex payload) ∷ [])
      else give tt
  println (text "SW1/SW2: " ∷ chars (upper_hex sw1) ∷ text " " ∷ chars (upper_hex sw2) ∷ [])
  if sw1 == 0x90 && sw2 == 0x00
      then println (plain "CTAP AID selected successfully")
      else fail (
          text "CTAP AID select failed with SW1/SW2 "
          ∷ chars (upper_hex sw1)
          ∷ text " "
          ∷ chars (upper_hex sw2)
          ∷ [])
