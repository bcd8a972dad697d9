-- ===== src/Nfc/Pn532/ListTarget/Program.antt =====
-- examples/pn532_list_passive_target.rs: the requests to the chip, and the program.
use vusbipd_ccid.Base.{
  ℕ, zero, suc, ◌+◌, ◌-◌, ◌/◌, not, Option, none, some, List, [], ◌∷◌, ◌++◌, ◌==◌, if◌then◌else◌,
}
use vusbipd_ccid.Base.Result.{Result, ok, err, panic, stuck, value, fault}
use vusbipd_ccid.Base.Run.{Run, ◌>>=◌, ◌>>◌, give, fail, lift, fail_when, or_else, call}
use vusbipd_ccid.Base.Text.{Message, text, num, chars, plain}
use vusbipd_ccid.Base.Hex.{upper_hex}
use vusbipd_ccid.Nfc.Pn532.{
  Pn532Error, bad_ack, bad_response_frame, syntax, crc_error, buf_too_small, timeout_ack,
  timeout_response, interface_error,
}
use vusbipd_ccid.Nfc.Pn532.Chip.{BorrowedRequest, Pn532Device, wait_serial_ready, response_command}
use vusbipd_ccid.Nfc.Pn532.Reader.{counts_no_target}
use vusbipd_ccid.Nfc.Pn532.Factory.{SerialPort}
use vusbipd_ccid.Nfc.Pn532.ListTarget.Receive.{example_receive}
use vusbipd_ccid.Nfc.Pn532.ListTarget.{
  baud_rate, init_timeout_ms, poll_timeout_ms, apdu_timeout_ms, total_poll_timeout_ms, ctap_aid,
  select_ctap_aid_apdu, rf_max_retries, hex, println, print_iso_type_a_target, print_apdu_status,
  default_port,
}

-- `{error:?}` of an error of the crate.
abbrev pub debug_error : Pn532Error → Message
debug_error bad_ack = plain "BadAck"
debug_error bad_response_frame = plain "BadResponseFrame"
debug_error syntax = plain "Syntax"
debug_error crc_error = plain "CrcError"
debug_error buf_too_small = plain "BufTooSmall"
debug_error timeout_ack = plain "TimeoutAck"
debug_error timeout_response = plain "TimeoutResponse"
debug_error (interface_error inner) = text "InterfaceError(" ∷ (inner ++ text ")" ∷ [])

-- The chip with its port and clock, and what was printed.
pub record Terminal (P : Type 0) : Type 0 where
  pub chip : P
  pub printed : List Message

abbrev pub on_chip : {P E A : Type 0} → Run P E A → Run (Terminal P) E A
on_chip m t = (record t { chip = (m t.chip).0 }, (m t.chip).1)

abbrev pub on_screen : {P E A : Type 0} → Run (List Message) E A → Run (Terminal P) E A
on_screen m t = (record t { printed = (m t.printed).0 }, (m t.printed).1)

-- `context`: what was tried stands before the error.
abbrev context : {S A : Type 0} → Message → Run S Message A → Run S Message A
context what = or_else (λ error. what ++ (text ": " ∷ error))

-- `TOTAL_POLL_TIMEOUT_MS.div_ceil(POLL_TIMEOUT_MS)`
abbrev pub attempts : ℕ
attempts = (total_poll_timeout_ms + (poll_timeout_ms - 1)) / poll_timeout_ms

module _ {P : Type 0} (pn532 : Pn532Device P) where
  -- The same loop as the driver's, which ends in an error when nothing came.
  unfoldable pub example_wait : ℕ → Run P Message (Unit {0})
  unfolding wait_serial_ready
  example_wait timeout_ms = do
    came ← wait_serial_ready pn532 timeout_ms
    fail_when (not came) (plain "timed out waiting for PN532 serial data")

  unfoldable pub example_process : BorrowedRequest → ℕ → Run P Pn532Error (List ℕ)
  unfolding example_wait example_receive
  example_process request timeout_ms = do
    expected_response_command ← response_command pn532 request.command
    call (λ p. pn532.send p request)
    or_else (λ error. timeout_ack) (example_wait timeout_ms)
    call pn532.receive_ack
    or_else (λ error. timeout_response) (example_wait timeout_ms)
    example_receive pn532 expected_response_command

  -- The match in the loop of `poll_iso_a_target`, and the attempts after it.
  unfoldable pub polled :
      Run (Terminal P) Message (List ℕ)
      → ℕ
      → Terminal P × Result Pn532Error (List ℕ)
      → Terminal P × Result Message (List ℕ)
  polled again attempt (t, ok response) =
      if counts_no_target response
      then (on_screen (
              println (
                text "No ISO14443-A target yet; retrying ("
                ∷ num attempt
                ∷ text "/"
                ∷ num attempts
                ∷ text ")"
                ∷ []))
            >> again)
          t
      else (t, ok response)
  polled again attempt (t, err timeout_response) =
      (on_screen (
            println (
              text "No target response yet; retrying ("
              ∷ num attempt
              ∷ text "/"
              ∷ num attempts
              ∷ text ")"
              ∷ []))
          >> again)
        t
  polled again attempt (t, err error) =
      (t, err (text "failed to run InListPassiveTarget: " ∷ debug_error error))
  polled again attempt (t, panic) = (t, panic)
  polled again attempt (t, stuck) = (t, stuck)

  -- The attempts that are left.
  unfoldable pub poll_attempts : List ℕ → ℕ → Run (Terminal P) Message (List ℕ)
  unfolding polled example_process
  poll_attempts port_name zero =
      fail (text "timed out waiting for an ISO14443-A target on " ∷ chars port_name ∷ [])
  poll_attempts port_name (suc left) = λ t.
      polled (poll_attempts port_name left) (attempts - left)
        (on_chip (example_process pn532.inlist_one_iso_a_target poll_timeout_ms) t)

  unfoldable pub poll_iso_a_target : List ℕ → Run (Terminal P) Message (List ℕ)
  unfolding poll_attempts
  poll_iso_a_target port_name = poll_attempts port_name attempts

  unfoldable pub example_exchange_apdu : ℕ → List ℕ → Run (Terminal P) Message (List ℕ)
  unfolding example_process
  example_exchange_apdu target apdu = do
    response ←
        or_else (λ error. text "PN532 InDataExchange failed: " ∷ debug_error error)
          (on_chip (
            example_process
              (record { command = pn532.in_data_exchange; data_bytes = target ∷ apdu })
              apdu_timeout_ms))
    lift (exchanged response)
    where
      exchanged : List ℕ → Result Message (List ℕ)
      exchanged [] = err (plain "PN532 returned an empty InDataExchange response")
      exchanged (status ∷ response) =
          if not (status == 0x00)
          then err (text "PN532 InDataExchange status 0x" ∷ chars (upper_hex status) ∷ [])
          else ok response

module _ {P : Type 0} (pn532 : Pn532Device P) (serial : SerialPort P) where
  -- `process` with its error shown behind what failed.
  configured : Message → BorrowedRequest → Run (Terminal P) Message (List ℕ)
  configured what request =
      or_else (λ error. what ++ debug_error error)
        (on_chip (call (λ p. pn532.process p request 0 init_timeout_ms)))

  -- `run`, once the port is open.
  listed : List ℕ → Run (Terminal P) Message (Unit {0})
  unfolding configured poll_iso_a_target example_exchange_apdu
  listed port_name = do
    context (plain "failed to send PN532 wakeup message")
        (on_chip (call serial.send_wakeup_message))
    sam ← configured (plain "failed to configure PN532 SAM: ") pn532.sam_configuration
    retries ←
        configured (plain "failed to configure PN532 RF retries: ")
          (record { command = pn532.rf_configuration; data_bytes = rf_max_retries })
    response ← poll_iso_a_target pn532 port_name
    listed_target ← on_screen (print_iso_type_a_target response)
    elim listed_target [
      | none ↦ give tt
      | some target ↦ (do
        on_screen (println (text "Selecting CTAP AID: " ∷ chars (hex ctap_aid) ∷ []))
        on_screen (println (text "APDU command: " ∷ chars (hex select_ctap_aid_apdu) ∷ []))
        answer ←
            context (plain "failed to select CTAP AID")
              (example_exchange_apdu pn532 target select_ctap_aid_apdu)
        on_screen (println (text "APDU response: " ∷ chars (hex answer) ∷ []))
        on_screen (print_apdu_status answer))
    ]

  port_or_default : Option (List ℕ) → List ℕ
  port_or_default none = default_port
  port_or_default (some port_name) = port_name

  -- The program with its first argument: the lines that it printed, and its result.
  unfoldable pub run_example : Option (List ℕ) → List Message × Result Message (Unit {0})
  unfolding listed port_or_default
  run_example argument =
      let port_name = port_or_default argument in
      elim (serial.open_port port_name baud_rate init_timeout_ms) [
        | fault error ↦ (
          [],
          err (text "failed to open PN532 UART port " ∷ chars port_name ∷ (text ": " ∷ error)),
        )
        | value p ↦
            let done = listed port_name (record { chip = p; printed = [] }) in
            (done.0.printed, done.1)
      ]
