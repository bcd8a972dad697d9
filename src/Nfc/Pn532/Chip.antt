-- ===== src/Nfc/Pn532/Chip.antt =====
-- src/nfc/pn532.rs: a request to the chip and the wait for its response, over the pn532 crate.
use vusbipd_ccid.Base.{
  ℕ, zero, suc, ◌+◌, ◌*◌, ◌/◌, List, Bool, true, false, not, ltb, leb, if◌then◌else◌,
}
use vusbipd_ccid.Base.Result.{ok, panic, stuck, Returned}
use vusbipd_ccid.Base.Run.{Run, ◌>>=◌, ◌>>◌, give, lift, modify, fail_when, or_else, call}
use vusbipd_ccid.Base.Text.{Message}
use vusbipd_ccid.Nfc.Pn532.{
  Read, Pn532Error, interface_error, timeout_ack, timeout_response, receive_dynamic_response_from,
}

pub record BorrowedRequest : Type 0 where
  pub command : ℕ
  pub data_bytes : List ℕ

-- The pn532 crate, the serial port and the clock, over the state `P` of all three: `Pn532Device`
-- with its `process`, `send`, `receive_ack` and port; `Instant::now` in nanoseconds, and `sleep`;
-- the crate's commands and requests that the driver uses.
pub record Pn532Device (P : Type 0) : Type 0 where
  pub process : P → BorrowedRequest → ℕ → ℕ → P × Returned Pn532Error (List ℕ)
  pub send : P → BorrowedRequest → P × Returned Pn532Error (Unit {0})
  pub receive_ack : P → P × Returned Pn532Error (Unit {0})
  pub bytes_to_read : P → P × Returned Message ℕ
  pub port : Read P
  pub now : P → P × ℕ
  pub sleep : P → ℕ → P
  pub rf_configuration : ℕ
  pub in_data_exchange : ℕ
  pub sam_configuration : BorrowedRequest
  pub get_firmware_version : BorrowedRequest
  pub inlist_one_iso_a_target : BorrowedRequest

-- `Duration::from_millis`
abbrev pub from_millis : ℕ → ℕ
from_millis ms = 1000000 * ms

module _ {P : Type 0} (pn532 : Pn532Device P) where
  -- `Instant::now()`
  unfoldable pub instant_now : {E : Type 0} → Run P E ℕ
  instant_now p = ((pn532.now p).0, ok (pn532.now p).1)

  -- A round of the loop of `wait_serial_ready`, and the rounds after it.
  unfoldable pub wait_round : ℕ → Run P Message Bool → Run P Message Bool
  unfolding instant_now
  wait_round deadline rest = do
    now ← instant_now
    if ltb now deadline
        then (do
          available ← call pn532.bytes_to_read
          if ltb 0 available
              then give true
              else (modify (λ p. pn532.sleep p (from_millis 5)) >> rest))
        else give false

  -- The loop, for as many rounds.
  unfoldable pub wait_until : ℕ → ℕ → Run P Message Bool
  unfolding wait_round
  wait_until zero deadline = lift stuck
  wait_until (suc rounds) deadline = wait_round deadline (wait_until rounds deadline)

  unfoldable pub wait_serial_ready : ℕ → Run P Message Bool
  unfolding wait_until
  wait_serial_ready timeout_ms = do
    now ← instant_now
    wait_until (suc (timeout_ms / 5 + 1)) (now + from_millis timeout_ms)

  -- `request.command as u8 + 1`
  abbrev pub response_command : {E : Type 0} → ℕ → Run P E ℕ
  response_command command = if leb 255 command then lift panic else give (command + 1)

  unfoldable pub process_dynamic_response : BorrowedRequest → ℕ → Run P Pn532Error (List ℕ)
  unfolding wait_serial_ready
  process_dynamic_response request timeout_ms = do
    expected_response_command ← response_command request.command
    call (λ p. pn532.send p request)
    acknowledged ← or_else interface_error (wait_serial_ready timeout_ms)
    fail_when (not acknowledged) timeout_ack
    call pn532.receive_ack
    responded ← or_else interface_error (wait_serial_ready timeout_ms)
    fail_when (not responded) timeout_response
    λ p. receive_dynamic_response_from pn532.port p expected_response_command
