-- ===== src/Transport.antt =====
-- src/ccid/transport.rs: the requests of the host on the control, bulk and interrupt endpoints.
pub mod State
pub mod Frames
pub mod Invariant
pub mod Kept
pub mod Requests
pub mod Progress
pub mod Follow
pub mod Fuel
pub mod Stream
pub mod Reading
pub mod Abort
pub mod Held
pub mod Delivered
pub mod Poisoned
pub mod Session
pub mod Pipeline
pub mod Drain
pub mod Batch
pub mod Access
use vusbipd_ccid.Base.{
  ℕ, zero, suc, ◌+◌, ◌%◌, ◌≤◌, ◌<◌, Bool, true, false, ◌&&◌, not, Option, none, some, List, [], ◌∷◌,
  ◌++◌, length, take, drop, is_empty, leb, ltb, ◌==◌, if◌then◌else◌,
}
use vusbipd_ccid.Base.Result.{Result, ok, err, panic, stuck, map_err, Returned, value, fault}
use vusbipd_ccid.Base.Bytes.{u16_low, u16_high}
use vusbipd_ccid.Base.Text.{text, num, hex}
use vusbipd_ccid.Nfc.{NfcReader, ReaderError}
use vusbipd_ccid.Protocol.{
  CcidCommand, abort, CcidResponse, slot_status, failed_status, command_slot, command_seq, decode,
  encode, CcidProtocolError, error_to_string,
}
use vusbipd_ccid.Bridge.{
  CcidBridge, handle_command, refresh_card_presence, current_icc_status, card_present, Handled,
}
use State.{
  CcidTransport, Done, and_then, IoError, ErrorKind, unsupported, invalid_data, lock_poisoned,
  declared_len, update_state, update_slot_presence, push_in_frame, enqueue_response,
  ccid_max_message_length,
}

abbrev pub cmd_aborted_error : ℕ
cmd_aborted_error = 0xff

abbrev pub ccid_clock_frequency_khz : List ℕ
ccid_clock_frequency_khz = 0xfc ∷ 0x0d ∷ 0x00 ∷ 0x00 ∷ []

abbrev pub ccid_data_rate_bps : List ℕ
ccid_data_rate_bps = 0x80 ∷ 0x25 ∷ 0x00 ∷ 0x00 ∷ []

abbrev pub ccid_get_clock_frequencies : ℕ
ccid_get_clock_frequencies = 0x02

abbrev pub ccid_get_data_rates : ℕ
ccid_get_data_rates = 0x03

abbrev pub ccid_abort : ℕ
ccid_abort = 0x01

-- `self.bulk_abort == Some(seq)`
abbrev has_bulk_abort : Option ℕ → ℕ → Bool
has_bulk_abort none seq = false
has_bulk_abort (some n) seq = n == seq

abbrev decode_error : CcidProtocolError → IoError
decode_error e = record { kind = invalid_data; message = error_to_string e }

-- `matches!(command, CcidCommand::Abort { .. } if bulk_slot == slot && bulk_seq == seq)`
abbrev pub is_abort_of : CcidCommand → ℕ → ℕ → Bool
is_abort_of (abort bulk_slot bulk_seq) slot seq = bulk_slot == slot && bulk_seq == seq
is_abort_of command slot seq = false

module _ {S : Type 0} where
  -- The arm without a cached length.
  read_frame_len : CcidTransport S → Done S ℕ
  read_frame_len t = elim (declared_len t.pending_out_buffer) [
    | ok payload_len ↦
        let frame_len = 10 + payload_len in
        if ltb (ccid_max_message_length + 10) frame_len
        then (
          update_state (record t { pending_out_buffer = []; next_frame_len = none }),
          err (record {
            kind = invalid_data;
            message =
                text "CCID frame length " ∷ num frame_len ∷ text " exceeds configured maximum" ∷ [];
          }),
        )
        else (record t { next_frame_len = some frame_len }, ok frame_len)
    | err e ↦ (t, err e)
    | panic ↦ (t, panic)
    | stuck ↦ (t, stuck)
  ]

  frame_len : CcidTransport S → Done S ℕ
  unfolding read_frame_len
  frame_len t = elim t.next_frame_len [ some n ↦ (t, ok n) | none ↦ read_frame_len t ]

  -- The end of `try_take_complete_frame`, once the length is known.
  take_frame : ℕ → CcidTransport S → Done S (Option (List ℕ))
  take_frame n t = if ltb (length t.pending_out_buffer) n then (update_state t, ok none) else (
    update_state
        (record t { next_frame_len = none; pending_out_buffer = drop n t.pending_out_buffer }),
    ok (some (take n t.pending_out_buffer)),
  )

  unfoldable pub try_take_complete_frame : CcidTransport S → Done S (Option (List ℕ))
  unfolding frame_len take_frame
  try_take_complete_frame t =
      if ltb (length t.pending_out_buffer) 10
      then (update_state (record t { next_frame_len = none }), ok none)
      else and_then (frame_len t) take_frame

  serve : CcidTransport S → List (List ℕ) → ℕ → CcidTransport S × List ℕ
  serve t [] max_len = (update_state t, [])
  serve t (frame ∷ rest) max_len =
      if leb (length frame) max_len
      then (
        update_state (record t {
          pending_in_frames =
              (if not (max_len == 0) && not (is_empty frame) && length frame % max_len == 0
                then [] ∷ rest
                else rest);
        }),
        frame,
      )
      else (
        update_state (record t { pending_in_frames = drop max_len frame ∷ rest }),
        take max_len frame,
      )

  refreshed : CcidTransport S → CcidBridge S × Returned ReaderError Bool → CcidTransport S
  refreshed t (b, value present) =
      update_slot_presence (record t { bridge = record { poisoned = false; inner = b } }) present
  refreshed t (b, fault e) = record t { bridge = record { poisoned = false; inner = b } }

  pop_interrupt : CcidTransport S → CcidTransport S × List ℕ
  pop_interrupt t = elim t.pending_interrupt_frames [
    | [] ↦ (t, [])
    | frame ∷ rest ↦ (record t { pending_interrupt_frames = rest }, frame)
  ]

  logged : Done S (Unit {0}) → Done S (Unit {0})
  logged (t, err e) = (t, ok tt)
  logged r = r

  unfoldable pub handle_bulk_in : CcidTransport S → ℕ → CcidTransport S × List ℕ
  unfolding serve
  handle_bulk_in t max_len = serve t t.pending_in_frames max_len

  -- A call of the bridge under the lock, and the state of the lock after it: a panic poisons it.
  bridge_answered : CcidTransport S → Handled S → Done S (CcidResponse × Bool)
  bridge_answered t (b, ok response) =
      (record t { bridge = record { poisoned = false; inner = b } }, ok (response, card_present b))
  bridge_answered t (b, err e) = elim e [ ]
  bridge_answered t (b, panic) =
      (record t { bridge = record { poisoned = true; inner = b } }, panic)
  bridge_answered t (b, stuck) = (t, stuck)

  abbrev enqueue : CcidResponse × Bool → CcidTransport S → Done S (Unit {0})
  enqueue (response, present) t = (enqueue_response t response present, ok tt)

  unfoldable pub queue_aborted_response : CcidTransport S → CcidCommand → Done S (Unit {0})
  queue_aborted_response t command = if t.bridge.poisoned then (t, err lock_poisoned) else (
    update_state (
        update_slot_presence
          (push_in_frame t (
            encode (
              slot_status (command_slot command) (command_seq command)
                (failed_status (current_icc_status t.bridge.inner)) cmd_aborted_error 0)))
          (card_present t.bridge.inner)),
    ok tt,
  )

module _ {S : Type 0} (nfc : NfcReader S) where
  unfoldable pub call_bridge : CcidTransport S → CcidCommand → Done S (CcidResponse × Bool)
  unfolding bridge_answered
  call_bridge t command =
      if t.bridge.poisoned
      then (t, err lock_poisoned)
      else bridge_answered t (handle_command nfc t.bridge.inner command)

  unfoldable pub finish_abort : CcidTransport S → ℕ → ℕ → Done S (Unit {0})
  unfolding call_bridge
  finish_abort t slot seq =
      let cleared : CcidTransport S = record t {
        bulk_abort = none;
        control_abort = none;
        pending_out_buffer = [];
        next_frame_len = none;
        pending_in_frames = [];
      } in
      and_then (call_bridge cleared (abort slot seq)) enqueue

  -- An error of `finish_abort` is logged and goes no further; a panic does.
  unfoldable pub expect_abort : CcidTransport S → ℕ → ℕ → Done S (Unit {0})
  unfolding finish_abort logged
  expect_abort t slot seq =
      if not (slot == 0)
      then (t, ok tt)
      else if has_bulk_abort t.bulk_abort seq
      then logged (finish_abort t slot seq)
      else (record t { control_abort = some (slot, seq) }, ok tt)

  unfoldable pub handle_control_request : CcidTransport S → ℕ → ℕ → ℕ → Done S (List ℕ)
  unfolding expect_abort
  handle_control_request t request_type request v =
      if request_type == 0xa1 && request == ccid_get_clock_frequencies
      then (t, ok ccid_clock_frequency_khz)
      else if request_type == 0xa1 && request == ccid_get_data_rates
      then (t, ok ccid_data_rate_bps)
      else if request_type == 0x21 && request == ccid_abort
      then and_then (expect_abort t (u16_low v) (u16_high v)) (λ _ t'. (t', ok []))
      else (
        t,
        err (record {
          kind = unsupported;
          message =
              text "unsupported CCID control request type=0x"
              ∷ hex request_type
              ∷ text " request=0x"
              ∷ hex request
              ∷ [];
        }),
      )

  -- A command that no control abort holds up.
  run_command : CcidTransport S → CcidCommand → Done S (Unit {0})
  unfolding call_bridge
  run_command t (abort slot seq) = (record t { bulk_abort = some seq }, ok tt)
  run_command t command = and_then (call_bridge (record t { bulk_abort = none }) command) enqueue

  -- The body of the loop of `handle_bulk_out`, after the frame was decoded.
  dispatch : Option (ℕ × ℕ) → CcidTransport S → CcidCommand → Done S (Unit {0})
  unfolding run_command finish_abort
  dispatch none t command = run_command t command
  dispatch (some (slot, seq)) t command =
      if is_abort_of command slot seq
      then finish_abort t slot seq
      else queue_aborted_response t command

  unfoldable pub process_frame : CcidTransport S → List ℕ → Done S (Unit {0})
  unfolding dispatch
  process_frame t frame =
      and_then (t, map_err decode_error (decode frame))
        (λ command t'. dispatch t'.control_abort t' command)

  -- What `while let Some(frame) = self.try_take_complete_frame()?` does with what it took.
  pub round : (CcidTransport S → Done S (Unit {0})) → Done S (Option (List ℕ)) → Done S (Unit {0})
  round again (t, ok none) = (t, ok tt)
  round again (t, ok (some frame)) = and_then (process_frame t frame) (λ _ t'. again t')
  round again (t, err e) = (t, err e)
  round again (t, panic) = (t, panic)
  round again (t, stuck) = (t, stuck)

  unfoldable pub bulk_out_loop : ℕ → CcidTransport S → Done S (Unit {0})
  unfolding round
  bulk_out_loop zero t = (t, stuck)
  bulk_out_loop (suc fuel) t = round (bulk_out_loop fuel) (try_take_complete_frame t)

  -- A frame that the loop takes has ten bytes at least, so the buffer bounds its rounds.
  unfoldable pub handle_bulk_out : CcidTransport S → List ℕ → Done S (Unit {0})
  handle_bulk_out t payload =
      let t' = update_state (record t { pending_out_buffer = t.pending_out_buffer ++ payload }) in
      bulk_out_loop (suc (length t'.pending_out_buffer)) t'

  unfoldable pub handle_interrupt_in : CcidTransport S → CcidTransport S × List ℕ
  unfolding refreshed pop_interrupt
  handle_interrupt_in t =
      if t.bridge.poisoned
      then pop_interrupt t
      else pop_interrupt (refreshed t (refresh_card_presence nfc t.bridge.inner))
