-- ===== src/Examples/Handshake.antt =====
-- The theorems on the byte stream, the abort handshake and the response queue, at a transport with
-- nothing pending.
use vusbipd_ccid.Base.{ap, ℕ, ◌≡◌, refl, ◌*◌, true, some, none, List, [], ◌∷◌, ◌++◌, length, arith}
use vusbipd_ccid.Base.Result.{ok, value}
use vusbipd_ccid.Nfc.Dummy.{DummyReader, dummy_reader}
use vusbipd_ccid.Protocol.{
  abort, get_slot_status, decode, command_of, encode, slot_status, ok_status, failed_status, active,
}
use vusbipd_ccid.Bridge.{refresh_card_presence}
use vusbipd_ccid.Transport.State.{CcidTransport, idle, update_state}
use vusbipd_ccid.Transport.{
  handle_bulk_out, bulk_out_loop, try_take_complete_frame, handle_control_request, process_frame,
  handle_interrupt_in,
}
use vusbipd_ccid.Transport.Invariant.{Inv}
use vusbipd_ccid.Transport.Stream.{handle_bulk_out-append}
use vusbipd_ccid.Transport.Held.{process_frames, abort_holds_commands}
use vusbipd_ccid.Transport.Abort.{abort_either_order, handle_interrupt_in_backlog}
use vusbipd_ccid.Examples.{bridge_with, bridge_with-IsValid, waiting, status_request}

abbrev pub quiet : CcidTransport DummyReader
quiet = record waiting { state = idle; pending_out_buffer = []; control_abort = none }

pub quiet-Inv : Inv quiet
quiet-Inv = record {
  core = record {
    bounded = omega arith;
    cached = tt;
    for_zero = tt;
    valid = bridge_with-IsValid true;
  };
  state_fits = refl;
}

abbrev abort_message : List ℕ
abort_message = 0x72 ∷ 0 ∷ 0 ∷ 0 ∷ 0 ∷ 0 ∷ 7 ∷ 0 ∷ 0 ∷ 0 ∷ []

abort_message_test : decode abort_message ≡ ok (abort 0 7)
unfolding decode command_of
abort_message_test = refl

status_request_test : decode status_request ≡ ok (get_slot_status 0 7)
unfolding decode command_of
status_request_test = refl

-- Three bytes of a header.
abbrev received : CcidTransport DummyReader
received = (handle_bulk_out dummy_reader quiet (0x65 ∷ 0 ∷ 0 ∷ [])).0

received_test : (handle_bulk_out dummy_reader quiet (0x65 ∷ 0 ∷ 0 ∷ [])).1 ≡ ok tt
unfolding handle_bulk_out bulk_out_loop try_take_complete_frame update_state
received_test = refl

handle_bulk_out-append_example :
    handle_bulk_out dummy_reader quiet status_request
    ≡ handle_bulk_out dummy_reader received (0 ∷ 0 ∷ 0 ∷ 7 ∷ 0 ∷ 0 ∷ 0 ∷ [])
handle_bulk_out-append_example =
    handle_bulk_out-append dummy_reader quiet (0x65 ∷ 0 ∷ 0 ∷ []) (0 ∷ 0 ∷ 0 ∷ 7 ∷ 0 ∷ 0 ∷ 0 ∷ [])
      received quiet-Inv refl refl (ap (λ r. (received, r)) received_test)

abbrev queued : CcidTransport DummyReader
queued = record quiet { pending_in_frames = status_request ∷ abort_message ∷ [] }

abort_either_order_example :
    (done : CcidTransport DummyReader) × ((handle_control_request dummy_reader quiet 0x21 0x01
        (256 * 7)).1
      ≡ ok [])
    × (process_frame dummy_reader
          (handle_control_request dummy_reader quiet 0x21 0x01 (256 * 7)).0
          abort_message
        ≡ (done, ok tt))
    × ((process_frame dummy_reader quiet abort_message).1 ≡ ok tt)
    × (handle_control_request dummy_reader
          (process_frame dummy_reader quiet abort_message).0
          0x21
          0x01
          (256 * 7)
        ≡ (done, ok []))
    × (done.pending_in_frames ≡ encode (slot_status 0 7 (ok_status active) 0 0) ∷ [])
    × (done.pending_out_buffer ≡ [])
    × (done.bulk_abort ≡ none)
    × (done.control_abort ≡ none)
    × (done.bridge.inner ≡ bridge_with true)
abort_either_order_example =
    abort_either_order dummy_reader quiet abort_message 7 refl refl refl (omega arith)
      abort_message_test

-- Two status requests with the sequence number of the pending abort, and its bulk message.
abort_holds_commands_example :
    let before = process_frames dummy_reader waiting (status_request ∷ []) in
    let held = process_frame dummy_reader before.0 status_request in
    let done = process_frame dummy_reader held.0 abort_message in
    (before.1 ≡ ok tt)
    × (held.1 ≡ ok tt)
    × (held.0.bridge ≡ waiting.bridge)
    × (held.0.control_abort ≡ some (0, 7))
    × ((front : List (List ℕ)) × (held.0.pending_in_frames
          ≡ front ++ encode (slot_status 0 7 (failed_status active) 0xff 0) ∷ []))
    × (done.1 ≡ ok tt)
    × (done.0.control_abort ≡ none)
    × (done.0.bridge.inner ≡ bridge_with true)
    × (done.0.pending_in_frames ≡ encode (slot_status 0 7 (ok_status active) 0 0) ∷ [])
abort_holds_commands_example =
    abort_holds_commands dummy_reader waiting (status_request ∷ []) status_request abort_message
      (get_slot_status 0 7) 0 7 refl refl ((get_slot_status 0 7, status_request_test, refl), tt)
      status_request_test refl abort_message_test

present_test : (refresh_card_presence dummy_reader (bridge_with true)).1 ≡ value true
unfolding refresh_card_presence
present_test = refl

handle_interrupt_in_backlog_example :
    length (handle_interrupt_in dummy_reader quiet).0.pending_interrupt_frames ≡ 0
handle_interrupt_in_backlog_example =
    handle_interrupt_in_backlog dummy_reader quiet true refl present_test
