-- ===== src/Transport/Abort.antt =====
-- The abort handshake: a control request and a bulk message, in either order.
use vusbipd_ccid.Base.{
  ◌-◌, Bool-cases, inl, inr, ap, ℕ, ◌+◌, ◌*◌, ◌<◌, ◌≡◌, Bool, true, false, none, some, List, [],
  ◌∷◌, length, arith, length-append,
}
use vusbipd_ccid.Base.Result.{ok, value}
use vusbipd_ccid.Nfc.{NfcReader}
use vusbipd_ccid.Protocol.{
  CcidCommand, abort, decode, encode, slot_status, ok_status, failed_status, command_slot,
  command_seq,
}
use vusbipd_ccid.Bridge.{current_icc_status, card_present, refresh_card_presence}
use vusbipd_ccid.Transport.State.{
  CcidTransport, update_state, update_slot_presence, push_in_frame, enqueue_response, back_is,
}
use vusbipd_ccid.Transport.{
  handle_control_request, process_frame, dispatch, run_command, queue_aborted_response,
  expect_abort, logged, has_bulk_abort, handle_interrupt_in, refreshed, pop_interrupt,
}
use vusbipd_ccid.Transport.Kept.{finish_abort_free, cleared}

module _ {S : Type 0} where
  -- The transport after a finished abort.
  aborted : CcidTransport S → ℕ → CcidTransport S
  aborted t seq =
      enqueue_response (cleared t)
        (slot_status 0 seq (ok_status (current_icc_status t.bridge.inner)) 0 0)
        (card_present t.bridge.inner)

  pub queue_aborted_response_kept :
      (t : CcidTransport S) (c : CcidCommand)
      → t.bridge.poisoned ≡ false
      → let after = queue_aborted_response t c in
        (after.1 ≡ ok tt)
        × (after.0.bridge ≡ t.bridge)
        × (after.0.control_abort ≡ t.control_abort)
        × (after.0.pending_in_frames
            ≡ (push_in_frame t (
                encode (
                  slot_status
                    (command_slot c)
                    (command_seq c)
                    (failed_status (current_icc_status t.bridge.inner))
                    0xff
                    0))).pending_in_frames)
  unfolding queue_aborted_response update_state update_slot_presence push_in_frame
  queue_aborted_response_kept t c p = elim (Bool-cases (card_present t.bridge.inner)) [
    | inl e ↦ ground (arith, e)
    | inr e ↦ ground (arith, e)
  ]

  pop_interrupt_shorter :
      (t : CcidTransport S)
      → length (pop_interrupt t).0.pending_interrupt_frames ≡ length t.pending_interrupt_frames - 1
  unfolding pop_interrupt
  pop_interrupt_shorter t = ground arith

  update_slot_presence_longer :
      (t : CcidTransport S) (present : Bool)
      → length (update_slot_presence t present).pending_interrupt_frames
        ≡ length t.pending_interrupt_frames + 1
  unfolding update_slot_presence
  update_slot_presence_longer t true = ground (
    arith,
    length-append t.pending_interrupt_frames ((0x50 ∷ 1 ∷ []) ∷ []),
    length-append t.pending_interrupt_frames ((0x50 ∷ 3 ∷ []) ∷ []),
  )
  update_slot_presence_longer t false = ground (
    arith,
    length-append t.pending_interrupt_frames ((0x50 ∷ 0 ∷ []) ∷ []),
    length-append t.pending_interrupt_frames ((0x50 ∷ 2 ∷ []) ∷ []),
  )

module _ {S : Type 0} (nfc : NfcReader S) where
  control_then_bulk :
      (t : CcidTransport S) (frame : List ℕ) (seq : ℕ)
      → t.bridge.poisoned ≡ false
      → has_bulk_abort t.bulk_abort seq ≡ false
      → seq < 256
      → decode frame ≡ ok (abort 0 seq)
      → let first = handle_control_request nfc t 0x21 0x01 (256 * seq) in
        (first.1 ≡ ok []) × (process_frame nfc first.0 frame ≡ (aborted t seq, ok tt))
  unfolding handle_control_request expect_abort process_frame dispatch aborted
  control_then_bulk t frame seq p b l d =
      ground (arith, d, finish_abort_free nfc (record t { control_abort = some (0, seq) }) 0 seq p)

  bulk_then_control :
      (t : CcidTransport S) (frame : List ℕ) (seq : ℕ)
      → t.bridge.poisoned ≡ false
      → t.control_abort ≡ none
      → seq < 256
      → decode frame ≡ ok (abort 0 seq)
      → let first = process_frame nfc t frame in
        (first.1 ≡ ok tt)
        × (handle_control_request nfc first.0 0x21 0x01 (256 * seq) ≡ (aborted t seq, ok []))
  unfolding handle_control_request expect_abort process_frame dispatch aborted run_command logged
  bulk_then_control t frame seq p e l d =
      ground (arith, d, e, finish_abort_free nfc (record t { bulk_abort = some seq }) 0 seq p)

  aborted_lem :
      (t : CcidTransport S) (seq : ℕ)
      → let done = aborted t seq in
        (done.pending_in_frames
          ≡ encode (slot_status 0 seq (ok_status (current_icc_status t.bridge.inner)) 0 0) ∷ [])
        × (done.pending_out_buffer ≡ [])
        × (done.bulk_abort ≡ none)
        × (done.control_abort ≡ none)
        × (done.bridge.inner ≡ t.bridge.inner)
  unfolding aborted enqueue_response update_state update_slot_presence push_in_frame back_is
  aborted_lem t seq = ground arith

  -- An abort of slot 0 takes a control request and a bulk message with one sequence number. In
  -- either order, from a transport with a usable lock and neither of the two pending, both calls
  -- succeed and lead to the same transport, in which nothing is pending, the bridge is what it was,
  -- and the only queued response is the success of the abort.
  pub abort_either_order :
      (t : CcidTransport S) (frame : List ℕ) (seq : ℕ)
      → t.bridge.poisoned ≡ false
      → t.control_abort ≡ none
      → t.bulk_abort ≡ none
      → seq < 256
      → decode frame ≡ ok (abort 0 seq)
      → (done : CcidTransport S) × ((handle_control_request nfc t 0x21 0x01 (256 * seq)).1 ≡ ok [])
        × (process_frame nfc (handle_control_request nfc t 0x21 0x01 (256 * seq)).0 frame
            ≡ (done, ok tt))
        × ((process_frame nfc t frame).1 ≡ ok tt)
        × (handle_control_request nfc (process_frame nfc t frame).0 0x21 0x01 (256 * seq)
            ≡ (done, ok []))
        × (done.pending_in_frames
            ≡ encode (slot_status 0 seq (ok_status (current_icc_status t.bridge.inner)) 0 0) ∷ [])
        × (done.pending_out_buffer ≡ [])
        × (done.bulk_abort ≡ none)
        × (done.control_abort ≡ none)
        × (done.bridge.inner ≡ t.bridge.inner)
  abort_either_order t frame seq p c b l d =
      let (one, two) = control_then_bulk t frame seq p (ap (λ o. has_bulk_abort o seq) b) l d in
      let (three, four) = bulk_then_control t frame seq p c l d in
      let (answer, buffer, bulk, control, bridge) = aborted_lem t seq in
      (aborted t seq, one, two, three, four, answer, buffer, bulk, control, bridge)

  -- If the lock is not poisoned and the reader answers the poll, an interrupt IN request leaves the
  -- queue of notifications as long as it was: it queues one before it takes one.
  pub handle_interrupt_in_backlog :
      (t : CcidTransport S) (present : Bool)
      → t.bridge.poisoned ≡ false
      → (refresh_card_presence nfc t.bridge.inner).1 ≡ value present
      → length (handle_interrupt_in nfc t).0.pending_interrupt_frames
        ≡ length t.pending_interrupt_frames
  unfolding handle_interrupt_in refreshed
  handle_interrupt_in_backlog t present p r =
      let polled = refresh_card_presence nfc t.bridge.inner in
      ground (
        arith,
        pop_interrupt_shorter (refreshed t polled),
        update_slot_presence_longer
            (record t { bridge = record { poisoned = false; inner = polled.0 } }) present,
      )
