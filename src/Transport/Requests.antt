-- ===== src/Transport/Requests.antt =====
-- Every request keeps the invariant, also one that fails or panics.
use vusbipd_ccid.Base.{
  ℕ, zero, suc, ◌≡◌, refl, ◌∙◌, Bool, true, false, Option, none, some, List, [], arith, not,
  if_cases, ◌==◌, ◌&&◌,
}
use vusbipd_ccid.Base.Result.{Result, ok, err, panic, stuck, map_err, Returned, value, fault}
use vusbipd_ccid.Nfc.{NfcReader, ReaderError}
use vusbipd_ccid.Protocol.{CcidCommand, CcidProtocolError, abort, CcidResponse, decode}
use vusbipd_ccid.Bridge.{CcidBridge, Handled}
use vusbipd_ccid.Bridge.Slot.{IsValid, handle_command-IsValid, refresh-IsValid}
use vusbipd_ccid.Transport.State.{CcidTransport, Done, and_then, update_slot_presence, new}
use vusbipd_ccid.Transport.{
  handle_control_request, expect_abort, finish_abort, logged, decode_error, bridge_answered,
  enqueue, is_abort_of, has_bulk_abort, run_command, dispatch, process_frame, round, bulk_out_loop,
  handle_bulk_out, refreshed, pop_interrupt, handle_interrupt_in,
}
use vusbipd_ccid.Transport.Frames.{Cut, wait, too_long, whole, cut, taken, try_take-cut}
use vusbipd_ccid.Transport.Invariant.{Core, Inv, taken-Inv}
use vusbipd_ccid.Transport.Kept.{
  Sound, appended-Inv, update_state_poisoned, taken_poisoned, and_then-Sound,
  enqueue_response-Sound, queue_aborted_response-Sound, cleared, finish_abort_free,
}

module _ {S : Type 0} (nfc : NfcReader S) where
  finish_abort-Sound :
      (t : CcidTransport S) (slot seq : ℕ)
      → Core t
      → t.bridge.poisoned ≡ false
      → Sound (finish_abort nfc t slot seq)
  finish_abort-Sound t slot seq c p =
      rw (finish_abort_free nfc t slot seq p)
        (enqueue_response-Sound (cleared t) _ _ (ground arith) refl)

  logged-Sound : (d : Done S (Unit {0})) → Sound d → d.0.bridge.poisoned ≡ false → Sound (logged d)
  unfolding logged
  logged-Sound (t, ok a) h p = h
  logged-Sound (t, err e) h p = (h, p)
  logged-Sound (t, panic) h p = h
  logged-Sound (t, stuck) h p = h

  expect_abort-Sound :
      (t : CcidTransport S) (slot seq : ℕ)
      → Inv t
      → t.bridge.poisoned ≡ false
      → Sound (expect_abort nfc t slot seq)
  unfolding expect_abort
  expect_abort-Sound t slot seq v p =
      if_cases Sound (not (slot == 0)) (λ _. (v, p))
        (λ zero_slot.
          if_cases Sound (has_bulk_abort t.bulk_abort seq)
            (λ _.
              rw (finish_abort_free nfc t slot seq p)
                (enqueue_response-Sound (cleared t) _ _ (ground arith) refl))
            (λ _. (ground arith, p)))

  -- From a valid transport whose lock is not poisoned, every control request leaves a valid
  -- transport, also when it is refused, and a lock that is not poisoned if it succeeds.
  pub handle_control_request-Sound :
      (t : CcidTransport S) (request_type request v : ℕ)
      → Inv t
      → t.bridge.poisoned ≡ false
      → Sound (handle_control_request nfc t request_type request v)
  unfolding handle_control_request
  handle_control_request-Sound t request_type request v i p =
      if_cases Sound (request_type == 0xa1 && request == 0x02) (λ _. (i, p))
        (λ _.
          if_cases Sound (request_type == 0xa1 && request == 0x03) (λ _. (i, p))
            (λ _.
              if_cases Sound (request_type == 0x21 && request == 0x01)
                (λ _.
                  and_then-Sound _ (λ _ t'. (t', ok [])) (expect_abort-Sound t _ _ i p)
                    (λ _ t' i' p'. (i', p')))
                (λ _. i)))

  answered-Sound :
      (t : CcidTransport S) (h : Handled S)
      → Inv t
      → IsValid h.0
      → Sound (and_then (bridge_answered t h) enqueue)
  unfolding bridge_answered
  answered-Sound t (b, ok r) i v = enqueue_response-Sound _ r _ (ground arith) refl
  answered-Sound t (b, err e) i v = elim e [ ]
  answered-Sound t (b, panic) i v = ground arith
  answered-Sound t (b, stuck) i v = i

  run_command-Sound :
      (t : CcidTransport S) (c : CcidCommand)
      → Inv t
      → t.bridge.poisoned ≡ false
      → Sound (run_command nfc t c)
  unfolding run_command
  run_command-Sound t (abort slot seq) i p = (ground arith, p)
  run_command-Sound t c i p =
      if_cases (λ (d : Done S (CcidResponse × Bool)). Sound (and_then d enqueue)) t.bridge.poisoned
        (λ _. ground arith)
        (λ _.
          answered-Sound _ _ (ground arith)
            (handle_command-IsValid nfc t.bridge.inner c i.core.valid))

  dispatch-Sound :
      (pending : Option (ℕ × ℕ)) (t : CcidTransport S) (c : CcidCommand)
      → Inv t
      → t.bridge.poisoned ≡ false
      → Sound (dispatch nfc pending t c)
  unfolding dispatch
  dispatch-Sound none t c i p = run_command-Sound t c i p
  dispatch-Sound (some (slot, seq)) t c i p =
      if_cases Sound (is_abort_of c slot seq) (λ _. finish_abort-Sound t slot seq i.core p)
        (λ _. queue_aborted_response-Sound t c i p)

  pub process_frame-Sound :
      (t : CcidTransport S) (frame : List ℕ)
      → Inv t
      → t.bridge.poisoned ≡ false
      → Sound (process_frame nfc t frame)
  unfolding process_frame
  process_frame-Sound t frame i p =
      and_then-Sound (t, map_err decode_error (decode frame)) _ (read (decode frame))
        (λ c t' i' p'. dispatch-Sound t'.control_abort t' c i' p')
    where
      read : (r : Result CcidProtocolError CcidCommand) → Sound (t, map_err decode_error r)
      read (ok c) = (i, p)
      read (err e) = i
      read panic = i
      read stuck = i

  round-Sound :
      (again : CcidTransport S → Done S (Unit {0})) (t : CcidTransport S) (k : Cut)
      → Inv (taken t k).0
      → t.bridge.poisoned ≡ false
      → ((u : CcidTransport S) → Inv u → u.bridge.poisoned ≡ false → Sound (again u))
      → Sound (round nfc again (taken t k))
  unfolding round
  round-Sound again t wait i p h = (i, taken_poisoned t wait ∙ p)
  round-Sound again t (too_long n) i p h = i
  round-Sound again t (whole frame rest) i p h =
      and_then-Sound (process_frame nfc _ frame) _
        (process_frame-Sound _ frame i (taken_poisoned t (whole frame rest) ∙ p))
        (λ _ u i' p'. h u i' p')

  pub bulk_out_loop-Sound :
      (fuel : ℕ) (t : CcidTransport S)
      → Inv t
      → t.bridge.poisoned ≡ false
      → Sound (bulk_out_loop nfc fuel t)
  unfolding bulk_out_loop
  bulk_out_loop-Sound zero t i p = i
  bulk_out_loop-Sound (suc fuel) t i p = rw (try_take-cut t i.core.cached) (
      round-Sound (bulk_out_loop nfc fuel) t (cut t.pending_out_buffer) (taken-Inv t i.core) p
        (λ u. bulk_out_loop-Sound fuel u))

  -- From a valid transport whose lock is not poisoned, `handle_bulk_out` leaves a valid transport on
  -- every input, also when it fails or panics, and a lock that is not poisoned if it succeeds: at
  -- most 32 responses are queued, a kept frame length is that of the frame at the front of the
  -- buffer, the state says what the queue and the buffer hold, and the bridge is valid.
  pub handle_bulk_out-Sound :
      (t : CcidTransport S) (payload : List ℕ)
      → Inv t
      → t.bridge.poisoned ≡ false
      → Sound (handle_bulk_out nfc t payload)
  unfolding handle_bulk_out
  handle_bulk_out-Sound t payload i p =
      bulk_out_loop-Sound _ _ (appended-Inv t payload i) (update_state_poisoned _ ∙ p)

  refreshed-Inv :
      (t : CcidTransport S) (d : CcidBridge S × Returned ReaderError Bool)
      → Inv t
      → IsValid d.0
      → Inv (refreshed t d)
  unfolding refreshed update_slot_presence
  refreshed-Inv t (b, value true) i v = ground arith
  refreshed-Inv t (b, value false) i v = ground arith
  refreshed-Inv t (b, fault e) i v = ground arith

  pop_interrupt-Inv : (t : CcidTransport S) → Inv t → Inv (pop_interrupt t).0
  unfolding pop_interrupt
  pop_interrupt-Inv t i = ground arith

  -- An interrupt IN request leaves a valid transport valid, whatever the reader answers and also
  -- with a poisoned lock.
  pub handle_interrupt_in-Inv : (t : CcidTransport S) → Inv t → Inv (handle_interrupt_in nfc t).0
  unfolding handle_interrupt_in
  handle_interrupt_in-Inv t i =
      if_cases (λ (d : CcidTransport S × List ℕ). Inv d.0) t.bridge.poisoned
        (λ _. pop_interrupt-Inv t i)
        (λ _.
          pop_interrupt-Inv _
            (refreshed-Inv t _ i (refresh-IsValid nfc t.bridge.inner i.core.valid)))

  pub new-Inv :
      (bridge : CcidBridge S)
      → IsValid bridge
      → Inv (new (record { poisoned = false; inner = bridge }))
  unfolding new
  new-Inv bridge v = ground arith
