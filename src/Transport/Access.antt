-- ===== src/Transport/Access.antt =====
-- What the requests keep of the bridge, and of the bytes that are not yet handled.
pub mod Bulk
pub mod Calls
use vusbipd_ccid.Base.{
  take, drop, ap, ◌∙◌, ℕ, zero, suc, ◌≡◌, refl, sym, Bool, true, false, Option, none, some, List,
  [], arith, not, if_cases, ◌∷◌, ltb, length, ◌==◌, ◌&&◌,
}
use mathlib.Core.Path.{subst}
use vusbipd_ccid.Base.Result.{Result, ok, err, panic, stuck, map_err, Returned, value, fault}
use vusbipd_ccid.Base.Bytes.{u16_low, u16_high}
use vusbipd_ccid.Nfc.{NfcReader, ReaderError}
use vusbipd_ccid.Protocol.{CcidCommand, CcidProtocolError, abort, CcidResponse, decode, encode}
use vusbipd_ccid.Bridge.{CcidBridge, Handled, handle_command, refresh_card_presence}
use vusbipd_ccid.Transport.State.{
  CcidTransport, Mutex, Done, and_then, update_state, update_slot_presence, push_in_frame,
  enqueue_response,
}
use vusbipd_ccid.Transport.{
  handle_control_request, expect_abort, finish_abort, logged, decode_error, bridge_answered,
  enqueue, is_abort_of, has_bulk_abort, run_command, dispatch, process_frame, round, bulk_out_loop,
  handle_bulk_out, handle_bulk_in, refreshed, pop_interrupt, handle_interrupt_in, call_bridge,
  queue_aborted_response, try_take_complete_frame, read_frame_len, frame_len, take_frame, serve,
}

module _ {S : Type 0} (nfc : NfcReader S) where
  -- The second bridge comes of the first by commands, each of them sent, and looks for a card.
  pub data Accesses (Sent : CcidCommand → Type 0) (b : CcidBridge S) : CcidBridge S → Type 0 where
    no_access : Accesses Sent b b
    handling :
        {b' : CcidBridge S} (c : CcidCommand)
        → Sent c
        → Accesses Sent b b'
        → Accesses Sent b (handle_command nfc b' c).0
    looking :
        {b' : CcidBridge S} → Accesses Sent b b' → Accesses Sent b (refresh_card_presence nfc b').0

  -- What commands and looks for a card keep, holds after any of them.
  pub Accesses-keeps :
      (P : CcidBridge S → Type 0) {Sent : CcidCommand → Type 0} {b b' : CcidBridge S}
      → ((b : CcidBridge S) (c : CcidCommand) → P b → P (handle_command nfc b c).0)
      → ((b : CcidBridge S) → P b → P (refresh_card_presence nfc b).0)
      → P b
      → Accesses Sent b b'
      → P b'
  Accesses-keeps P k l h no_access = h
  Accesses-keeps P k l h (handling c s a) = k _ c (Accesses-keeps P k l h a)
  Accesses-keeps P k l h (looking a) = l _ (Accesses-keeps P k l h a)

  pub Accesses-map :
      {Sent Sent' : CcidCommand → Type 0} {b b' : CcidBridge S}
      → ((c : CcidCommand) → Sent c → Sent' c)
      → Accesses Sent b b'
      → Accesses Sent' b b'
  Accesses-map f no_access = no_access
  Accesses-map f (handling c s a) = handling c (f c s) (Accesses-map f a)
  Accesses-map f (looking a) = looking (Accesses-map f a)

  -- What commands that were sent and looks for a card keep of the bridge under its lock; and the
  -- commands that were sent, by what is known of the bytes in the buffer.
  pub record IsKept (Sent : CcidCommand → Type 0) (Holds : List ℕ → Type 0)
      (Q : Mutex (CcidBridge S) → Type 0) : Type 0 where
    pub calls :
        (t : CcidTransport S) (c : CcidCommand)
        → Sent c
        → Q t.bridge
        → Q (call_bridge nfc t c).0.bridge
    pub looks : (t : CcidTransport S) → Q t.bridge → Q (handle_interrupt_in nfc t).0.bridge
    pub aborts : (slot seq : ℕ) → Sent (abort slot seq)
    pub decoded :
        (n : ℕ) (l : List ℕ) (c : CcidCommand) → Holds l → decode (take n l) ≡ ok c → Sent c
    pub dropped : (n : ℕ) (l : List ℕ) → Holds l → Holds (drop n l)
    pub cleared : (l : List ℕ) → Holds l → Holds []

  call_bridge-buffer :
      (t : CcidTransport S) (c : CcidCommand)
      → (call_bridge nfc t c).0.pending_out_buffer ≡ t.pending_out_buffer
  unfolding call_bridge bridge_answered
  call_bridge-buffer t c =
      if_cases (λ (d : Done S (CcidResponse × Bool)). d.0.pending_out_buffer ≡ t.pending_out_buffer)
        t.bridge.poisoned (λ _. refl) (λ _. answered (handle_command nfc t.bridge.inner c))
    where
      answered : (x : Handled S) → (bridge_answered t x).0.pending_out_buffer ≡ t.pending_out_buffer
      answered (b', ok r) = refl
      answered (b', err e) = elim e [ ]
      answered (b', panic) = refl
      answered (b', stuck) = refl

  refreshed-buffer :
      (t : CcidTransport S) (x : CcidBridge S × Returned ReaderError Bool)
      → (refreshed t x).pending_out_buffer ≡ t.pending_out_buffer
  unfolding refreshed update_slot_presence
  refreshed-buffer t (b', value true) = ground arith
  refreshed-buffer t (b', value false) = ground arith
  refreshed-buffer t (b', fault e) = refl

  pop_interrupt-buffer :
      (t : CcidTransport S) → (pop_interrupt t).0.pending_out_buffer ≡ t.pending_out_buffer
  unfolding pop_interrupt
  pop_interrupt-buffer t = ground arith

  handle_interrupt_in-buffer :
      (t : CcidTransport S)
      → (handle_interrupt_in nfc t).0.pending_out_buffer ≡ t.pending_out_buffer
  unfolding handle_interrupt_in
  handle_interrupt_in-buffer t =
      if_cases (λ (d : CcidTransport S × List ℕ). d.0.pending_out_buffer ≡ t.pending_out_buffer)
        t.bridge.poisoned (λ _. pop_interrupt-buffer t)
        (λ _.
          pop_interrupt-buffer _ ∙ refreshed-buffer t (refresh_card_presence nfc t.bridge.inner))

  module _ {Sent : CcidCommand → Type 0} {Holds : List ℕ → Type 0}
      (Q : Mutex (CcidBridge S) → Type 0) (kept : IsKept Sent Holds Q) where
    -- The bridge of the transport is as `Q` says, and its buffer as `Holds` does.
    abbrev pub Kept : CcidTransport S → Type 0
    Kept t = Q t.bridge × Holds t.pending_out_buffer

    abbrev pub Keeps : {A : Type 0} → Done S A → Type 0
    Keeps d = Kept d.0

    pub and_then-Keeps :
        {A B : Type 0} (m : Done S A) (f : A → CcidTransport S → Done S B)
        → Keeps m
        → ((a : A) (t : CcidTransport S) → Kept t → Keeps (f a t))
        → Keeps (and_then m f)
    and_then-Keeps (t, ok a) f h k = k a t h
    and_then-Keeps (t, err e) f h k = h
    and_then-Keeps (t, panic) f h k = h
    and_then-Keeps (t, stuck) f h k = h

    pub update_state-Keeps : (t : CcidTransport S) → Kept t → Kept (update_state t)
    unfolding update_state
    update_state-Keeps t h = ground arith

    announced-Keeps :
        (t : CcidTransport S) (frame : List ℕ) (present : Bool)
        → Kept t
        → Kept (update_state (update_slot_presence (push_in_frame t frame) present))
    unfolding update_state update_slot_presence push_in_frame
    announced-Keeps t frame true h = ground arith
    announced-Keeps t frame false h = ground arith

    enqueue_response-Keeps :
        (t : CcidTransport S) (r : CcidResponse) (present : Bool)
        → Kept t
        → Kept (enqueue_response t r present)
    unfolding enqueue_response
    enqueue_response-Keeps t r present h = announced-Keeps t (encode r) present h

    pub queue_aborted_response-Keeps :
        (t : CcidTransport S) (c : CcidCommand) → Kept t → Keeps (queue_aborted_response t c)
    unfolding queue_aborted_response
    queue_aborted_response-Keeps t c h =
        if_cases (λ (d : Done S (Unit {0})). Keeps d) t.bridge.poisoned (λ _. h)
          (λ _. announced-Keeps t _ _ h)

    pub enqueued-Keeps : (d : Done S (CcidResponse × Bool)) → Keeps d → Keeps (and_then d enqueue)
    enqueued-Keeps d h = and_then-Keeps d enqueue h (λ x t k. enqueue_response-Keeps t x.0 x.1 k)

    pub call_bridge-Keeps :
        (t : CcidTransport S) (c : CcidCommand) → Sent c → Kept t → Keeps (call_bridge nfc t c)
    call_bridge-Keeps t c sent h =
        (kept.calls t c sent h.0, subst Holds (sym (call_bridge-buffer t c)) h.1)

    pub handle_interrupt_in-Keeps :
        (t : CcidTransport S) → Kept t → Kept (handle_interrupt_in nfc t).0
    handle_interrupt_in-Keeps t h =
        (kept.looks t h.0, subst Holds (sym (handle_interrupt_in-buffer t)) h.1)

    pub finish_abort-Keeps :
        (t : CcidTransport S) (slot seq : ℕ) → Kept t → Keeps (finish_abort nfc t slot seq)
    unfolding finish_abort
    finish_abort-Keeps t slot seq h = enqueued-Keeps _ (
        call_bridge-Keeps _ (abort slot seq) (kept.aborts slot seq)
          (h.0, kept.cleared t.pending_out_buffer h.1))

    logged-Keeps : (d : Done S (Unit {0})) → Keeps d → Keeps (logged d)
    unfolding logged
    logged-Keeps (t, ok a) h = h
    logged-Keeps (t, err e) h = h
    logged-Keeps (t, panic) h = h
    logged-Keeps (t, stuck) h = h

    expect_abort-Keeps :
        (t : CcidTransport S) (slot seq : ℕ) → Kept t → Keeps (expect_abort nfc t slot seq)
    unfolding expect_abort
    expect_abort-Keeps t slot seq h =
        if_cases (λ (d : Done S (Unit {0})). Keeps d) (not (slot == 0)) (λ _. h)
          (λ _.
            if_cases (λ (d : Done S (Unit {0})). Keeps d) (has_bulk_abort t.bulk_abort seq)
              (λ _. logged-Keeps _ (finish_abort-Keeps t slot seq h)) (λ _. h))

    pub handle_control_request-Keeps :
        (t : CcidTransport S) (request_type request v : ℕ)
        → Kept t
        → Keeps (handle_control_request nfc t request_type request v)
    unfolding handle_control_request
    handle_control_request-Keeps t request_type request v h =
        if_cases (λ (d : Done S (List ℕ)). Keeps d) (request_type == 0xa1 && request == 0x02)
          (λ _. h)
          (λ _.
            if_cases (λ (d : Done S (List ℕ)). Keeps d) (request_type == 0xa1 && request == 0x03)
              (λ _. h)
              (λ _.
                if_cases (λ (d : Done S (List ℕ)). Keeps d)
                  (request_type == 0x21 && request == 0x01)
                  (λ _.
                    and_then-Keeps {A = Unit {0}} {B = List ℕ}
                      (expect_abort nfc t (u16_low v) (u16_high v)) (λ _ t'. (t', ok []))
                      (expect_abort-Keeps t (u16_low v) (u16_high v) h) (λ _ t' k. k))
                  (λ _. h)))
