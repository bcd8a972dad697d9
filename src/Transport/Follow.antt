-- ===== src/Transport/Follow.antt =====
-- One frame, with and without more bytes behind it in the buffer.
use vusbipd_ccid.Base.{
  ℕ, ◌+◌, ◌≡◌, refl, ◌∙◌, Bool, true, false, Option, none, some, List, ◌++◌, if◌then◌else◌, arith,
  length-append, take-append, drop-append,
}
use vusbipd_ccid.Base.Result.{Result, ok, err, panic, stuck, map_err}
use vusbipd_ccid.Nfc.{NfcReader}
use vusbipd_ccid.Protocol.{CcidCommand, CcidResponse, abort, decode, CcidProtocolError}
use vusbipd_ccid.Bridge.{Handled, handle_command, card_present}
use vusbipd_ccid.Transport.State.{
  CcidTransport, TransportState, Done, and_then, idle, update_state, update_slot_presence,
  push_in_frame, enqueue_response, IoError,
}
use vusbipd_ccid.Transport.{
  bridge_answered, call_bridge, enqueue, run_command, dispatch, process_frame, decode_error,
}
use vusbipd_ccid.Transport.Frames.{
  Cut, wait, too_long, whole, cut, taken, declared, declared-append,
}

-- A frame that a buffer begins with is there too when more bytes follow.
pub cut-append :
    (buffer more frame rest : List ℕ)
    → cut buffer ≡ whole frame rest
    → cut (buffer ++ more) ≡ whole frame (rest ++ more)
unfolding cut
cut-append buffer more frame rest e =
    let n = 10 + declared buffer in
    ground (
      arith,
      length-append buffer more,
      declared-append buffer more,
      take-append n buffer more,
      drop-append n buffer more,
    )

module _ {S : Type 0} where
  -- What the next round depends on: not the state, nor the length that is kept.
  abbrev pub forget : CcidTransport S → CcidTransport S
  forget t = record t { state = idle; next_frame_len = none }

  abbrev pub extend : List ℕ → CcidTransport S → CcidTransport S
  extend more t = forget (record t { pending_out_buffer = t.pending_out_buffer ++ more })

  pub taken-forget : (t : CcidTransport S) (k : Cut) → taken (forget t) k ≡ taken t k
  unfolding update_state
  taken-forget t wait = ground arith
  taken-forget t (too_long n) = ground arith
  taken-forget t (whole frame rest) = ground arith

  pub forget-update_state : (t : CcidTransport S) → forget (update_state t) ≡ forget t
  unfolding update_state
  forget-update_state t = ground arith

  -- More bytes in the buffer, and any state and kept length.
  abbrev pub grown : List ℕ → TransportState → Option ℕ → CcidTransport S → CcidTransport S
  grown more s n t = record t {
    pending_out_buffer = t.pending_out_buffer ++ more;
    state = s;
    next_frame_len = n;
  }

  enqueue_response-grown :
      (t : CcidTransport S) (r : CcidResponse) (present : Bool) (more : List ℕ) (s : TransportState)
      (n : Option ℕ)
      → (forget (enqueue_response (grown more s n t) r present)
          ≡ extend more (enqueue_response t r present))
        × ((enqueue_response t r present).control_abort ≡ t.control_abort)
  unfolding enqueue_response update_state push_in_frame update_slot_presence
  enqueue_response-grown t r true more s n = ground arith
  enqueue_response-grown t r false more s n = ground arith

  -- The first call succeeded, so the second does, and they differ by the bytes behind.
  abbrev pub Follows : List ℕ → Done S (Unit {0}) → Done S (Unit {0}) → Type 0
  Follows more (t, ok u) (t', r) =
      (r ≡ ok tt) × (forget t' ≡ extend more t) × (t.control_abort ≡ none)
  Follows more (t, other) d = Unit

  answered-Follows :
      (t : CcidTransport S) (h : Handled S) (more : List ℕ) (s : TransportState) (n : Option ℕ)
      → t.control_abort ≡ none
      → Follows more
          (and_then (bridge_answered t h) enqueue)
          (and_then (bridge_answered (grown more s n t) h) enqueue)
  unfolding bridge_answered
  answered-Follows t (b, ok r) more s n e =
      let (same, kept) =
        enqueue_response-grown (record t { bridge = record { poisoned = false; inner = b } }) r
          (card_present b) more s n in
      (refl, same, kept ∙ e)
  answered-Follows t (b, err e) more s n h = elim e [ ]
  answered-Follows t (b, panic) more s n h = tt
  answered-Follows t (b, stuck) more s n h = tt

  locked :
      (poisoned : Bool) (t t' : CcidTransport S) (d d' : Done S (CcidResponse × Bool)) (e : IoError)
      (more : List ℕ)
      → Follows more (and_then d enqueue) (and_then d' enqueue)
      → Follows more
          (and_then (if poisoned then (t, err e) else d) enqueue)
          (and_then (if poisoned then (t', err e) else d') enqueue)
  locked true t t' d d' e more h = tt
  locked false t t' d d' e more h = h

  pub taken-grown :
      (t : CcidTransport S) (frame rest more : List ℕ)
      → let left : CcidTransport S = (taken t (whole frame rest)).0 in
        let left' : CcidTransport S = (taken (extend more t) (whole frame (rest ++ more))).0 in
        left' ≡ grown more left'.state left'.next_frame_len left
  unfolding update_state
  taken-grown t frame rest more = ground arith

module _ {S : Type 0} (nfc : NfcReader S) where
  run_command-Follows :
      (t : CcidTransport S) (c : CcidCommand) (more : List ℕ) (s : TransportState) (n : Option ℕ)
      → t.control_abort ≡ none
      → Follows more (run_command nfc t c) (run_command nfc (grown more s n t) c)
  unfolding run_command call_bridge
  run_command-Follows t (abort slot seq) more s n e = (refl, refl, e)
  run_command-Follows t c more s n e = locked t.bridge.poisoned _ _ _ _ _ more (
      answered-Follows (record t { bulk_abort = none }) (handle_command nfc t.bridge.inner c) more s
        n e)

  dispatch-Follows :
      (pending : Option (ℕ × ℕ)) (t : CcidTransport S) (c : CcidCommand) (more : List ℕ)
      (s : TransportState) (n : Option ℕ)
      → pending ≡ none
      → t.control_abort ≡ none
      → Follows more (dispatch nfc pending t c) (dispatch nfc pending (grown more s n t) c)
  unfolding dispatch
  dispatch-Follows none t c more s n p e = run_command-Follows t c more s n e
  dispatch-Follows (some a) t c more s n p e = cc

  pub process_frame-Follows :
      (t : CcidTransport S) (frame more : List ℕ) (s : TransportState) (n : Option ℕ)
      → t.control_abort ≡ none
      → Follows more (process_frame nfc t frame) (process_frame nfc (grown more s n t) frame)
  unfolding process_frame
  process_frame-Follows t frame more s n e = decoded (decode frame)
    where
      decoded :
          (r : Result CcidProtocolError CcidCommand)
          → Follows more
              (and_then (t, map_err decode_error r) (λ c t'. dispatch nfc t'.control_abort t' c))
              (and_then
                (grown more s n t, map_err decode_error r)
                (λ c t'. dispatch nfc t'.control_abort t' c))
      decoded (ok c) = dispatch-Follows t.control_abort t c more s n e e
      decoded (err x) = tt
      decoded panic = tt
      decoded stuck = tt
