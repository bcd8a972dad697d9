-- ===== src/Transport/Access/Bulk.antt =====
-- What the bulk requests keep of the bridge.
use vusbipd_ccid.Base.{
  ℕ, zero, suc, ◌≡◌, refl, ◌++◌, Option, none, some, List, [], arith, if_cases, ◌∷◌, ltb, length,
}
use vusbipd_ccid.Base.Result.{Result, ok, err, panic, stuck, map_err}
use vusbipd_ccid.Nfc.{NfcReader}
use vusbipd_ccid.Protocol.{CcidCommand, CcidProtocolError, abort, decode}
use vusbipd_ccid.Bridge.{CcidBridge}
use vusbipd_ccid.Transport.State.{CcidTransport, Mutex, Done, update_state, and_then}
use vusbipd_ccid.Transport.{
  decode_error, is_abort_of, run_command, dispatch, process_frame, round, bulk_out_loop,
  handle_bulk_out, handle_bulk_in, try_take_complete_frame, read_frame_len, frame_len, take_frame,
  serve,
}
use vusbipd_ccid.Transport.Access.{
  IsKept, Kept, Keeps, and_then-Keeps, update_state-Keeps, queue_aborted_response-Keeps,
  enqueued-Keeps, finish_abort-Keeps, call_bridge-Keeps,
}

module _ {S : Type 0} (nfc : NfcReader S) {Sent : CcidCommand → Type 0} {Holds : List ℕ → Type 0}
    (Q : Mutex (CcidBridge S) → Type 0) (kept : IsKept nfc Sent Holds Q) where
  run_command-Keeps :
      (t : CcidTransport S) (c : CcidCommand)
      → Sent c
      → Kept nfc Q kept t
      → Keeps nfc Q kept (run_command nfc t c)
  unfolding run_command
  run_command-Keeps t (abort slot seq) s h = h
  run_command-Keeps t c s h = enqueued-Keeps nfc Q kept _ (call_bridge-Keeps nfc Q kept _ c s h)

  dispatch-Keeps :
      (pending : Option (ℕ × ℕ)) (t : CcidTransport S) (c : CcidCommand)
      → Sent c
      → Kept nfc Q kept t
      → Keeps nfc Q kept (dispatch nfc pending t c)
  unfolding dispatch
  dispatch-Keeps none t c s h = run_command-Keeps t c s h
  dispatch-Keeps (some (slot, seq)) t c s h =
      if_cases (λ (d : Done S (Unit {0})). Keeps nfc Q kept d) (is_abort_of c slot seq)
        (λ _. finish_abort-Keeps nfc Q kept t slot seq h)
        (λ _. queue_aborted_response-Keeps nfc Q kept t c h)

  -- What a frame decodes to was sent.
  abbrev Comes : List ℕ → Type 0
  Comes frame = (c : CcidCommand) → decode frame ≡ ok c → Sent c

  decoded-Keeps :
      (t : CcidTransport S) (r : Result CcidProtocolError CcidCommand)
      → Kept nfc Q kept t
      → ((c : CcidCommand) → r ≡ ok c → Sent c)
      → Keeps nfc Q kept {A = Unit {0}} (
          and_then {A = CcidCommand}
            (t, map_err decode_error r)
            (λ c t'. dispatch nfc t'.control_abort t' c))
  decoded-Keeps t (ok c) h s = dispatch-Keeps t.control_abort t c (s c refl) h
  decoded-Keeps t (err e) h s = h
  decoded-Keeps t panic h s = h
  decoded-Keeps t stuck h s = h

  process_frame-Keeps :
      (t : CcidTransport S) (frame : List ℕ)
      → Comes frame
      → Kept nfc Q kept t
      → Keeps nfc Q kept (process_frame nfc t frame)
  unfolding process_frame
  process_frame-Keeps t frame s h = decoded-Keeps t (decode frame) h s

  read_frame_len-Keeps :
      (t : CcidTransport S) → Kept nfc Q kept t → Keeps nfc Q kept (read_frame_len t)
  unfolding read_frame_len update_state
  read_frame_len-Keeps t h = ground (arith, kept.cleared t.pending_out_buffer h.1)

  frame_len-Keeps : (t : CcidTransport S) → Kept nfc Q kept t → Keeps nfc Q kept (frame_len t)
  unfolding frame_len
  frame_len-Keeps t h =
      elim t.next_frame_len
        as (λ n. Keeps nfc Q kept (elim n [ some n ↦ (t, ok n) | none ↦ read_frame_len t ])) [
          | some n ↦ h
          | none ↦ read_frame_len-Keeps t h
        ]

  -- A frame that was taken was sent.
  Taken : Done S (Option (List ℕ)) → Type 0
  Taken (t, ok (some frame)) = Kept nfc Q kept t × Comes frame
  Taken (t, x) = Kept nfc Q kept t

  take_frame-Taken : (n : ℕ) (t : CcidTransport S) → Kept nfc Q kept t → Taken (take_frame n t)
  unfolding take_frame Taken
  take_frame-Taken n t h =
      if_cases Taken (ltb (length t.pending_out_buffer) n) (λ _. update_state-Keeps nfc Q kept t h)
        (λ _. (
          update_state-Keeps nfc Q kept _ (h.0, kept.dropped n t.pending_out_buffer h.1),
          λ c e. kept.decoded n t.pending_out_buffer c h.1 e,
        ))

  and_then-Taken : (m : Done S ℕ) → Keeps nfc Q kept m → Taken (and_then m take_frame)
  unfolding Taken
  and_then-Taken (t, ok n) h = take_frame-Taken n t h
  and_then-Taken (t, err e) h = h
  and_then-Taken (t, panic) h = h
  and_then-Taken (t, stuck) h = h

  try_take-Taken : (t : CcidTransport S) → Kept nfc Q kept t → Taken (try_take_complete_frame t)
  unfolding try_take_complete_frame Taken
  try_take-Taken t h =
      if_cases Taken (ltb (length t.pending_out_buffer) 10) (λ _. update_state-Keeps nfc Q kept _ h)
        (λ _. and_then-Taken (frame_len t) (frame_len-Keeps t h))

  round-Keeps :
      (again : CcidTransport S → Done S (Unit {0})) (d : Done S (Option (List ℕ)))
      → Taken d
      → ((u : CcidTransport S) → Kept nfc Q kept u → Keeps nfc Q kept (again u))
      → Keeps nfc Q kept (round nfc again d)
  unfolding round Taken
  round-Keeps again (t, ok none) h k = h
  round-Keeps again (t, ok (some frame)) (h, s) k =
      and_then-Keeps nfc Q kept (process_frame nfc t frame) _ (process_frame-Keeps t frame s h)
        (λ _ u l. k u l)
  round-Keeps again (t, err e) h k = h
  round-Keeps again (t, panic) h k = h
  round-Keeps again (t, stuck) h k = h

  bulk_out_loop-Keeps :
      (fuel : ℕ) (t : CcidTransport S)
      → Kept nfc Q kept t
      → Keeps nfc Q kept (bulk_out_loop nfc fuel t)
  unfolding bulk_out_loop
  bulk_out_loop-Keeps zero t h = h
  bulk_out_loop-Keeps (suc fuel) t h =
      round-Keeps (bulk_out_loop nfc fuel) _ (try_take-Taken t h) (λ u. bulk_out_loop-Keeps fuel u)

  pub handle_bulk_out-Keeps :
      (t : CcidTransport S) (payload : List ℕ)
      → Q t.bridge
      → Holds (t.pending_out_buffer ++ payload)
      → Keeps nfc Q kept (handle_bulk_out nfc t payload)
  unfolding handle_bulk_out
  handle_bulk_out-Keeps t payload h l =
      bulk_out_loop-Keeps _ _ (update_state-Keeps nfc Q kept _ (h, l))

  serve-Keeps :
      (t : CcidTransport S) (frames : List (List ℕ)) (max_len : ℕ)
      → Kept nfc Q kept t
      → Kept nfc Q kept (serve t frames max_len).0
  unfolding serve update_state
  serve-Keeps t [] max_len h = ground arith
  serve-Keeps t (frame ∷ rest) max_len h = ground arith

  pub handle_bulk_in-Keeps :
      (t : CcidTransport S) (max_len : ℕ)
      → Kept nfc Q kept t
      → Kept nfc Q kept (handle_bulk_in t max_len).0
  unfolding handle_bulk_in
  handle_bulk_in-Keeps t max_len h = serve-Keeps t t.pending_in_frames max_len h
