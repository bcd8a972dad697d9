-- ===== src/Transport/Progress.antt =====
-- `handle_bulk_out` comes to an end, and what it can end with.
use vusbipd_ccid.Base.{
  ℕ, zero, suc, ◌+◌, ◌≤◌, ◌<◌, ◌≡◌, ◌≢◌, refl, ◌∙◌, ap, Bool, true, false, Option, none, some, List,
  length, arith, length-append, if_cases,
}
use vusbipd_ccid.Base.Result.{Result, ok, err, panic, stuck}
use vusbipd_ccid.Nfc.{NfcReader}
use vusbipd_ccid.Protocol.{CcidCommand, CcidResponse, abort, encode}
use vusbipd_ccid.Bridge.{Handled}
use vusbipd_ccid.Bridge.Select.{handle_command-ne-stuck}
use vusbipd_ccid.Transport.State.{
  CcidTransport, IoError, Done, and_then, update_state, update_slot_presence, push_in_frame,
  enqueue_response,
}
use vusbipd_ccid.Transport.{
  bridge_answered, enqueue, is_abort_of, queue_aborted_response, run_command, dispatch,
  process_frame, round, bulk_out_loop, handle_bulk_out,
}
use vusbipd_ccid.Transport.Frames.{
  Cut, wait, too_long, whole, cut, cut_whole, cut_too_long, taken, try_take-cut, decode_framed,
  declared, too_long_error,
}
use vusbipd_ccid.Transport.Invariant.{Inv, taken-Inv}
use vusbipd_ccid.Transport.Kept.{
  Sound, finish_abort_free, cleared, taken_poisoned, update_state_poisoned, appended-Inv,
}
use vusbipd_ccid.Transport.Requests.{process_frame-Sound}

-- What the loop may end with: success, the refusal of a length that a header states, or a panic of
-- the bridge. Not: another error, or no end.
abbrev pub Expected : Result IoError (Unit {0}) → Type 0
Expected (ok u) = Unit
Expected (err e) = (n : ℕ) × (e ≡ too_long_error n) × (3082 < n)
Expected panic = Unit
Expected stuck = ⊥

-- A command is carried out, or the bridge panics; the buffer does not grow.
abbrev pub Advances : {S : Type 0} → ℕ → Done S (Unit {0}) → Type 0
Advances n (t, ok u) = length t.pending_out_buffer ≤ n
Advances n (t, err e) = ⊥
Advances n (t, panic) = Unit
Advances n (t, stuck) = ⊥

module _ {S : Type 0} where
  pub taken_buffer :
      (t : CcidTransport S) (frame rest : List ℕ)
      → (taken t (whole frame rest)).0.pending_out_buffer ≡ rest
  unfolding update_state
  taken_buffer t frame rest = ground arith

  announce_buffer :
      (t : CcidTransport S) (frame : List ℕ) (present : Bool)
      → (update_state (update_slot_presence (push_in_frame t frame) present)).pending_out_buffer
        ≡ t.pending_out_buffer
  unfolding update_state update_slot_presence push_in_frame
  announce_buffer t frame true = ground arith
  announce_buffer t frame false = ground arith

  enqueue_response_buffer :
      (t : CcidTransport S) (r : CcidResponse) (present : Bool)
      → (enqueue_response t r present).pending_out_buffer ≡ t.pending_out_buffer
  unfolding enqueue_response
  enqueue_response_buffer t r present = announce_buffer t (encode r) present

  queue_aborted_response-Advances :
      (t : CcidTransport S) (c : CcidCommand)
      → t.bridge.poisoned ≡ false
      → Advances (length t.pending_out_buffer) (queue_aborted_response t c)
  unfolding queue_aborted_response
  queue_aborted_response-Advances t c p =
      if_cases (Advances (length t.pending_out_buffer)) t.bridge.poisoned (λ q. cc)
        (λ q. omega (arith, ap (λ (l : List ℕ). length l) (announce_buffer t _ _)))

  answered-Advances :
      (t : CcidTransport S) (h : Handled S)
      → h.1 ≢ stuck
      → Advances (length t.pending_out_buffer) (and_then (bridge_answered t h) enqueue)
  unfolding bridge_answered enqueue_response
  answered-Advances t (b, ok r) n =
      omega (arith, ap (λ (l : List ℕ). length l) (announce_buffer _ (encode r) _))
  answered-Advances t (b, err e) n = elim e [ ]
  answered-Advances t (b, panic) n = tt
  answered-Advances t (b, stuck) n = n refl

module _ {S : Type 0} (nfc : NfcReader S) where
  run_command-Advances :
      (t : CcidTransport S) (c : CcidCommand)
      → t.bridge.poisoned ≡ false
      → Advances (length t.pending_out_buffer) (run_command nfc t c)
  unfolding run_command
  run_command-Advances t (abort slot seq) p = omega arith
  run_command-Advances t c p =
      if_cases
        (λ (d : Done S (CcidResponse × Bool)).
          Advances (length t.pending_out_buffer) (and_then d enqueue))
        t.bridge.poisoned (λ q. cc)
        (λ _. answered-Advances _ _ (handle_command-ne-stuck nfc t.bridge.inner c))

  dispatch-Advances :
      (pending : Option (ℕ × ℕ)) (t : CcidTransport S) (c : CcidCommand)
      → t.bridge.poisoned ≡ false
      → Advances (length t.pending_out_buffer) (dispatch nfc pending t c)
  unfolding dispatch
  dispatch-Advances none t c p = run_command-Advances t c p
  dispatch-Advances (some (slot, seq)) t c p =
      if_cases (Advances (length t.pending_out_buffer)) (is_abort_of c slot seq)
        (λ _.
          rw (finish_abort_free nfc t slot seq p) (
            omega (arith, ap (λ (l : List ℕ). length l) (enqueue_response_buffer (cleared t) _ _))))
        (λ _. queue_aborted_response-Advances t c p)

  pub process_frame-Advances :
      (t : CcidTransport S) (frame : List ℕ)
      → t.bridge.poisoned ≡ false
      → 10 ≤ length frame
      → length frame ≡ 10 + declared frame
      → Advances (length t.pending_out_buffer) (process_frame nfc t frame)
  unfolding process_frame
  process_frame-Advances t frame p long fits =
      let (c, e) = decode_framed frame long fits in rw e (dispatch-Advances t.control_abort t c p)

  and_then-Expected :
      (d : Done S (Unit {0})) (again : CcidTransport S → Done S (Unit {0})) (n : ℕ)
      → Sound d
      → Advances n d
      → ((u : CcidTransport S)
          → Inv u
          → u.bridge.poisoned ≡ false
          → length u.pending_out_buffer ≤ n
          → Expected (again u).1)
      → Expected (and_then d (λ _ u. again u)).1
  and_then-Expected (t, ok u) again n s a h = h t s.0 s.1 a
  and_then-Expected (t, err e) again n s a h = elim a [ ]
  and_then-Expected (t, panic) again n s a h = tt
  and_then-Expected (t, stuck) again n s a h = a

  round-Expected :
      (again : CcidTransport S → Done S (Unit {0})) (t : CcidTransport S) (k : Cut) (n : ℕ)
      → cut t.pending_out_buffer ≡ k
      → Inv (taken t k).0
      → t.bridge.poisoned ≡ false
      → length t.pending_out_buffer < suc n
      → ((u : CcidTransport S)
          → Inv u
          → u.bridge.poisoned ≡ false
          → length u.pending_out_buffer < n
          → Expected (again u).1)
      → Expected (round nfc again (taken t k)).1
  unfolding round
  round-Expected again t wait n e i p l h = tt
  round-Expected again t (too_long m) n e i p l h = (m, refl, cut_too_long t.pending_out_buffer m e)
  round-Expected again t (whole frame rest) n e i p l h =
      let (same, long, fits) = cut_whole t.pending_out_buffer frame rest e in
      let left : CcidTransport S = (taken t (whole frame rest)).0 in
      let q : left.bridge.poisoned ≡ false = taken_poisoned t (whole frame rest) ∙ p in
      and_then-Expected (process_frame nfc left frame) again (length left.pending_out_buffer)
        (process_frame-Sound nfc left frame i q) (process_frame-Advances left frame q long fits)
        (λ u i' p' h'. h u i' p' (
          omega (
            arith,
            ap (λ (l : List ℕ). length l) same,
            length-append frame rest,
            ap (λ (l : List ℕ). length l) (taken_buffer t frame rest),
          )))

  bulk_out_loop-Expected :
      (fuel : ℕ) (t : CcidTransport S)
      → Inv t
      → t.bridge.poisoned ≡ false
      → length t.pending_out_buffer < fuel
      → Expected (bulk_out_loop nfc fuel t).1
  unfolding bulk_out_loop
  bulk_out_loop-Expected zero t i p h = absurd (omega arith)
  bulk_out_loop-Expected (suc fuel) t i p h = rw (try_take-cut t i.core.cached) (
      round-Expected (bulk_out_loop nfc fuel) t (cut t.pending_out_buffer) fuel refl
        (taken-Inv t i.core) p h (λ u i' p' h'. bulk_out_loop-Expected fuel u i' p' h'))

  -- From a valid transport with a lock that is not poisoned `handle_bulk_out` comes to an end on
  -- every input. It succeeds, fails on a header that states more than 3072 bytes of payload, or
  -- panics; there is no other error.
  pub handle_bulk_out-Expected :
      (t : CcidTransport S) (payload : List ℕ)
      → Inv t
      → t.bridge.poisoned ≡ false
      → Expected (handle_bulk_out nfc t payload).1
  unfolding handle_bulk_out
  handle_bulk_out-Expected t payload i p =
      bulk_out_loop-Expected _ _ (appended-Inv t payload i) (update_state_poisoned _ ∙ p)
        (omega arith)
