-- ===== src/Transport/Kept.antt =====
-- What a call keeps, and the steps that the requests share.
use vusbipd_ccid.Base.{ℕ, ◌≡◌, ◌∙◌, Bool, true, false, none, List, [], ◌++◌, arith, if_cases}
use vusbipd_ccid.Base.Result.{ok, err, panic, stuck}
use vusbipd_ccid.Nfc.{NfcReader}
use vusbipd_ccid.Protocol.{CcidCommand, CcidResponse, encode, slot_status, ok_status}
use vusbipd_ccid.Bridge.{handle_command, current_icc_status, card_present}
use vusbipd_ccid.Transport.State.{
  CcidTransport, Done, and_then, update_state, update_slot_presence, push_in_frame,
  enqueue_response,
}
use vusbipd_ccid.Transport.{finish_abort, queue_aborted_response}
use vusbipd_ccid.Transport.Frames.{Cut, wait, too_long, whole, taken, Cached-append}
use vusbipd_ccid.Transport.Invariant.{Core, Inv, update_state-Inv, announce-Inv}

-- The invariant after a call, with a lock that is not poisoned if the call gives a value.
abbrev pub Sound : {S A : Type 0} → Done S A → Type 0
Sound (t, ok a) = Inv t × (t.bridge.poisoned ≡ false)
Sound (t, other) = Inv t

pub and_then-Sound :
    {S A B : Type 0} (m : Done S A) (f : A → CcidTransport S → Done S B)
    → Sound m
    → ((a : A) (t : CcidTransport S) → Inv t → t.bridge.poisoned ≡ false → Sound (f a t))
    → Sound (and_then m f)
and_then-Sound (t, ok a) f h k = k a t h.0 h.1
and_then-Sound (t, err e) f h k = h
and_then-Sound (t, panic) f h k = h
and_then-Sound (t, stuck) f h k = h

pub Sound-Inv : {S A : Type 0} (d : Done S A) → Sound d → Inv d.0
Sound-Inv (t, ok a) h = h.0
Sound-Inv (t, err e) h = h
Sound-Inv (t, panic) h = h
Sound-Inv (t, stuck) h = h

module _ {S : Type 0} where
  -- More bytes in the buffer.
  pub appended-Inv :
      (t : CcidTransport S) (payload : List ℕ)
      → Inv t
      → Inv (update_state (record t { pending_out_buffer = t.pending_out_buffer ++ payload }))
  appended-Inv t payload i = update_state-Inv _ (record {
    bounded = i.core.bounded;
    cached = Cached-append t.next_frame_len t.pending_out_buffer payload i.core.cached;
    for_zero = i.core.for_zero;
    valid = i.core.valid;
  })

  pub update_state_poisoned :
      (t : CcidTransport S) → (update_state t).bridge.poisoned ≡ t.bridge.poisoned
  unfolding update_state
  update_state_poisoned t = ground arith

  pub taken_poisoned :
      (t : CcidTransport S) (k : Cut) → (taken t k).0.bridge.poisoned ≡ t.bridge.poisoned
  unfolding update_state
  taken_poisoned t wait = ground arith
  taken_poisoned t (too_long n) = ground arith
  taken_poisoned t (whole frame rest) = ground arith

  announce_poisoned :
      (t : CcidTransport S) (frame : List ℕ) (present : Bool)
      → (update_state (update_slot_presence (push_in_frame t frame) present)).bridge.poisoned
        ≡ t.bridge.poisoned
  unfolding update_state update_slot_presence push_in_frame
  announce_poisoned t frame true = ground arith
  announce_poisoned t frame false = ground arith

  pub enqueue_response-Sound :
      (t : CcidTransport S) (r : CcidResponse) (present : Bool)
      → Core t
      → t.bridge.poisoned ≡ false
      → Inv (enqueue_response t r present)
        × ((enqueue_response t r present).bridge.poisoned ≡ false)
  unfolding enqueue_response
  enqueue_response-Sound t r present c p =
      (announce-Inv t (encode r) present c, announce_poisoned t (encode r) present ∙ p)

  pub queue_aborted_response-Sound :
      (t : CcidTransport S) (c : CcidCommand)
      → Inv t
      → t.bridge.poisoned ≡ false
      → Sound (queue_aborted_response t c)
  unfolding queue_aborted_response
  queue_aborted_response-Sound t c v p =
      if_cases Sound t.bridge.poisoned (λ _. v)
        (λ _. (announce-Inv t _ _ v.core, announce_poisoned t _ _ ∙ p))

module _ {S : Type 0} where
  abbrev pub cleared : CcidTransport S → CcidTransport S
  cleared t = record t {
    bulk_abort = none;
    control_abort = none;
    pending_out_buffer = [];
    next_frame_len = none;
    pending_in_frames = [];
    bridge = record { poisoned = false; inner = t.bridge.inner };
  }

module _ {S : Type 0} (nfc : NfcReader S) where
  -- With the lock at hand an abort is finished: everything pending is gone but its own answer.
  pub finish_abort_free :
      (t : CcidTransport S) (slot seq : ℕ)
      → t.bridge.poisoned ≡ false
      → finish_abort nfc t slot seq ≡ (
        enqueue_response
            (cleared t)
            (slot_status slot seq (ok_status (current_icc_status t.bridge.inner)) 0 0)
            (card_present t.bridge.inner),
        ok tt,
      )
  unfolding finish_abort handle_command
  finish_abort_free t slot seq p = ground arith
