-- ===== src/Transport/Invariant.antt =====
-- The invariant of the transport, kept by every request, also by one that fails or panics.
use vusbipd_ccid.Base.{
  ℕ, ◌≤◌, ◌≡◌, refl, Bool, true, false, Option, none, some, List, [], ◌∷◌, length, arith,
  length-append, if_cases, leb,
}
use vusbipd_ccid.Protocol.{CcidResponse, encode}
use vusbipd_ccid.Bridge.Slot.{IsValid}
use vusbipd_ccid.Transport.State.{
  CcidTransport, TransportState, idle, receiving, ready_to_send, update_state, update_slot_presence,
  push_in_frame, enqueue_response,
}
use vusbipd_ccid.Transport.{handle_bulk_in, serve}
use vusbipd_ccid.Transport.Frames.{Cached, cut, taken}

-- The state that the queue and the buffer call for.
abbrev pub state_of : List (List ℕ) → List ℕ → TransportState
state_of (f ∷ fs) buffer = ready_to_send
state_of [] [] = idle
state_of [] (b ∷ bs) = receiving

abbrev pub ForSlotZero : Option (ℕ × ℕ) → Type 0
ForSlotZero none = Unit
ForSlotZero (some (slot, seq)) = slot ≡ 0

-- What holds within a request too: the queue is bounded, a kept length is right, a pending control
-- abort is for slot 0, and the bridge is valid.
pub record Core {S : Type 0} (t : CcidTransport S) : Type 0 where
  pub bounded : length t.pending_in_frames ≤ 32
  pub cached : Cached t.next_frame_len t.pending_out_buffer
  pub for_zero : ForSlotZero t.control_abort
  pub valid : IsValid t.bridge.inner

-- Between requests the state says what the queue and the buffer hold.
pub record Inv {S : Type 0} (t : CcidTransport S) : Type 0 where
  pub core : Core t
  pub state_fits : t.state ≡ state_of t.pending_in_frames t.pending_out_buffer

module _ {S : Type 0} where
  pub update_state-Inv : (t : CcidTransport S) → Core t → Inv (update_state t)
  unfolding update_state
  update_state-Inv t c = ground arith

  pub push_in_frame-Core :
      (t : CcidTransport S) (frame : List ℕ) → Core t → Core (push_in_frame t frame)
  unfolding push_in_frame
  push_in_frame-Core t frame c = ground (arith, length-append t.pending_in_frames (frame ∷ []))

  pub update_slot_presence-Core :
      (t : CcidTransport S) (present : Bool) → Core t → Core (update_slot_presence t present)
  unfolding update_slot_presence
  update_slot_presence-Core t true c = ground arith
  update_slot_presence-Core t false c = ground arith

  pub announce-Inv :
      (t : CcidTransport S) (frame : List ℕ) (present : Bool)
      → Core t
      → Inv (update_state (update_slot_presence (push_in_frame t frame) present))
  announce-Inv t frame present c =
      update_state-Inv _ (update_slot_presence-Core _ present (push_in_frame-Core t frame c))

  enqueue_response-Inv :
      (t : CcidTransport S) (r : CcidResponse) (present : Bool)
      → Core t
      → Inv (enqueue_response t r present)
  unfolding enqueue_response
  enqueue_response-Inv t r present c = announce-Inv t (encode r) present c

  pub taken-Inv : (t : CcidTransport S) → Core t → Inv (taken t (cut t.pending_out_buffer)).0
  unfolding cut update_state
  taken-Inv t v = ground arith

  serve-Inv :
      (t : CcidTransport S) (fs : List (List ℕ)) (max_len : ℕ)
      → t.pending_in_frames ≡ fs
      → Inv t
      → Inv (serve t fs max_len).0
  unfolding serve
  serve-Inv t [] max_len e v = update_state-Inv t v.core
  serve-Inv t (f ∷ fs) max_len e v =
      let few : length (f ∷ fs) ≤ 32 = rw e at v.core.bounded in
      if_cases (λ (d : CcidTransport S × List ℕ). Inv d.0) (leb (length f) max_len)
        (λ _. update_state-Inv _ (
          if_cases (λ (fs' : List (List ℕ)). Core (record t { pending_in_frames = fs' })) _
            {x = [] ∷ fs} {y = fs} (λ _. ground arith) (λ _. ground arith)))
        (λ _. update_state-Inv _ (ground arith))

  -- A bulk IN request of any length leaves a valid transport valid.
  pub handle_bulk_in-Inv :
      (t : CcidTransport S) (max_len : ℕ) → Inv t → Inv (handle_bulk_in t max_len).0
  unfolding handle_bulk_in
  handle_bulk_in-Inv t max_len v = serve-Inv t t.pending_in_frames max_len refl v
