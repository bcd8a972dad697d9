-- ===== src/Transport/State.antt =====
-- src/ccid/transport.rs: the state of the transport, and the operations on its queues. Queues have
-- their front first.
use vusbipd_ccid.Base.{
  ℕ, Bool, true, false, not, Option, none, List, [], ◌∷◌, ◌++◌, length, is_empty, bytes_eq, leb,
  if◌then◌else◌,
}
use vusbipd_ccid.Base.Result.{Result, ok, err, panic, stuck, ◌>>=◌, index}
use vusbipd_ccid.Base.Bytes.{u32_from_le_bytes}
use vusbipd_ccid.Base.Text.{Message, plain}
use vusbipd_ccid.Bridge.{CcidBridge}
use vusbipd_ccid.Protocol.{CcidResponse, encode}

abbrev pub ccid_max_message_length : ℕ
ccid_max_message_length = 3072

abbrev pub max_pending_in_frames : ℕ
max_pending_in_frames = 32

abbrev pub ccid_notify_slot_change : ℕ
ccid_notify_slot_change = 0x50

pub data TransportState : Type 0 where
  idle receiving ready_to_send : TransportState

-- `std::io::Error`
pub data ErrorKind : Type 0 where
  unsupported invalid_data other : ErrorKind

pub record IoError : Type 0 where
  pub kind : ErrorKind
  pub message : Message

-- `std::sync::Mutex`: a panic of the thread that holds the lock poisons it, and then `lock` fails.
pub record Mutex (A : Type 0) : Type 0 where
  pub poisoned : Bool
  pub inner : A

-- The only handle of the bridge that is in use is the transport's, so the shared bridge is a field.
pub record CcidTransport (S : Type 0) : Type 0 where
  pub bridge : Mutex (CcidBridge S)
  pub state : TransportState
  pub pending_in_frames : List (List ℕ)
  pub pending_interrupt_frames : List (List ℕ)
  pub pending_out_buffer : List ℕ
  pub next_frame_len : Option ℕ
  pub slot_present : Bool
  pub bulk_abort : Option ℕ
  pub control_abort : Option (ℕ × ℕ)

-- The transport after a call, and what the call gives.
abbrev pub Done : Type 0 → Type 0 → Type 0
Done S A = CcidTransport S × Result IoError A

-- `?` on a call that changes the transport: only a value goes on.
abbrev pub and_then : {S A B : Type 0} → Done S A → (A → CcidTransport S → Done S B) → Done S B
and_then (t, ok a) f = f a t
and_then (t, err e) f = (t, err e)
and_then (t, panic) f = (t, panic)
and_then (t, stuck) f = (t, stuck)

abbrev pub lock_poisoned : IoError
lock_poisoned = record { kind = other; message = plain "CCID bridge lock poisoned" }

-- The length field of a header.
unfoldable pub declared_len : List ℕ → Result IoError ℕ
declared_len buffer = do
  l0 ← index buffer 1
  l1 ← index buffer 2
  l2 ← index buffer 3
  l3 ← index buffer 4
  ok (u32_from_le_bytes l0 l1 l2 l3)

-- `pending_in_frames.back() == Some(frame)`
unfoldable pub back_is : List (List ℕ) → List ℕ → Bool
back_is [] frame = false
back_is (f ∷ []) frame = bytes_eq f frame
back_is (f ∷ g ∷ fs) frame = back_is (g ∷ fs) frame

module _ {S : Type 0} where
  unfoldable pub new : Mutex (CcidBridge S) → CcidTransport S
  new bridge = record {
    bridge = bridge;
    state = idle;
    pending_in_frames = [];
    pending_interrupt_frames = [];
    pending_out_buffer = [];
    next_frame_len = none;
    slot_present = false;
    bulk_abort = none;
    control_abort = none;
  }

  unfoldable pub update_state : CcidTransport S → CcidTransport S
  update_state t =
      if not (is_empty t.pending_in_frames)
      then record t { state = ready_to_send }
      else if is_empty t.pending_out_buffer
      then record t { next_frame_len = none; state = idle }
      else record t { state = receiving }

  unfoldable pub update_slot_presence : CcidTransport S → Bool → CcidTransport S
  update_slot_presence t true =
      if t.slot_present
      then record t {
        pending_interrupt_frames =
            t.pending_interrupt_frames ++ (ccid_notify_slot_change ∷ 0b0000_0001 ∷ []) ∷ [];
      }
      else record t {
        slot_present = true;
        pending_interrupt_frames =
            t.pending_interrupt_frames ++ (ccid_notify_slot_change ∷ 0b0000_0011 ∷ []) ∷ [];
      }
  update_slot_presence t false =
      if not t.slot_present
      then record t {
        pending_interrupt_frames =
            t.pending_interrupt_frames ++ (ccid_notify_slot_change ∷ 0b0000_0000 ∷ []) ∷ [];
      }
      else record t {
        slot_present = false;
        pending_interrupt_frames =
            t.pending_interrupt_frames ++ (ccid_notify_slot_change ∷ 0b0000_0010 ∷ []) ∷ [];
      }

  -- A response equal to the last one queued is dropped, and a full queue is emptied first.
  unfoldable pub push_in_frame : CcidTransport S → List ℕ → CcidTransport S
  push_in_frame t frame =
      if back_is t.pending_in_frames frame
      then t
      else if leb max_pending_in_frames (length t.pending_in_frames)
      then record t { pending_in_frames = frame ∷ [] }
      else record t { pending_in_frames = t.pending_in_frames ++ frame ∷ [] }

  unfoldable pub enqueue_response : CcidTransport S → CcidResponse → Bool → CcidTransport S
  unfolding push_in_frame update_slot_presence update_state
  enqueue_response t response card_present =
      update_state (update_slot_presence (push_in_frame t (encode response)) card_present)
