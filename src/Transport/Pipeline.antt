-- ===== src/Transport/Pipeline.antt =====
-- Several messages of the host before it reads a response.
use mathlib.Core.Path.{subst}
use vusbipd_ccid.Base.{
  ℕ, ◌≤◌, ◌≡◌, ◌≢◌, ◌∙◌, ap, sym, false, none, List, [], ◌∷◌, ◌++◌, length, arith,
}
use vusbipd_ccid.Base.Result.{Result, ok}
use vusbipd_ccid.Nfc.{NfcReader}
use vusbipd_ccid.Protocol.{CcidCommand, CcidResponse, encode}
use vusbipd_ccid.Protocol.Layout.{RawFrame, raw_bytes, Means}
use vusbipd_ccid.Bridge.{CcidBridge, handle_command}
use vusbipd_ccid.Transport.State.{Mutex, CcidTransport, Done, IoError, update_state}
use vusbipd_ccid.Transport.{handle_bulk_out}
use vusbipd_ccid.Transport.Invariant.{Inv}
use vusbipd_ccid.Transport.Kept.{Sound}
use vusbipd_ccid.Transport.Requests.{handle_bulk_out-Sound}
use vusbipd_ccid.Transport.Follow.{extend}
use vusbipd_ccid.Transport.Stream.{handle_bulk_out-eq, handle_bulk_out-append}
use vusbipd_ccid.Transport.Delivered.{Delivered, queued, bulk_out-Delivered, bulk_out_loop_rest}

-- The bytes of messages, one behind the other.
abbrev pub message_bytes : List RawFrame → List ℕ
message_bytes [] = []
message_bytes (r ∷ rs) = raw_bytes r ++ message_bytes rs

-- The queue behind several responses.
abbrev pub queue_all : List (List ℕ) → List CcidResponse → List (List ℕ)
queue_all frames [] = frames
queue_all frames (r ∷ rs) = queue_all (queued frames (encode r)) rs

-- The transport after messages that are answered.
unfoldable pub AllDelivered :
    {S : Type 0} → List (List ℕ) → CcidBridge S → List CcidResponse → Done S (Unit {0}) → Type 0
AllDelivered frames b responses d =
    (d.1 ≡ ok tt)
    × (d.0.pending_in_frames ≡ queue_all frames responses)
    × (d.0.pending_out_buffer ≡ [])
    × (d.0.control_abort ≡ none)
    × (d.0.bridge ≡ record { poisoned = false; inner = b })

module _ {S : Type 0} (nfc : NfcReader S) where
  -- The bridge alone handles messages, none of them an abort, one after the other: its responses, and
  -- the bridge after them.
  pub data Handles : CcidBridge S → List RawFrame → List CcidResponse → CcidBridge S → Type 0 where
    handled_none : {b : CcidBridge S} → Handles b [] [] b
    handled :
        {b b₁ b₂ : CcidBridge S} {r : RawFrame} {c : CcidCommand} {response : CcidResponse}
        {rs : List RawFrame} {responses : List CcidResponse}
        → length r.payload ≤ 3072
        → r.message_type ≢ 0x72
        → Means r c
        → handle_command nfc b c ≡ (b₁, ok response)
        → Handles b₁ rs responses b₂
        → Handles b (r ∷ rs) (response ∷ responses) b₂

  nothing-AllDelivered :
      (t : CcidTransport S) {b : CcidBridge S}
      → Inv t
      → t.pending_out_buffer ≡ []
      → t.control_abort ≡ none
      → t.bridge ≡ record { poisoned = false; inner = b }
      → AllDelivered t.pending_in_frames b [] (handle_bulk_out nfc t [])
  unfolding AllDelivered update_state
  nothing-AllDelivered t i out free same =
      let u : CcidTransport S = extend [] t in
      let none_left : u.pending_out_buffer ≡ [] = ap (λ (l : List ℕ). l ++ []) out in
      ground (
        arith,
        handle_bulk_out-eq nfc t [] i,
        bulk_out_loop_rest nfc (length u.pending_out_buffer) u none_left,
        none_left,
        free,
        same,
      )

  -- From a valid transport with a usable lock, an empty buffer and no control abort: messages that
  -- come in one packet, none an abort and none with more than 3072 bytes of payload, that the bridge
  -- alone answers one after the other, are handled with success. The bridge is as they leave it, the
  -- buffer is empty, no control abort is pending, and the queue is the one before with the
  -- responses put behind it in order, where one equal to the last is dropped and a queue of 32 is
  -- emptied first.
  pub bulk_out-AllDelivered :
      {b b' : CcidBridge S} {rs : List RawFrame} {responses : List CcidResponse}
      (t : CcidTransport S)
      → Inv t
      → t.pending_out_buffer ≡ []
      → t.control_abort ≡ none
      → t.bridge ≡ record { poisoned = false; inner = b }
      → Handles b rs responses b'
      → AllDelivered t.pending_in_frames b' responses (handle_bulk_out nfc t (message_bytes rs))
  unfolding Delivered AllDelivered
  bulk_out-AllDelivered t i out free same handled_none = nothing-AllDelivered t i out free same
  bulk_out-AllDelivered t i out free same
        (handled {b₁} {b₂} {r} {c} {response} {rs} {responses} fits no_abort m e h) =
      let t₁ : CcidTransport S = (handle_bulk_out nfc t (raw_bytes r)).0 in
      let p : t.bridge.poisoned ≡ false = ap (λ (l : Mutex (CcidBridge S)). l.poisoned) same in
      let (done, front, left, control, bridge) =
        bulk_out-Delivered nfc t r b₁ response i out p free fits no_abort m
          (ap (λ (l : Mutex (CcidBridge S)). handle_command nfc l.inner c) same ∙ e) in
      let first : Path (Done S (Unit {0})) (handle_bulk_out nfc t (raw_bytes r)) (t₁, ok tt) =
        ap (λ (x : Result IoError (Unit {0})). (t₁, x)) done in
      let after : Sound {A = Unit {0}} (t₁, ok tt) =
        subst Sound first (handle_bulk_out-Sound nfc t (raw_bytes r) i p) in
      let rest : AllDelivered (queued t.pending_in_frames (encode response)) b₂ responses
          (handle_bulk_out nfc t₁ (message_bytes rs)) =
        subst
          (λ (q : List (List ℕ)).
            AllDelivered q b₂ responses (handle_bulk_out nfc t₁ (message_bytes rs)))
          front (bulk_out-AllDelivered t₁ after.0 left control bridge h) in
      subst
        (λ (d : Done S (Unit {0})).
          AllDelivered (queued t.pending_in_frames (encode response)) b₂ responses d)
        (sym (handle_bulk_out-append nfc t (raw_bytes r) (message_bytes rs) t₁ i p free first)) rest
