-- ===== src/Transport/Delivered.antt =====
-- The transport when the whole bytes of a command arrive: one response is queued.
use mathlib.Core.Path.{subst}
use vusbipd_ccid.Base.{
  leb, if◌then◌else◌, ◌*◌, ◌/◌, ◌%◌, ℕ, suc, ◌+◌, ◌≤◌, ◌≡◌, ◌≢◌, ◌∙◌, ap, refl, Bool, true, false,
  none, List, [], ◌∷◌, ◌++◌, length, arith, take_all, Bool-cases, inl, inr,
}
use vusbipd_ccid.Base.Result.{ok}
use vusbipd_ccid.Nfc.{NfcReader}
use vusbipd_ccid.Protocol.{CcidCommand, CcidResponse, abort, encode}
use vusbipd_ccid.Protocol.Layout.{RawFrame, raw_bytes, Means, stop}
use vusbipd_ccid.Protocol.Decode.{decode-raw_bytes}
use vusbipd_ccid.Bridge.{CcidBridge, handle_command, card_present}
use vusbipd_ccid.Transport.State.{
  Mutex, CcidTransport, Done, update_state, update_slot_presence, push_in_frame, enqueue_response,
  back_is,
}
use vusbipd_ccid.Transport.{
  handle_bulk_out, bulk_out_loop, round, process_frame, dispatch, run_command,
  try_take_complete_frame,
}
use vusbipd_ccid.Transport.Frames.{cut, whole, taken}
use vusbipd_ccid.Transport.Invariant.{Inv, Core}
use vusbipd_ccid.Transport.Follow.{extend}
use vusbipd_ccid.Transport.Stream.{handle_bulk_out-eq, bulk_out_loop-whole, extend-Core}
use vusbipd_ccid.Transport.Reading.{drop_all}

pub cut-raw_bytes :
    (r : RawFrame) → length r.payload ≤ 3072 → cut (raw_bytes r) ≡ whole (raw_bytes r) []
unfolding cut
cut-raw_bytes r fits =
    let n : ℕ = length r.payload in
    let same : n % 256
          + 256 * (n / 256 % 256)
          + 65536 * (n / 65536 % 256)
          + 16777216 * (n / 16777216 % 256)
        ≡ n =
      omega arith in
    ground (
      arith,
      same,
      take_all (10 + n) (raw_bytes r) (omega arith),
      drop_all (10 + n) (raw_bytes r) (omega arith),
    )

-- A command other than an abort.
abbrev pub is_abort : CcidCommand → Bool
is_abort (abort slot seq) = true
is_abort c = false

pub Means-is_abort :
    (r : RawFrame) {c : CcidCommand} → Means r c → r.message_type ≢ 0x72 → is_abort c ≡ false
Means-is_abort r (stop e) h = absurd (h e)
Means-is_abort r m h = refl

-- The queue behind a new response: one equal to the last is dropped, and a full queue is emptied.
unfoldable pub queued : List (List ℕ) → List ℕ → List (List ℕ)
unfolding back_is
queued frames frame =
    if back_is frames frame
    then frames
    else if leb 32 (length frames)
    then frame ∷ []
    else frames ++ frame ∷ []

module _ {S : Type 0} (nfc : NfcReader S) where
  -- The transport once a command is answered.
  abbrev answered : CcidTransport S → CcidBridge S → CcidResponse → CcidTransport S
  answered t b response =
      enqueue_response
        (record t { bulk_abort = none; bridge = record { poisoned = false; inner = b } }) response
        (card_present b)

  run_command-answered :
      (t : CcidTransport S) (c : CcidCommand) (b : CcidBridge S) (response : CcidResponse)
      → is_abort c ≡ false
      → t.bridge.poisoned ≡ false
      → handle_command nfc t.bridge.inner c ≡ (b, ok response)
      → run_command nfc t c ≡ (answered t b response, ok tt)
  unfolding run_command
  run_command-answered t (abort slot seq) b response proper p e = cc
  run_command-answered t c b response proper p e = ground (arith, p, e)

  answered_lem :
      (t : CcidTransport S) (b : CcidBridge S) (response : CcidResponse)
      → let after = answered t b response in
        (after.pending_in_frames ≡ queued t.pending_in_frames (encode response))
        × (after.pending_out_buffer ≡ t.pending_out_buffer)
        × (after.control_abort ≡ t.control_abort)
        × (after.bridge ≡ record { poisoned = false; inner = b })
  unfolding enqueue_response update_state update_slot_presence push_in_frame queued
  answered_lem t b response = elim (Bool-cases (card_present b)) [
    | inl e ↦ ground (arith, e)
    | inr e ↦ ground (arith, e)
  ]

  process_frame-answered :
      (t : CcidTransport S) (r : RawFrame) {c : CcidCommand} (b : CcidBridge S)
      (response : CcidResponse)
      → length r.payload ≤ 3072
      → r.message_type ≢ 0x72
      → Means r c
      → t.bridge.poisoned ≡ false
      → t.control_abort ≡ none
      → handle_command nfc t.bridge.inner c ≡ (b, ok response)
      → process_frame nfc t (raw_bytes r) ≡ (answered t b response, ok tt)
  unfolding process_frame dispatch
  process_frame-answered t r {c} b response fits no_abort m p free e =
      rw (decode-raw_bytes r (omega (arith, fits)) m) (
        ap (λ o. dispatch nfc o t c) free
        ∙ run_command-answered t c b response (Means-is_abort r m no_abort) p e)

  pub bulk_out_loop_rest :
      (n : ℕ) (t : CcidTransport S)
      → t.pending_out_buffer ≡ []
      → bulk_out_loop nfc (suc n) t ≡ (update_state (record t { next_frame_len = none }), ok tt)
  unfolding bulk_out_loop round try_take_complete_frame
  bulk_out_loop_rest n t e = ground (arith, e)

  pub taken_lem :
      (u : CcidTransport S) (frame rest : List ℕ)
      → let left = (taken u (whole frame rest)).0 in
        (left.bridge ≡ u.bridge)
        × (left.control_abort ≡ u.control_abort)
        × (left.pending_in_frames ≡ u.pending_in_frames)
        × (left.pending_out_buffer ≡ rest)
  unfolding update_state
  taken_lem u frame rest = ground arith

  -- The queue, the buffer and the bridge once a command is answered.
  unfoldable pub Delivered :
      List (List ℕ) → CcidBridge S → CcidResponse → Done S (Unit {0}) → Type 0
  Delivered frames b response d =
      (d.1 ≡ ok tt)
      × (d.0.pending_in_frames ≡ queued frames (encode response))
      × (d.0.pending_out_buffer ≡ [])
      × (d.0.control_abort ≡ none)
      × (d.0.bridge ≡ record { poisoned = false; inner = b })

  rest-Delivered :
      (n : ℕ) (t : CcidTransport S) (b : CcidBridge S) (response : CcidResponse)
      → t.control_abort ≡ none
      → t.pending_out_buffer ≡ []
      → Delivered t.pending_in_frames b response (bulk_out_loop nfc (suc n) (answered t b response))
  unfolding Delivered update_state
  rest-Delivered n t b response free buffer =
      let (front, left, control, bridge) = answered_lem t b response in
      ground (
        arith,
        bulk_out_loop_rest n (answered t b response) (left ∙ buffer),
        front,
        left,
        control,
        free,
        bridge,
        buffer,
      )

  bulk_out_loop-Delivered :
      (n : ℕ) (u : CcidTransport S) (r : RawFrame) {c : CcidCommand} (b : CcidBridge S)
      (response : CcidResponse)
      → Core u
      → u.pending_out_buffer ≡ raw_bytes r
      → u.bridge.poisoned ≡ false
      → u.control_abort ≡ none
      → length r.payload ≤ 3072
      → r.message_type ≢ 0x72
      → Means r c
      → handle_command nfc u.bridge.inner c ≡ (b, ok response)
      → Delivered u.pending_in_frames b response (bulk_out_loop nfc (suc (suc n)) u)
  unfolding round
  bulk_out_loop-Delivered n u r {c} b response core buffer p free fits no_abort m e =
      let left : CcidTransport S = (taken u (whole (raw_bytes r) [])).0 in
      let (bridge, control, frames, out) = taken_lem u (raw_bytes r) [] in
      let run : process_frame nfc left (raw_bytes r) ≡ (answered left b response, ok tt) =
        process_frame-answered left r b response fits no_abort m
          (ap (λ (l : Mutex (CcidBridge S)). l.poisoned) bridge ∙ p) (control ∙ free)
          (ap (λ (l : Mutex (CcidBridge S)). handle_command nfc l.inner c) bridge ∙ e) in
      rw
        (bulk_out_loop-whole nfc (suc n) u (raw_bytes r) [] core
          (ap cut buffer ∙ cut-raw_bytes r fits))
        (rw run (
          subst
            (λ (q : List (List ℕ)).
              Delivered q b response (bulk_out_loop nfc (suc n) (answered left b response)))
            frames (rest-Delivered n left b response (control ∙ free) out)))

  pub bulk_out-Delivered :
      (t : CcidTransport S) (r : RawFrame) {c : CcidCommand} (b : CcidBridge S)
      (response : CcidResponse)
      → Inv t
      → t.pending_out_buffer ≡ []
      → t.bridge.poisoned ≡ false
      → t.control_abort ≡ none
      → length r.payload ≤ 3072
      → r.message_type ≢ 0x72
      → Means r c
      → handle_command nfc t.bridge.inner c ≡ (b, ok response)
      → Delivered t.pending_in_frames b response (handle_bulk_out nfc t (raw_bytes r))
  bulk_out-Delivered t r b response i out p free fits no_abort m e =
      let u : CcidTransport S = extend (raw_bytes r) t in
      let buffer : u.pending_out_buffer ≡ raw_bytes r = ap (λ (l : List ℕ). l ++ raw_bytes r) out in
      let size : length u.pending_out_buffer ≡ suc (9 + length r.payload) =
        ap (λ (l : List ℕ). length l) buffer ∙ omega arith in
      rw
        (handle_bulk_out-eq nfc t (raw_bytes r) i
          ∙ ap (λ (n : ℕ). bulk_out_loop nfc (suc n) u) size)
        (bulk_out_loop-Delivered (9 + length r.payload) u r b response
          (extend-Core nfc t (raw_bytes r) i.core) buffer p free fits no_abort m e)
