-- ===== src/Transport/Held.antt =====
-- src/ccid/transport.rs: bulk messages between the two parts of an abort.
use vusbipd_ccid.Base.{
  ℕ, ◌≡◌, refl, ap, ◌∙◌, Bool-cases, inl, inr, false, true, some, none, List, [], ◌∷◌, ◌++◌, All,
  arith, Bool, bytes_eq→eq, leb, length,
}
use vusbipd_ccid.Base.Result.{ok, err, panic, stuck}
use vusbipd_ccid.Nfc.{NfcReader}
use vusbipd_ccid.Protocol.{
  CcidCommand, abort, decode, encode, slot_status, ok_status, failed_status, command_slot,
  command_seq, CcidResponse,
}
use vusbipd_ccid.Bridge.{CcidBridge, current_icc_status, card_present}
use vusbipd_ccid.Transport.State.{
  CcidTransport, Mutex, Done, and_then, push_in_frame, back_is, enqueue_response, update_state,
  update_slot_presence,
}
use vusbipd_ccid.Transport.{
  process_frame, dispatch, queue_aborted_response, is_abort_of, finish_abort,
}
use vusbipd_ccid.Transport.Kept.{finish_abort_free, cleared}
use vusbipd_ccid.Transport.Abort.{queue_aborted_response_kept}

-- The message is a command that does not finish the abort.
abbrev pub IsOther : ℕ → ℕ → List ℕ → Type 0
IsOther slot seq frame =
    (c : CcidCommand) × (decode frame ≡ ok c) × (is_abort_of c slot seq ≡ false)

-- What the host is told of a command that is not carried out.
abbrev pub refusal : {S : Type 0} → CcidBridge S → CcidCommand → CcidResponse
refusal b c =
    slot_status (command_slot c) (command_seq c) (failed_status (current_icc_status b)) 0xff 0

abbrev EndsWith : List (List ℕ) → List ℕ → Type 0
EndsWith frames last = (front : List (List ℕ)) × (frames ≡ front ++ last ∷ [])

back_is-EndsWith :
    (frames : List (List ℕ)) (frame : List ℕ) → back_is frames frame ≡ true → EndsWith frames frame
unfolding back_is
back_is-EndsWith [] frame h = absurd (cc)
back_is-EndsWith (f ∷ []) frame h = ([], ap (λ (x : List ℕ). x ∷ []) (bytes_eq→eq f frame h))
back_is-EndsWith (f ∷ g ∷ fs) frame h =
    let (front, e) = back_is-EndsWith (g ∷ fs) frame h in
    (f ∷ front, ap (λ (l : List (List ℕ)). f ∷ l) e)

and_then_ok :
    {S A B : Type 0} (m : Done S A) (f : A → CcidTransport S → Done S B) {a : A}
    → m.1 ≡ ok a
    → and_then m f ≡ f a m.0
and_then_ok (t, ok x) f h = cc
and_then_ok (t, err e) f h = absurd (cc)
and_then_ok (t, panic) f h = absurd (cc)
and_then_ok (t, stuck) f h = absurd (cc)

module _ {S : Type 0} where
  push_in_frame-EndsWith :
      (t : CcidTransport S) (frame : List ℕ)
      → EndsWith (push_in_frame t frame).pending_in_frames frame
  unfolding push_in_frame
  push_in_frame-EndsWith t frame = elim (Bool-cases (back_is t.pending_in_frames frame)) [
    | inl same ↦
        let (front, e) = back_is-EndsWith t.pending_in_frames frame same in
        (front, ground (arith, same, e))
    | inr new ↦ elim (Bool-cases (leb 32 (length t.pending_in_frames))) [
      | inl full ↦ ([], ground (arith, new, full))
      | inr room ↦ (t.pending_in_frames, ground (arith, new, room))
    ]
  ]

  -- An abort waits for its bulk message, with the bridge as it is in `b`.
  abbrev pub Waits : Mutex (CcidBridge S) → ℕ → ℕ → CcidTransport S → Type 0
  Waits b slot seq t = (t.bridge ≡ b) × (t.control_abort ≡ some (slot, seq))

module _ {S : Type 0} (nfc : NfcReader S) where
  -- One message after the other, up to the first that fails.
  unfoldable pub process_frames : CcidTransport S → List (List ℕ) → Done S (Unit {0})
  process_frames t [] = (t, ok tt)
  process_frames t (frame ∷ rest) =
      and_then (process_frame nfc t frame) (λ _ t'. process_frames t' rest)

  process_frame-other :
      (t : CcidTransport S) (frame : List ℕ) (c : CcidCommand) (slot seq : ℕ)
      → t.control_abort ≡ some (slot, seq)
      → decode frame ≡ ok c
      → is_abort_of c slot seq ≡ false
      → process_frame nfc t frame ≡ queue_aborted_response t c
  unfolding process_frame dispatch
  process_frame-other t frame c slot seq waits d n = ground (arith, d, waits, n)

  process_frame-abort :
      (t : CcidTransport S) (frame : List ℕ) (slot seq : ℕ)
      → t.control_abort ≡ some (slot, seq)
      → decode frame ≡ ok (abort slot seq)
      → process_frame nfc t frame ≡ finish_abort nfc t slot seq
  unfolding process_frame dispatch
  process_frame-abort t frame slot seq waits d = ground (arith, d, waits)

  finished_lem :
      (t : CcidTransport S) (response : CcidResponse) (present : Bool)
      → let done = enqueue_response (cleared t) response present in
        (done.pending_in_frames ≡ encode response ∷ [])
        × (done.control_abort ≡ none)
        × (done.bridge ≡ record { poisoned = false; inner = t.bridge.inner })
  unfolding enqueue_response update_state update_slot_presence push_in_frame back_is
  finished_lem t response true = ground arith
  finished_lem t response false = ground arith

  module _ (b : Mutex (CcidBridge S)) (usable : b.poisoned ≡ false) (slot seq : ℕ) where
    lock_usable : (t : CcidTransport S) → Waits b slot seq t → t.bridge.poisoned ≡ false
    lock_usable t (bridge, waits) = ap (λ (l : Mutex (CcidBridge S)). l.poisoned) bridge ∙ usable

    refused :
        (t : CcidTransport S) (frame : List ℕ) (c : CcidCommand)
        → Waits b slot seq t
        → decode frame ≡ ok c
        → is_abort_of c slot seq ≡ false
        → let after = process_frame nfc t frame in
          (after.1 ≡ ok tt)
          × Waits b slot seq after.0
          × EndsWith after.0.pending_in_frames (encode (refusal b.inner c))
    refused t frame c w d n =
        let (ran, same, waiting, queue) = queue_aborted_response_kept t c (lock_usable t w) in
        let (front, e) = push_in_frame-EndsWith t (encode (refusal t.bridge.inner c)) in
        rw (process_frame-other t frame c slot seq w.1 d n) (
          ran,
          (same ∙ w.0, waiting ∙ w.1),
          (
            front,
            queue
                ∙ e
                ∙ ap (λ (l : Mutex (CcidBridge S)). front ++ encode (refusal l.inner c) ∷ []) w.0,
          ),
        )

    finished :
        (t : CcidTransport S) (frame : List ℕ)
        → Waits b slot seq t
        → decode frame ≡ ok (abort slot seq)
        → let done = process_frame nfc t frame in
          (done.1 ≡ ok tt)
          × (done.0.control_abort ≡ none)
          × (done.0.bridge.inner ≡ b.inner)
          × (done.0.pending_in_frames
              ≡ encode (slot_status slot seq (ok_status (current_icc_status b.inner)) 0 0) ∷ [])
    finished t frame w d =
        let status : CcidBridge S → CcidResponse =
          λ l. slot_status slot seq (ok_status (current_icc_status l)) 0 0 in
        let inner : t.bridge.inner ≡ b.inner = ap (λ (l : Mutex (CcidBridge S)). l.inner) w.0 in
        let (queue, control, bridge) =
          finished_lem t (status t.bridge.inner) (card_present t.bridge.inner) in
        rw
          (process_frame-abort t frame slot seq w.1 d
            ∙ finish_abort_free nfc t slot seq (lock_usable t w))
          (
            refl,
            control,
            ap (λ (l : Mutex (CcidBridge S)). l.inner) bridge ∙ inner,
            queue ∙ ap (λ (l : CcidBridge S). encode (status l) ∷ []) inner,
          )

    refusals :
        (t : CcidTransport S) (frames : List (List ℕ))
        → Waits b slot seq t
        → All (IsOther slot seq) frames
        → let after = process_frames t frames in (after.1 ≡ ok tt) × Waits b slot seq after.0
    unfolding process_frames
    refusals t [] w h = (refl, w)
    refusals t (frame ∷ rest) w ((c, d, n), h) =
        let (ran, waits, queue) = refused t frame c w d n in
        let after = process_frame nfc t frame in
        let (go_on, still) = refusals after.0 rest waits h in
        rw (and_then_ok after (λ _ t'. process_frames t' rest) ran) (go_on, still)

  -- Between the control request of an abort and its bulk message, with a usable lock, decoded
  -- commands other than that message are not carried out, however many come: each call succeeds, the
  -- bridge, and with it the reader, stays as it is, and the abort stays pending. After the last of
  -- them the response queue ends with the failure that the host is told of it. The bulk message then
  -- finishes the abort: its success is the only queued response, no control abort is pending, and
  -- the bridge is that of the beginning.
  pub abort_holds_commands :
      (t : CcidTransport S) (earlier : List (List ℕ)) (frame last : List ℕ) (c : CcidCommand)
      (slot seq : ℕ)
      → t.bridge.poisoned ≡ false
      → t.control_abort ≡ some (slot, seq)
      → All (IsOther slot seq) earlier
      → decode frame ≡ ok c
      → is_abort_of c slot seq ≡ false
      → decode last ≡ ok (abort slot seq)
      → let before = process_frames t earlier in
        let held = process_frame nfc before.0 frame in
        let done = process_frame nfc held.0 last in
        (before.1 ≡ ok tt)
        × (held.1 ≡ ok tt)
        × (held.0.bridge ≡ t.bridge)
        × (held.0.control_abort ≡ some (slot, seq))
        × ((front : List (List ℕ)) × (held.0.pending_in_frames
              ≡ front ++ encode (refusal t.bridge.inner c) ∷ []))
        × (done.1 ≡ ok tt)
        × (done.0.control_abort ≡ none)
        × (done.0.bridge.inner ≡ t.bridge.inner)
        × (done.0.pending_in_frames
            ≡ encode (slot_status slot seq (ok_status (current_icc_status t.bridge.inner)) 0 0)
              ∷ [])
  abort_holds_commands t earlier frame last c slot seq p waits others d n e =
      let (ran, still) = refusals t.bridge p slot seq t earlier (refl, waits) others in
      let before = (process_frames t earlier).0 in
      let (refusing, kept, told) = refused t.bridge p slot seq before frame c still d n in
      let held = (process_frame nfc before frame).0 in
      let (ends, free, inner, queue) = finished t.bridge p slot seq held last kept e in
      (ran, refusing, kept.0, kept.1, told, ends, free, inner, queue)
