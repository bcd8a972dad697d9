-- ===== src/Transport/Poisoned.antt =====
-- src/ccid/transport.rs: bulk requests under a poisoned lock of the bridge.
use vusbipd_ccid.Base.{
  ℕ, suc, ◌+◌, ◌≤◌, ◌≡◌, ◌≢◌, refl, ap, ◌∙◌, true, false, Option, some, none, List, [], ◌++◌,
  length, arith,
}
use vusbipd_ccid.Base.Result.{ok, err, panic, stuck}
use vusbipd_ccid.Nfc.{NfcReader}
use vusbipd_ccid.Protocol.{CcidCommand, abort}
use vusbipd_ccid.Protocol.Layout.{RawFrame, raw_bytes, Means}
use vusbipd_ccid.Protocol.Decode.{decode-raw_bytes}
use vusbipd_ccid.Bridge.{CcidBridge}
use vusbipd_ccid.Transport.State.{CcidTransport, Mutex, Done, and_then, IoError, lock_poisoned}
use vusbipd_ccid.Transport.{
  call_bridge, run_command, dispatch, process_frame, round, bulk_out_loop, handle_bulk_out,
  is_abort_of, queue_aborted_response,
}
use vusbipd_ccid.Transport.Frames.{cut, whole, taken}
use vusbipd_ccid.Transport.Invariant.{Inv}
use vusbipd_ccid.Transport.Follow.{extend}
use vusbipd_ccid.Transport.Stream.{handle_bulk_out-eq, bulk_out_loop-whole, extend-Core}
use vusbipd_ccid.Transport.Delivered.{is_abort, Means-is_abort, cut-raw_bytes, taken_lem}
use vusbipd_ccid.Transport.Access.Calls.{poisoned-IsKept}
use vusbipd_ccid.Transport.Access.Bulk.{handle_bulk_out-Keeps}

is_abort_of_other :
    (c : CcidCommand) (slot seq : ℕ) → is_abort c ≡ false → is_abort_of c slot seq ≡ false
is_abort_of_other (abort s q) slot seq h = absurd (cc)
is_abort_of_other c slot seq h = refl

module _ {S : Type 0} (nfc : NfcReader S) where
  run_command_poisoned :
      (t : CcidTransport S) (c : CcidCommand)
      → is_abort c ≡ false
      → t.bridge.poisoned ≡ true
      → (run_command nfc t c).1 ≡ err lock_poisoned
  unfolding run_command call_bridge
  run_command_poisoned t (abort slot seq) h p = absurd (cc)
  run_command_poisoned t c h p = ground (arith, p)

  dispatch_poisoned :
      (pending : Option (ℕ × ℕ)) (t : CcidTransport S) (c : CcidCommand)
      → is_abort c ≡ false
      → t.bridge.poisoned ≡ true
      → (dispatch nfc pending t c).1 ≡ err lock_poisoned
  unfolding dispatch queue_aborted_response
  dispatch_poisoned none t c h p = run_command_poisoned t c h p
  dispatch_poisoned (some (slot, seq)) t c h p = rw (is_abort_of_other c slot seq h) (rw p refl)

  process_frame_poisoned :
      (t : CcidTransport S) (r : RawFrame) {c : CcidCommand}
      → length r.payload ≤ 3072
      → r.message_type ≢ 0x72
      → Means r c
      → t.bridge.poisoned ≡ true
      → (process_frame nfc t (raw_bytes r)).1 ≡ err lock_poisoned
  unfolding process_frame
  process_frame_poisoned t r {c} fits no_abort m p =
      rw (decode-raw_bytes r (omega (arith, fits)) m)
        (dispatch_poisoned t.control_abort t c (Means-is_abort r m no_abort) p)

  and_then_failed :
      {A B : Type 0} (m : Done S A) (f : A → CcidTransport S → Done S B) (e : IoError)
      → m.1 ≡ err e
      → (and_then m f).1 ≡ err e
  and_then_failed (t, ok a) f e h = absurd (cc)
  and_then_failed (t, err x) f e h = cc
  and_then_failed (t, panic) f e h = absurd (cc)
  and_then_failed (t, stuck) f e h = absurd (cc)

  -- A message that is no abort, with a payload of at most 3072 bytes, sent whole to a valid
  -- transport with nothing in its buffer whose lock is poisoned: the request fails with the error of
  -- the poisoned lock, whether an abort is pending or not, and the bridge is left as it is.
  pub handle_bulk_out_poisoned :
      (t : CcidTransport S) (r : RawFrame) {c : CcidCommand}
      → Inv t
      → t.pending_out_buffer ≡ []
      → t.bridge.poisoned ≡ true
      → length r.payload ≤ 3072
      → r.message_type ≢ 0x72
      → Means r c
      → ((handle_bulk_out nfc t (raw_bytes r)).1 ≡ err lock_poisoned)
        × ((handle_bulk_out nfc t (raw_bytes r)).0.bridge ≡ t.bridge)
  unfolding round
  handle_bulk_out_poisoned t r i out p fits no_abort m =
      let u : CcidTransport S = extend (raw_bytes r) t in
      let buffer : u.pending_out_buffer ≡ raw_bytes r = ap (λ (l : List ℕ). l ++ raw_bytes r) out in
      let size : length u.pending_out_buffer ≡ suc (9 + length r.payload) =
        ap (λ (l : List ℕ). length l) buffer ∙ omega arith in
      let left : CcidTransport S = (taken u (whole (raw_bytes r) [])).0 in
      let (bridge, control, frames, rest) = taken_lem nfc u (raw_bytes r) [] in
      let failed : (process_frame nfc left (raw_bytes r)).1 ≡ err lock_poisoned =
        process_frame_poisoned left r fits no_abort m
          (ap (λ (l : Mutex (CcidBridge S)). l.poisoned) bridge ∙ p) in
      (
        rw
            (handle_bulk_out-eq nfc t (raw_bytes r) i
              ∙ ap (λ (n : ℕ). bulk_out_loop nfc (suc n) u) size
              ∙ bulk_out_loop-whole nfc (suc (9 + length r.payload)) u (raw_bytes r) []
                  (extend-Core nfc t (raw_bytes r) i.core) (ap cut buffer ∙ cut-raw_bytes r fits))
            (and_then_failed (process_frame nfc left (raw_bytes r))
              (λ _ t'. bulk_out_loop nfc (suc (9 + length r.payload)) t') lock_poisoned failed),
        (handle_bulk_out-Keeps nfc (λ l. l ≡ t.bridge) (poisoned-IsKept nfc t.bridge p) t
            (raw_bytes r) refl tt).0,
      )
