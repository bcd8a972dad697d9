-- ===== src/Transport/Fuel.antt =====
-- Any fuel above the length of the buffer gives the same result of the loop.
use vusbipd_ccid.Base.{
  ℕ, zero, suc, ◌+◌, ◌≤◌, ◌<◌, ◌≡◌, refl, ◌∙◌, ap, false, List, length, arith, length-append,
}
use vusbipd_ccid.Base.Result.{ok, err, panic, stuck}
use vusbipd_ccid.Nfc.{NfcReader}
use vusbipd_ccid.Transport.State.{CcidTransport, Done, and_then}
use vusbipd_ccid.Transport.{process_frame, round, bulk_out_loop}
use vusbipd_ccid.Transport.Frames.{Cut, wait, too_long, whole, cut, cut_whole, taken, try_take-cut}
use vusbipd_ccid.Transport.Invariant.{Core, Inv, taken-Inv}
use vusbipd_ccid.Transport.Kept.{Sound, taken_poisoned}
use vusbipd_ccid.Transport.Requests.{process_frame-Sound}
use vusbipd_ccid.Transport.Progress.{process_frame-Advances, taken_buffer, Advances}

module _ {S : Type 0} (nfc : NfcReader S) where
  round-fuel :
      (again again' : CcidTransport S → Done S (Unit {0})) (d : Done S (Unit {0})) (n : ℕ)
      → Sound d
      → Advances n d
      → ((u : CcidTransport S)
          → Core u
          → u.bridge.poisoned ≡ false
          → length u.pending_out_buffer ≤ n
          → again u ≡ again' u)
      → and_then d (λ _ u. again u) ≡ and_then d (λ _ u. again' u)
  round-fuel again again' (t, ok u) n s a h = h t s.0.core s.1 a
  round-fuel again again' (t, err e) n s a h = refl
  round-fuel again again' (t, panic) n s a h = refl
  round-fuel again again' (t, stuck) n s a h = refl

  pub taken_shorter :
      (t : CcidTransport S) (frame rest : List ℕ)
      → cut t.pending_out_buffer ≡ whole frame rest
      → 10 + length (taken t (whole frame rest)).0.pending_out_buffer ≤ length t.pending_out_buffer
  taken_shorter t frame rest e =
      let (same, long, fits) = cut_whole t.pending_out_buffer frame rest e in
      omega (
        arith,
        ap (λ (l : List ℕ). length l) same,
        length-append frame rest,
        ap (λ (l : List ℕ). length l) (taken_buffer t frame rest),
      )

  cut-fuel :
      (again again' : CcidTransport S → Done S (Unit {0})) (t : CcidTransport S) (k : Cut) (n : ℕ)
      → cut t.pending_out_buffer ≡ k
      → Inv (taken t k).0
      → t.bridge.poisoned ≡ false
      → length t.pending_out_buffer ≤ n
      → ((u : CcidTransport S)
          → Core u
          → u.bridge.poisoned ≡ false
          → suc (length u.pending_out_buffer) ≤ n
          → again u ≡ again' u)
      → round nfc again (taken t k) ≡ round nfc again' (taken t k)
  unfolding round
  cut-fuel again again' t wait n e i p l h = refl
  cut-fuel again again' t (too_long x) n e i p l h = refl
  cut-fuel again again' t (whole frame rest) n e i p l h =
      let left : CcidTransport S = (taken t (whole frame rest)).0 in
      let q : left.bridge.poisoned ≡ false = taken_poisoned t (whole frame rest) ∙ p in
      let (same, long, fits) = cut_whole t.pending_out_buffer frame rest e in
      round-fuel again again' (process_frame nfc left frame) (length left.pending_out_buffer)
        (process_frame-Sound nfc left frame i q) (process_frame-Advances nfc left frame q long fits)
        (λ u i' p' l'. h u i' p' (omega (arith, taken_shorter t frame rest e)))

  pub bulk_out_loop-fuel :
      (n m : ℕ) (t : CcidTransport S)
      → Core t
      → t.bridge.poisoned ≡ false
      → length t.pending_out_buffer < n
      → length t.pending_out_buffer < m
      → bulk_out_loop nfc n t ≡ bulk_out_loop nfc m t
  unfolding bulk_out_loop
  bulk_out_loop-fuel zero m t i p h k = absurd (omega arith)
  bulk_out_loop-fuel (suc n) zero t i p h k = absurd (omega arith)
  bulk_out_loop-fuel (suc n) (suc m) t i p h k = rw (try_take-cut t i.cached) (
      cut-fuel (bulk_out_loop nfc n) (bulk_out_loop nfc m) t (cut t.pending_out_buffer)
        (length t.pending_out_buffer) refl (taken-Inv t i) p (omega arith)
        (λ u i' p' l. bulk_out_loop-fuel n m u i' p' (omega arith) (omega arith)))
