-- ===== src/Transport/Stream.antt =====
-- How the byte stream is cut into bulk OUT packets does not matter.
use vusbipd_ccid.Base.{
  ℕ, zero, suc, ◌≤◌, ◌<◌, ◌≡◌, refl, sym, ◌∙◌, ap, false, none, List, ◌++◌, length, arith,
  length-append, append_assoc,
}
use mathlib.Core.Path.{subst}
use vusbipd_ccid.Base.Result.{ok, err, panic, stuck}
use vusbipd_ccid.Nfc.{NfcReader}
use vusbipd_ccid.Transport.State.{CcidTransport, Done, and_then, update_state}
use vusbipd_ccid.Transport.{process_frame, round, bulk_out_loop, handle_bulk_out}
use vusbipd_ccid.Transport.Frames.{Cut, wait, too_long, whole, cut, cut_whole, taken, try_take-cut}
use vusbipd_ccid.Transport.Invariant.{Core, Inv, taken-Inv}
use vusbipd_ccid.Transport.Kept.{Sound, taken_poisoned, appended-Inv}
use vusbipd_ccid.Transport.Requests.{process_frame-Sound, handle_bulk_out-Sound}
use vusbipd_ccid.Transport.Progress.{process_frame-Advances, Advances}
use vusbipd_ccid.Transport.Follow.{
  cut-append, forget, extend, taken-forget, forget-update_state, Follows, taken-grown,
  process_frame-Follows,
}
use vusbipd_ccid.Transport.Fuel.{taken_shorter, bulk_out_loop-fuel}

module _ {S : Type 0} (nfc : NfcReader S) where
  pub extend-Core : (t : CcidTransport S) (more : List ℕ) → Core t → Core (extend more t)
  extend-Core t more i = record {
    bounded = i.bounded;
    cached = tt;
    for_zero = i.for_zero;
    valid = i.valid;
  }

  bulk_out_loop-forget :
      (n : ℕ) (t : CcidTransport S)
      → Core t
      → bulk_out_loop nfc (suc n) t ≡ bulk_out_loop nfc (suc n) (forget t)
  unfolding bulk_out_loop
  bulk_out_loop-forget n t i = rw (
    try_take-cut t i.cached,
    try_take-cut (forget t) tt,
    taken-forget t (cut t.pending_out_buffer),
  )

  -- The rounds on the longer buffer, while there is a frame in the shorter one.
  followed :
      (again again' : CcidTransport S → Done S (Unit {0})) (d d' : Done S (Unit {0})) (n : ℕ)
      (more : List ℕ) (t₁ : CcidTransport S) (r : Done S (Unit {0}))
      → Sound d
      → Sound d'
      → Advances n d
      → Follows more d d'
      → and_then d (λ _ u. again u) ≡ (t₁, ok tt)
      → ((u u' : CcidTransport S)
          → Inv u
          → Core u'
          → u.bridge.poisoned ≡ false
          → u.control_abort ≡ none
          → length u.pending_out_buffer ≤ n
          → forget u' ≡ extend more u
          → again u ≡ (t₁, ok tt)
          → again' u' ≡ r)
      → and_then d' (λ _ u. again' u) ≡ r
  followed again again' (t, ok u) (t', ok u') n more t₁ r s s' a f e h =
      h t t' s.0 s'.0.core s.1 f.2 a f.1 e
  followed again again' (t, ok u) (t', err x) n more t₁ r s s' a f e h = cc
  followed again again' (t, ok u) (t', panic) n more t₁ r s s' a f e h = cc
  followed again again' (t, ok u) (t', stuck) n more t₁ r s s' a f e h = cc
  followed again again' (t, err x) d' n more t₁ r s s' a f e h = cc
  followed again again' (t, panic) d' n more t₁ r s s' a f e h = cc
  followed again again' (t, stuck) d' n more t₁ r s s' a f e h = cc

  abbrev pub loop_all : CcidTransport S → Done S (Unit {0})
  loop_all t = bulk_out_loop nfc (suc (length t.pending_out_buffer)) t

  pub bulk_out_loop-whole :
      (m : ℕ) (t : CcidTransport S) (frame rest : List ℕ)
      → Core t
      → cut t.pending_out_buffer ≡ whole frame rest
      → bulk_out_loop nfc (suc m) t ≡ round nfc (bulk_out_loop nfc m) (taken t (whole frame rest))
  unfolding bulk_out_loop
  bulk_out_loop-whole m t frame rest i c =
      ap (round nfc (bulk_out_loop nfc m)) (try_take-cut t i.cached ∙ ap (taken t) c)

  taken_whole-Inv :
      (t : CcidTransport S) (frame rest : List ℕ)
      → Core t
      → cut t.pending_out_buffer ≡ whole frame rest
      → Inv (taken t (whole frame rest)).0
  taken_whole-Inv t frame rest i c = subst (λ k. Inv (taken t k).0) c (taken-Inv t i)

  taken_control :
      (t : CcidTransport S) (frame rest : List ℕ)
      → (taken t (whole frame rest)).0.control_abort ≡ t.control_abort
  unfolding update_state
  taken_control t frame rest = ground arith

  taken-Follows :
      (t : CcidTransport S) (frame rest more : List ℕ)
      → t.control_abort ≡ none
      → Follows more
          (process_frame nfc (taken t (whole frame rest)).0 frame)
          (process_frame nfc (taken (extend more t) (whole frame (rest ++ more))).0 frame)
  taken-Follows t frame rest more e =
      let left : CcidTransport S = (taken t (whole frame rest)).0 in
      subst (λ v. Follows more (process_frame nfc left frame) (process_frame nfc v frame))
        (sym (taken-grown t frame rest more))
        (process_frame-Follows nfc left frame more _ _ (taken_control t frame rest ∙ e))

  next :
      (m : ℕ) (u u' : CcidTransport S) (more : List ℕ)
      → Core u'
      → u.bridge.poisoned ≡ false
      → forget u' ≡ extend more u
      → length (u.pending_out_buffer ++ more) < m
      → bulk_out_loop nfc m u' ≡ bulk_out_loop nfc (suc m) (extend more u)
  next m u u' more c p same l =
      let fits : length u'.pending_out_buffer ≡ length (u.pending_out_buffer ++ more) =
        ap (λ (v : CcidTransport S). length v.pending_out_buffer) same in
      bulk_out_loop-fuel nfc m (suc m) u' c
        (ap (λ (v : CcidTransport S). v.bridge.poisoned) same ∙ p) (omega arith) (omega arith)
      ∙ bulk_out_loop-forget m u' c
      ∙ ap (bulk_out_loop nfc (suc m)) same

  LoopExtends : ℕ → CcidTransport S → Type 0
  LoopExtends n t =
      (more : List ℕ) (m : ℕ) (t₁ : CcidTransport S)
      → Core t
      → t.bridge.poisoned ≡ false
      → t.control_abort ≡ none
      → length (t.pending_out_buffer ++ more) < m
      → bulk_out_loop nfc n t ≡ (t₁, ok tt)
      → bulk_out_loop nfc m (extend more t) ≡ loop_all (extend more t₁)

  extend-taken_wait :
      (t : CcidTransport S) (more : List ℕ) → extend more (taken t wait).0 ≡ extend more t
  unfolding update_state
  extend-taken_wait t more = ground arith

  round-extend :
      (n m : ℕ) (t : CcidTransport S) (k : Cut) (more : List ℕ) (t₁ : CcidTransport S)
      → cut t.pending_out_buffer ≡ k
      → Core t
      → t.bridge.poisoned ≡ false
      → t.control_abort ≡ none
      → length (t.pending_out_buffer ++ more) < suc m
      → ((u : CcidTransport S) → LoopExtends n u)
      → round nfc (bulk_out_loop nfc n) (taken t k) ≡ (t₁, ok tt)
      → bulk_out_loop nfc (suc m) (extend more t) ≡ loop_all (extend more t₁)
  unfolding round LoopExtends
  round-extend n m t wait more t₁ c i p e l h r =
      let same : extend more t₁ ≡ extend more t =
        ap (λ (d : Done S (Unit {0})). extend more d.0) (sym r) ∙ extend-taken_wait t more in
      bulk_out_loop-fuel nfc (suc m) _ (extend more t) (extend-Core t more i) p l (omega arith)
      ∙ ap loop_all (sym same)
  round-extend n m t (too_long x) more t₁ c i p e l h r = cc
  round-extend n m t (whole frame rest) more t₁ c i p e l h r =
      let left : CcidTransport S = (taken t (whole frame rest)).0 in
      let longer : CcidTransport S = extend more t in
      let left' : CcidTransport S = (taken longer (whole frame (rest ++ more))).0 in
      let q : left.bridge.poisoned ≡ false = taken_poisoned t (whole frame rest) ∙ p in
      let q' : left'.bridge.poisoned ≡ false =
        taken_poisoned longer (whole frame (rest ++ more)) ∙ p in
      let c' = cut-append t.pending_out_buffer more frame rest c in
      let i' = extend-Core t more i in
      let (same, long, fits) = cut_whole t.pending_out_buffer frame rest c in
      bulk_out_loop-whole m longer frame (rest ++ more) i' c'
      ∙ followed (bulk_out_loop nfc n) (bulk_out_loop nfc m) (process_frame nfc left frame)
          (process_frame nfc left' frame) (length left.pending_out_buffer) more t₁ _
          (process_frame-Sound nfc left frame (taken_whole-Inv t frame rest i c) q)
          (process_frame-Sound nfc left' frame (taken_whole-Inv longer frame (rest ++ more) i' c')
            q')
          (process_frame-Advances nfc left frame q long fits) (taken-Follows t frame rest more e) r
          (λ u u' iu cu pu eu lu su run.
            next m u u' more cu pu su (
              omega (
                arith,
                taken_shorter nfc t frame rest c,
                length-append t.pending_out_buffer more,
                length-append u.pending_out_buffer more,
              ))
            ∙ h u more (suc m) t₁ iu.core pu eu
                (omega (
                  arith,
                  taken_shorter nfc t frame rest c,
                  length-append t.pending_out_buffer more,
                  length-append u.pending_out_buffer more,
                ))
                run)

  bulk_out_loop-extend : (n : ℕ) (t : CcidTransport S) → LoopExtends n t
  unfolding bulk_out_loop LoopExtends
  bulk_out_loop-extend zero t more m t₁ i p e l r = cc
  bulk_out_loop-extend (suc n) t more zero t₁ i p e l r = absurd (omega arith)
  bulk_out_loop-extend (suc n) t more (suc m) t₁ i p e l r =
      round-extend n m t (cut t.pending_out_buffer) more t₁ refl i p e l
        (λ u. bulk_out_loop-extend n u) (rw (try_take-cut t i.cached) at r)

  pub handle_bulk_out-eq :
      (t : CcidTransport S) (payload : List ℕ)
      → Inv t
      → handle_bulk_out nfc t payload ≡ loop_all (extend payload t)
  unfolding handle_bulk_out
  handle_bulk_out-eq t payload i =
      bulk_out_loop-forget _ _ (appended-Inv t payload i).core ∙ ap loop_all (forget-update_state _)

  -- From a valid transport whose lock is not poisoned, with no control abort pending: if a bulk OUT
  -- packet is handled without an error, then a second one leads to the same transport and the same
  -- result as one packet with the bytes of both. So a packet may end anywhere, within a header or a
  -- payload or behind several messages.
  pub handle_bulk_out-append :
      (t : CcidTransport S) (first second : List ℕ) (t₁ : CcidTransport S)
      → Inv t
      → t.bridge.poisoned ≡ false
      → t.control_abort ≡ none
      → handle_bulk_out nfc t first ≡ (t₁, ok tt)
      → handle_bulk_out nfc t (first ++ second) ≡ handle_bulk_out nfc t₁ second
  unfolding LoopExtends
  handle_bulk_out-append t first second t₁ i p e r =
      let joined : extend (first ++ second) t ≡ extend second (extend first t) =
        ap (λ (buffer : List ℕ). forget (record t { pending_out_buffer = buffer }))
          (sym (append_assoc t.pending_out_buffer first second)) in
      let after : Sound {A = Unit {0}} (t₁, ok tt) =
        subst Sound r (handle_bulk_out-Sound nfc t first i p) in
      handle_bulk_out-eq t (first ++ second) i
      ∙ ap loop_all joined
      ∙ bulk_out_loop-extend _ (extend first t) second _ t₁ (extend-Core t first i.core) p e
          (omega arith) (sym (handle_bulk_out-eq t first i) ∙ r)
      ∙ sym (handle_bulk_out-eq t₁ second after.0)
