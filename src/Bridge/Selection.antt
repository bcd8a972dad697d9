-- ===== src/Bridge/Selection.antt =====
-- src/ccid/bridge.rs: the card of a powered slot is the one that the reader has selected.
use vusbipd_ccid.Base.{
  ℕ, ◌≡◌, refl, not, ◌||◌, ◌==◌, length, Bool, true, false, Option, is_some, List, [], ◌∷◌, arith,
  Bool-cases, ◌⊎◌, inl, inr, if_cases,
}
use vusbipd_ccid.Base.Result.{Result, Infallible, ok, err, panic, stuck, Returned, value, fault}
use vusbipd_ccid.Nfc.{CardPresence, ReaderError, NfcReader}
use vusbipd_ccid.Protocol.{
  CcidCommand, icc_power_on, icc_power_off, get_slot_status, set_parameters, xfr_block,
}
use vusbipd_ccid.Bridge.{
  Handled, select_aid, normalize_apdu_for_exchange, CcidBridge, new, handle_command,
  refresh_card_presence, refresh_polled, slot_status_refreshed, xfr_ready, xfr_refreshed,
  xfr_block_arm,
}
use vusbipd_ccid.Bridge.History.{run}
use vusbipd_ccid.Bridge.Linked.{
  is_fault, SelectsCards, IsLinked, power_on_polled-IsLinked, power_off_done-IsLinked,
  refresh_polled-off, slot_status_refreshed-IsLinked, slot_status_polled-IsLinked,
  xfr_exchanged-IsLinked,
}

without_error :
    {A : Type 0} (x : Result Infallible A) → ((a : A) × (x ≡ ok a)) ⊎ ((x ≡ panic) ⊎ (x ≡ stuck))
without_error (ok a) = inl (a, refl)
without_error (err e) = elim e [ ]
without_error panic = inr (inl refl)
without_error stuck = inr (inr refl)

select_aid-cases :
    (payload : List ℕ)
    → ((aid : Option (List ℕ)) × (select_aid payload ≡ ok aid))
      ⊎ ((select_aid payload ≡ panic) ⊎ (select_aid payload ≡ stuck))
select_aid-cases payload = without_error (select_aid payload)

module _ {S : Type 0} (nfc : NfcReader S) where
  -- Powering the card off fails in the reader.
  abbrev pub off_fails : CcidBridge S → CcidCommand → Bool
  off_fails b (icc_power_off slot seq) = is_fault (nfc.power_off b.reader).1
  off_fails b c = false

  -- No power off of the history fails.
  abbrev pub OffSucceeds : CcidBridge S → List CcidCommand → Type 0
  OffSucceeds b [] = Unit
  OffSucceeds b (c ∷ cs) = (off_fails b c ≡ false) × OffSucceeds (handle_command nfc b c).0 cs

module _ {S : Type 0} (nfc : NfcReader S) (Selected : S → CardPresence → Type 0)
    (selects : SelectsCards nfc Selected) where
  pub new-IsLinked : (reader : S) → IsLinked Selected (new nfc reader)
  unfolding new
  new-IsLinked reader = λ on. absurd (cc)

  -- A linked slot is looked at only when it is not powered.
  refresh-cases :
      (b : CcidBridge S)
      → IsLinked Selected b
      → ((b.slot_powered ≡ true) × (refresh_card_presence nfc b ≡ (b, value true)))
        ⊎ ((b.slot_powered ≡ false)
            × (refresh_card_presence nfc b ≡ refresh_polled b (nfc.poll_card b.reader)))
  unfolding refresh_card_presence
  refresh-cases b h = elim (Bool-cases b.slot_powered) [
    | inl on ↦ let (card, present, s) = h on in inl (on, ground (arith, on, present))
    | inr off ↦ inr (off, ground (arith, off))
  ]

  pub refresh-IsLinked :
      (b : CcidBridge S) → IsLinked Selected b → IsLinked Selected (refresh_card_presence nfc b).0
  refresh-IsLinked b h = elim (refresh-cases b h) [
    | inl (on, e) ↦ rw e h
    | inr (off, e) ↦
        rw e (λ on. absurd (cc (refresh_polled-off Selected b (nfc.poll_card b.reader) off)))
  ]

  slot_status-IsLinked :
      (b : CcidBridge S) (slot seq : ℕ)
      → IsLinked Selected b
      → IsLinked Selected (slot_status_refreshed slot seq (refresh_card_presence nfc b)).0
  slot_status-IsLinked b slot seq h = elim (refresh-cases b h) [
    | inl (on, e) ↦
        let (card, present, s) = h on in
        rw e (slot_status_refreshed-IsLinked Selected b slot seq true card present s)
    | inr (off, e) ↦ rw e (
        slot_status_polled-IsLinked Selected b slot seq (nfc.poll_card b.reader)
          (selects.poll_selects b.reader) off)
  ]

  xfr_ready-IsLinked :
      (b : CcidBridge S) (slot seq : ℕ) (payload : List ℕ)
      → IsLinked Selected b
      → IsLinked Selected (xfr_ready nfc b slot seq payload).0
  unfolding xfr_ready
  xfr_ready-IsLinked b slot seq payload h =
      if_cases (λ (x : Handled S). IsLinked Selected x.0) (not (is_some b.current_card))
        (λ absent. h)
        (λ present.
          if_cases (λ (x : Handled S). IsLinked Selected x.0) (not b.slot_powered) (λ off. h)
            (λ powered.
              let (card, known, s) = h (ground (arith, powered)) in
              elim (select_aid-cases payload) [
                | inl (aid, e) ↦ rw e (
                    xfr_exchanged-IsLinked Selected b slot seq card
                      (nfc.exchange_apdu b.reader (normalize_apdu_for_exchange payload)) known
                      (selects.exchange_keeps b.reader card (normalize_apdu_for_exchange payload)
                        s))
                | inr (inl e) ↦ rw e h
                | inr (inr e) ↦ rw e h
              ]))

  xfr_polled :
      (x : CcidBridge S × Returned ReaderError Bool) (slot seq : ℕ) (payload : List ℕ)
      → IsLinked Selected x.0
      → IsLinked Selected (xfr_refreshed nfc slot seq payload x).0
  unfolding xfr_refreshed
  xfr_polled (b, fault e) slot seq payload h = λ on. absurd (cc)
  xfr_polled (b, value present) slot seq payload h = xfr_ready-IsLinked b slot seq payload h

  xfr_refreshed-IsLinked :
      (b : CcidBridge S) (slot seq : ℕ) (payload : List ℕ)
      → IsLinked Selected b
      → IsLinked Selected (xfr_refreshed nfc slot seq payload (refresh_card_presence nfc b)).0
  xfr_refreshed-IsLinked b slot seq payload h =
      xfr_polled (refresh_card_presence nfc b) slot seq payload (refresh-IsLinked b h)

  xfr_block-IsLinked :
      (b : CcidBridge S) (slot seq : ℕ) (payload : List ℕ)
      → IsLinked Selected b
      → IsLinked Selected (xfr_block_arm nfc b slot seq payload).0
  unfolding xfr_block_arm
  xfr_block-IsLinked b slot seq payload h =
      if_cases (λ (x : Handled S). IsLinked Selected x.0) (not (is_some b.current_card))
        (λ absent. xfr_refreshed-IsLinked b slot seq payload h)
        (λ present. xfr_ready-IsLinked b slot seq payload h)

  pub handle_command-IsLinked :
      (b : CcidBridge S) (c : CcidCommand)
      → IsLinked Selected b
      → off_fails nfc b c ≡ false
      → IsLinked Selected (handle_command nfc b c).0
  unfolding handle_command
  handle_command-IsLinked b (icc_power_on slot seq p) h n =
      power_on_polled-IsLinked Selected b slot seq (nfc.poll_card b.reader)
        (selects.poll_selects b.reader)
  handle_command-IsLinked b (icc_power_off slot seq) h n =
      power_off_done-IsLinked Selected b slot seq (nfc.power_off b.reader) n
  handle_command-IsLinked b (get_slot_status slot seq) h n = slot_status-IsLinked b slot seq h
  handle_command-IsLinked b (set_parameters slot seq number payload) h n =
      if_cases (λ (x : Handled S). IsLinked Selected x.0)
        (not (number == 1) || not (length payload == 7)) (λ refused. h) (λ taken. h)
  handle_command-IsLinked b (xfr_block slot seq bwi level payload) h n =
      xfr_block-IsLinked b slot seq payload h
  handle_command-IsLinked b c h n = h

  -- With a reader that knows which card it talks to: through any commands in which no power off
  -- fails, the card of a powered slot stays the one that the reader has selected.
  pub run-IsLinked :
      (b : CcidBridge S) (cs : List CcidCommand)
      → IsLinked Selected b
      → OffSucceeds nfc b cs
      → IsLinked Selected (run nfc b cs)
  unfolding run
  run-IsLinked b [] h offs = h
  run-IsLinked b (c ∷ cs) h offs =
      run-IsLinked (handle_command nfc b c).0 cs (handle_command-IsLinked b c h offs.0) offs.1
