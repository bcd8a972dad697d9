-- ===== src/Bridge/Uart.antt =====
-- src/ccid/bridge.rs with src/nfc/pn532.rs behind it: a powered slot and the target of the chip.
use vusbipd_ccid.Base.{
  ℕ, ◌≡◌, refl, ap, ◌∙◌, sym, true, false, none, some, Option, is_some, List, arith, inl, inr,
  Option-cases,
}
use vusbipd_ccid.Base.Result.{Result, ok, err, panic, stuck, Returned, value, fault}
use vusbipd_ccid.Base.Run.{Ends, ◌>>=◌}
use vusbipd_ccid.Nfc.{
  CardPresence, ReaderError, NfcReader, configuration, transport, protocol, target_lost,
  unsupported, io,
}
use vusbipd_ccid.Protocol.{CcidCommand, icc_power_off, active, inactive}
use vusbipd_ccid.Nfc.Pn532.Chip.{Pn532Device}
use vusbipd_ccid.Nfc.Pn532.Reader.{
  Pn532UartReader, poll_card, power_off, choose_target, target_polled, exchange_apdu,
}
use vusbipd_ccid.Nfc.Pn532.Waiting.{IsDocumented}
use vusbipd_ccid.Nfc.Pn532.Coherence.{IsCoherent, Polled}
use vusbipd_ccid.Nfc.Pn532.Exchange.{exchange_apdu-Exchanged}
use vusbipd_ccid.Nfc.Pn532.Field.{set_rf_field-cases}
use vusbipd_ccid.Nfc.Pn532.Polling.{poll_card-Polled}
use vusbipd_ccid.Nfc.Pn532.Instance.{
  CoherentReader, IsSettled, Polled-IsSettled, Exchanged-IsSettled, settle, pn532_reader,
}
use vusbipd_ccid.Bridge.{
  CcidBridge, Handled, power_off_done, new, handle_command, current_icc_status, failure,
}
use vusbipd_ccid.Bridge.History.{run}
use vusbipd_ccid.Bridge.Linked.{IsLinked, SelectsCards, is_lost, is_fault}
use vusbipd_ccid.Bridge.Selection.{OffSucceeds, new-IsLinked, run-IsLinked}
use vusbipd_ccid.Nfc.Pn532.Keeping.{
  loses, KeepsTarget, choose_target-active, choose_target-idle, exchange_apdu-KeepsTarget,
}

-- The reader has an active target, and this is its card.
abbrev pub HasTarget : {P : Type 0} → CoherentReader P → CardPresence → Type 0
HasTarget c card = (is_some c.reader.active_target ≡ true) × (c.reader.cached_card ≡ some card)

found_same :
    (found card : CardPresence)
    → Path (Result ReaderError (Option CardPresence)) (ok (some found)) (ok (some card))
    → Path (Option CardPresence) (some found) (some card)
found_same found card e = cc

power_off_done-failed :
    {S : Type 0} (b : CcidBridge S) (slot seq : ℕ) (x : S × Returned ReaderError (Unit {0}))
    → is_fault x.1 ≡ true
    → power_off_done b slot seq x ≡ (record b { reader = x.0 }, ok (failure slot seq inactive))
unfolding power_off_done
power_off_done-failed b slot seq (r, fault e) h = refl
power_off_done-failed b slot seq (r, value u) h = absurd (cc)

settle-value :
    {P A : Type 0} (x : Pn532UartReader P × Result ReaderError A) (h : Ends IsSettled x) (a : A)
    → (settle x h).1 ≡ value a
    → x.1 ≡ ok a
unfolding settle
settle-value (r, ok b) h a e = cc
settle-value (r, err b) h a e = absurd (cc)
settle-value (r, panic) h a e = elim h.1 [ ]
settle-value (r, stuck) h a e = elim h.1 [ ]

settle-lost :
    {P A : Type 0} (x : Pn532UartReader P × Result ReaderError A) (h : Ends IsSettled x)
    → is_lost (settle x h).1 ≡ false
    → loses x.1 ≡ false
unfolding settle
settle-lost (r, ok b) h e = refl
settle-lost (r, err (target_lost m)) h e = e
settle-lost (r, err (configuration m)) h e = refl
settle-lost (r, err (transport m)) h e = refl
settle-lost (r, err (protocol m)) h e = refl
settle-lost (r, err (unsupported m)) h e = refl
settle-lost (r, err (io m)) h e = refl
settle-lost (r, panic) h e = elim h.1 [ ]
settle-lost (r, stuck) h e = elim h.1 [ ]

module _ {P : Type 0} (device : Pn532Device P) (documented : IsDocumented device) where
  abbrev pub uart : NfcReader (CoherentReader P)
  uart = pn532_reader device documented

  Polled-HasTarget :
      (x : Pn532UartReader P × Result ReaderError (Option CardPresence)) (h : Ends IsSettled x)
      (card : CardPresence)
      → Ends Polled x
      → x.1 ≡ ok (some card)
      → HasTarget (settle x h).0 card
  unfolding settle Polled
  Polled-HasTarget (r, ok none) h card p e = absurd (cc)
  Polled-HasTarget (r, ok (some found)) h card p e = (p.0, p.1 ∙ found_same found card e)
  Polled-HasTarget (r, err x) h card p e = absurd (cc)
  Polled-HasTarget (r, panic) h card p e = elim p [ ]
  Polled-HasTarget (r, stuck) h card p e = elim p [ ]

  KeepsTarget-HasTarget :
      (c : CoherentReader P) (card : CardPresence)
      (x : Pn532UartReader P × Result ReaderError (List ℕ)) (h : Ends IsSettled x)
      → HasTarget c card
      → Ends (KeepsTarget c.reader) x
      → is_lost (settle x h).1 ≡ false
      → HasTarget (settle x h).0 card
  unfolding settle
  KeepsTarget-HasTarget c card x h has keeps n =
      let (target, cached) = keeps (settle-lost x h n) in
      (ap (λ (t : Option ℕ). is_some t) target ∙ has.0, cached ∙ has.1)

  pub uart-SelectsCards : SelectsCards (pn532_reader device documented) HasTarget
  unfolding pn532_reader
  uart-SelectsCards = record {
    poll_selects = λ c card e.
        let x = poll_card device c.reader in
        let p = poll_card-Polled device documented c.reader c.is_coherent in
        let h = Polled-IsSettled x.0 x.1 p in
        Polled-HasTarget x h card p (settle-value x h (some card) e);
    exchange_keeps = λ c card apdu has n.
        let x = exchange_apdu device apdu c.reader in
        let p = exchange_apdu-Exchanged device documented c.reader apdu c.is_coherent in
        KeepsTarget-HasTarget c card x (Exchanged-IsSettled x.0 x.1 p) has
          (exchange_apdu-KeepsTarget device documented c.reader apdu has.0) n;
  }

  -- The bridge with an active slot, its reader with an active target: they agree on the card, the
  -- field is on, and an exchange goes to the target with no poll before it.
  abbrev pub Agree : CcidBridge (CoherentReader P) → Type 0
  Agree b =
      (target : ℕ) × (b.reader.reader.active_target ≡ some target)
      × (b.reader.reader.cached_card ≡ b.current_card)
      × (b.reader.reader.rf_field_enabled ≡ true)
      × (choose_target device b.reader.reader ≡ (b.reader.reader, ok target))

  pub linked-Agree :
      (b : CcidBridge (CoherentReader P))
      → IsLinked HasTarget b
      → current_icc_status b ≡ active
      → Agree b
  unfolding IsCoherent
  linked-Agree b h a =
      let (card, known, (active_target, cached)) = h (ground (arith, a)) in
      elim (Option-cases b.reader.reader.active_target) [
        | inl e ↦ absurd (cc (active_target, e))
        | inr (target, e) ↦ (
          target,
          e,
          cached ∙ sym known,
          ground (arith, b.reader.is_coherent, e),
          choose_target-active device b.reader.reader target e,
        )
      ]

  -- From a new bridge: after commands in which no power off fails, a slot that is active has its
  -- card as the cached one of the reader, whose target is active with the field on, and an exchange
  -- goes to this target with no poll before it.
  pub run-Agree :
      (c : CoherentReader P) (cs : List CcidCommand)
      → OffSucceeds uart (new uart c) cs
      → current_icc_status (run uart (new uart c) cs) ≡ active
      → Agree (run uart (new uart c) cs)
  run-Agree c cs offs = linked-Agree (run uart (new uart c) cs) (
      run-IsLinked uart HasTarget uart-SelectsCards (new uart c) cs
        (new-IsLinked uart HasTarget uart-SelectsCards c) offs)

  -- The target after a call.
  left_target : {A : Type 0} → Pn532UartReader P × Result ReaderError A → Option ℕ
  left_target x = x.0.active_target

  power_off-idle : (c : CoherentReader P) → (uart.power_off c).0.reader.active_target ≡ none
  unfolding pn532_reader settle power_off left_target
  power_off-idle c =
      elim (set_rf_field-cases device false (record c.reader { active_target = none })) [
        | inl (p, e) ↦ ap left_target e
        | inr (p, x, e) ↦ ap left_target e
      ]

  -- If the field cannot be switched off when an active slot is to be powered off: the host is told
  -- of a failure with the card inactive, but the slot stays active with the same card, while the
  -- reader has no target any more, so that the next exchange goes to whichever card a poll finds.
  pub power_off_failed :
      (b : CcidBridge (CoherentReader P)) (slot seq : ℕ)
      → current_icc_status b ≡ active
      → is_fault (uart.power_off b.reader).1 ≡ true
      → let after = handle_command uart b (icc_power_off slot seq) in
        let r = after.0.reader.reader in
        (after.1 ≡ ok (failure slot seq inactive))
        × (current_icc_status after.0 ≡ active)
        × (after.0.current_card ≡ b.current_card)
        × (r.active_target ≡ none)
        × (choose_target device r ≡ (poll_card device >>= target_polled device) r)
  unfolding handle_command
  power_off_failed b slot seq a failed =
      let done = power_off_done-failed b slot seq (uart.power_off b.reader) failed in
      let idle = power_off-idle b.reader in
      let after : Handled (CoherentReader P) = handle_command uart b (icc_power_off slot seq) in
      let target : after.0.reader.reader.active_target ≡ none =
        ap (λ (x : Handled (CoherentReader P)). x.0.reader.reader.active_target) done ∙ idle in
      (
        ap (λ (x : Handled (CoherentReader P)). x.1) done,
        ap (λ (x : Handled (CoherentReader P)). current_icc_status x.0) done ∙ a,
        ap (λ (x : Handled (CoherentReader P)). x.0.current_card) done,
        target,
        choose_target-idle device after.0.reader.reader target,
      )
