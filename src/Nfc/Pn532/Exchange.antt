-- ===== src/Nfc/Pn532/Exchange.antt =====
-- src/nfc/pn532.rs: what an exchange does to the reader.
use vusbipd_ccid.Base.{
  List, [], ◌∷◌, false, ℕ, ◌≡◌, true, Option, none, some, is_some, arith, inl, inr, Option-cases,
}
use vusbipd_ccid.Base.Result.{Result, ok, err, panic, stuck}
use vusbipd_ccid.Base.Run.{Ends, proceed}
use vusbipd_ccid.Nfc.{CardPresence, ReaderError}
use vusbipd_ccid.Nfc.Pn532.Chip.{Pn532Device}
use vusbipd_ccid.Nfc.Pn532.Reader.{
  Pn532UartReader, poll_card, target_polled, choose_target, exchange_with, exchange_answered,
  exchange_apdu, pn532_apdu_timeout_ms, deactivate_target,
}
use vusbipd_ccid.Base.Text.{plain}
use vusbipd_ccid.Nfc.Pn532.Field.{set_rf_field-cases}
use vusbipd_ccid.Nfc.Pn532.Returning.{process-cases}
use vusbipd_ccid.Nfc.Pn532.Waiting.{IsDocumented}
use vusbipd_ccid.Nfc.Pn532.Coherence.{
  map_pn532_error-KeepsCoherent, IsCoherent, Polled, Failed, KeepsCoherent-Failed,
}
use vusbipd_ccid.Nfc.Pn532.Polling.{poll_card-Polled}

-- A target is active, with its card known and the field on.
unfoldable pub IsReady : {P : Type 0} → Pn532UartReader P → Type 0
IsReady r =
    (is_some r.active_target ≡ true) × (is_some r.cached_card ≡ true) × (r.rf_field_enabled ≡ true)

-- The state after an exchange.
unfoldable pub Exchanged : {P : Type 0} → Pn532UartReader P → Result ReaderError (List ℕ) → Type 0
Exchanged r (ok response) = IsReady r
Exchanged r (err e) = Failed r e
Exchanged r panic = ⊥
Exchanged r stuck = ⊥

pub IsReady-IsCoherent : {P : Type 0} (r : Pn532UartReader P) → IsReady r → IsCoherent r
unfolding IsReady IsCoherent
IsReady-IsCoherent r h = ground (arith, h)

module _ {P : Type 0} (device : Pn532Device P) where
  -- What choosing the target of an exchange ends in.
  Chosen : Pn532UartReader P → Result ReaderError ℕ → Type 0
  Chosen r (ok target) = (r.active_target ≡ some target) × IsReady r
  Chosen r (err e) = Failed r e
  Chosen r panic = ⊥
  Chosen r stuck = ⊥

  target_polled-Chosen :
      (y : Pn532UartReader P × Result ReaderError (Option CardPresence))
      → Ends Polled y
      → Ends Chosen (proceed (target_polled device) y)
  unfolding Polled Chosen target_polled Failed IsReady
  target_polled-Chosen (r, ok none) h = ground (arith, h)
  target_polled-Chosen (r, ok (some card)) h = elim (Option-cases r.active_target) [
    | inl e ↦ ground (arith, e, h)
    | inr (t, e) ↦ ground (arith, e, h)
  ]
  target_polled-Chosen (r, err e) h = KeepsCoherent-Failed r e h
  target_polled-Chosen (r, panic) h = elim h [ ]
  target_polled-Chosen (r, stuck) h = elim h [ ]

other_chip-IsReady :
    {P : Type 0} (r : Pn532UartReader P) (p : P) → IsReady r → IsReady (record r { pn532 = p })
unfolding IsReady
other_chip-IsReady r p h = h

module _ {P : Type 0} (device : Pn532Device P) (documented : IsDocumented device) where
  choose_target-Chosen :
      (r : Pn532UartReader P) → IsCoherent r → Ends (Chosen device) (choose_target device r)
  unfolding choose_target Chosen IsCoherent IsReady
  choose_target-Chosen r h = elim (Option-cases r.active_target) [
    | inr (t, e) ↦ ground (arith, e, h)
    | inl e ↦ ground (
      arith,
      e,
      target_polled-Chosen device (poll_card device r) (poll_card-Polled device documented r h),
    )
  ]

  exchange_answered-Exchanged :
      (response : List ℕ) (r : Pn532UartReader P)
      → IsReady r
      → Ends Exchanged (exchange_answered device response r)
  unfolding exchange_answered Exchanged deactivate_target Failed
  exchange_answered-Exchanged [] r h = IsReady-IsCoherent r h
  exchange_answered-Exchanged (status ∷ response) r h =
      let off : Pn532UartReader P = record r {
        active_target = none;
        cached_card = none;
        last_poll = none;
      } in
      elim (set_rf_field-cases device false off) [
        | inl (p, e) ↦ ground (arith, e, h)
        | inr (p, x, e) ↦ ground (arith, e, h)
      ]

  exchange_with-Exchanged :
      (apdu : List ℕ) (target : ℕ) (r : Pn532UartReader P)
      → IsReady r
      → Ends Exchanged (exchange_with device apdu target r)
  unfolding exchange_with Exchanged
  exchange_with-Exchanged apdu target r h =
      elim (process-cases device documented
        (record { command = device.in_data_exchange; data_bytes = target ∷ apdu })
        pn532_apdu_timeout_ms r.pn532 documented.in_data_exchange_below) [
          | inl (p, response, e) ↦ ground (
            arith,
            e,
            exchange_answered-Exchanged response (record r { pn532 = p })
                (other_chip-IsReady r p h),
          )
          | inr (p, x, e) ↦
              let r' : Pn532UartReader P = record r { pn532 = p } in
              ground (
                arith,
                e,
                KeepsCoherent-Failed r' _ (
                    map_pn532_error-KeepsCoherent r' (plain "exchange APDU with NFC target") x
                      (IsReady-IsCoherent r' (other_chip-IsReady r p h))),
              )
        ]

  exchange_with-proceed :
      (apdu : List ℕ) (y : Pn532UartReader P × Result ReaderError ℕ)
      → Ends (Chosen device) y
      → Ends Exchanged (proceed (exchange_with device apdu) y)
  unfolding Chosen Exchanged
  exchange_with-proceed apdu (r, ok target) h = exchange_with-Exchanged apdu target r h.1
  exchange_with-proceed apdu (r, err e) h = h
  exchange_with-proceed apdu (r, panic) h = elim h [ ]
  exchange_with-proceed apdu (r, stuck) h = elim h [ ]

  -- If the port and the clock behave as documented: an exchange returns, with no panic, from a
  -- reader whose target, card and field agree. After a response a target is active, its card
  -- cached and the field on; after a lost target no target is active and no card cached; after any
  -- other failure target, card and field agree.
  pub exchange_apdu-Exchanged :
      (r : Pn532UartReader P) (apdu : List ℕ)
      → IsCoherent r
      → Ends Exchanged (exchange_apdu device apdu r)
  unfolding exchange_apdu Exchanged Failed
  exchange_apdu-Exchanged r apdu h =
      ground
        (arith, h, exchange_with-proceed apdu (choose_target device r) (choose_target-Chosen r h))
