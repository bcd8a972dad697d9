-- ===== src/Nfc/Pn532/Polling.antt =====
-- src/nfc/pn532.rs: what a poll does to the reader.
use vusbipd_ccid.Base.{
  ℕ, ◌≡◌, refl, true, false, Option, some, is_some, List, arith, inl, inr, Bool-cases, if_cases,
}
use vusbipd_ccid.Base.Run.{Run, Ends}
use vusbipd_ccid.Base.Text.{plain}
use vusbipd_ccid.Nfc.{CardPresence, ReaderError}
use vusbipd_ccid.Nfc.Pn532.{can_return_cached_presence}
use vusbipd_ccid.Nfc.Pn532.Chip.{Pn532Device}
use vusbipd_ccid.Nfc.Pn532.Target.{target_found}
use vusbipd_ccid.Nfc.Pn532.Reader.{
  Pn532UartReader, recently_polled, poll_answered, poll_target, poll_card, counts_no_target,
  forget_target, pn532_poll_timeout_ms,
}
use vusbipd_ccid.Nfc.Pn532.Waiting.{IsDocumented}
use vusbipd_ccid.Nfc.Pn532.Returning.{process-cases}
use vusbipd_ccid.Nfc.Pn532.Field.{field_action, set_rf_field-cases}
use vusbipd_ccid.Nfc.Pn532.Parsed.{target_found-IsParsed, parsed-cases}
use vusbipd_ccid.Nfc.Pn532.Coherence.{
  IsCoherent, Polled, KeepsCoherent, map_pn532_error-KeepsCoherent, idle-IsCoherent,
  other_chip-IsCoherent, lit-IsCoherent, cached-Polled,
}

module _ {P : Type 0} (device : Pn532Device P) (documented : IsDocumented device) where
  poll_answered-Polled :
      (response : List ℕ) (r : Pn532UartReader P)
      → r.rf_field_enabled ≡ true
      → IsCoherent r
      → Ends Polled (poll_answered device response r)
  unfolding poll_answered Polled KeepsCoherent
  poll_answered-Polled response r on h = elim (Bool-cases (counts_no_target response)) [
    | inl empty ↦ elim (set_rf_field-cases device false (forget_target r)) [
      | inl (p, e) ↦ ground (arith, empty, e)
      | inr (p, x, e) ↦ ground (
        arith,
        empty,
        e,
        map_pn532_error-KeepsCoherent (record (forget_target r) { pn532 = p }) field_action x
            (idle-IsCoherent (record (forget_target r) { pn532 = p }) refl),
      )
    ]
    | inr counted ↦ elim (parsed-cases (target_found response) (target_found-IsParsed response)) [
      | inl ((target, card), e) ↦ ground (arith, counted, e, on)
      | inr (m, e) ↦ ground (arith, counted, e, h)
    ]
  ]

  poll_target-Polled :
      (now : ℕ) (r : Pn532UartReader P) → IsCoherent r → Ends Polled (poll_target device now r)
  unfolding poll_target Polled
  poll_target-Polled now r h = elim (set_rf_field-cases device true r) [
    | inr (p, x, e) ↦ ground (
      arith,
      e,
      map_pn532_error-KeepsCoherent (record r { pn532 = p }) field_action x
          (other_chip-IsCoherent r p h),
    )
    | inl (p, e) ↦
        elim (process-cases device documented device.inlist_one_iso_a_target pn532_poll_timeout_ms p
          documented.inlist_below) [
            | inl (p', response, e') ↦
                let r' : Pn532UartReader P = record r {
                  pn532 = p';
                  last_poll = some now;
                  rf_field_enabled = true;
                } in
                ground (
                  arith,
                  e,
                  e',
                  poll_answered-Polled response r' refl (lit-IsCoherent r r' refl refl refl h),
                )
            | inr (p', x, e') ↦
                let r' : Pn532UartReader P = record r {
                  pn532 = p';
                  last_poll = some now;
                  rf_field_enabled = true;
                } in
                ground (
                  arith,
                  e,
                  e',
                  map_pn532_error-KeepsCoherent r' (plain "poll for ISO14443A target") x
                      (lit-IsCoherent r r' refl refl refl h),
                )
          ]
  ]

  -- If the port and the clock behave as documented: a poll returns, with no panic, from a reader
  -- whose target, card and field agree. Afterwards they agree again, and the result tells the
  -- state: a card that is reported is the cached one, with a target active and the field on; when
  -- none is reported, no target is active and no card cached; and no failure is a lost target.
  pub poll_card-Polled : (r : Pn532UartReader P) → IsCoherent r → Ends Polled (poll_card device r)
  unfolding poll_card
  poll_card-Polled r h =
      let r' : Pn532UartReader P = record r { pn532 = (device.now r.pn532).0 } in
      if_cases
        (λ (m : Run (Pn532UartReader P) ReaderError (Option CardPresence)). Ends Polled (m r'))
        (can_return_cached_presence (is_some r.cached_card) (is_some r.active_target)
          (recently_polled r' (device.now r.pn532).1))
        (cached-Polled r' (recently_polled r' (device.now r.pn532).1) (other_chip-IsCoherent r _ h))
        (λ stale. poll_target-Polled (device.now r.pn532).1 r' (other_chip-IsCoherent r _ h))
