-- ===== src/Nfc/Pn532/Backoff.antt =====
-- src/nfc/pn532.rs: polls that follow on one another.
use mathlib.Core.Path.{subst}
use vusbipd_ccid.Nfc.Pn532.{can_return_cached_presence}
use vusbipd_ccid.Base.{refl, ℕ, ◌≡◌, ◌<◌, ◌+◌, Option, none, some, is_some, arith, true}
use vusbipd_ccid.Base.Result.{Result, ok}
use vusbipd_ccid.Base.Run.{Ends}
use vusbipd_ccid.Nfc.{CardPresence, ReaderError}
use vusbipd_ccid.Nfc.Pn532.Chip.{Pn532Device, from_millis, instant_now}
use vusbipd_ccid.Nfc.Pn532.Reader.{
  Pn532UartReader, poll_card, recently_polled, pn532_poll_interval_ms,
  pn532_absent_poll_interval_ms,
}
use vusbipd_ccid.Nfc.Pn532.Waiting.{IsDocumented}
use vusbipd_ccid.Nfc.Pn532.Coherence.{IsCoherent, Polled}
use vusbipd_ccid.Nfc.Pn532.Polling.{poll_card-Polled}

-- How long a poll counts, by what it reported.
abbrev pub counts_for : Option CardPresence → ℕ
counts_for none = from_millis pn532_absent_poll_interval_ms
counts_for (some card) = from_millis pn532_poll_interval_ms

recent-none :
    {P : Type 0} (r : Pn532UartReader P) (now last : ℕ)
    → r.cached_card ≡ none
    → r.last_poll ≡ some last
    → now < last + counts_for none
    → recently_polled r now ≡ true
recent-none r now last cached polled soon = ground (arith, cached, polled, soon)

recent-some :
    {P : Type 0} (r : Pn532UartReader P) (card : CardPresence) (now last : ℕ)
    → r.cached_card ≡ some card
    → r.last_poll ≡ some last
    → now < last + counts_for (some card)
    → recently_polled r now ≡ true
recent-some r card now last cached polled soon = ground (arith, cached, polled, soon)

module _ {P : Type 0} (device : Pn532Device P) where
  poll_card-recent :
      (r : Pn532UartReader P)
      → can_return_cached_presence
          (is_some r.cached_card)
          (is_some r.active_target)
          (recently_polled r (device.now r.pn532).1)
        ≡ true
      → poll_card device r ≡ (record r { pn532 = (device.now r.pn532).0 }, ok r.cached_card)
  unfolding poll_card instant_now
  poll_card-recent r h = rw h refl

  Polled-again :
      (r : Pn532UartReader P) (found : Option CardPresence) (p : P) (last : ℕ)
      → Polled r (ok found)
      → r.last_poll ≡ some last
      → (device.now p).1 < last + counts_for found
      → poll_card device (record r { pn532 = p })
        ≡ (record r { pn532 = (device.now p).0 }, ok found)
  unfolding Polled
  Polled-again r none p last (idle, cached) polled soon =
      rw
        (poll_card-recent (record r { pn532 = p })
          (ground (arith, cached, recent-none r (device.now p).1 last cached polled soon)))
        (ground (arith, cached))
  Polled-again r (some card) p last (active, cached, lit) polled soon =
      rw
        (poll_card-recent (record r { pn532 = p })
          (ground (arith, active, recent-some r card (device.now p).1 last cached polled soon)))
        (ground (arith, cached))

  -- If the port and the clock behave as documented: after a poll that reports a card, or none, from
  -- a reader whose target, card and field agree, a second poll, at whatever state of the chip, in
  -- less than one second since the last question to the chip (two seconds with no card), reports
  -- the same and only reads the clock.
  pub poll_card_again :
      (documented : IsDocumented device) (r r' : Pn532UartReader P) (found : Option CardPresence)
      (p : P) (last : ℕ)
      → IsCoherent r
      → poll_card device r ≡ (r', ok found)
      → r'.last_poll ≡ some last
      → (device.now p).1 < last + counts_for found
      → poll_card device (record r' { pn532 = p })
        ≡ (record r' { pn532 = (device.now p).0 }, ok found)
  poll_card_again documented r r' found p last coherent first polled soon =
      Polled-again r' found p last
        (subst (λ (x : Pn532UartReader P × Result ReaderError (Option CardPresence)). Ends Polled x)
          first (poll_card-Polled device documented r coherent))
        polled soon
