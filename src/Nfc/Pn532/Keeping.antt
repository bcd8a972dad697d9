-- ===== src/Nfc/Pn532/Keeping.antt =====
-- src/nfc/pn532.rs: an exchange with the active target keeps it, unless it is lost.
use vusbipd_ccid.Base.{
  ℕ, ◌≡◌, refl, ap, sym, Bool, true, false, none, some, Option, is_some, List, [], ◌∷◌, arith, inl,
  inr, Option-cases, if_cases, not, ltb, length, ◌+◌, ◌-◌,
}
use mathlib.Core.Path.{subst}
use vusbipd_ccid.Base.Result.{Result, ok, err}
use vusbipd_ccid.Base.Run.{Run, Ends, give, proceed, ◌>>=◌}
use vusbipd_ccid.Nfc.{ReaderError, target_lost}
use vusbipd_ccid.Nfc.Pn532.{exchange_status_keeps_target_active}
use vusbipd_ccid.Nfc.Pn532.Chip.{Pn532Device}
use vusbipd_ccid.Nfc.Pn532.Reader.{
  Pn532UartReader, poll_card, choose_target, target_polled, exchange_with, exchange_answered,
  exchange_apdu, pn532_apdu_timeout_ms, pn532_buffer_size,
}
use vusbipd_ccid.Nfc.Pn532.Waiting.{IsDocumented}
use vusbipd_ccid.Nfc.Pn532.Returning.{process-cases}

-- The target and the card are those of `r`.
abbrev pub SameTarget : {P : Type 0} → Pn532UartReader P → Pn532UartReader P → Type 0
SameTarget r r' = (r'.active_target ≡ r.active_target) × (r'.cached_card ≡ r.cached_card)

abbrev pub loses : {A : Type 0} → Result ReaderError A → Bool
loses (err (target_lost message)) = true
loses x = false

-- Unless the target is lost, it stays, with its card.
abbrev pub KeepsTarget :
    {P A : Type 0} → Pn532UartReader P → Pn532UartReader P → Result ReaderError A → Type 0
KeepsTarget r r' x = loses x ≡ false → SameTarget r r'

module _ {P : Type 0} (device : Pn532Device P) where
  pub choose_target-active :
      (r : Pn532UartReader P) (target : ℕ)
      → r.active_target ≡ some target
      → choose_target device r ≡ (r, ok target)
  unfolding choose_target
  choose_target-active r target e = ground (arith, e)

  pub choose_target-idle :
      (r : Pn532UartReader P)
      → r.active_target ≡ none
      → choose_target device r ≡ (poll_card device >>= target_polled device) r
  unfolding choose_target
  choose_target-idle r e =
      let choose : Option ℕ → Run (Pn532UartReader P) ReaderError ℕ = λ t. elim t [
        | some target ↦ give target
        | none ↦ poll_card device >>= target_polled device
      ] in
      ap (λ (t : Option ℕ). choose t r) e

module _ {P : Type 0} (device : Pn532Device P) (documented : IsDocumented device) where
  exchange_answered-KeepsTarget :
      (r : Pn532UartReader P) (response : List ℕ)
      → Ends (KeepsTarget r) (exchange_answered device response r)
  unfolding exchange_answered
  exchange_answered-KeepsTarget r [] = λ n. (refl, refl)
  exchange_answered-KeepsTarget r (status ∷ response) =
      if_cases (λ (m : Run (Pn532UartReader P) ReaderError (List ℕ)). Ends (KeepsTarget r) (m r))
        (not (exchange_status_keeps_target_active status)) (λ bad n. absurd (cc))
        (λ good n. (refl, refl))

  exchange_with-KeepsTarget :
      (r : Pn532UartReader P) (apdu : List ℕ) (target : ℕ)
      → Ends (KeepsTarget r) (exchange_with device apdu target r)
  unfolding exchange_with
  exchange_with-KeepsTarget r apdu target =
      elim (process-cases device documented
        (record { command = device.in_data_exchange; data_bytes = target ∷ apdu })
        pn532_apdu_timeout_ms r.pn532 documented.in_data_exchange_below) [
          | inl (p, response, e) ↦
              rw e (exchange_answered-KeepsTarget (record r { pn532 = p }) response)
          | inr (p, x, e) ↦ rw e (λ n. (refl, refl))
        ]

  pub exchange_apdu-KeepsTarget :
      (r : Pn532UartReader P) (apdu : List ℕ)
      → is_some r.active_target ≡ true
      → Ends (KeepsTarget r) (exchange_apdu device apdu r)
  unfolding exchange_apdu
  exchange_apdu-KeepsTarget r apdu h = elim (Option-cases r.active_target) [
    | inl e ↦ absurd (cc (h, e))
    | inr (target, e) ↦
        if_cases (λ (m : Run (Pn532UartReader P) ReaderError (List ℕ)). Ends (KeepsTarget r) (m r))
          (ltb (pn532_buffer_size - 9) (length apdu + 1)) (λ long n. (refl, refl))
          (λ short.
            subst
              (λ (y : Pn532UartReader P × Result ReaderError ℕ).
                Ends (KeepsTarget r) (proceed (exchange_with device apdu) y))
              (sym (choose_target-active device r target e))
              (exchange_with-KeepsTarget r apdu target))
  ]
