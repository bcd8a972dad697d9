-- ===== src/Nfc/Pn532/Reader.antt =====
-- src/nfc/pn532.rs: the reader's state and its methods.
use vusbipd_ccid.Base.{
  ℕ, ◌+◌, ◌-◌, Bool, true, false, not, Option, none, some, is_some, List, [], ◌∷◌, length, ltb,
  ◌==◌, if◌then◌else◌,
}
use vusbipd_ccid.Base.Result.{err}
use vusbipd_ccid.Base.Run.{Run, ◌>>=◌, ◌>>◌, give, fail, get, modify, lift, or_else, call}
use vusbipd_ccid.Base.Text.{text, num, hex, plain}
use vusbipd_ccid.Nfc.{
  CardPresence, ReaderCapabilities, ReaderError, protocol, target_lost, unsupported,
}
use vusbipd_ccid.Nfc.Pn532.{
  can_return_cached_presence, exchange_status_keeps_target_active, map_pn532_error,
}
use vusbipd_ccid.Nfc.Pn532.Chip.{Pn532Device, from_millis, instant_now, process_dynamic_response}
use vusbipd_ccid.Nfc.Pn532.Target.{target_found}

abbrev pub pn532_buffer_size : ℕ
pn532_buffer_size = 320

abbrev pub pn532_init_timeout_ms : ℕ
pn532_init_timeout_ms = 1000

abbrev pub pn532_poll_timeout_ms : ℕ
pn532_poll_timeout_ms = 500

abbrev pub pn532_apdu_timeout_ms : ℕ
pn532_apdu_timeout_ms = 5000

abbrev pub pn532_poll_interval_ms : ℕ
pn532_poll_interval_ms = 1000

abbrev pub pn532_absent_poll_interval_ms : ℕ
pn532_absent_poll_interval_ms = 2000

abbrev pub iso_a_target_slot : ℕ
iso_a_target_slot = 0x01

abbrev pub rf_max_retries : List ℕ
rf_max_retries = 0x05 ∷ 0x00 ∷ 0x00 ∷ 0x00 ∷ []

abbrev pub rf_field_on : List ℕ
rf_field_on = 0x01 ∷ 0x01 ∷ []

abbrev pub rf_field_off : List ℕ
rf_field_off = 0x01 ∷ 0x00 ∷ []

-- The path is its characters.
pub record Pn532UartConfig : Type 0 where
  pub port : List ℕ
  pub baud_rate : ℕ

-- The crate's device is its state `P`; an instant is in nanoseconds.
pub record Pn532UartReader (P : Type 0) : Type 0 where
  pub config : Pn532UartConfig
  pub pn532 : P
  pub active_target : Option ℕ
  pub cached_card : Option CardPresence
  pub last_poll : Option ℕ
  pub rf_field_enabled : Bool
  pub firmware_version : List ℕ

abbrev pub capabilities : {P : Type 0} → Pn532UartReader P → ReaderCapabilities
capabilities r = record {
  name = "pn532-uart";
  supports_iso_dep = true;
  supports_apdu_exchange = true;
}

abbrev pub port_path : {P : Type 0} → Pn532UartReader P → List ℕ
port_path r = r.config.port

-- `last_poll.is_some_and(|last_poll| now.duration_since(last_poll) < poll_interval)`
abbrev pub recently_polled : {P : Type 0} → Pn532UartReader P → ℕ → Bool
recently_polled r now = elim r.last_poll [
  | none ↦ false
  | some last_poll ↦ ltb (now - last_poll) (
      if is_some r.cached_card
      then from_millis pn532_poll_interval_ms
      else from_millis pn532_absent_poll_interval_ms)
]

-- `response.is_empty() || response[0] == 0`
abbrev pub counts_no_target : List ℕ → Bool
counts_no_target [] = true
counts_no_target (count ∷ rest) = count == 0

abbrev pub same : Bool → Bool → Bool
same true b = b
same false b = not b

-- A call on the field `pn532`.
abbrev pub on_pn532 : {P E A : Type 0} → Run P E A → Run (Pn532UartReader P) E A
on_pn532 m r = (record r { pn532 = (m r.pn532).0 }, (m r.pn532).1)

abbrev pub forget_target : {P : Type 0} → Pn532UartReader P → Pn532UartReader P
forget_target r = record r { active_target = none; cached_card = none }

abbrev pub remember_target : {P : Type 0} → ℕ → CardPresence → Pn532UartReader P → Pn532UartReader P
remember_target target card r = record r { active_target = some target; cached_card = some card }

module _ {P : Type 0} (device : Pn532Device P) where
  unfoldable pub set_rf_field : Bool → Run (Pn532UartReader P) ReaderError (Unit {0})
  set_rf_field enabled = do
    r ← get
    if same r.rf_field_enabled enabled then give tt else (do
      answer ← or_else (map_pn532_error (plain "set PN532 RF field state")) (
          on_pn532 (
            call (λ p.
              device.process p
                (record {
                  command = device.rf_configuration;
                  data_bytes = if enabled then rf_field_on else rf_field_off;
                })
                0 pn532_init_timeout_ms)))
      modify (λ r. record r { rf_field_enabled = enabled }))

  unfoldable pub deactivate_target : Run (Pn532UartReader P) ReaderError (Unit {0})
  unfolding set_rf_field
  deactivate_target = do
    modify (λ r. record r { active_target = none; cached_card = none; last_poll = none })
    set_rf_field false

  unfoldable pub power_off : Run (Pn532UartReader P) ReaderError (Unit {0})
  unfolding set_rf_field
  power_off = do modify (λ r. record r { active_target = none }); set_rf_field false

  -- The rest of `poll_card` on the response to the poll.
  unfoldable pub poll_answered : List ℕ → Run (Pn532UartReader P) ReaderError (Option CardPresence)
  unfolding set_rf_field
  poll_answered response =
      if counts_no_target response
      then (do modify forget_target; set_rf_field false; give none)
      else (do
        found ← lift (target_found response)
        modify (remember_target found.0 found.1)
        give (some found.1))

  -- `poll_card` behind the return of the cached card.
  unfoldable pub poll_target : ℕ → Run (Pn532UartReader P) ReaderError (Option CardPresence)
  unfolding set_rf_field poll_answered process_dynamic_response
  poll_target now = do
    set_rf_field true
    modify (λ r. record r { last_poll = some now })
    response ← or_else (map_pn532_error (plain "poll for ISO14443A target")) (
        on_pn532
          (process_dynamic_response device device.inlist_one_iso_a_target pn532_poll_timeout_ms))
    poll_answered response

  unfoldable pub poll_card : Run (Pn532UartReader P) ReaderError (Option CardPresence)
  unfolding poll_target instant_now
  poll_card = do
    now ← on_pn532 (instant_now device)
    r ← get
    if can_return_cached_presence (is_some r.cached_card) (is_some r.active_target)
          (recently_polled r now)
        then give r.cached_card
        else poll_target now

  -- In `exchange_apdu`: the target after a poll, by what the poll found.
  unfoldable pub target_polled : Option CardPresence → Run (Pn532UartReader P) ReaderError ℕ
  target_polled none =
      fail (target_lost (plain "cannot exchange APDU because no NFC target is present"))
  target_polled (some card) = do
    r ← get
    elim r.active_target [ some target ↦ give target | none ↦ give iso_a_target_slot ]

  -- The match on `active_target` in `exchange_apdu`.
  unfoldable pub choose_target : Run (Pn532UartReader P) ReaderError ℕ
  unfolding poll_card target_polled
  choose_target = do
    r ← get
    elim r.active_target [ some target ↦ give target | none ↦ poll_card >>= target_polled ]

  -- The rest of `exchange_apdu` on the response of the chip: its status, and that of the card.
  unfoldable pub exchange_answered : List ℕ → Run (Pn532UartReader P) ReaderError (List ℕ)
  unfolding deactivate_target
  exchange_answered [] = fail (protocol (plain "PN532 returned an empty APDU exchange response"))
  exchange_answered (status ∷ response) =
      if not (exchange_status_keeps_target_active status)
      then (λ r. (
        (deactivate_target r).0,
        err (target_lost (text "PN532 reported APDU exchange status 0x" ∷ hex status ∷ [])),
      ))
      else give response

  -- `exchange_apdu` once its target is chosen.
  unfoldable pub exchange_with : List ℕ → ℕ → Run (Pn532UartReader P) ReaderError (List ℕ)
  unfolding exchange_answered process_dynamic_response
  exchange_with apdu target = do
    response ← or_else (map_pn532_error (plain "exchange APDU with NFC target")) (
        on_pn532 (
          process_dynamic_response device
            (record { command = device.in_data_exchange; data_bytes = target ∷ apdu })
            pn532_apdu_timeout_ms))
    exchange_answered response

  unfoldable pub exchange_apdu : List ℕ → Run (Pn532UartReader P) ReaderError (List ℕ)
  unfolding choose_target exchange_with
  exchange_apdu apdu =
      if ltb (pn532_buffer_size - 9) (length apdu + 1)
      then fail (
          unsupported (
            text "APDU of "
            ∷ num (length apdu)
            ∷ text " bytes exceeds current PN532 buffer budget"
            ∷ []))
      else (choose_target >>= exchange_with apdu)
