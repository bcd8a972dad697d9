-- ===== src/Nfc/Backends.antt =====
-- src/nfc: `Box<dyn NfcReader>` with the two readers that there are behind it.
use vusbipd_ccid.Base.{ℕ, List, Option}
use vusbipd_ccid.Base.Result.{Returned}
use vusbipd_ccid.Nfc.{CardPresence, ReaderCapabilities, ReaderError, NfcReader}
use vusbipd_ccid.Nfc.Dummy.{DummyReader, dummy_reader}
use vusbipd_ccid.Nfc.Pn532.Chip.{Pn532Device}
use vusbipd_ccid.Nfc.Pn532.Waiting.{IsDocumented}
use vusbipd_ccid.Nfc.Pn532.Instance.{CoherentReader, pn532_reader}

pub data AnyReader (P : Type 0) : Type 0 where
  any_pn532 : CoherentReader P → AnyReader P
  any_dummy : DummyReader → AnyReader P

-- The state of the reader behind the box, after a call on it.
abbrev boxed : {P S A : Type 0} → (S → AnyReader P) → S × A → AnyReader P × A
boxed box (s, a) = (box s, a)

module _ {P : Type 0} (device : Pn532Device P) (documented : IsDocumented device) where
  abbrev uart : NfcReader (CoherentReader P)
  uart = pn532_reader device documented

  any_capabilities : AnyReader P → ReaderCapabilities
  any_capabilities (any_pn532 r) = uart.capabilities r
  any_capabilities (any_dummy r) = dummy_reader.capabilities r

  any_poll_card : AnyReader P → AnyReader P × Returned ReaderError (Option CardPresence)
  any_poll_card (any_pn532 r) = boxed any_pn532 (uart.poll_card r)
  any_poll_card (any_dummy r) = boxed any_dummy (dummy_reader.poll_card r)

  any_power_off : AnyReader P → AnyReader P × Returned ReaderError (Unit {0})
  any_power_off (any_pn532 r) = boxed any_pn532 (uart.power_off r)
  any_power_off (any_dummy r) = boxed any_dummy (dummy_reader.power_off r)

  any_exchange_apdu : AnyReader P → List ℕ → AnyReader P × Returned ReaderError (List ℕ)
  any_exchange_apdu (any_pn532 r) apdu = boxed any_pn532 (uart.exchange_apdu r apdu)
  any_exchange_apdu (any_dummy r) apdu = boxed any_dummy (dummy_reader.exchange_apdu r apdu)

  unfoldable pub any_reader : NfcReader (AnyReader P)
  unfolding any_capabilities any_poll_card any_power_off any_exchange_apdu
  any_reader = record {
    capabilities = any_capabilities;
    poll_card = any_poll_card;
    power_off = any_power_off;
    exchange_apdu = any_exchange_apdu;
  }
