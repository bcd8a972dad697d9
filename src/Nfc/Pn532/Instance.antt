-- ===== src/Nfc/Pn532/Instance.antt =====
-- src/nfc/pn532.rs: the reader as an NfcReader, on the states in which target, card and field agree.
use vusbipd_ccid.Base.{false, Option, none, some, List, ℕ, inl, inr, arith}
use vusbipd_ccid.Base.Result.{Result, ok, err, panic, stuck, Returns, Returned, settled}
use vusbipd_ccid.Base.Run.{Ends}
use vusbipd_ccid.Nfc.{
  CardPresence, ReaderError, NfcReader, configuration, transport, protocol, target_lost,
  unsupported, io,
}
use vusbipd_ccid.Nfc.Pn532.Chip.{Pn532Device}
use vusbipd_ccid.Nfc.Pn532.Reader.{
  Pn532UartReader, capabilities, poll_card, power_off, exchange_apdu,
}
use vusbipd_ccid.Nfc.Pn532.Field.{set_rf_field-cases}
use vusbipd_ccid.Nfc.Pn532.Waiting.{IsDocumented}
use vusbipd_ccid.Nfc.Pn532.Coherence.{
  IsCoherent, Failed, Polled, KeepsCoherent-Failed, idle-IsCoherent,
}
use vusbipd_ccid.Nfc.Pn532.Polling.{poll_card-Polled}
use vusbipd_ccid.Nfc.Pn532.Exchange.{Exchanged, exchange_apdu-Exchanged, IsReady-IsCoherent}

-- What every method keeps.
unfoldable pub IsSettled : {P A : Type 0} → Pn532UartReader P → Result ReaderError A → Type 0
IsSettled r x = IsCoherent r × Returns x

Failed-IsCoherent :
    {P : Type 0} (r : Pn532UartReader P) (e : ReaderError) → Failed r e → IsCoherent r
unfolding Failed
Failed-IsCoherent r (target_lost m) h = idle-IsCoherent r h.0
Failed-IsCoherent r (configuration m) h = h
Failed-IsCoherent r (transport m) h = h
Failed-IsCoherent r (protocol m) h = h
Failed-IsCoherent r (unsupported m) h = h
Failed-IsCoherent r (io m) h = h

pub Polled-IsSettled :
    {P : Type 0} (r : Pn532UartReader P) (x : Result ReaderError (Option CardPresence))
    → Polled r x
    → IsSettled r x
unfolding Polled IsSettled IsCoherent
Polled-IsSettled r (ok none) h = ground (arith, h)
Polled-IsSettled r (ok (some card)) h = ground (arith, h)
Polled-IsSettled r (err e) h = (Failed-IsCoherent r e (KeepsCoherent-Failed r e h), tt)
Polled-IsSettled r panic h = elim h [ ]
Polled-IsSettled r stuck h = elim h [ ]

pub Exchanged-IsSettled :
    {P : Type 0} (r : Pn532UartReader P) (x : Result ReaderError (List ℕ))
    → Exchanged r x
    → IsSettled r x
unfolding Exchanged IsSettled
Exchanged-IsSettled r (ok response) h = (IsReady-IsCoherent r h, tt)
Exchanged-IsSettled r (err e) h = (Failed-IsCoherent r e h, tt)
Exchanged-IsSettled r panic h = elim h [ ]
Exchanged-IsSettled r stuck h = elim h [ ]

-- A reader whose target, card and field agree.
pub record CoherentReader (P : Type 0) : Type 0 where
  pub reader : Pn532UartReader P
  pub is_coherent : IsCoherent reader

module _ {P : Type 0} (device : Pn532Device P) where
  pub power_off-IsSettled : (r : Pn532UartReader P) → Ends IsSettled (power_off device r)
  unfolding power_off IsSettled IsCoherent
  power_off-IsSettled r =
      elim (set_rf_field-cases device false (record r { active_target = none })) [
        | inl (p, e) ↦ ground (arith, e)
        | inr (p, x, e) ↦ ground (arith, e)
      ]

unfoldable pub settle :
    {P A : Type 0} (x : Pn532UartReader P × Result ReaderError A)
    → Ends IsSettled x
    → CoherentReader P × Returned ReaderError A
unfolding IsSettled
settle x h = (record { reader = x.0; is_coherent = h.0 }, settled x.1 h.1)

module _ {P : Type 0} (device : Pn532Device P) (documented : IsDocumented device) where
  unfoldable pub pn532_reader : NfcReader (CoherentReader P)
  unfolding settle
  pn532_reader = record {
    capabilities = λ c. capabilities c.reader;
    poll_card = λ c.
        settle (poll_card device c.reader)
          (Polled-IsSettled _ _ (poll_card-Polled device documented c.reader c.is_coherent));
    power_off = λ c. settle (power_off device c.reader) (power_off-IsSettled device c.reader);
    exchange_apdu = λ c apdu. settle (exchange_apdu device apdu c.reader) (
        Exchanged-IsSettled _ _
          (exchange_apdu-Exchanged device documented c.reader apdu c.is_coherent));
  }
