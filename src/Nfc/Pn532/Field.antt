-- ===== src/Nfc/Pn532/Field.antt =====
-- src/nfc/pn532.rs: the RF field.
use vusbipd_ccid.Base.{
  ◌≡◌, refl, ap, Bool, true, false, arith, ◌⊎◌, inl, inr, Bool-cases, if◌then◌else◌,
}
use vusbipd_ccid.Base.Result.{Result, ok, err}
use vusbipd_ccid.Base.Run.{call-cases}
use vusbipd_ccid.Nfc.{ReaderError}
use vusbipd_ccid.Base.Text.{Message, plain}
use vusbipd_ccid.Nfc.Pn532.{Pn532Error, map_pn532_error}
use vusbipd_ccid.Nfc.Pn532.Chip.{Pn532Device}
use vusbipd_ccid.Nfc.Pn532.Reader.{
  Pn532UartReader, set_rf_field, same, rf_field_on, rf_field_off, pn532_init_timeout_ms,
}

abbrev pub field_action : Message
field_action = plain "set PN532 RF field state"

same→eq : (a b : Bool) → same a b ≡ true → a ≡ b
same→eq true true h = refl
same→eq true false h = ground arith
same→eq false true h = ground arith
same→eq false false h = refl

unchanged :
    {P : Type 0} (r : Pn532UartReader P) (b : Bool)
    → r.rf_field_enabled ≡ b
    → Path
        (Pn532UartReader P × Result ReaderError (Unit {0}))
        (r, ok tt)
        (record r { rf_field_enabled = b }, ok tt)
unchanged {P} r b e =
    let with_field : Bool → Pn532UartReader P × Result ReaderError (Unit {0}) =
      λ b. (record r { rf_field_enabled = b }, ok tt) in
    ap with_field e

module _ {P : Type 0} (device : Pn532Device P) where
  -- The field is set, or the chip fails and it is left as it was.
  pub set_rf_field-cases :
      (enabled : Bool) (r : Pn532UartReader P)
      → ((p : P) × (set_rf_field device enabled r
            ≡ (record r { pn532 = p; rf_field_enabled = enabled }, ok tt)))
        ⊎ ((p : P) × (x : Pn532Error) × (set_rf_field device enabled r
              ≡ (record r { pn532 = p }, err (map_pn532_error field_action x))))
  unfolding set_rf_field
  set_rf_field-cases enabled r = elim (Bool-cases (same r.rf_field_enabled enabled)) [
    | inl e ↦ inl (r.pn532, rw e (unchanged r enabled (same→eq r.rf_field_enabled enabled e)))
    | inr e ↦
        elim (call-cases (
          device.process r.pn532
            (record {
              command = device.rf_configuration;
              data_bytes = if enabled then rf_field_on else rf_field_off;
            })
            0 pn532_init_timeout_ms)) [
              | inl (p, answer, given) ↦ inl (p, ground (arith, e, given))
              | inr (p, x, given) ↦ inr (p, x, ground (arith, e, given))
            ]
  ]
