-- ===== src/Bridge/Asks.antt =====
-- What the bridge asks the reader to do for each command.
use vusbipd_ccid.Base.{ℕ, ◌≡◌, ◌≢◌, refl, true, List, arith}
use vusbipd_ccid.Nfc.{NfcReader}
use vusbipd_ccid.Protocol.{
  CcidCommand, icc_power_on, icc_power_off, get_slot_status, set_parameters, xfr_block, active,
  inactive, not_present,
}
use vusbipd_ccid.Bridge.{
  CcidBridge, handle_command, refresh_card_presence, current_icc_status,
  normalize_apdu_for_exchange,
}
use vusbipd_ccid.Bridge.Slot.{IsValid}
use vusbipd_ccid.Bridge.Steps.{is_other}
use vusbipd_ccid.Bridge.Select.{IsTruncatedSelect, select_aid-panic_iff, select_aid-ne-stuck}

module _ {S : Type 0} (nfc : NfcReader S) where
  -- The reader after a command to a bridge: it is asked once, or left alone.
  pub data Asks (b : CcidBridge S) : CcidCommand → S → Type 0 where
    powers_on : {slot seq p : ℕ} → Asks b (icc_power_on slot seq p) (nfc.poll_card b.reader).0
    powers_off : {slot seq : ℕ} → Asks b (icc_power_off slot seq) (nfc.power_off b.reader).0
    looks :
        {slot seq : ℕ}
        → current_icc_status b ≢ active
        → Asks b (get_slot_status slot seq) (nfc.poll_card b.reader).0
    knows :
        {slot seq : ℕ} → current_icc_status b ≡ active → Asks b (get_slot_status slot seq) b.reader
    exchanges :
        {slot seq bwi level : ℕ} {payload : List ℕ}
        → current_icc_status b ≡ active
        → ¬ IsTruncatedSelect payload
        → Asks b
            (xfr_block slot seq bwi level payload)
            (nfc.exchange_apdu b.reader (normalize_apdu_for_exchange payload)).0
    panics :
        {slot seq bwi level : ℕ} {payload : List ℕ}
        → current_icc_status b ≡ active
        → IsTruncatedSelect payload
        → Asks b (xfr_block slot seq bwi level payload) b.reader
    looks_first :
        {slot seq bwi level : ℕ} {payload : List ℕ}
        → current_icc_status b ≡ not_present
        → Asks b (xfr_block slot seq bwi level payload) (nfc.poll_card b.reader).0
    refuses :
        {slot seq bwi level : ℕ} {payload : List ℕ}
        → current_icc_status b ≡ inactive
        → Asks b (xfr_block slot seq bwi level payload) b.reader
    other : {c : CcidCommand} → is_other c ≡ true → Asks b c b.reader

  -- With a valid slot, a command asks the reader for one thing at most. The card gets an APDU only
  -- from an XfrBlock to an active slot, normalised, unless it is a truncated SELECT; to an inactive
  -- slot the block asks for nothing, and with no card present for a poll, never for an exchange. A
  -- power on polls, a power off switches off, a status request polls unless the slot is active, and
  -- any other command leaves the reader alone.
  pub handle_command-Asks :
      (b : CcidBridge S) (c : CcidCommand) → IsValid b → Asks b c (handle_command nfc b c).0.reader
  unfolding handle_command refresh_card_presence
  handle_command-Asks b (icc_power_on slot seq p) v = grind (arith, powers_on)
  handle_command-Asks b (icc_power_off slot seq) v = grind (arith, powers_off)
  handle_command-Asks b (get_slot_status slot seq) v = grind (arith, looks, knows)
  handle_command-Asks b (set_parameters slot seq n payload) v = grind (arith, other)
  handle_command-Asks b (xfr_block slot seq bwi level payload) v = grind (
    arith,
    exchanges,
    panics,
    looks_first,
    refuses,
    select_aid-panic_iff payload,
    select_aid-ne-stuck payload,
  )
  handle_command-Asks b c v = other refl
