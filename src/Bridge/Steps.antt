-- ===== src/Bridge/Steps.antt =====
-- The slot as a state machine over absent, inactive and active, which forgets the card, the reader
-- and the parameters.
use text.Mathlib.Text.{◌==◌ as str_eq}
use vusbipd_ccid.Base.{ℕ, ◌≡◌, ◌≢◌, refl, Bool, true, false, List, arith}
use vusbipd_ccid.Nfc.{NfcReader}
use vusbipd_ccid.Protocol.{
  CcidCommand, icc_power_on, icc_power_off, get_slot_status, set_parameters, xfr_block, IccStatus,
  active, inactive, not_present,
}
use vusbipd_ccid.Bridge.{CcidBridge, handle_command, refresh_card_presence, current_icc_status}
use vusbipd_ccid.Bridge.Slot.{IsValid}

-- The commands that never touch the card.
abbrev pub is_other : CcidCommand → Bool
is_other (icc_power_on slot seq p) = false
is_other (icc_power_off slot seq) = false
is_other (get_slot_status slot seq) = false
is_other (xfr_block slot seq bwi level payload) = false
is_other c = true

-- `SlotStep dummy i c j`: the command `c` may take a slot from `i` to `j`; `dummy` tells the
-- reader that powers its card on a status request.
pub data SlotStep (dummy : Bool) : IccStatus → CcidCommand → IccStatus → Type 0 where
  powers_up : {i : IccStatus} {slot seq p : ℕ} → SlotStep dummy i (icc_power_on slot seq p) active
  finds_none :
      {i : IccStatus} {slot seq p : ℕ} → SlotStep dummy i (icc_power_on slot seq p) not_present
  powers_down : {slot seq : ℕ} → SlotStep dummy active (icc_power_off slot seq) inactive
  off_stays : {i : IccStatus} {slot seq : ℕ} → SlotStep dummy i (icc_power_off slot seq) i
  looks :
      {i j : IccStatus} {slot seq : ℕ}
      → i ≢ active
      → j ≢ active
      → SlotStep dummy i (get_slot_status slot seq) j
  status_stays : {i : IccStatus} {slot seq : ℕ} → SlotStep dummy i (get_slot_status slot seq) i
  dummy_powers :
      {i : IccStatus} {slot seq : ℕ}
      → dummy ≡ true
      → SlotStep dummy i (get_slot_status slot seq) active
  appears :
      {slot seq bwi level : ℕ} {payload : List ℕ}
      → SlotStep dummy not_present (xfr_block slot seq bwi level payload) inactive
  lost :
      {slot seq bwi level : ℕ} {payload : List ℕ}
      → SlotStep dummy active (xfr_block slot seq bwi level payload) not_present
  xfr_stays :
      {i : IccStatus} {slot seq bwi level : ℕ} {payload : List ℕ}
      → SlotStep dummy i (xfr_block slot seq bwi level payload) i
  other_stays : {i : IccStatus} {c : CcidCommand} → is_other c ≡ true → SlotStep dummy i c i

abbrev pub is_dummy : {S : Type 0} → CcidBridge S → Bool
is_dummy b = str_eq b.reader_capabilities.name "dummy"

module _ {S : Type 0} (nfc : NfcReader S) where
  -- A command takes the status of a valid slot along a step of the state machine `SlotStep`: only a
  -- power on, or a status request with the dummy reader, makes a slot active; a power off makes an
  -- active slot inactive or leaves it; an exchange may find a card or lose it; parameters, aborts
  -- and unknown commands leave the status as it is.
  pub handle_command-SlotStep :
      (b : CcidBridge S) (c : CcidCommand)
      → IsValid b
      → SlotStep
          (is_dummy b)
          (current_icc_status b)
          c
          (current_icc_status (handle_command nfc b c).0)
  unfolding handle_command refresh_card_presence
  handle_command-SlotStep b (icc_power_on slot seq p) v = grind (arith, powers_up, finds_none)
  handle_command-SlotStep b (icc_power_off slot seq) v = grind (arith, powers_down, off_stays)
  handle_command-SlotStep b (get_slot_status slot seq) v =
      grind (arith, looks, status_stays, dummy_powers)
  handle_command-SlotStep b (set_parameters slot seq n payload) v = grind (arith, other_stays)
  handle_command-SlotStep b (xfr_block slot seq bwi level payload) v =
      grind (arith, appears, lost, xfr_stays)
  handle_command-SlotStep b c v = other_stays refl
