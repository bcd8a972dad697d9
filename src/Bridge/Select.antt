-- ===== src/Bridge/Select.antt =====
-- When `select_aid`, and with it an APDU exchange, panics.
use vusbipd_ccid.Base.{ℕ, ◌≡◌, ◌<◌, ◌↔◌, ◌≢◌, List, [], ◌∷◌, length, arith, true, is_some}
use vusbipd_ccid.Base.Result.{panic, stuck}
use vusbipd_ccid.Nfc.{NfcReader}
use vusbipd_ccid.Protocol.{
  CcidCommand, icc_power_on, icc_power_off, get_slot_status, set_parameters, xfr_block,
}
use vusbipd_ccid.Bridge.{CcidBridge, select_aid, handle_command, xfr_ready, refresh_card_presence}
use vusbipd_ccid.Bridge.Slot.{IsValid}

-- A SELECT by name whose length byte counts more bytes than follow.
abbrev pub IsTruncatedSelect : List ℕ → Type 0
IsTruncatedSelect (cla ∷ ins ∷ p1 ∷ p2 ∷ aid_len ∷ rest) =
    (ins ≡ 0xa4) × (p1 ≡ 0x04) × (length rest < aid_len)
IsTruncatedSelect _ = ⊥

-- `select_aid` panics exactly on a truncated SELECT by name.
pub select_aid-panic_iff : (apdu : List ℕ) → (select_aid apdu ≡ panic) ↔ IsTruncatedSelect apdu
unfolding select_aid
select_aid-panic_iff (cla ∷ ins ∷ p1 ∷ p2 ∷ aid_len ∷ rest) = ground arith
select_aid-panic_iff [] = ground arith
select_aid-panic_iff (a ∷ []) = ground arith
select_aid-panic_iff (a ∷ b ∷ []) = ground arith
select_aid-panic_iff (a ∷ b ∷ c ∷ []) = ground arith
select_aid-panic_iff (a ∷ b ∷ c ∷ d ∷ []) = ground arith

pub select_aid-ne-stuck : (apdu : List ℕ) → select_aid apdu ≢ stuck
unfolding select_aid
select_aid-ne-stuck (cla ∷ ins ∷ p1 ∷ p2 ∷ aid_len ∷ rest) = ground arith
select_aid-ne-stuck [] = ground arith
select_aid-ne-stuck (a ∷ []) = ground arith
select_aid-ne-stuck (a ∷ b ∷ []) = ground arith
select_aid-ne-stuck (a ∷ b ∷ c ∷ []) = ground arith
select_aid-ne-stuck (a ∷ b ∷ c ∷ d ∷ []) = ground arith

-- The commands that make the bridge panic.
abbrev pub Panics : {S : Type 0} → CcidBridge S → CcidCommand → Type 0
Panics b (xfr_block slot seq bwi level payload) =
    (b.slot_powered ≡ true) × IsTruncatedSelect payload
Panics b c = ⊥

module _ {S : Type 0} (nfc : NfcReader S) where
  xfr_ready-panic_iff :
      (b : CcidBridge S) (slot seq : ℕ) (payload : List ℕ)
      → ((xfr_ready nfc b slot seq payload).1 ≡ panic)
        ↔ ((b.slot_powered ≡ true) × (is_some b.current_card ≡ true) × IsTruncatedSelect payload)
  unfolding xfr_ready
  xfr_ready-panic_iff b slot seq payload = ground (arith, select_aid-panic_iff payload)

  -- With a valid slot, a command panics if and only if the slot is powered and the command is a
  -- block whose payload is a SELECT by name with a length byte that counts more bytes than follow
  -- it.
  pub handle_command-panic_iff :
      (b : CcidBridge S) (c : CcidCommand)
      → IsValid b
      → ((handle_command nfc b c).1 ≡ panic) ↔ Panics b c
  unfolding handle_command refresh_card_presence
  handle_command-panic_iff b (icc_power_on slot seq p) v = ground arith
  handle_command-panic_iff b (icc_power_off slot seq) v = ground arith
  handle_command-panic_iff b (get_slot_status slot seq) v = ground arith
  handle_command-panic_iff b (set_parameters slot seq n payload) v = ground arith
  handle_command-panic_iff b (xfr_block slot seq bwi level payload) v =
      ground (arith, select_aid-panic_iff payload)
  handle_command-panic_iff b c v = ground arith

  pub handle_command-ne-stuck :
      (b : CcidBridge S) (c : CcidCommand) → (handle_command nfc b c).1 ≢ stuck
  unfolding handle_command refresh_card_presence
  handle_command-ne-stuck b (icc_power_on slot seq p) = ground arith
  handle_command-ne-stuck b (icc_power_off slot seq) = ground arith
  handle_command-ne-stuck b (get_slot_status slot seq) = ground arith
  handle_command-ne-stuck b (set_parameters slot seq n payload) = ground arith
  handle_command-ne-stuck b (xfr_block slot seq bwi level payload) =
      ground (arith, select_aid-ne-stuck payload)
  handle_command-ne-stuck b c = ground arith
