-- ===== src/Bridge/Params.antt =====
-- The protocol parameters: what sets them.
use vusbipd_ccid.Base.{ℕ, ◌≡◌, refl, Bool, true, false, List, length, arith}
use vusbipd_ccid.Nfc.{NfcReader}
use vusbipd_ccid.Base.Result.{ok}
use vusbipd_ccid.Protocol.{
  CcidCommand, icc_power_on, icc_power_off, get_slot_status, get_parameters, reset_parameters,
  set_parameters, xfr_block, parameters, ok_status,
}
use vusbipd_ccid.Bridge.{CcidBridge, handle_command, refresh_card_presence, current_icc_status}

abbrev pub sets_parameters : CcidCommand → Bool
sets_parameters (set_parameters slot seq n payload) = true
sets_parameters (reset_parameters slot seq) = true
sets_parameters c = false

module _ {S : Type 0} (nfc : NfcReader S) where
  -- A command other than SetParameters and ResetParameters leaves the protocol and the parameters as
  -- they are.
  pub handle_command-params :
      (b : CcidBridge S) (c : CcidCommand)
      → sets_parameters c ≡ false
      → ((handle_command nfc b c).0.params ≡ b.params)
        × ((handle_command nfc b c).0.protocol_num ≡ b.protocol_num)
  unfolding handle_command refresh_card_presence
  handle_command-params b (icc_power_on slot seq p) h = ground arith
  handle_command-params b (icc_power_off slot seq) h = ground arith
  handle_command-params b (get_slot_status slot seq) h = ground arith
  handle_command-params b (set_parameters slot seq n payload) h = cc
  handle_command-params b (reset_parameters slot seq) h = cc
  handle_command-params b (xfr_block slot seq bwi level payload) h = ground arith
  handle_command-params b c h = (refl, refl)

  pub set_parameters_accepted :
      (b : CcidBridge S) (slot seq : ℕ) (payload : List ℕ)
      → length payload ≡ 7
      → ((handle_command nfc b (set_parameters slot seq 1 payload)).0.params ≡ payload)
        × ((handle_command nfc b (set_parameters slot seq 1 payload)).0.protocol_num ≡ 1)
  unfolding handle_command
  set_parameters_accepted b slot seq payload h = ground arith

  pub get_parameters_lem :
      (b : CcidBridge S) (slot seq : ℕ)
      → (handle_command nfc b (get_parameters slot seq)).1
        ≡ ok (parameters slot seq (ok_status (current_icc_status b)) 0 b.protocol_num b.params)
  unfolding handle_command
  get_parameters_lem b slot seq = refl
