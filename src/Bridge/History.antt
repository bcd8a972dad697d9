-- ===== src/Bridge/History.antt =====
-- Sequences of commands on one bridge.
use vusbipd_ccid.Base.{ℕ, ◌≡◌, ◌≢◌, refl, ◌∙◌, Bool, true, false, List, [], ◌∷◌, All, length, arith}
use vusbipd_ccid.Base.Result.{ok}
use vusbipd_ccid.Nfc.{NfcReader}
use vusbipd_ccid.Protocol.{
  CcidCommand, icc_power_on, icc_power_off, get_slot_status, get_parameters, set_parameters,
  xfr_block, IccStatus, active, parameters, ok_status,
}
use vusbipd_ccid.Bridge.{CcidBridge, handle_command, refresh_card_presence, current_icc_status}
use vusbipd_ccid.Bridge.Slot.{IsValid, handle_command-IsValid}
use vusbipd_ccid.Bridge.Steps.{
  SlotStep, is_dummy, handle_command-SlotStep, powers_up, finds_none, powers_down, off_stays, looks,
  status_stays, dummy_powers, appears, lost, xfr_stays, other_stays,
}
use vusbipd_ccid.Bridge.Params.{
  sets_parameters, handle_command-params, set_parameters_accepted, get_parameters_lem,
}

abbrev pub is_power_on : CcidCommand → Bool
is_power_on (icc_power_on slot seq p) = true
is_power_on c = false

SlotStep-ne-active :
    {d : Bool} {i j : IccStatus} {c : CcidCommand}
    → SlotStep d i c j
    → d ≡ false
    → is_power_on c ≡ false
    → i ≢ active
    → j ≢ active
SlotStep-ne-active powers_up d p h = cc
SlotStep-ne-active finds_none d p h = cc
SlotStep-ne-active powers_down d p h = cc
SlotStep-ne-active off_stays d p h = h
SlotStep-ne-active (looks g k) d p h = k
SlotStep-ne-active status_stays d p h = h
SlotStep-ne-active (dummy_powers e) d p h = cc
SlotStep-ne-active appears d p h = cc
SlotStep-ne-active lost d p h = cc
SlotStep-ne-active xfr_stays d p h = h
SlotStep-ne-active (other_stays e) d p h = h

module _ {S : Type 0} (nfc : NfcReader S) where
  -- The bridge after a sequence of commands.
  unfoldable pub run : CcidBridge S → List CcidCommand → CcidBridge S
  run b [] = b
  run b (c ∷ cs) = run (handle_command nfc b c).0 cs

  capabilities_fixed :
      (b : CcidBridge S) (c : CcidCommand)
      → (handle_command nfc b c).0.reader_capabilities ≡ b.reader_capabilities
  unfolding handle_command refresh_card_presence
  capabilities_fixed b (icc_power_on slot seq p) = ground arith
  capabilities_fixed b (icc_power_off slot seq) = ground arith
  capabilities_fixed b (get_slot_status slot seq) = ground arith
  capabilities_fixed b (set_parameters slot seq n payload) = ground arith
  capabilities_fixed b (xfr_block slot seq bwi level payload) = ground arith
  capabilities_fixed b c = refl

  -- No history keeps the invariant from holding.
  pub run-IsValid : (b : CcidBridge S) (cs : List CcidCommand) → IsValid b → IsValid (run b cs)
  unfolding run
  run-IsValid b [] v = v
  run-IsValid b (c ∷ cs) v =
      run-IsValid (handle_command nfc b c).0 cs (handle_command-IsValid nfc b c v)

  -- With a reader other than the dummy, a valid slot that is not active does not become active by
  -- any sequence of commands without a power on.
  pub run-ne-active :
      (b : CcidBridge S) (cs : List CcidCommand)
      → IsValid b
      → is_dummy b ≡ false
      → All (λ c. is_power_on c ≡ false) cs
      → current_icc_status b ≢ active
      → current_icc_status (run b cs) ≢ active
  unfolding run
  run-ne-active b [] v d h n = n
  run-ne-active b (c ∷ cs) v d h n =
      run-ne-active (handle_command nfc b c).0 cs (handle_command-IsValid nfc b c v)
        (rw (capabilities_fixed b c) d) h.1
        (SlotStep-ne-active (handle_command-SlotStep nfc b c v) d h.0 n)

  run-params :
      (b : CcidBridge S) (cs : List CcidCommand)
      → All (λ c. sets_parameters c ≡ false) cs
      → ((run b cs).params ≡ b.params) × ((run b cs).protocol_num ≡ b.protocol_num)
  unfolding run
  run-params b [] h = (refl, refl)
  run-params b (c ∷ cs) h =
      let (p, q) = run-params (handle_command nfc b c).0 cs h.1 in
      let (p', q') = handle_command-params nfc b c h.0 in (p ∙ p', q ∙ q')

  -- The seven bytes that a SetParameters for T=1 gave are what a GetParameters returns, after any
  -- commands that set no parameters.
  pub get-set_parameters :
      (b : CcidBridge S) (slot seq slot' seq' : ℕ) (payload : List ℕ) (cs : List CcidCommand)
      → length payload ≡ 7
      → All (λ c. sets_parameters c ≡ false) cs
      → let b' = run (handle_command nfc b (set_parameters slot seq 1 payload)).0 cs in
        (handle_command nfc b' (get_parameters slot' seq')).1
        ≡ ok (parameters slot' seq' (ok_status (current_icc_status b')) 0 1 payload)
  get-set_parameters b slot seq slot' seq' payload cs seven h =
      let b₁ = (handle_command nfc b (set_parameters slot seq 1 payload)).0 in
      ground (
        arith,
        get_parameters_lem nfc (run b₁ cs) slot' seq',
        run-params b₁ cs h,
        set_parameters_accepted nfc b slot seq payload seven,
      )
