-- ===== src/Examples/Commands.antt =====
-- The theorems on the bridge, at concrete slots and commands.
use vusbipd_ccid.Base.{ℕ, ◌≡◌, ◌≢◌, refl, ◌↔◌, true, false, some, List, [], ◌∷◌, arith}
use vusbipd_ccid.Base.Result.{ok, panic}
use vusbipd_ccid.Nfc.{iso_dep}
use vusbipd_ccid.Nfc.Dummy.{DummyReader, dummy_reader}
use vusbipd_ccid.Protocol.{
  CcidCommand, icc_power_off, get_slot_status, get_parameters, set_parameters, xfr_block, abort,
  parameters, slot_status, ok_status, active, inactive,
}
use vusbipd_ccid.Bridge.{CcidBridge, new, handle_command, current_icc_status, build_pseudo_atr}
use vusbipd_ccid.Bridge.Slot.{IsValid, new-IsValid}
use vusbipd_ccid.Bridge.Replies.{Answers, handle_command-Answers}
use vusbipd_ccid.Bridge.Select.{Panics, handle_command-panic_iff}
use vusbipd_ccid.Bridge.Steps.{SlotStep, is_dummy, handle_command-SlotStep}
use vusbipd_ccid.Bridge.Asks.{Asks, handle_command-Asks}
use vusbipd_ccid.Bridge.History.{run, run-IsValid, run-ne-active, get-set_parameters}
use vusbipd_ccid.Bridge.Atr.{read_atr, read_atr-build_pseudo_atr}
use vusbipd_ccid.Examples.{bridge_with, bridge_with-IsValid, empty_reader, short_select}

abbrev unpowered : CcidBridge DummyReader
unpowered = bridge_with false

abbrev powered : CcidBridge DummyReader
powered = bridge_with true

abbrev truncated : CcidCommand
truncated = xfr_block 0 1 0 0 short_select

-- The block that panics.
handle_command_panics : (handle_command dummy_reader powered truncated).1 ≡ panic
handle_command_panics =
    (handle_command-panic_iff dummy_reader powered truncated (bridge_with-IsValid true)).1
      (refl, (refl, refl, omega arith))

handle_command-panic_iff_example :
    ((handle_command dummy_reader powered truncated).1 ≡ panic) ↔ Panics powered truncated
handle_command-panic_iff_example =
    handle_command-panic_iff dummy_reader powered truncated (bridge_with-IsValid true)

abort_test :
    (handle_command dummy_reader unpowered (abort 0 9)).1
    ≡ ok (slot_status 0 9 (ok_status inactive) 0 0)
unfolding handle_command
abort_test = refl

handle_command-Answers_example :
    Answers 0 9
      (handle_command dummy_reader unpowered (abort 0 9)).0
      (slot_status 0 9 (ok_status inactive) 0 0)
handle_command-Answers_example =
    handle_command-Answers dummy_reader unpowered (abort 0 9)
      (slot_status 0 9 (ok_status inactive) 0 0) abort_test

handle_command-SlotStep_example :
    SlotStep
      (is_dummy unpowered)
      inactive
      (get_slot_status 0 2)
      (current_icc_status (handle_command dummy_reader unpowered (get_slot_status 0 2)).0)
handle_command-SlotStep_example =
    handle_command-SlotStep dummy_reader unpowered (get_slot_status 0 2) (bridge_with-IsValid false)

handle_command-Asks_example :
    let get_response = xfr_block 0 1 0 0 (0x80 ∷ 0xc0 ∷ []) in
    Asks dummy_reader powered get_response
      (handle_command dummy_reader powered get_response).0.reader
handle_command-Asks_example =
    handle_command-Asks dummy_reader powered (xfr_block 0 1 0 0 (0x80 ∷ 0xc0 ∷ []))
      (bridge_with-IsValid true)

abbrev history : List CcidCommand
history = get_slot_status 0 1 ∷ xfr_block 0 2 0 0 short_select ∷ icc_power_off 0 3 ∷ []

run-IsValid_example : IsValid (run dummy_reader powered history)
run-IsValid_example = run-IsValid dummy_reader powered history (bridge_with-IsValid true)

empty_reader_named : is_dummy (new empty_reader tt) ≡ false
unfolding new
empty_reader_named = refl

new_absent : current_icc_status (new empty_reader tt) ≢ active
unfolding new
new_absent e = cc

run-ne-active_example : current_icc_status (run empty_reader (new empty_reader tt) history) ≢ active
run-ne-active_example =
    run-ne-active empty_reader (new empty_reader tt) history (new-IsValid empty_reader tt)
      empty_reader_named (refl, (refl, (refl, tt))) new_absent

get-set_parameters_example :
    let payload : List ℕ = 1 ∷ 2 ∷ 3 ∷ 4 ∷ 5 ∷ 6 ∷ 7 ∷ [] in
    let after =
      run dummy_reader
        (handle_command dummy_reader powered (set_parameters 0 1 1 payload)).0
        history in
    (handle_command dummy_reader after (get_parameters 0 5)).1
    ≡ ok (parameters 0 5 (ok_status (current_icc_status after)) 0 1 payload)
get-set_parameters_example =
    get-set_parameters dummy_reader powered 0 1 0 5 (1 ∷ 2 ∷ 3 ∷ 4 ∷ 5 ∷ 6 ∷ 7 ∷ []) history
      (omega arith) (refl, (refl, (refl, tt)))

read_atr-build_pseudo_atr_example :
    read_atr (
      build_pseudo_atr
        (record { uid = []; protocol = iso_dep; historical_bytes = 0x80 ∷ 0x31 ∷ [] }))
    ≡ some (0 ∷ 1 ∷ [], 0x80 ∷ 0x31 ∷ [])
read_atr-build_pseudo_atr_example =
    read_atr-build_pseudo_atr
      (record { uid = []; protocol = iso_dep; historical_bytes = 0x80 ∷ 0x31 ∷ [] }) refl
