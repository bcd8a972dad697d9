-- ===== src/Examples/Link.antt =====
-- The theorems on a bridge with a PN532 reader, at the simulated chip.
use vusbipd_ccid.Base.{◌≡◌, refl, true, some, none, List, [], ◌∷◌, bytes_eq}
use vusbipd_ccid.Base.Result.{fault, ok}
use vusbipd_ccid.Base.Run.{◌>>=◌}
use vusbipd_ccid.Protocol.{
  icc_power_on, icc_power_off, get_slot_status, CcidCommand, active, inactive,
}
use vusbipd_ccid.Nfc.Pn532.{
  receive_dynamic_response_from, check_frame, bad_ack, ats_historical_bytes,
}
use vusbipd_ccid.Nfc.Pn532.Target.{target_found}
use vusbipd_ccid.Nfc.Pn532.Chip.{
  Pn532Device, wait_serial_ready, process_dynamic_response, instant_now, wait_until, wait_round,
}
use vusbipd_ccid.Nfc.Pn532.Reader.{
  poll_card, poll_target, poll_answered, set_rf_field, choose_target, target_polled, power_off,
}
use vusbipd_ccid.Nfc.Pn532.Waiting.{IsDocumented}
use vusbipd_ccid.Nfc.Pn532.Instance.{CoherentReader, pn532_reader, settle}
use vusbipd_ccid.Bridge.{
  CcidBridge, new, handle_command, refresh_card_presence, current_icc_status, failure,
}
use vusbipd_ccid.Bridge.History.{run}
use vusbipd_ccid.Bridge.Linked.{is_fault}
use vusbipd_ccid.Bridge.Uart.{uart, power_off_failed}
use vusbipd_ccid.Examples.Chip.{
  Chip, chip, documented, idle_reader, active_reader, found, idle-IsCoherent, active-IsCoherent,
}

abbrev pub idle_start : CoherentReader Chip
idle_start = record { reader = idle_reader; is_coherent = idle-IsCoherent }

abbrev session : List CcidCommand
session = icc_power_on 0 1 0 ∷ get_slot_status 0 2 ∷ []

session_active :
    current_icc_status (run (uart chip documented) (new (uart chip documented) idle_start) session)
    ≡ active
unfolding run handle_command new pn532_reader settle poll_card poll_target poll_answered
    set_rf_field process_dynamic_response wait_serial_ready wait_until wait_round instant_now
    receive_dynamic_response_from check_frame bytes_eq refresh_card_presence target_found
    ats_historical_bytes
session_active = refl

-- A chip that does not acknowledge the command for the field.
abbrev deaf_chip : Pn532Device Chip
deaf_chip = record chip { process = λ c request n timeout_ms. (c, fault bad_ack) }

abbrev deaf_documented : IsDocumented deaf_chip
deaf_documented = record {
  clock = documented.clock;
  clock-now = documented.clock-now;
  clock-sleep = documented.clock-sleep;
  clock-bytes_to_read = documented.clock-bytes_to_read;
  length-read_exact = documented.length-read_exact;
  in_data_exchange_below = documented.in_data_exchange_below;
  inlist_below = documented.inlist_below;
}

abbrev powered : CcidBridge (CoherentReader Chip)
powered =
    record (new (uart deaf_chip deaf_documented)
      (record { reader = active_reader; is_coherent = active-IsCoherent })) {
        current_card = some found;
        slot_powered = true;
      }

switch_fails : is_fault ((uart deaf_chip deaf_documented).power_off powered.reader).1 ≡ true
unfolding pn532_reader settle power_off set_rf_field new
switch_fails = refl

power_off_failed_example :
    let after = handle_command (uart deaf_chip deaf_documented) powered (icc_power_off 0 3) in
    let r = after.0.reader.reader in
    (after.1 ≡ ok (failure 0 3 inactive))
    × (current_icc_status after.0 ≡ active)
    × (after.0.current_card ≡ some found)
    × (r.active_target ≡ none)
    × (choose_target deaf_chip r ≡ (poll_card deaf_chip >>= target_polled deaf_chip) r)
power_off_failed_example = power_off_failed deaf_chip deaf_documented powered 0 3 refl switch_fails
