-- ===== src/Examples/Daemon.antt =====
-- The theorems on histories of URBs, with the simulated card and with the simulated chip.
use vusbipd_ccid.Base.{
  length, take, drop, get_elem?, some, none, ℕ, ◌≡◌, refl, false, List, [], ◌∷◌, bytes_eq, arith,
  Bool-cases, inl, inr,
}
use vusbipd_ccid.Base.Result.{ok}
use vusbipd_ccid.Nfc.Dummy.{DummyReader, dummy_reader}
use vusbipd_ccid.Protocol.{active, decode, command_of}
use vusbipd_ccid.Nfc.Pn532.{receive_dynamic_response_from, check_frame, ats_historical_bytes}
use vusbipd_ccid.Nfc.Pn532.Target.{target_found}
use vusbipd_ccid.Nfc.Pn532.Chip.{
  process_dynamic_response, wait_serial_ready, instant_now, wait_until, wait_round,
}
use vusbipd_ccid.Nfc.Pn532.Reader.{
  Pn532UartReader, poll_card, poll_target, poll_answered, set_rf_field, power_off,
}
use vusbipd_ccid.Nfc.Pn532.Instance.{CoherentReader, pn532_reader, settle}
use vusbipd_ccid.Bridge
use vusbipd_ccid.Bridge.{handle_command, current_icc_status}
use vusbipd_ccid.Bridge.Uart.{uart, Agree}
use vusbipd_ccid.Transport.State.{
  CcidTransport, new, update_state, declared_len, enqueue_response, back_is,
}
use vusbipd_ccid.Transport.{
  handle_control_request, handle_bulk_out, bulk_out_loop, try_take_complete_frame, process_frame,
}
use vusbipd_ccid.Device.{handle_urb, class_specific_descriptor}
use vusbipd_ccid.Device.Limits.{u32_at, class_specific_descriptor-honoured}
use vusbipd_ccid.Protocol.Layout.{RawFrame, raw_bytes}
use vusbipd_ccid.Device.Urbs.{Reachable, start, urb}
use vusbipd_ccid.Device.Calls.{Reachable-Accesses, sent_bytes}
use vusbipd_ccid.Transport.Access.{Accesses}
use vusbipd_ccid.Transport.Access.Calls.{Sent}
use vusbipd_ccid.Device.Uart.{Reachable-Agree}
use vusbipd_ccid.Examples.{dummy}
use vusbipd_ccid.Examples.Chip.{Chip, chip, documented}
use vusbipd_ccid.Examples.Link.{idle_start}
use vusbipd_ccid.Examples.Device.{new_usable, usb, bulk_out, configuration_request}

-- The message of a power on.
abbrev power_on_bytes : List ℕ
power_on_bytes = 0x62 ∷ 0 ∷ 0 ∷ 0 ∷ 0 ∷ 0 ∷ 1 ∷ 0 ∷ 0 ∷ 0 ∷ []

abbrev with_dummy : CcidTransport DummyReader
with_dummy = new (record { poisoned = false; inner = Bridge.new dummy_reader dummy })

abbrev dummy_powered_on : CcidTransport DummyReader
dummy_powered_on =
    (handle_urb usb dummy_reader with_dummy bulk_out 64 configuration_request power_on_bytes).0

abbrev power_on_history : Reachable usb dummy_reader dummy_powered_on
power_on_history = urb bulk_out 64 configuration_request power_on_bytes (start dummy) new_usable

Reachable-Accesses_example :
    (reader : DummyReader) × Accesses dummy_reader
      (Sent (sent_bytes usb dummy_reader power_on_history))
      (Bridge.new dummy_reader reader)
      dummy_powered_on.bridge.inner
Reachable-Accesses_example = Reachable-Accesses usb dummy_reader power_on_history

power_on_sent : sent_bytes usb dummy_reader power_on_history ≡ power_on_bytes
unfolding sent_bytes
power_on_sent = refl

chip_switches_off : (r : Pn532UartReader Chip) → (power_off chip r).1 ≡ ok tt
unfolding power_off set_rf_field
chip_switches_off r = elim (Bool-cases r.rf_field_enabled) [
  | inl on ↦ ground (arith, on)
  | inr off ↦ ground (arith, off)
]

abbrev with_chip : CcidTransport (CoherentReader Chip)
with_chip = new (record { poisoned = false; inner = Bridge.new (uart chip documented) idle_start })

abbrev powered_on : CcidTransport (CoherentReader Chip)
powered_on =
    (handle_urb usb (uart chip documented) with_chip bulk_out 64 configuration_request
      power_on_bytes).0

chip_usable : with_chip.bridge.poisoned ≡ false
unfolding new
chip_usable = refl

powered_on_active : current_icc_status powered_on.bridge.inner ≡ active
unfolding handle_urb handle_bulk_out bulk_out_loop new Bridge.new try_take_complete_frame
    update_state declared_len process_frame decode command_of handle_command enqueue_response
    pn532_reader settle poll_card poll_target poll_answered set_rf_field process_dynamic_response
    wait_serial_ready wait_until wait_round instant_now receive_dynamic_response_from check_frame
    bytes_eq target_found ats_historical_bytes back_is
powered_on_active = refl

Reachable-Agree_example : Agree chip documented powered_on.bridge.inner
Reachable-Agree_example =
    Reachable-Agree usb chip documented chip_switches_off
      (urb bulk_out 64 configuration_request power_on_bytes (start idle_start) chip_usable)
      powered_on_active

abbrev power_on_frame : RawFrame
power_on_frame = record {
  message_type = 0x62;
  slot = 0;
  seq = 0;
  p0 = 1;
  p1 = 0;
  p2 = 0;
  payload = [];
}

abbrev power_on_received : CcidTransport DummyReader
power_on_received = record with_dummy { pending_out_buffer = raw_bytes power_on_frame }

not_yet_read : power_on_received.next_frame_len ≡ none
unfolding new
not_yet_read = refl

descriptor_maximum : u32_at 44 class_specific_descriptor ≡ some 3072
unfolding class_specific_descriptor
descriptor_maximum = refl

class_specific_descriptor-honoured_example :
    (get_elem? class_specific_descriptor 0 ≡ some (length class_specific_descriptor))
    × ((handle_control_request dummy_reader power_on_received 0xa1 0x02 0).1
        ≡ ok (take 4 (drop 10 class_specific_descriptor)))
    × ((handle_control_request dummy_reader power_on_received 0xa1 0x03 0).1
        ≡ ok (take 4 (drop 19 class_specific_descriptor)))
    × ((try_take_complete_frame power_on_received).1 ≡ ok (some (raw_bytes power_on_frame)))
class_specific_descriptor-honoured_example =
    class_specific_descriptor-honoured dummy_reader power_on_received 0 power_on_frame 3072
      descriptor_maximum (omega arith) refl not_yet_read
