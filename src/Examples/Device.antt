-- ===== src/Examples/Device.antt =====
-- The theorems on the USB device, with the codes of the USB specification.
use vusbipd_ccid.Base.{
  get_elem?, some, ℕ, ◌≡◌, refl, true, false, List, [], ◌∷◌, length, arith, ◌==◌,
}
use vusbipd_ccid.Base.Result.{ok}
use vusbipd_ccid.Nfc.Dummy.{dummy_reader}
use vusbipd_ccid.Transport.State.{new}
use vusbipd_ccid.Transport.Invariant.{Inv}
use vusbipd_ccid.Device.{
  class_specific_descriptor, Usbip, SetupPacket, UsbEndpoint, CcidUsbIpDeviceHandler, outward,
  inward, handle_device_urb, handle_urb,
}
use vusbipd_ccid.Device.Features.{
  requested, feature_request, status_request, get_status_last_switch,
}
use vusbipd_ccid.Device.Urbs.{start, urb, Reachable-Inv}
use vusbipd_ccid.Examples.{dummy}

abbrev pub usb : Usbip
usb = record {
  get_status = 0;
  get_configuration = 8;
  set_feature = 3;
  clear_feature = 1;
  bulk = 2;
  interrupt = 3;
  is_ep0 = λ ep. ep.address == 0;
  direction = λ ep. elim (ep.address == 1) [ true ↦ outward | false ↦ inward ];
}

abbrev pub configuration_request : SetupPacket
configuration_request = record {
  request_type = 0x80;
  request = 8;
  setup_value = 0;
  index = 0;
  length = 1;
}

abbrev fresh : CcidUsbIpDeviceHandler
fresh = record { remote_wakeup_enabled = false }

get_status_last_switch_example :
    let on : List (ℕ × SetupPacket) =
      (0, feature_request usb 3) ∷ (64, configuration_request) ∷ [] in
    let off : List (ℕ × SetupPacket) =
      (0, feature_request usb 1) ∷ (64, configuration_request) ∷ [] in
    ((handle_device_urb usb (requested usb (requested usb fresh []) on) 64 (status_request usb)).1
      ≡ ok (0x02 ∷ 0x00 ∷ []))
    × ((handle_device_urb usb
          (requested usb (requested usb fresh []) off)
          64
          (status_request usb)).1
        ≡ ok (0x00 ∷ 0x00 ∷ []))
get_status_last_switch_example =
    get_status_last_switch usb fresh [] ((64, configuration_request) ∷ [])
      (λ e. absurd (omega arith)) (refl, tt)

configuration_test : (handle_device_urb usb fresh 64 configuration_request).1 ≡ ok (1 ∷ [])
unfolding handle_device_urb
configuration_test = refl

-- The descriptor has the length that its first byte states.
descriptor_test :
    (length class_specific_descriptor ≡ 54) × (get_elem? class_specific_descriptor 0 ≡ some 54)
unfolding class_specific_descriptor
descriptor_test = (refl, refl)

abbrev pub bulk_out : UsbEndpoint
bulk_out = record { address = 1; attributes = 2; max_packet_size = 64; interval = 0 }

pub new_usable :
    (new (record {
      poisoned = false;
      inner = vusbipd_ccid.Bridge.new dummy_reader dummy;
    })).bridge.poisoned
    ≡ false
unfolding new
new_usable = refl

Reachable-Inv_example :
    Inv
      (handle_urb usb dummy_reader
        (new (record { poisoned = false; inner = vusbipd_ccid.Bridge.new dummy_reader dummy }))
        bulk_out
        64
        configuration_request
        (0x72 ∷ 0 ∷ [])).0
Reachable-Inv_example =
    Reachable-Inv usb dummy_reader
      (urb bulk_out 64 configuration_request (0x72 ∷ 0 ∷ []) (start dummy) new_usable)
