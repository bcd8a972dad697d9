-- ===== src/UnitTests/Device.antt =====
-- The unit tests of src/usbip/device.rs, for any codes of the usbip crate.
use vusbipd_ccid.Base.{◌≡◌, refl, false, [], ◌∷◌, length, arith}
use vusbipd_ccid.Base.Result.{ok}
use vusbipd_ccid.Device.{
  Usbip, SetupPacket, CcidUsbIpDeviceHandler, usb_feature_remote_wakeup, class_specific_descriptor,
  handle_device_urb,
}

abbrev ClassSpecificDescriptorHasExpectedLength : Type 0
ClassSpecificDescriptorHasExpectedLength = length class_specific_descriptor ≡ 54

class_specific_descriptor_has_expected_length : ClassSpecificDescriptorHasExpectedLength
unfolding class_specific_descriptor
class_specific_descriptor_has_expected_length = refl

module _ (usbip : Usbip) where
  -- `StandardRequest::GetStatus` and `StandardRequest::SetFeature` with the fields of the tests.
  abbrev get_status_packet : SetupPacket
  get_status_packet = record {
    request_type = 0x80;
    request = usbip.get_status;
    setup_value = 0;
    index = 0;
    length = 2;
  }

  abbrev set_feature_packet : SetupPacket
  set_feature_packet = record {
    request_type = 0x00;
    request = usbip.set_feature;
    setup_value = usb_feature_remote_wakeup;
    index = 0;
    length = 0;
  }

  abbrev DeviceHandlerReportsDefaultDeviceStatus : Type 0
  DeviceHandlerReportsDefaultDeviceStatus =
      let handler : CcidUsbIpDeviceHandler = record { remote_wakeup_enabled = false } in
      (handle_device_urb usbip handler 64 get_status_packet).1 ≡ ok (0x00 ∷ 0x00 ∷ [])

  device_handler_reports_default_device_status : DeviceHandlerReportsDefaultDeviceStatus
  unfolding handle_device_urb
  device_handler_reports_default_device_status = ground arith

  abbrev DeviceHandlerTracksRemoteWakeupFeature : Type 0
  DeviceHandlerTracksRemoteWakeupFeature =
      let handler : CcidUsbIpDeviceHandler = record { remote_wakeup_enabled = false } in
      let set = handle_device_urb usbip handler 0 set_feature_packet in
      (set.1 ≡ ok [])
      × ((handle_device_urb usbip set.0 64 get_status_packet).1 ≡ ok (0x02 ∷ 0x00 ∷ []))

  device_handler_tracks_remote_wakeup_feature : DeviceHandlerTracksRemoteWakeupFeature
  unfolding handle_device_urb
  device_handler_tracks_remote_wakeup_feature = ground arith
