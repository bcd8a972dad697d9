-- ===== src/Device.antt =====
-- src/usbip/device.rs: the control requests of the device and the URBs of the CCID interface. What
-- the code takes of the usbip crate is a parameter.
pub mod Features
pub mod Urbs
pub mod Build
pub mod Calls
pub mod Uart
pub mod Limits
use vusbipd_ccid.Base.{
  ℕ, Bool, true, false, not, ◌&&◌, List, [], ◌∷◌, ◌++◌, take, min, ◌==◌, if◌then◌else◌,
}
use vusbipd_ccid.Base.Result.{Result, ok, err}
use vusbipd_ccid.Base.Bytes.{u16_low, u16_high}
use vusbipd_ccid.Base.Text.{text, num}
use vusbipd_ccid.Nfc.{NfcReader}
use vusbipd_ccid.Transport.State.{CcidTransport, Done, and_then, IoError, unsupported}
use vusbipd_ccid.Transport.{
  handle_control_request, handle_bulk_out, handle_bulk_in, handle_interrupt_in,
}

abbrev pub ccid_bulk_in_endpoint : ℕ
ccid_bulk_in_endpoint = 0x81

abbrev pub ccid_bulk_out_endpoint : ℕ
ccid_bulk_out_endpoint = 0x01

abbrev pub ccid_interrupt_in_endpoint : ℕ
ccid_interrupt_in_endpoint = 0x82

abbrev pub ccid_functional_descriptor_type : ℕ
ccid_functional_descriptor_type = 0x21

abbrev pub ccid_clock_frequency_khz : List ℕ
ccid_clock_frequency_khz = 0xfc ∷ 0x0d ∷ 0x00 ∷ 0x00 ∷ []

abbrev pub ccid_data_rate_bps : List ℕ
ccid_data_rate_bps = 0x80 ∷ 0x25 ∷ 0x00 ∷ 0x00 ∷ []

abbrev pub usb_feature_remote_wakeup : ℕ
usb_feature_remote_wakeup = 0x0001

-- The types of the usbip crate, with the fields that the source names.
pub record SetupPacket : Type 0 where
  pub request_type : ℕ
  pub request : ℕ
  pub setup_value : ℕ
  pub index : ℕ
  pub length : ℕ

pub record UsbEndpoint : Type 0 where
  pub address : ℕ
  pub attributes : ℕ
  pub max_packet_size : ℕ
  pub interval : ℕ

-- `Direction::Out` and `Direction::In`
pub data Direction : Type 0 where
  outward inward : Direction

abbrev pub is_out : Direction → Bool
is_out outward = true
is_out inward = false

-- The functions and the codes of the usbip crate.
pub record Usbip : Type 0 where
  pub get_status : ℕ
  pub get_configuration : ℕ
  pub set_feature : ℕ
  pub clear_feature : ℕ
  pub bulk : ℕ
  pub interrupt : ℕ
  pub is_ep0 : UsbEndpoint → Bool
  pub direction : UsbEndpoint → Direction

pub record CcidUsbIpDeviceHandler : Type 0 where
  pub remote_wakeup_enabled : Bool

abbrev pub limited_response : ℕ → SetupPacket → List ℕ → List ℕ
limited_response transfer_buffer_length setup payload =
    take (min transfer_buffer_length setup.length) payload

-- `u16::to_le_bytes` of the status.
abbrev pub device_status : Bool → List ℕ
device_status enabled =
    let status = if enabled then 0x0002 else 0x0000 in u16_low status ∷ u16_high status ∷ []

unfoldable pub class_specific_descriptor : List ℕ
class_specific_descriptor =
    (0x36 ∷ ccid_functional_descriptor_type ∷ 0x10 ∷ 0x01 ∷ 0x00 ∷ 0x01 ∷ [])
    ++ (0x02 ∷ 0x00 ∷ 0x00 ∷ 0x00 ∷ [])
    ++ ccid_clock_frequency_khz
    ++ ccid_clock_frequency_khz
    ++ (0x00 ∷ [])
    ++ ccid_data_rate_bps
    ++ ccid_data_rate_bps
    ++ (0x00 ∷ 0xfe ∷ 0x00 ∷ 0x00 ∷ 0x00 ∷ [])
    ++ (0x00 ∷ 0x00 ∷ 0x00 ∷ 0x00 ∷ [])
    ++ (0x00 ∷ 0x00 ∷ 0x00 ∷ 0x00 ∷ [])
    ++ (0x40 ∷ 0x08 ∷ 0x04 ∷ 0x00 ∷ [])
    ++ (0x00 ∷ 0x0c ∷ 0x00 ∷ 0x00 ∷ [])
    ++ (0xff ∷ 0xff ∷ 0x00 ∷ 0x00 ∷ 0x00 ∷ 0x01 ∷ [])

module _ (usbip : Usbip) where
  unfoldable pub handle_device_urb :
      CcidUsbIpDeviceHandler → ℕ → SetupPacket → CcidUsbIpDeviceHandler × Result IoError (List ℕ)
  handle_device_urb handler transfer_buffer_length setup =
      if setup.request_type == 0x80 && setup.request == usbip.get_status
      then (
        handler,
        ok (
            limited_response transfer_buffer_length setup
              (device_status handler.remote_wakeup_enabled)),
      )
      else if setup.request_type == 0x80 && setup.request == usbip.get_configuration
      then (handler, ok (limited_response transfer_buffer_length setup (1 ∷ [])))
      else if setup.request_type == 0x00
          && setup.request == usbip.set_feature
          && setup.setup_value == usb_feature_remote_wakeup
      then (record { remote_wakeup_enabled = true }, ok [])
      else if setup.request_type == 0x00
          && setup.request == usbip.clear_feature
          && setup.setup_value == usb_feature_remote_wakeup
      then (record { remote_wakeup_enabled = false }, ok [])
      else (
        handler,
        err (record {
          kind = unsupported;
          message =
              text "unsupported device request: "
              ∷ num setup.request_type
              ∷ num setup.request
              ∷ num setup.setup_value
              ∷ num setup.index
              ∷ num setup.length
              ∷ [];
        }),
      )

  unfoldable pub endpoints : List UsbEndpoint
  endpoints =
      record {
        address = ccid_bulk_out_endpoint;
        attributes = usbip.bulk;
        max_packet_size = 64;
        interval = 0;
      }
      ∷ record {
        address = ccid_bulk_in_endpoint;
        attributes = usbip.bulk;
        max_packet_size = 64;
        interval = 0;
      }
      ∷ record {
        address = ccid_interrupt_in_endpoint;
        attributes = usbip.interrupt;
        max_packet_size = 8;
        interval = 255;
      }
      ∷ []

module _ (usbip : Usbip) {S : Type 0} (nfc : NfcReader S) where
  -- The interface handler is its transport.
  unfoldable pub handle_urb :
      CcidTransport S → UsbEndpoint → ℕ → SetupPacket → List ℕ → Done S (List ℕ)
  handle_urb t ep transfer_buffer_length setup req =
      if usbip.is_ep0 ep
      then handle_control_request nfc t setup.request_type setup.request setup.setup_value
      else if is_out (usbip.direction ep) && ep.address == ccid_bulk_out_endpoint
      then and_then (handle_bulk_out nfc t req) (λ _ t'. (t', ok []))
      else if not (is_out (usbip.direction ep)) && ep.address == ccid_bulk_in_endpoint
      then (let packet = handle_bulk_in t transfer_buffer_length in (packet.0, ok packet.1))
      else if not (is_out (usbip.direction ep)) && ep.address == ccid_interrupt_in_endpoint
      then (let packet = handle_interrupt_in nfc t in (packet.0, ok packet.1))
      else (t, ok [])
