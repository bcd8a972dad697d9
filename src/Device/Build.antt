-- ===== src/Device/Build.antt =====
-- src/usbip/device.rs: build_virtual_ccid_device, which describes the device to the usbip crate.
use Prim.Native.String.{String}
use vusbipd_ccid.Base.{ℕ, false, List}
use vusbipd_ccid.Bridge.{CcidBridge}
use vusbipd_ccid.Transport.State.{CcidTransport, Mutex, new}
use vusbipd_ccid.Device.{Usbip, UsbEndpoint, CcidUsbIpDeviceHandler, endpoints}

abbrev pub ccid_interface_class : ℕ
ccid_interface_class = 0x0b

abbrev pub ccid_interface_subclass : ℕ
ccid_interface_subclass = 0x00

abbrev pub ccid_interface_protocol : ℕ
ccid_interface_protocol = 0x00

-- What `with_interface` is given. The handler is its transport.
pub record UsbInterface (S : Type 0) : Type 0 where
  pub interface_class : ℕ
  pub interface_subclass : ℕ
  pub interface_protocol : ℕ
  pub name : String
  pub endpoint_list : List UsbEndpoint
  pub handler : CcidTransport S

-- The device of the usbip crate, with the fields that the source sets and what it is given.
pub record UsbDevice (S : Type 0) : Type 0 where
  pub device_handler : CcidUsbIpDeviceHandler
  pub interface : UsbInterface S
  pub usb_version_major : ℕ
  pub usb_version_minor : ℕ
  pub speed : ℕ
  pub bus_id : String
  pub bus_num : ℕ
  pub dev_num : ℕ
  pub path : String
  pub vendor_id : ℕ
  pub product_id : ℕ
  pub device_class : ℕ
  pub device_subclass : ℕ
  pub device_protocol : ℕ
  pub manufacturer_name : String
  pub product_name : String
  pub serial_number : String

-- `full` is the number of `UsbSpeed::Full` in the crate.
unfoldable pub build_virtual_ccid_device :
    {S : Type 0} → Usbip → ℕ → Mutex (CcidBridge S) → UsbDevice S
build_virtual_ccid_device usbip full bridge = record {
  device_handler = record { remote_wakeup_enabled = false };
  interface = record {
    interface_class = ccid_interface_class;
    interface_subclass = ccid_interface_subclass;
    interface_protocol = ccid_interface_protocol;
    name = "Virtual CCID Reader";
    endpoint_list = endpoints usbip;
    handler = new bridge;
  };
  usb_version_major = 2;
  usb_version_minor = 0;
  speed = full;
  bus_id = "1-1";
  bus_num = 1;
  dev_num = 2;
  path = "/sys/bus/usb/0/0";
  vendor_id = 0xffff;
  product_id = 0x0001;
  device_class = 0x00;
  device_subclass = 0x00;
  device_protocol = 0x00;
  manufacturer_name = "vusbipd-ccid";
  product_name = "Virtual CCID over USB/IP";
  serial_number = "0123456789abcdef";
}
