-- ===== src/Device/Features.antt =====
-- The remote wakeup feature of the device, over a history of control requests.
use vusbipd_ccid.Base.{
  ℕ, ◌≡◌, ◌≢◌, ◌≤◌, ◌&&◌, ◌||◌, refl, ◌∙◌, Bool, true, false, List, [], ◌∷◌, All, length, ◌==◌, min,
  arith, length-take,
}
use vusbipd_ccid.Base.Result.{ok}
use vusbipd_ccid.Device.{
  Usbip, SetupPacket, CcidUsbIpDeviceHandler, handle_device_urb, device_status,
  usb_feature_remote_wakeup,
}

module _ (usbip : Usbip) where
  -- The device after a history of control requests, each with the length of its buffer.
  unfoldable pub requested :
      CcidUsbIpDeviceHandler → List (ℕ × SetupPacket) → CcidUsbIpDeviceHandler
  requested handler [] = handler
  requested handler ((n, setup) ∷ more) = requested (handle_device_urb usbip handler n setup).0 more

  -- A request that switches the feature.
  abbrev pub switches : SetupPacket → Bool
  switches setup =
      (setup.request_type == 0x00)
      && (setup.setup_value == usb_feature_remote_wakeup)
      && (setup.request == usbip.set_feature || setup.request == usbip.clear_feature)

  abbrev pub feature_request : ℕ → SetupPacket
  feature_request code = record {
    request_type = 0x00;
    request = code;
    setup_value = 1;
    index = 0;
    length = 0;
  }

  abbrev pub status_request : SetupPacket
  status_request = record {
    request_type = 0x80;
    request = usbip.get_status;
    setup_value = 0;
    index = 0;
    length = 2;
  }

  requested_kept :
      (handler : CcidUsbIpDeviceHandler) (history : List (ℕ × SetupPacket))
      → All (λ r. switches r.1 ≡ false) history
      → (requested handler history).remote_wakeup_enabled ≡ handler.remote_wakeup_enabled
  unfolding requested handle_device_urb
  requested_kept handler [] h = refl
  requested_kept handler ((n, setup) ∷ more) (unswitched, h) =
      requested_kept (handle_device_urb usbip handler n setup).0 more h ∙ ground (arith, unswitched)

  switched :
      (handler : CcidUsbIpDeviceHandler)
      → usbip.set_feature ≢ usbip.clear_feature
      → ((handle_device_urb usbip handler 0
            (feature_request usbip.set_feature)).0.remote_wakeup_enabled
          ≡ true)
        × ((handle_device_urb usbip handler 0
              (feature_request usbip.clear_feature)).0.remote_wakeup_enabled
            ≡ false)
  unfolding handle_device_urb
  switched handler differ = ground arith

  get_status_lem :
      (handler : CcidUsbIpDeviceHandler) (enabled : Bool)
      → handler.remote_wakeup_enabled ≡ enabled
      → (handle_device_urb usbip handler 64 status_request).1 ≡ ok (device_status enabled)
  unfolding handle_device_urb
  get_status_lem handler true e = ground arith
  get_status_lem handler false e = ground arith

  -- If the codes of SET_FEATURE and CLEAR_FEATURE differ: after SET_FEATURE of the remote wakeup
  -- GET_STATUS reports it as on, and after CLEAR_FEATURE as off, whatever requests came before, and
  -- after any further requests that do not switch it.
  pub get_status_last_switch :
      (handler : CcidUsbIpDeviceHandler) (before after : List (ℕ × SetupPacket))
      → usbip.set_feature ≢ usbip.clear_feature
      → All (λ r. switches r.1 ≡ false) after
      → let on = (0, feature_request usbip.set_feature) ∷ after in
        let off = (0, feature_request usbip.clear_feature) ∷ after in
        ((handle_device_urb usbip (requested (requested handler before) on) 64 status_request).1
          ≡ ok (0x02 ∷ 0x00 ∷ []))
        × ((handle_device_urb usbip (requested (requested handler before) off) 64 status_request).1
            ≡ ok (0x00 ∷ 0x00 ∷ []))
  unfolding requested
  get_status_last_switch handler before after differ h =
      let start = requested handler before in
      let on = (handle_device_urb usbip start 0 (feature_request usbip.set_feature)).0 in
      let off = (handle_device_urb usbip start 0 (feature_request usbip.clear_feature)).0 in
      let (set, clear) = switched start differ in
      (
        get_status_lem (requested on after) true (requested_kept on after h ∙ set),
        get_status_lem (requested off after) false (requested_kept off after h ∙ clear),
      )

  -- No answer of the device is longer than the buffer of the host.
  pub handle_device_urb_fits :
      (handler : CcidUsbIpDeviceHandler) (n : ℕ) (setup : SetupPacket) (answer : List ℕ)
      → (handle_device_urb usbip handler n setup).1 ≡ ok answer
      → length answer ≤ n
  unfolding handle_device_urb
  handle_device_urb_fits handler n setup answer e =
      let most : ℕ = min n setup.length in
      ground (
        arith,
        length-take most (device_status handler.remote_wakeup_enabled),
        length-take {A = ℕ} most (1 ∷ []),
      )
