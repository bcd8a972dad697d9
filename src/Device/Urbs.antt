-- ===== src/Device/Urbs.antt =====
-- The URBs that reach the CCID interface, one after the other.
use vusbipd_ccid.Base.{ℕ, ◌≡◌, false, not, ◌&&◌, List, [], ◌==◌, if_cases}
use vusbipd_ccid.Base.Result.{ok, err, panic, stuck}
use vusbipd_ccid.Nfc.{NfcReader}
use vusbipd_ccid.Bridge.{CcidBridge}
use vusbipd_ccid.Bridge.Slot.{new-IsValid}
use vusbipd_ccid.Transport.State.{CcidTransport, Done, and_then, new}
use vusbipd_ccid.Transport.{handle_bulk_out}
use vusbipd_ccid.Transport.Invariant.{Inv, handle_bulk_in-Inv}
use vusbipd_ccid.Transport.Kept.{Sound-Inv}
use vusbipd_ccid.Transport.Requests.{
  new-Inv, handle_control_request-Sound, handle_bulk_out-Sound, handle_interrupt_in-Inv,
}
use vusbipd_ccid.Device.{Usbip, UsbEndpoint, SetupPacket, handle_urb, is_out}

module _ (usbip : Usbip) {S : Type 0} (nfc : NfcReader S) where
  -- The transports that URBs lead to, from that of a new reader, as long as the lock of the bridge is
  -- not poisoned: a panic ends the history.
  pub data Reachable : CcidTransport S → Type 0 where
    start :
        (reader : S)
        → Reachable (new (record { poisoned = false; inner = vusbipd_ccid.Bridge.new nfc reader }))
    urb :
        {t : CcidTransport S} (ep : UsbEndpoint) (n : ℕ) (setup : SetupPacket) (req : List ℕ)
        → Reachable t
        → t.bridge.poisoned ≡ false
        → Reachable (handle_urb usbip nfc t ep n setup req).0

  handle_urb-Inv :
      (t : CcidTransport S) (ep : UsbEndpoint) (n : ℕ) (setup : SetupPacket) (req : List ℕ)
      → Inv t
      → t.bridge.poisoned ≡ false
      → Inv (handle_urb usbip nfc t ep n setup req).0
  unfolding handle_urb
  handle_urb-Inv t ep n setup req i p =
      if_cases (λ (d : Done S (List ℕ)). Inv d.0) (usbip.is_ep0 ep)
        (λ _. Sound-Inv _ (handle_control_request-Sound nfc t _ _ _ i p))
        (λ _.
          if_cases (λ (d : Done S (List ℕ)). Inv d.0)
            (is_out (usbip.direction ep) && ep.address == 0x01)
            (λ _.
              packet (handle_bulk_out nfc t req)
                (Sound-Inv _ (handle_bulk_out-Sound nfc t req i p)))
            (λ _.
              if_cases (λ (d : Done S (List ℕ)). Inv d.0)
                (not (is_out (usbip.direction ep)) && ep.address == 0x81)
                (λ _. handle_bulk_in-Inv t n i)
                (λ _.
                  if_cases (λ (d : Done S (List ℕ)). Inv d.0)
                    (not (is_out (usbip.direction ep)) && ep.address == 0x82)
                    (λ _. handle_interrupt_in-Inv nfc t i) (λ _. i))))
    where
      packet :
          (d : Done S (Unit {0}))
          → Inv d.0
          → Inv (and_then {S = S} {A = Unit {0}} {B = List ℕ} d (λ _ t'. (t', ok []))).0
      packet (u, ok a) h = h
      packet (u, err e) h = h
      packet (u, panic) h = h
      packet (u, stuck) h = h

  -- Whatever the host sends and the reader answers, a transport that URBs lead to from that of a new
  -- reader, up to the first panic, is valid: at most 32 responses are queued, the state says what
  -- the queue and the buffer hold, a pending control abort is for slot 0, and the slot of the bridge
  -- is valid.
  pub Reachable-Inv : {t : CcidTransport S} → Reachable t → Inv t
  Reachable-Inv (start reader) = new-Inv nfc _ (new-IsValid nfc reader)
  Reachable-Inv (urb ep n setup req r p) = handle_urb-Inv _ ep n setup req (Reachable-Inv r) p
