-- ===== src/Device/Uart.antt =====
-- The whole daemon with a PN532 reader: from URBs to the target of the chip.
use vusbipd_ccid.Base.{◌≡◌, refl, false}
use vusbipd_ccid.Protocol.{active, CcidCommand, icc_power_off}
use vusbipd_ccid.Nfc.Pn532.Chip.{Pn532Device}
use vusbipd_ccid.Nfc.Pn532.Waiting.{IsDocumented}
use vusbipd_ccid.Nfc.Pn532.Instance.{
  CoherentReader, IsSettled, settle, power_off-IsSettled, pn532_reader,
}
use vusbipd_ccid.Nfc.Pn532.Reader.{Pn532UartReader, power_off}
use vusbipd_ccid.Nfc.{ReaderError}
use vusbipd_ccid.Base.Run.{Ends}
use vusbipd_ccid.Base.Result.{Result, ok, err, panic, stuck}
use vusbipd_ccid.Bridge.{CcidBridge, current_icc_status}
use vusbipd_ccid.Bridge.Linked.{IsLinked, is_fault}
use vusbipd_ccid.Bridge.Selection.{
  off_fails, new-IsLinked, refresh-IsLinked, handle_command-IsLinked,
}
use vusbipd_ccid.Bridge.Uart.{HasTarget, uart, uart-SelectsCards, Agree, linked-Agree}
use vusbipd_ccid.Transport.State.{CcidTransport}
use vusbipd_ccid.Transport.Access.{Accesses-keeps}
use vusbipd_ccid.Device.{Usbip}
use vusbipd_ccid.Device.Urbs.{Reachable}
use vusbipd_ccid.Device.Calls.{Reachable-Accesses}

settled_ok :
    {P : Type 0} (x : Pn532UartReader P × Result ReaderError (Unit {0})) (h : Ends IsSettled x)
    → x.1 ≡ ok tt
    → is_fault (settle x h).1 ≡ false
unfolding settle
settled_ok (r, ok u) h e = refl
settled_ok (r, err x) h e = absurd (cc)
settled_ok (r, panic) h e = elim h.1 [ ]
settled_ok (r, stuck) h e = elim h.1 [ ]

module _ (usbip : Usbip) {P : Type 0} (device : Pn532Device P) (documented : IsDocumented device)
    (switches_off : (r : Pn532UartReader P) → (power_off device r).1 ≡ ok tt) where
  never_fails :
      (b : CcidBridge (CoherentReader P)) (c : CcidCommand)
      → off_fails (uart device documented) b c ≡ false
  unfolding pn532_reader
  never_fails b (icc_power_off slot seq) =
      settled_ok (power_off device b.reader.reader) (power_off-IsSettled device b.reader.reader)
        (switches_off b.reader.reader)
  never_fails b c = refl

  -- If the port and the clock behave as documented and the chip always obeys when the field is to
  -- be switched off: whatever URBs the host sends, in a transport that they lead to from a new
  -- reader, up to the first panic, an active slot has its card as the cached one of the reader,
  -- whose target is active with the field on, and an exchange goes to this target with no poll
  -- before it.
  pub Reachable-Agree :
      {t : CcidTransport (CoherentReader P)}
      → Reachable usbip (uart device documented) t
      → current_icc_status t.bridge.inner ≡ active
      → Agree device documented t.bridge.inner
  Reachable-Agree {t} r a =
      let nfc = uart device documented in
      let selects = uart-SelectsCards device documented in
      let (reader, calls) = Reachable-Accesses usbip nfc r in
      linked-Agree device documented t.bridge.inner
        (Accesses-keeps nfc (λ b. IsLinked HasTarget b)
          (λ b c h. handle_command-IsLinked nfc HasTarget selects b c h (never_fails b c))
          (λ b h. refresh-IsLinked nfc HasTarget selects b h)
          (new-IsLinked nfc HasTarget selects reader) calls)
        a
