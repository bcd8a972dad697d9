-- ===== src/Device/Calls.antt =====
-- What histories of URBs do to the bridge.
use mathlib.Core.Path.{subst}
use vusbipd_ccid.Protocol.{CcidCommand}
use vusbipd_ccid.Base.{
  sym, Bool, false, ◌++◌, append-nil, arith, if◌then◌else◌, ℕ, ◌≡◌, refl, true, not, ◌&&◌, List, [],
  ◌∷◌, ◌==◌, if_cases,
}
use vusbipd_ccid.Base.Result.{ok}
use vusbipd_ccid.Nfc.{NfcReader}
use vusbipd_ccid.Bridge.{CcidBridge, new}
use vusbipd_ccid.Transport.State.{CcidTransport, Mutex, Done}
use vusbipd_ccid.Transport.{handle_bulk_out}
use vusbipd_ccid.Transport.State
use vusbipd_ccid.Transport.Access.{
  Accesses, Accesses-map, no_access, IsKept, Keeps, and_then-Keeps, handle_control_request-Keeps,
  handle_interrupt_in-Keeps,
}
use vusbipd_ccid.Transport.Access.Calls.{
  Sent, Sent-more, IsRest, IsRest-more, Comes, Comes-IsKept, poisoned-IsKept,
}
use vusbipd_ccid.Transport.Access.Bulk.{handle_bulk_out-Keeps, handle_bulk_in-Keeps}
use vusbipd_ccid.Device.{Usbip, UsbEndpoint, SetupPacket, handle_urb, is_out}
use vusbipd_ccid.Device.Urbs.{Reachable, start, urb}

-- The arguments of a call of `handle_urb`.
pub record Urb : Type 0 where
  pub endpoint : UsbEndpoint
  pub buffer_length : ℕ
  pub setup : SetupPacket
  pub request : List ℕ

module _ (usbip : Usbip) {S : Type 0} (nfc : NfcReader S) where
  -- The URB carries bytes of messages.
  abbrev pub is_bulk_out : UsbEndpoint → Bool
  is_bulk_out ep = not (usbip.is_ep0 ep) && (is_out (usbip.direction ep) && ep.address == 0x01)

  module _ {Sent : CcidCommand → Type 0} {Holds : List ℕ → Type 0}
      (Q : Mutex (CcidBridge S) → Type 0) (kept : IsKept nfc Sent Holds Q) where
    handle_urb-Keeps :
        (t : CcidTransport S) (ep : UsbEndpoint) (n : ℕ) (setup : SetupPacket) (req : List ℕ)
        → Q t.bridge
        → (is_bulk_out ep ≡ true → Holds (t.pending_out_buffer ++ req))
        → (is_bulk_out ep ≡ false → Holds t.pending_out_buffer)
        → Keeps nfc Q kept (handle_urb usbip nfc t ep n setup req)
    unfolding handle_urb
    handle_urb-Keeps t ep n setup req h bulk plain =
        let After : Done S (List ℕ) → Type 0 = λ d. Keeps nfc Q kept d in
        if_cases After (usbip.is_ep0 ep)
          (λ zero.
            handle_control_request-Keeps nfc Q kept t setup.request_type setup.request
              setup.setup_value (h, plain (ground (arith, zero))))
          (λ other.
            if_cases After (is_out (usbip.direction ep) && ep.address == 0x01)
              (λ out.
                and_then-Keeps nfc Q kept {A = Unit {0}} {B = List ℕ} (handle_bulk_out nfc t req)
                  (λ _ t'. (t', ok []))
                  (handle_bulk_out-Keeps nfc Q kept t req h (bulk (rw other (rw out refl))))
                  (λ _ t' k. k))
              (λ not_out.
                let held : Holds t.pending_out_buffer = plain (rw other (rw not_out refl)) in
                if_cases After (not (is_out (usbip.direction ep)) && ep.address == 0x81)
                  (λ _. handle_bulk_in-Keeps nfc Q kept t n (h, held))
                  (λ _.
                    if_cases After (not (is_out (usbip.direction ep)) && ep.address == 0x82)
                      (λ _. handle_interrupt_in-Keeps nfc Q kept t (h, held)) (λ _. (h, held)))))

  -- The bytes of an URB that are bytes of messages.
  abbrev carried : UsbEndpoint → List ℕ → List ℕ
  carried ep req = if is_bulk_out ep then req else []

  -- The bytes that the host sent to the bulk OUT endpoint in a history.
  unfoldable pub sent_bytes : {t : CcidTransport S} → Reachable usbip nfc t → List ℕ
  sent_bytes (start reader) = []
  sent_bytes (urb ep n setup req r p) = sent_bytes r ++ carried ep req

  Traced : CcidBridge S → List ℕ → CcidTransport S → Type 0
  Traced b sent t = Accesses nfc (Sent sent) b t.bridge.inner × IsRest sent t.pending_out_buffer

  handle_urb-Traced :
      (b : CcidBridge S) (sent : List ℕ) (t : CcidTransport S) (ep : UsbEndpoint) (n : ℕ)
      (setup : SetupPacket) (req : List ℕ)
      → Traced b sent t
      → Traced b (sent ++ carried ep req) (handle_urb usbip nfc t ep n setup req).0
  unfolding Traced
  handle_urb-Traced b sent t ep n setup req (a, rest) =
      let more : List ℕ = carried ep req in
      handle_urb-Keeps (Comes nfc (sent ++ more) b) (Comes-IsKept nfc (sent ++ more) b) t ep n setup
        req (Accesses-map nfc (λ c s. Sent-more sent more c s) a)
        (λ e.
          subst (λ (x : List ℕ). IsRest (sent ++ x) (t.pending_out_buffer ++ req)) (sym (rw e refl))
            (IsRest-more sent t.pending_out_buffer req rest))
        (λ e.
          subst (λ (x : List ℕ). IsRest (sent ++ x) t.pending_out_buffer) (sym (rw e refl))
            (subst (λ (x : List ℕ). IsRest x t.pending_out_buffer) (sym (append-nil sent)) rest))

  Reachable-Traced :
      {t : CcidTransport S} (r : Reachable usbip nfc t)
      → (reader : S) × Traced (new nfc reader) (sent_bytes r) t
  unfolding Traced sent_bytes State.new
  Reachable-Traced (start reader) = (reader, (no_access, ([], refl)))
  Reachable-Traced (urb ep n setup req r p) =
      let (reader, traced) = Reachable-Traced r in
      (reader, handle_urb-Traced (new nfc reader) (sent_bytes r) _ ep n setup req traced)

  -- Whatever the host sends: the bridge of a transport that URBs lead to comes of a new bridge by
  -- looks for a card and by commands, carried out one after the other, each of which consecutive
  -- bytes that the host sent to the bulk OUT endpoint decode to, or is an abort; and by nothing else.
  pub Reachable-Accesses :
      {t : CcidTransport S} (r : Reachable usbip nfc t)
      → (reader : S) × Accesses nfc (Sent (sent_bytes r)) (new nfc reader) t.bridge.inner
  unfolding Traced
  Reachable-Accesses r = let (reader, (a, rest)) = Reachable-Traced r in (reader, a)

  -- The transport after the URBs, with the results left out.
  unfoldable pub after_urbs : CcidTransport S → List Urb → CcidTransport S
  after_urbs t [] = t
  after_urbs t (u ∷ rest) =
      after_urbs (handle_urb usbip nfc t u.endpoint u.buffer_length u.setup u.request).0 rest

  -- Once a panic has poisoned the lock of the bridge, it is poisoned for good: whatever URBs follow,
  -- no command is carried out and no card is looked for.
  pub poisoned_for_good :
      (t : CcidTransport S) (urbs : List Urb)
      → t.bridge.poisoned ≡ true
      → (after_urbs t urbs).bridge ≡ t.bridge
  unfolding after_urbs
  poisoned_for_good t urbs p = stays t urbs refl
    where
      stays :
          (u : CcidTransport S) (urbs : List Urb)
          → u.bridge ≡ t.bridge
          → (after_urbs u urbs).bridge ≡ t.bridge
      stays u [] h = h
      stays u (x ∷ rest) h =
          stays (handle_urb usbip nfc u x.endpoint x.buffer_length x.setup x.request).0 rest (
            (handle_urb-Keeps (λ l. l ≡ t.bridge) (poisoned-IsKept nfc t.bridge p) u x.endpoint
              x.buffer_length x.setup x.request h (λ _. tt) (λ _. tt)).0)
