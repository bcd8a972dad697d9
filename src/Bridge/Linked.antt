-- ===== src/Bridge/Linked.antt =====
-- src/ccid/bridge.rs: when the card of a powered slot is the one that the reader has selected.
use vusbipd_ccid.Base.{ℕ, ◌≡◌, refl, ◌&&◌, Bool, true, false, Option, none, some, List, if_cases}
use vusbipd_ccid.Base.Result.{Returned, value, fault}
use vusbipd_ccid.Nfc.{
  CardPresence, ReaderError, NfcReader, configuration, transport, protocol, target_lost,
  unsupported, io,
}
use text.Mathlib.Text.{◌==◌ as str_eq}
use vusbipd_ccid.Bridge.{
  card_present, CcidBridge, refresh_polled, power_on_polled, power_off_done, slot_status_refreshed,
  xfr_exchanged,
}

abbrev pub is_lost : {A : Type 0} → Returned ReaderError A → Bool
is_lost (fault (target_lost message)) = true
is_lost x = false

abbrev pub is_fault : {A : Type 0} → Returned ReaderError A → Bool
is_fault (value a) = false
is_fault (fault e) = true

-- A reader that knows which card it talks to: the one that a poll reported last, until it is lost.
pub record SelectsCards {S : Type 0} (nfc : NfcReader S) (Selected : S → CardPresence → Type 0)
    : Type 0 where
  pub poll_selects :
      (r : S) (card : CardPresence)
      → (nfc.poll_card r).1 ≡ value (some card)
      → Selected (nfc.poll_card r).0 card
  pub exchange_keeps :
      (r : S) (card : CardPresence) (apdu : List ℕ)
      → Selected r card
      → is_lost (nfc.exchange_apdu r apdu).1 ≡ false
      → Selected (nfc.exchange_apdu r apdu).0 card

module _ {S : Type 0} (Selected : S → CardPresence → Type 0) where
  -- The card of a powered slot is the selected one.
  abbrev pub IsLinked : CcidBridge S → Type 0
  IsLinked b =
      b.slot_powered ≡ true
      → (card : CardPresence) × (b.current_card ≡ some card) × Selected b.reader card

  -- What a poll selects.
  abbrev pub Selects : S × Returned ReaderError (Option CardPresence) → Type 0
  Selects x = (card : CardPresence) → x.1 ≡ value (some card) → Selected x.0 card

  pub power_on_polled-IsLinked :
      (b : CcidBridge S) (slot seq : ℕ) (x : S × Returned ReaderError (Option CardPresence))
      → Selects x
      → IsLinked (power_on_polled b slot seq x).0
  unfolding power_on_polled
  power_on_polled-IsLinked b slot seq (r, value (some card)) h = λ on. (card, refl, h card refl)
  power_on_polled-IsLinked b slot seq (r, value none) h = λ on. absurd (cc)
  power_on_polled-IsLinked b slot seq (r, fault e) h = λ on. absurd (cc)

  pub power_off_done-IsLinked :
      (b : CcidBridge S) (slot seq : ℕ) (x : S × Returned ReaderError (Unit {0}))
      → is_fault x.1 ≡ false
      → IsLinked (power_off_done b slot seq x).0
  unfolding power_off_done
  power_off_done-IsLinked b slot seq (r, value u) h = λ on. absurd (cc)
  power_off_done-IsLinked b slot seq (r, fault e) h = λ on. absurd (cc)

  pub refresh_polled-off :
      (b : CcidBridge S) (x : S × Returned ReaderError (Option CardPresence))
      → b.slot_powered ≡ false
      → (refresh_polled b x).0.slot_powered ≡ false
  unfolding refresh_polled
  refresh_polled-off b (r, fault e) off = off
  refresh_polled-off b (r, value none) off = refl
  refresh_polled-off b (r, value (some found)) off = off

  -- On a status request the dummy's card is powered; it was selected just before.
  pub slot_status_refreshed-IsLinked :
      (b : CcidBridge S) (slot seq : ℕ) (present : Bool) (card : CardPresence)
      → b.current_card ≡ some card
      → Selected b.reader card
      → IsLinked (slot_status_refreshed slot seq (b, value present)).0
  unfolding slot_status_refreshed
  slot_status_refreshed-IsLinked b slot seq present card e s =
      if_cases (λ (b' : CcidBridge S). IsLinked b')
        (card_present b && str_eq b.reader_capabilities.name "dummy") (λ dummy on. (card, e, s))
        (λ other on. (card, e, s))

  pub slot_status_polled-IsLinked :
      (b : CcidBridge S) (slot seq : ℕ) (x : S × Returned ReaderError (Option CardPresence))
      → Selects x
      → b.slot_powered ≡ false
      → IsLinked (slot_status_refreshed slot seq (refresh_polled b x)).0
  unfolding slot_status_refreshed refresh_polled
  slot_status_polled-IsLinked b slot seq (r, fault e) h off = λ on. absurd (cc)
  slot_status_polled-IsLinked b slot seq (r, value none) h off = λ on. absurd (cc)
  slot_status_polled-IsLinked b slot seq (r, value (some found)) h off =
      slot_status_refreshed-IsLinked (record b { reader = r; current_card = some found }) slot seq
        true found refl (h found refl)

  pub xfr_exchanged-IsLinked :
      (b : CcidBridge S) (slot seq : ℕ) (card : CardPresence)
      (x : S × Returned ReaderError (List ℕ))
      → b.current_card ≡ some card
      → (is_lost x.1 ≡ false → Selected x.0 card)
      → IsLinked (xfr_exchanged b slot seq x).0
  unfolding xfr_exchanged
  xfr_exchanged-IsLinked b slot seq card (r, value response) e h = λ on. (card, e, h refl)
  xfr_exchanged-IsLinked b slot seq card (r, fault (target_lost m)) e h = λ on. absurd (cc)
  xfr_exchanged-IsLinked b slot seq card (r, fault (configuration m)) e h = λ on. (card, e, h refl)
  xfr_exchanged-IsLinked b slot seq card (r, fault (transport m)) e h = λ on. (card, e, h refl)
  xfr_exchanged-IsLinked b slot seq card (r, fault (protocol m)) e h = λ on. (card, e, h refl)
  xfr_exchanged-IsLinked b slot seq card (r, fault (unsupported m)) e h = λ on. (card, e, h refl)
  xfr_exchanged-IsLinked b slot seq card (r, fault (io m)) e h = λ on. (card, e, h refl)
