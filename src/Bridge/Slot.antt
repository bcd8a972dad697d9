-- ===== src/Bridge/Slot.antt =====
-- The invariant of the slot, and what each answer says of it.
use vusbipd_ccid.Base.{ℕ, ◌≡◌, refl, false, true, Option, none, some, is_some, List, length, arith}
use vusbipd_ccid.Base.Result.{Returned, value, fault}
use vusbipd_ccid.Nfc.{CardPresence, ReaderError, NfcReader}
use vusbipd_ccid.Protocol.{
  CcidCommand, icc_power_on, icc_power_off, get_slot_status, reset_parameters, set_parameters,
  xfr_block,
}
use vusbipd_ccid.Bridge.{
  CcidBridge, new, handle_command, refresh_card_presence, refresh_polled, xfr_ready,
}

-- Only a slot with a card is powered, and the parameters are those of T=1.
pub record IsValid {S : Type 0} (b : CcidBridge S) : Type 0 where
  pub powered_card : b.slot_powered ≡ true → is_some b.current_card ≡ true
  pub t1 : b.protocol_num ≡ 1
  pub seven : length b.params ≡ 7

module _ {S : Type 0} (nfc : NfcReader S) where
  pub new-IsValid : (reader : S) → IsValid (new nfc reader)
  unfolding new
  new-IsValid reader = ground arith

  pub new_lem :
      (reader : S)
      → ((new nfc reader).slot_powered ≡ false) × ((new nfc reader).current_card ≡ none)
  unfolding new
  new_lem reader = (refl, refl)

  refresh_polled-IsValid :
      (b : CcidBridge S) (p : S × Returned ReaderError (Option CardPresence))
      → IsValid b
      → IsValid (refresh_polled b p).0
  unfolding refresh_polled
  refresh_polled-IsValid b (r, fault e) v = ground arith
  refresh_polled-IsValid b (r, value none) v = ground arith
  refresh_polled-IsValid b (r, value (some card)) v = ground arith

  pub refresh-IsValid : (b : CcidBridge S) → IsValid b → IsValid (refresh_card_presence nfc b).0
  unfolding refresh_card_presence
  refresh-IsValid b v = ground (arith, refresh_polled-IsValid b (nfc.poll_card b.reader))

  xfr_ready-IsValid :
      (b : CcidBridge S) (slot seq : ℕ) (payload : List ℕ)
      → IsValid b
      → IsValid (xfr_ready nfc b slot seq payload).0
  unfolding xfr_ready
  xfr_ready-IsValid b slot seq payload v = ground arith

  -- Every command, whatever the reader answers, keeps a slot valid: only a slot with a card is
  -- powered, the protocol is T=1 and there are seven bytes of parameters.
  pub handle_command-IsValid :
      (b : CcidBridge S) (c : CcidCommand) → IsValid b → IsValid (handle_command nfc b c).0
  unfolding handle_command
  handle_command-IsValid b (icc_power_on slot seq p) v = ground arith
  handle_command-IsValid b (icc_power_off slot seq) v = ground arith
  handle_command-IsValid b (get_slot_status slot seq) v = ground (arith, refresh-IsValid b)
  handle_command-IsValid b (set_parameters slot seq n payload) v = ground arith
  handle_command-IsValid b (xfr_block slot seq bwi level payload) v = ground (
    arith,
    refresh-IsValid b,
    xfr_ready-IsValid (refresh_card_presence nfc b).0 slot seq payload,
    xfr_ready-IsValid b slot seq payload,
  )
  handle_command-IsValid b (reset_parameters slot seq) v = ground arith
  handle_command-IsValid b c v = v
