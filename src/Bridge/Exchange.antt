-- ===== src/Bridge/Exchange.antt =====
-- The APDU exchange behind a CCID block.
use vusbipd_ccid.Base.{ℕ, ◌≡◌, ◌≢◌, false, some, List, [], ◌∷◌, length, drop, get_elem?, arith, ◌⊎◌}
use vusbipd_ccid.Nfc.{NfcReader, ReaderError, target_lost}
use vusbipd_ccid.Base.Result.{ok, Returned, value, fault}
use vusbipd_ccid.Protocol.{
  xfr_block, IccStatus, CcidResponse, data_block, ok_status, active, inactive, not_present,
}
use vusbipd_ccid.Bridge.{
  CcidBridge, handle_command, refresh_card_presence, current_icc_status,
  normalize_apdu_for_exchange, failure,
}
use vusbipd_ccid.Bridge.Slot.{IsValid}
use vusbipd_ccid.Bridge.Select.{IsTruncatedSelect, select_aid-panic_iff, select_aid-ne-stuck}

-- Normalising changes at most the class byte, to 0 and only of a GET RESPONSE, and a second time
-- changes nothing.
pub normalize_lem :
    (apdu : List ℕ)
    → (length (normalize_apdu_for_exchange apdu) ≡ length apdu)
      × (drop 1 (normalize_apdu_for_exchange apdu) ≡ drop 1 apdu)
      × (get_elem? apdu 1 ≢ some 0xc0 → normalize_apdu_for_exchange apdu ≡ apdu)
      × (get_elem? apdu 1 ≡ some 0xc0 → get_elem? (normalize_apdu_for_exchange apdu) 0 ≡ some 0)
      × (normalize_apdu_for_exchange (normalize_apdu_for_exchange apdu)
          ≡ normalize_apdu_for_exchange apdu)
unfolding normalize_apdu_for_exchange
normalize_lem (cla ∷ ins ∷ rest) = ground arith
normalize_lem [] = ground arith
normalize_lem (cla ∷ []) = ground arith

-- What a host is told of an exchange, and the reader's state that is kept.
abbrev pub exchange_reply : ℕ → ℕ → Returned ReaderError (List ℕ) → CcidResponse
exchange_reply slot seq (value response) = data_block slot seq (ok_status active) 0 0 response
exchange_reply slot seq (fault (target_lost m)) = failure slot seq not_present
exchange_reply slot seq (fault e) = failure slot seq active

abbrev pub exchange_status : Returned ReaderError (List ℕ) → IccStatus
exchange_status (fault (target_lost m)) = not_present
exchange_status r = active

module _ {S : Type 0} (nfc : NfcReader S) where
  -- With an active slot and a payload that is no truncated SELECT, the normalised APDU goes to the
  -- reader. Its answer goes to the host, or a failure that tells whether the card is still there, and
  -- the slot is left without a card exactly if the target was lost.
  pub xfr_block-active :
      (b : CcidBridge S) (slot seq bwi level : ℕ) (payload : List ℕ)
      → current_icc_status b ≡ active
      → ¬ IsTruncatedSelect payload
      → let after = handle_command nfc b (xfr_block slot seq bwi level payload) in
        let exchanged = nfc.exchange_apdu b.reader (normalize_apdu_for_exchange payload) in
        (after.0.reader ≡ exchanged.0)
        × (after.1 ≡ ok (exchange_reply slot seq exchanged.1))
        × (current_icc_status after.0 ≡ exchange_status exchanged.1)
  unfolding handle_command
  xfr_block-active b slot seq bwi level payload a h =
      ground (arith, select_aid-panic_iff payload, select_aid-ne-stuck payload)

  -- With a valid slot that is not powered, a block sends nothing to the card: the reader is left
  -- alone or polled once, and the host is told of a failure, with the card inactive or not present.
  pub xfr_block-unpowered :
      (b : CcidBridge S) (slot seq bwi level : ℕ) (payload : List ℕ)
      → IsValid b
      → b.slot_powered ≡ false
      → let after = handle_command nfc b (xfr_block slot seq bwi level payload) in
        ((after.0.reader ≡ b.reader) ⊎ (after.0.reader ≡ (nfc.poll_card b.reader).0))
        × ((after.1 ≡ ok (failure slot seq inactive))
            ⊎ (after.1 ≡ ok (failure slot seq not_present)))
  unfolding handle_command refresh_card_presence
  xfr_block-unpowered b slot seq bwi level payload v h = ground arith
