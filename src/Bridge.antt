-- ===== src/Bridge.antt =====
-- src/ccid/bridge.rs: the state of the CCID slot, and what a command does to it and to the reader.
-- The log lines are left out, but not the slice that one of them needs: `select_aid` can panic.
pub mod Slot
pub mod Replies
pub mod Select
pub mod Steps
pub mod Params
pub mod Exchange
pub mod Asks
pub mod History
pub mod Atr
pub mod Dump
pub mod Linked
pub mod Selection
pub mod Uart
use text.Mathlib.Text.{◌==◌ as str_eq}
use vusbipd_ccid.Base.{
  ℕ, ◌-◌, ◌+◌, ◌≤◌, Bool, true, false, ◌&&◌, ◌||◌, not, Option, none, some, is_some, List, [], ◌∷◌,
  ◌++◌, length, take, drop, is_empty, get_elem?, ltb, leb, ◌==◌, if◌then◌else◌, bit_or, bit_xor,
}
use vusbipd_ccid.Base.Result.{
  Result, ok, err, panic, stuck, Infallible, index, slice, ◌>>=◌, Returned, value, fault,
}
use vusbipd_ccid.Base.Bytes.{u8}
use vusbipd_ccid.Nfc.{CardPresence, ReaderCapabilities, ReaderError, target_lost, NfcReader}
use vusbipd_ccid.Protocol.{
  CcidCommand, icc_power_on, icc_power_off, get_slot_status, get_parameters, reset_parameters,
  set_parameters, xfr_block, abort, unknown, CcidResponse, data_block, slot_status, parameters,
  IccStatus, active, inactive, not_present, SlotStatus, ok_status, failed_status,
}
use mathlib.Core.List.{foldl}

abbrev pub generic_failure_error : ℕ
generic_failure_error = 0xff

abbrev pub t1_protocol_num : ℕ
t1_protocol_num = 0x01

abbrev pub default_t1_parameters : List ℕ
default_t1_parameters = 0x11 ∷ 0x10 ∷ 0x00 ∷ 0x15 ∷ 0x00 ∷ 0xfe ∷ 0x00 ∷ []

abbrev pub apdu_select_ins : ℕ
apdu_select_ins = 0xa4

abbrev pub apdu_select_by_df_name_p1 : ℕ
apdu_select_by_df_name_p1 = 0x04

abbrev pub apdu_get_response_ins : ℕ
apdu_get_response_ins = 0xc0

pub record CcidBridge (S : Type 0) : Type 0 where
  pub reader : S
  pub reader_capabilities : ReaderCapabilities
  pub current_card : Option CardPresence
  pub slot_powered : Bool
  pub protocol_num : ℕ
  pub params : List ℕ

-- `matches!(byte, 0x3b | 0x3f)` on the first byte, if there is one.
abbrev pub starts_atr : List ℕ → Bool
starts_atr [] = false
starts_atr (b ∷ bs) = b == 0x3b || b == 0x3f

-- `fold(0, ^)`
abbrev pub xor_all : List ℕ → ℕ
xor_all = foldl bit_xor 0

unfoldable pub build_pseudo_atr : CardPresence → List ℕ
build_pseudo_atr card =
    if starts_atr card.historical_bytes
    then card.historical_bytes
    else let historical_bytes =
        if ltb 0x0f (length card.historical_bytes)
        then take 15 card.historical_bytes
        else card.historical_bytes in
      let atr =
        0x3b ∷ bit_or 0x80 (u8 (length historical_bytes)) ∷ 0x80 ∷ 0x01 ∷ historical_bytes in
      atr ++ (xor_all (drop 1 atr) ∷ [])

-- The data field of a SELECT by name, for the log. `then_some` takes its argument by value, so the
-- slice is made before the test of its bounds counts.
unfoldable pub select_aid : List ℕ → Result Infallible (Option (List ℕ))
select_aid apdu = if ltb (length apdu) 5 then ok none else (do
  ins ← index apdu 1
  p1 ← index apdu 2
  aid_len ← index apdu 4
  let aid_end = 5 + aid_len
  if not (ins == apdu_select_ins) || not (p1 == apdu_select_by_df_name_p1) then ok none else (do
    aid ← slice apdu 5 aid_end
    ok (if ltb 0 aid_len && leb aid_end (length apdu) then some aid else none)))

-- GET RESPONSE is sent with the interindustry class byte.
unfoldable pub normalize_apdu_for_exchange : List ℕ → List ℕ
normalize_apdu_for_exchange (cla ∷ ins ∷ rest) =
    if ins == apdu_get_response_ins then 0x00 ∷ ins ∷ rest else cla ∷ ins ∷ rest
normalize_apdu_for_exchange apdu = apdu

-- The answer of every failure but that of the parameters.
abbrev pub failure : ℕ → ℕ → IccStatus → CcidResponse
failure slot seq icc = slot_status slot seq (failed_status icc) generic_failure_error 0

-- The state of the bridge after a call, and what the call gives.
abbrev pub Handled : Type 0 → Type 0
Handled S = CcidBridge S × Result Infallible CcidResponse

module _ {S : Type 0} where
  abbrev pub card_present : CcidBridge S → Bool
  card_present b = is_some b.current_card

  abbrev pub current_icc_status : CcidBridge S → IccStatus
  current_icc_status b =
      if not (is_some b.current_card)
      then not_present
      else if b.slot_powered
      then active
      else inactive

  parameters_response : CcidBridge S → ℕ → ℕ → Bool → CcidResponse
  parameters_response b slot seq failed =
      parameters slot seq
        (if failed then failed_status (current_icc_status b) else ok_status (current_icc_status b))
        (if failed then generic_failure_error else 0) b.protocol_num b.params

  -- The three arms of `match self.reader.poll_card()` on power on.
  pub power_on_polled :
      CcidBridge S → ℕ → ℕ → S × Returned ReaderError (Option CardPresence) → Handled S
  power_on_polled b slot seq (r, value (some card)) = (
    record b { reader = r; current_card = some card; slot_powered = true },
    ok (data_block slot seq (ok_status active) 0 0 (build_pseudo_atr card)),
  )
  power_on_polled b slot seq (r, value none) = (
    record b { reader = r; current_card = none; slot_powered = false },
    ok (failure slot seq not_present),
  )
  power_on_polled b slot seq (r, fault e) = (
    record b { reader = r; current_card = none; slot_powered = false },
    ok (failure slot seq inactive),
  )

  pub power_off_done : CcidBridge S → ℕ → ℕ → S × Returned ReaderError (Unit {0}) → Handled S
  power_off_done b slot seq (r, fault e) = (record b { reader = r }, ok (failure slot seq inactive))
  power_off_done b slot seq (r, value u) =
      let b' : CcidBridge S = record b { reader = r; slot_powered = false } in
      (b', ok (slot_status slot seq (ok_status (current_icc_status b')) 0 0))

  -- A poll inside `refresh_card_presence`; an error leaves the slot as it was.
  pub refresh_polled :
      CcidBridge S
      → S × Returned ReaderError (Option CardPresence)
      → CcidBridge S × Returned ReaderError Bool
  refresh_polled b (r, fault e) = (record b { reader = r }, fault e)
  refresh_polled b (r, value none) =
      (record b { reader = r; slot_powered = false; current_card = none }, value false)
  refresh_polled b (r, value (some card)) =
      (record b { reader = r; current_card = some card }, value true)

  pub slot_status_refreshed : ℕ → ℕ → CcidBridge S × Returned ReaderError Bool → Handled S
  slot_status_refreshed slot seq (b, fault e) = (b, ok (failure slot seq inactive))
  slot_status_refreshed slot seq (b, value present) =
      let b' : CcidBridge S =
        (if card_present b && str_eq b.reader_capabilities.name "dummy"
          then record b { slot_powered = true }
          else b) in
      (b', ok (slot_status slot seq (ok_status (current_icc_status b')) 0 0))

  set_parameters_arm : CcidBridge S → ℕ → ℕ → ℕ → List ℕ → Handled S
  unfolding parameters_response
  set_parameters_arm b slot seq protocol_num payload =
      if not (protocol_num == t1_protocol_num)
        || not (length payload == length default_t1_parameters)
      then (b, ok (parameters_response b slot seq true))
      else (let b' : CcidBridge S = record b { protocol_num = protocol_num; params = payload } in
          (b', ok (parameters_response b' slot seq false)))

  pub xfr_exchanged : CcidBridge S → ℕ → ℕ → S × Returned ReaderError (List ℕ) → Handled S
  xfr_exchanged b slot seq (r, value response) =
      (record b { reader = r }, ok (data_block slot seq (ok_status active) 0 0 response))
  xfr_exchanged b slot seq (r, fault (target_lost message)) = (
    record b { reader = r; current_card = none; slot_powered = false },
    ok (failure slot seq not_present),
  )
  xfr_exchanged b slot seq (r, fault e) =
      (record b { reader = r }, ok (failure slot seq (current_icc_status b)))

module _ {S : Type 0} (nfc : NfcReader S) where
  unfoldable pub new : S → CcidBridge S
  new reader = record {
    reader = reader;
    reader_capabilities = nfc.capabilities reader;
    current_card = none;
    slot_powered = false;
    protocol_num = t1_protocol_num;
    params = default_t1_parameters;
  }

  unfoldable pub refresh_card_presence : CcidBridge S → CcidBridge S × Returned ReaderError Bool
  unfolding refresh_polled
  refresh_card_presence b =
      if b.slot_powered && is_some b.current_card
      then (b, value true)
      else refresh_polled b (nfc.poll_card b.reader)

  -- From the second test for a card on, once it was looked for.
  xfr_ready : CcidBridge S → ℕ → ℕ → List ℕ → Handled S
  unfolding xfr_exchanged
  xfr_ready b slot seq payload =
      if not (is_some b.current_card)
      then (b, ok (failure slot seq not_present))
      else if not b.slot_powered
      then (b, ok (failure slot seq inactive))
      else elim (select_aid payload) [
        | ok aid ↦
            xfr_exchanged b slot seq
              (nfc.exchange_apdu b.reader (normalize_apdu_for_exchange payload))
        | err e ↦ elim e [ ]
        | panic ↦ (b, panic)
        | stuck ↦ (b, stuck)
      ]

  xfr_refreshed : ℕ → ℕ → List ℕ → CcidBridge S × Returned ReaderError Bool → Handled S
  unfolding xfr_ready
  xfr_refreshed slot seq payload (b, fault e) =
      (record b { slot_powered = false }, ok (failure slot seq inactive))
  xfr_refreshed slot seq payload (b, value present) = xfr_ready b slot seq payload

  xfr_block_arm : CcidBridge S → ℕ → ℕ → List ℕ → Handled S
  unfolding xfr_refreshed xfr_ready
  xfr_block_arm b slot seq payload =
      if not (is_some b.current_card)
      then xfr_refreshed slot seq payload (refresh_card_presence b)
      else xfr_ready b slot seq payload

  unfoldable pub handle_command : CcidBridge S → CcidCommand → Handled S
  unfolding power_on_polled power_off_done slot_status_refreshed parameters_response
      set_parameters_arm xfr_block_arm
  handle_command b (icc_power_on slot seq power_select) =
      power_on_polled b slot seq (nfc.poll_card b.reader)
  handle_command b (icc_power_off slot seq) = power_off_done b slot seq (nfc.power_off b.reader)
  handle_command b (get_slot_status slot seq) =
      slot_status_refreshed slot seq (refresh_card_presence b)
  handle_command b (get_parameters slot seq) = (b, ok (parameters_response b slot seq false))
  handle_command b (reset_parameters slot seq) =
      let b' : CcidBridge S = record b {
        protocol_num = t1_protocol_num;
        params = default_t1_parameters;
      } in
      (b', ok (parameters_response b' slot seq false))
  handle_command b (set_parameters slot seq protocol_num payload) =
      set_parameters_arm b slot seq protocol_num payload
  handle_command b (xfr_block slot seq bwi level_parameter payload) =
      xfr_block_arm b slot seq payload
  handle_command b (abort slot seq) =
      (b, ok (slot_status slot seq (ok_status (current_icc_status b)) 0 0))
  handle_command b (unknown message_type slot seq ps payload) =
      (b, ok (failure slot seq (current_icc_status b)))
