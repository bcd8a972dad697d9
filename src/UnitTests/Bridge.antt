-- ===== src/UnitTests/Bridge.antt =====
-- The unit tests of src/ccid/bridge.rs, with the reader that they fake.
use vusbipd_ccid.Base.{
  ℕ, ◌≡◌, refl, true, false, Option, some, none, List, [], ◌∷◌, take, drop, get_elem?,
}
use vusbipd_ccid.Base.Result.{Result, Infallible, ok, Returned, value, fault}
use vusbipd_ccid.Base.Text.{plain}
use vusbipd_ccid.Nfc.{CardPresence, ReaderError, NfcReader, iso_dep, target_lost}
use vusbipd_ccid.Protocol.{
  CcidResponse, data_block, slot_status, parameters, SlotStatus, icc_power_on, icc_power_off,
  xfr_block, get_parameters, active, inactive, not_present, ok_status, failed_status,
}
use vusbipd_ccid.Bridge.{
  CcidBridge, new, handle_command, refresh_card_presence, card_present, current_icc_status,
  build_pseudo_atr, select_aid, normalize_apdu_for_exchange,
}
use vusbipd_ccid.Bridge.Dump.{format_hex}

record FakeReader : Type 0 where
  pub poll_results : List (Returned ReaderError (Option CardPresence))
  pub exchange_result : Returned ReaderError (List ℕ)

-- `self.poll_results.pop_front().unwrap_or_else(|| Ok(None))`
abbrev pop_poll : FakeReader → FakeReader × Returned ReaderError (Option CardPresence)
pop_poll r = elim r.poll_results [
  | [] ↦ (r, value none)
  | result ∷ rest ↦ (record r { poll_results = rest }, result)
]

abbrev fake_reader : NfcReader FakeReader
fake_reader = record {
  capabilities =
      λ r. record { name = "fake"; supports_iso_dep = true; supports_apdu_exchange = true };
  poll_card = pop_poll;
  power_off = λ r. (r, value tt);
  exchange_apdu = λ r apdu. (r, r.exchange_result);
}

abbrev fake_bridge :
    List (Returned ReaderError (Option CardPresence))
    → Returned ReaderError (List ℕ)
    → CcidBridge FakeReader
fake_bridge poll_results exchange_result =
    new fake_reader (record { poll_results = poll_results; exchange_result = exchange_result })

-- `match response { CcidResponse::DataBlock { status, payload, .. } => .., other => panic!(..) }`
abbrev InDataBlock : Result Infallible CcidResponse → (SlotStatus → List ℕ → Type 0) → Type 0
InDataBlock (ok (data_block slot seq status error chain payload)) check = check status payload
InDataBlock other check = ⊥

abbrev InSlotStatus : Result Infallible CcidResponse → (SlotStatus → Type 0) → Type 0
InSlotStatus (ok (slot_status slot seq status error clock)) check = check status
InSlotStatus other check = ⊥

abbrev InParameters : Result Infallible CcidResponse → (ℕ → List ℕ → Type 0) → Type 0
InParameters (ok (parameters slot seq status error number payload)) check = check number payload
InParameters other check = ⊥

abbrev atr_bytes : List ℕ
atr_bytes = 0x3b ∷ 0x68 ∷ 0x00 ∷ 0xff ∷ 0x38 ∷ 0x2b ∷ 0x41 ∷ 0x52 ∷ 0x44 ∷ 0x6e ∷ 0x73 ∷ 0x73 ∷ []

abbrev card_with : List ℕ → CardPresence
card_with historical_bytes = record {
  uid = 0x01 ∷ 0x02 ∷ 0x03 ∷ 0x04 ∷ [];
  protocol = iso_dep;
  historical_bytes = historical_bytes;
}

abbrev success : Returned ReaderError (List ℕ)
success = value (0x90 ∷ 0x00 ∷ [])

abbrev PowerOnReturnsDataBlockWhenCardExists : Type 0
PowerOnReturnsDataBlockWhenCardExists =
    let bridge = fake_bridge (value (some (card_with atr_bytes)) ∷ []) success in
    InDataBlock (handle_command fake_reader bridge (icc_power_on 0 7 0)).1
      (λ status payload. (status ≡ ok_status active) × (payload ≡ atr_bytes))

power_on_returns_data_block_when_card_exists : PowerOnReturnsDataBlockWhenCardExists
unfolding handle_command new build_pseudo_atr
power_on_returns_data_block_when_card_exists = (refl, refl)

abbrev PowerOffKeepsCardPresentButInactive : Type 0
PowerOffKeepsCardPresentButInactive =
    let card = card_with atr_bytes in
    let bridge = fake_bridge (value (some card) ∷ value (some card) ∷ []) success in
    let on = (handle_command fake_reader bridge (icc_power_on 0 1 0)).0 in
    let off = handle_command fake_reader on (icc_power_off 0 2) in
    InSlotStatus off.1 (λ status. (status ≡ ok_status inactive) × (card_present off.0 ≡ true))

power_off_keeps_card_present_but_inactive : PowerOffKeepsCardPresentButInactive
unfolding handle_command new
power_off_keeps_card_present_but_inactive = (refl, refl)

abbrev four_bytes : List ℕ
four_bytes = 0x3b ∷ 0x68 ∷ 0x00 ∷ 0xff ∷ []

abbrev RefreshDoesNotPollWhilePoweredCardIsConnected : Type 0
RefreshDoesNotPollWhilePoweredCardIsConnected =
    let bridge = fake_bridge (value (some (card_with four_bytes)) ∷ value none ∷ []) success in
    let on = (handle_command fake_reader bridge (icc_power_on 0 1 0)).0 in
    let refreshed = refresh_card_presence fake_reader on in
    (refreshed.1 ≡ value true)
    × (card_present refreshed.0 ≡ true)
    × (current_icc_status refreshed.0 ≡ active)

refresh_does_not_poll_while_powered_card_is_connected :
    RefreshDoesNotPollWhilePoweredCardIsConnected
unfolding handle_command new refresh_card_presence
refresh_does_not_poll_while_powered_card_is_connected = (refl, refl, refl)

abbrev TargetLostDuringApduMarksCardNotPresent : Type 0
TargetLostDuringApduMarksCardNotPresent =
    let bridge =
      fake_bridge (value (some (card_with four_bytes)) ∷ [])
        (fault (target_lost (plain "target lost"))) in
    let on = (handle_command fake_reader bridge (icc_power_on 0 1 0)).0 in
    let after =
      handle_command fake_reader on (xfr_block 0 2 0 0 (0x00 ∷ 0xa4 ∷ 0x04 ∷ 0x00 ∷ [])) in
    InSlotStatus after.1 (λ status.
      (status ≡ failed_status not_present)
      × (card_present after.0 ≡ false)
      × (current_icc_status after.0 ≡ not_present))

target_lost_during_apdu_marks_card_not_present : TargetLostDuringApduMarksCardNotPresent
unfolding handle_command new select_aid
target_lost_during_apdu_marks_card_not_present = (refl, refl, refl)

abbrev GetParametersReturnsT1Defaults : Type 0
GetParametersReturnsT1Defaults =
    let bridge = fake_bridge [] success in
    InParameters (handle_command fake_reader bridge (get_parameters 0 1)).1 (λ number payload.
      (number ≡ 1) × (payload ≡ 0x11 ∷ 0x10 ∷ 0x00 ∷ 0x15 ∷ 0x00 ∷ 0xfe ∷ 0x00 ∷ []))

get_parameters_returns_t1_defaults : GetParametersReturnsT1Defaults
unfolding handle_command new
get_parameters_returns_t1_defaults = (refl, refl)

abbrev BuildPseudoAtrDeclaresT1Protocol : Type 0
BuildPseudoAtrDeclaresT1Protocol =
    let card : CardPresence = record {
      uid = 0x27 ∷ 0x9c ∷ 0x8b ∷ 0x22 ∷ 0x02 ∷ 0x8b ∷ 0x9c ∷ [];
      protocol = iso_dep;
      historical_bytes =
          0x80 ∷ 0x73 ∷ 0xc0 ∷ 0x21 ∷ 0xc0 ∷ 0x57 ∷ 0x59 ∷ 0x75 ∷ 0x62 ∷ 0x69 ∷ 0x4b ∷ 0x65 ∷ 0x79
          ∷ [];
    } in
    let atr = build_pseudo_atr card in
    (get_elem? atr 0 ≡ some 0x3b)
    × (get_elem? atr 1 ≡ some 0x8d)
    × (get_elem? atr 2 ≡ some 0x80)
    × (get_elem? atr 3 ≡ some 0x01)
    × (take 13 (drop 4 atr) ≡ card.historical_bytes)

build_pseudo_atr_declares_t1_protocol : BuildPseudoAtrDeclaresT1Protocol
unfolding build_pseudo_atr
build_pseudo_atr_declares_t1_protocol = (refl, refl, refl, refl, refl)

abbrev SelectAidExtractsDfName : Type 0
SelectAidExtractsDfName =
    let apdu : List ℕ = 0x00 ∷ 0xa4 ∷ 0x04 ∷ 0x00 ∷ 0x03 ∷ 0xa0 ∷ 0x00 ∷ 0x01 ∷ 0x00 ∷ [] in
    select_aid apdu ≡ ok (some (0xa0 ∷ 0x00 ∷ 0x01 ∷ []))

select_aid_extracts_df_name : SelectAidExtractsDfName
unfolding select_aid
select_aid_extracts_df_name = refl

abbrev NormalizeGetResponseUsesInterindustryCla : Type 0
NormalizeGetResponseUsesInterindustryCla =
    (normalize_apdu_for_exchange (0x80 ∷ 0xc0 ∷ 0x00 ∷ 0x00 ∷ 0x7b ∷ [])
      ≡ 0x00 ∷ 0xc0 ∷ 0x00 ∷ 0x00 ∷ 0x7b ∷ [])
    × (normalize_apdu_for_exchange (0x80 ∷ 0x10 ∷ 0x00 ∷ 0x00 ∷ 0x01 ∷ 0x04 ∷ 0x00 ∷ [])
        ≡ 0x80 ∷ 0x10 ∷ 0x00 ∷ 0x00 ∷ 0x01 ∷ 0x04 ∷ 0x00 ∷ [])

normalize_get_response_uses_interindustry_cla : NormalizeGetResponseUsesInterindustryCla
unfolding normalize_apdu_for_exchange
normalize_get_response_uses_interindustry_cla = (refl, refl)

abbrev FormatHexReturnsLowercaseHex : Type 0
FormatHexReturnsLowercaseHex =
    format_hex (0xa0 ∷ 0x00 ∷ 0x01 ∷ []) ≡ ok (b'a' ∷ b'0' ∷ b'0' ∷ b'0' ∷ b'0' ∷ b'1' ∷ [])

format_hex_returns_lowercase_hex : FormatHexReturnsLowercaseHex
unfolding format_hex
format_hex_returns_lowercase_hex = refl
