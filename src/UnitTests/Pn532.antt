-- ===== src/UnitTests/Pn532.antt =====
-- The unit tests of src/nfc/pn532.rs, with a slice of bytes as the port.
use vusbipd_ccid.Base.{
  ℕ, zero, suc, ◌+◌, ◌-◌, ◌/◌, ◌%◌, ◌≡◌, refl, true, false, List, [], ◌∷◌, ◌++◌, take, drop, length,
  bytes_eq, ltb, if◌then◌else◌,
}
use vusbipd_ccid.Base.Bytes.{u8}
use vusbipd_ccid.Base.Result.{ok, value, fault}
use vusbipd_ccid.Base.Text.{plain}
use vusbipd_ccid.Nfc.Pn532.{
  Read, pn532_to_host, ats_historical_bytes, can_return_cached_presence,
  exchange_status_keeps_target_active, wrapping_sum, receive_dynamic_response_from, check_frame,
}

-- `impl Read for &[u8]`
abbrev slice : Read (List ℕ)
slice = record {
  read_exact = λ bytes n.
      if ltb (length bytes) n
      then ([], fault (plain "failed to fill whole buffer"))
      else (drop n bytes, value (take n bytes));
}

-- `0u8.wrapping_sub(byte)`
abbrev negated : ℕ → ℕ
negated byte = u8 (256 - byte)

-- `vec![byte; n]`
abbrev repeated : ℕ → ℕ → List ℕ
repeated byte zero = []
repeated byte (suc n) = byte ∷ repeated byte n

abbrev AtsHistoricalBytesSkipTlT0AndInterfaceBytes : Type 0
AtsHistoricalBytesSkipTlT0AndInterfaceBytes =
    let historical : List ℕ =
      0x80 ∷ 0x73 ∷ 0xc0 ∷ 0x21 ∷ 0xc0 ∷ 0x57 ∷ 0x59 ∷ 0x75 ∷ 0x62 ∷ 0x69 ∷ 0x4b ∷ 0x65 ∷ 0x79
      ∷ [] in
    ats_historical_bytes (0x12 ∷ 0x78 ∷ 0xb3 ∷ 0x84 ∷ 0x00 ∷ historical) ≡ ok historical

ats_historical_bytes_skip_tl_t0_and_interface_bytes : AtsHistoricalBytesSkipTlT0AndInterfaceBytes
unfolding ats_historical_bytes
ats_historical_bytes_skip_tl_t0_and_interface_bytes = refl

abbrev CachedPresentCardRequiresActiveTarget : Type 0
CachedPresentCardRequiresActiveTarget =
    (can_return_cached_presence true false true ≡ false)
    × (can_return_cached_presence true true true ≡ true)
    × (can_return_cached_presence false false true ≡ true)
    × (can_return_cached_presence true true false ≡ false)

cached_present_card_requires_active_target : CachedPresentCardRequiresActiveTarget
cached_present_card_requires_active_target = (refl, refl, refl, refl)

abbrev NonzeroExchangeStatusInvalidatesTarget : Type 0
NonzeroExchangeStatusInvalidatesTarget =
    (exchange_status_keeps_target_active 0x00 ≡ true)
    × (exchange_status_keeps_target_active 0x01 ≡ false)
    × (exchange_status_keeps_target_active 0x0b ≡ false)

nonzero_exchange_status_invalidates_target : NonzeroExchangeStatusInvalidatesTarget
nonzero_exchange_status_invalidates_target = (refl, refl, refl)

abbrev ReceiveDynamicResponseParsesExtendedFrames : Type 0
ReceiveDynamicResponseParsesExtendedFrames =
    let expected_command : ℕ = 0x41 in
    let payload = repeated 0xa5 260 in
    let frame_len = length payload + 2 in
    let high = frame_len / 256 % 256 in
    let low = frame_len % 256 in
    let head : List ℕ =
      0x00 ∷ 0x00 ∷ 0xff ∷ 0xff ∷ 0xff ∷ high ∷ low ∷ negated (u8 (high + low)) ∷ [] in
    let frame = head ++ (pn532_to_host ∷ expected_command ∷ payload) in
    let data_checksum = wrapping_sum (drop 8 frame) in
    let sent = frame ++ (negated data_checksum ∷ 0x00 ∷ []) in
    (receive_dynamic_response_from slice sent expected_command).1 ≡ ok payload

receive_dynamic_response_parses_extended_frames : ReceiveDynamicResponseParsesExtendedFrames
unfolding receive_dynamic_response_from check_frame bytes_eq
receive_dynamic_response_parses_extended_frames = refl
