-- ===== src/Nfc/Dummy.antt =====
-- src/nfc/dummy.rs: the simulated reader, with one card on it that holds a FIDO applet.
pub mod Status
pub mod Session
use vusbipd_ccid.Base.{
  Option-cases, inl, inr, arith, ℕ, ◌+◌, ◌≡◌, refl, Bool, true, false, ◌&&◌, ◌||◌, not, Option,
  none, some, List, [], ◌∷◌, ◌++◌, length, take, is_empty, ltb, ◌==◌, if◌then◌else◌, bit_and,
  bit_or, bytes_eq,
}
use vusbipd_ccid.Base.Result.{
  Result, ok, err, panic, stuck, Infallible, ◌>>=◌, Returns, Returned, value, fault, settled,
}
use vusbipd_ccid.Base.Bytes.{u8}
use vusbipd_ccid.Base.Text.{plain}
use vusbipd_ccid.Nfc.{CardPresence, iso_dep, ReaderCapabilities, ReaderError, protocol, NfcReader}

abbrev pub ctap2_err_invalid_command : ℕ
ctap2_err_invalid_command = 0x01

abbrev pub fido_aid : List ℕ
fido_aid = 0xa0 ∷ 0x00 ∷ 0x00 ∷ 0x06 ∷ 0x47 ∷ 0x2f ∷ 0x00 ∷ 0x01 ∷ []

abbrev pub fido_nfcctap_msg : ℕ
fido_nfcctap_msg = 0x10

abbrev pub fido_nfcctap_get_response : ℕ
fido_nfcctap_get_response = 0x11

abbrev pub fido_nfcctap_control : ℕ
fido_nfcctap_control = 0x12

abbrev pub fido_nfc_end_ctap_msg : ℕ
fido_nfc_end_ctap_msg = 0x01

-- "U2F_V2", "FIDO_2_0", "nfc"
abbrev pub fido_version_u2f_v2 : List ℕ
fido_version_u2f_v2 = 0x55 ∷ 0x32 ∷ 0x46 ∷ 0x5f ∷ 0x56 ∷ 0x32 ∷ []

abbrev pub fido_version_2_0 : List ℕ
fido_version_2_0 = 0x46 ∷ 0x49 ∷ 0x44 ∷ 0x4f ∷ 0x5f ∷ 0x32 ∷ 0x5f ∷ 0x30 ∷ []

abbrev pub fido_transport_nfc : List ℕ
fido_transport_nfc = 0x6e ∷ 0x66 ∷ 0x63 ∷ []

abbrev pub dummy_atr : List ℕ
dummy_atr = 0x3b ∷ 0x68 ∷ 0x00 ∷ 0xff ∷ 0x38 ∷ 0x2b ∷ 0x41 ∷ 0x52 ∷ 0x44 ∷ 0x6e ∷ 0x73 ∷ 0x73 ∷ []

abbrev pub fido_dummy_aaguid : List ℕ
fido_dummy_aaguid =
    0x76 ∷ 0x75 ∷ 0x73 ∷ 0x62 ∷ 0x69 ∷ 0x70 ∷ 0x64 ∷ 0x2d ∷ 0x63 ∷ 0x63 ∷ 0x69 ∷ 0x64 ∷ 0x2d ∷ 0x66
    ∷ 0x69 ∷ 0x64 ∷ []

abbrev pub sw_success : List ℕ
sw_success = 0x90 ∷ 0x00 ∷ []

abbrev pub sw_ins_not_supported : List ℕ
sw_ins_not_supported = 0x6d ∷ 0x00 ∷ []

abbrev pub sw_wrong_parameters : List ℕ
sw_wrong_parameters = 0x6a ∷ 0x86 ∷ []

abbrev pub sw_wrong_length : List ℕ
sw_wrong_length = 0x67 ∷ 0x00 ∷ []

abbrev pub sw_file_not_found : List ℕ
sw_file_not_found = 0x6a ∷ 0x82 ∷ []

pub data SelectedApplet : Type 0 where
  no_applet fido : SelectedApplet

pub record DummyReader : Type 0 where
  pub card_present : Bool
  pub selected_applet : SelectedApplet

abbrev pub is_fido : SelectedApplet → Bool
is_fido no_applet = false
is_fido fido = true

-- What `parse_short_apdu` gives: `(cla, ins, p1, p2, data)`.
pub record ShortApdu : Type 0 where
  pub cla : ℕ
  pub ins : ℕ
  pub p1 : ℕ
  pub p2 : ℕ
  pub data_field : List ℕ

unfoldable pub parse_short_apdu : List ℕ → Option ShortApdu
parse_short_apdu (cla ∷ ins ∷ p1 ∷ p2 ∷ []) =
    some (record { cla = cla; ins = ins; p1 = p1; p2 = p2; data_field = [] })
parse_short_apdu (cla ∷ ins ∷ p1 ∷ p2 ∷ le ∷ []) =
    some (record { cla = cla; ins = ins; p1 = p1; p2 = p2; data_field = [] })
parse_short_apdu (cla ∷ ins ∷ p1 ∷ p2 ∷ lc ∷ b ∷ body) =
    if ltb (length (lc ∷ b ∷ body)) (1 + lc)
    then none
    else some (record { cla = cla; ins = ins; p1 = p1; p2 = p2; data_field = take lc (b ∷ body) })
parse_short_apdu apdu = none

abbrev pub append_status : List ℕ → List ℕ → List ℕ
append_status response status = response ++ status

-- `assert!(value.len() < 24, ..)`
abbrev pub encode_text : {E : Type 0} → List ℕ → Result E (List ℕ)
encode_text bytes =
    if ltb (length bytes) 24 then ok (bit_or 0x60 (u8 (length bytes)) ∷ bytes) else panic

unfoldable pub authenticator_get_info : Result ReaderError (List ℕ)
authenticator_get_info = do
  u2f_v2 ← encode_text fido_version_u2f_v2
  fido_2_0 ← encode_text fido_version_2_0
  rk ← encode_text (0x72 ∷ 0x6b ∷ [])
  up ← encode_text (0x75 ∷ 0x70 ∷ [])
  plat ← encode_text (0x70 ∷ 0x6c ∷ 0x61 ∷ 0x74 ∷ [])
  client_pin ← encode_text (0x63 ∷ 0x6c ∷ 0x69 ∷ 0x65 ∷ 0x6e ∷ 0x74 ∷ 0x50 ∷ 0x69 ∷ 0x6e ∷ [])
  nfc ← encode_text fido_transport_nfc
  ok (
      (0xa6 ∷ [])
      ++ (0x01 ∷ 0x82 ∷ [])
      ++ u2f_v2
      ++ fido_2_0
      ++ (0x03 ∷ 0x50 ∷ [])
      ++ fido_dummy_aaguid
      ++ (0x04 ∷ 0xa4 ∷ [])
      ++ rk
      ++ (0xf4 ∷ [])
      ++ up
      ++ (0xf5 ∷ [])
      ++ plat
      ++ (0xf4 ∷ [])
      ++ client_pin
      ++ (0xf4 ∷ [])
      ++ (0x05 ∷ [])
      ++ (0x19 ∷ 0x04 ∷ 0x00 ∷ [])
      ++ (0x06 ∷ [])
      ++ (0x81 ∷ 0x01 ∷ [])
      ++ (0x09 ∷ 0x81 ∷ [])
      ++ nfc)

abbrev pub ctap_success : List ℕ → List ℕ
ctap_success payload = 0x00 ∷ payload

abbrev pub ctap_error : ℕ → List ℕ
ctap_error code = code ∷ []

unfoldable pub handle_ctap_msg : ℕ → List ℕ → Result ReaderError (List ℕ)
handle_ctap_msg p1 [] =
    if not (bit_and p1 0x7f == 0) then ok sw_wrong_parameters else ok sw_wrong_length
handle_ctap_msg p1 (command ∷ payload) =
    if not (bit_and p1 0x7f == 0) then ok sw_wrong_parameters else (do
      response ←
          (if command == 0x04 && is_empty payload
            then (authenticator_get_info >>= λ info. ok (ctap_success info))
            else ok (ctap_error ctap2_err_invalid_command))
      ok (append_status response sw_success))

-- `(0x00, 0xa4, 0x04, 0x00) | (0x00, 0xa4, 0x04, 0x0c)`
abbrev pub is_select : ShortApdu → Bool
is_select a = (a.cla == 0x00) && (a.ins == 0xa4) && (a.p1 == 0x04) && (a.p2 == 0x00 || a.p2 == 0x0c)

-- The arms of `match (cla, ins, p1, p2)`.
unfoldable pub execute : DummyReader → ShortApdu → DummyReader × Result ReaderError (List ℕ)
execute r a =
    if is_select a && bytes_eq a.data_field fido_aid
    then (record r { selected_applet = fido }, ok (append_status fido_version_u2f_v2 sw_success))
    else if (a.cla == 0x80)
        && (a.ins == fido_nfcctap_msg)
        && (a.p2 == 0x00)
        && is_fido r.selected_applet
    then (r, handle_ctap_msg a.p1 a.data_field)
    else if (a.cla == 0x80)
        && (a.ins == fido_nfcctap_get_response)
        && (a.p1 == 0x00)
        && (a.p2 == 0x00)
        && is_fido r.selected_applet
    then (r, ok sw_ins_not_supported)
    else if (a.cla == 0x80)
        && (a.ins == fido_nfcctap_control)
        && (a.p1 == fido_nfc_end_ctap_msg)
        && (a.p2 == 0x00)
        && is_fido r.selected_applet
    then (record r { selected_applet = no_applet }, ok sw_success)
    else if is_select a
    then (r, ok sw_file_not_found)
    else (r, ok sw_ins_not_supported)

unfoldable pub handle_apdu : DummyReader → List ℕ → DummyReader × Result ReaderError (List ℕ)
handle_apdu r apdu =
    if not r.card_present
    then (r, err (protocol (plain "no card present in dummy reader")))
    else elim (parse_short_apdu apdu) [ none ↦ (r, ok sw_wrong_length) | some a ↦ execute r a ]

unfoldable pub open_dummy : DummyReader
open_dummy = record { card_present = true; selected_applet = no_applet }

abbrev pub capabilities : DummyReader → ReaderCapabilities
capabilities r = record { name = "dummy"; supports_iso_dep = true; supports_apdu_exchange = true }

unfoldable pub poll_card : DummyReader → DummyReader × Returned ReaderError (Option CardPresence)
poll_card r =
    if r.card_present
    then (
      r,
      value (
          some (record {
            uid = 0x01 ∷ 0x02 ∷ 0x03 ∷ 0x04 ∷ [];
            protocol = iso_dep;
            historical_bytes = dummy_atr;
          })),
    )
    else (r, value none)

unfoldable pub power_off : DummyReader → DummyReader × Returned ReaderError (Unit {0})
power_off r = (record r { selected_applet = no_applet }, value tt)

handle_ctap_msg-Returns : (p1 : ℕ) (body : List ℕ) → Returns (handle_ctap_msg p1 body)
unfolding handle_ctap_msg authenticator_get_info
handle_ctap_msg-Returns p1 [] = ground arith
handle_ctap_msg-Returns p1 (c ∷ cs) = ground arith

execute-Returns : (r : DummyReader) (a : ShortApdu) → Returns (execute r a).1
unfolding execute
execute-Returns r a = ground (arith, handle_ctap_msg-Returns a.p1 a.data_field)

pub handle_apdu-Returns : (r : DummyReader) (apdu : List ℕ) → Returns (handle_apdu r apdu).1
unfolding handle_apdu
handle_apdu-Returns r apdu = elim (Option-cases (parse_short_apdu apdu)) [
  | inl e ↦ ground arith
  | inr (a, e) ↦ ground (arith, execute-Returns r a)
]

abbrev pub exchange_apdu : DummyReader → List ℕ → DummyReader × Returned ReaderError (List ℕ)
exchange_apdu r apdu =
    ((handle_apdu r apdu).0, settled (handle_apdu r apdu).1 (handle_apdu-Returns r apdu))

abbrev pub dummy_reader : NfcReader DummyReader
dummy_reader = record {
  capabilities = capabilities;
  poll_card = poll_card;
  power_off = power_off;
  exchange_apdu = exchange_apdu;
}
