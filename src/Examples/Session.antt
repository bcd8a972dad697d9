-- ===== src/Examples/Session.antt =====
-- The theorems on a command and its response, with the simulated card.
use vusbipd_ccid.Base.{ℕ, ◌≡◌, refl, true, ◌<◌, bytes_eq, some, List, [], ◌∷◌, ◌++◌, length, arith}
use vusbipd_ccid.Base.Result.{ok, value}
use vusbipd_ccid.Nfc.Dummy.{
  handle_apdu, execute, parse_short_apdu, DummyReader, dummy_reader, fido_aid, fido,
}
use vusbipd_ccid.Protocol.{
  data_block, slot_status, ok_status, encode, active, get_slot_status, CcidResponse,
}
use vusbipd_ccid.Protocol.Layout.{RawFrame, raw_bytes}
use vusbipd_ccid.Protocol.Encode.{read_response}
use vusbipd_ccid.Bridge.{handle_command, refresh_card_presence, normalize_apdu_for_exchange}
use vusbipd_ccid.Transport.{handle_bulk_out}
use vusbipd_ccid.Transport.Reading.{read_transfer}
use vusbipd_ccid.Transport.Session.{read_transfer-exchange_apdu}
use vusbipd_ccid.Examples.{bridge_with, dummy}
use vusbipd_ccid.Examples.Handshake.{quiet, quiet-Inv}

abbrev pub status_frame : RawFrame
status_frame = record {
  message_type = 0x65;
  slot = 0;
  seq = 7;
  p0 = 0;
  p1 = 0;
  p2 = 0;
  payload = [];
}

abbrev pub status_answer : CcidResponse
status_answer = slot_status 0 7 (ok_status active) 0 0

pub status_handled :
    handle_command dummy_reader (bridge_with true) (get_slot_status 0 7)
    ≡ (bridge_with true, ok status_answer)
unfolding handle_command refresh_card_presence
status_handled = refl

encoded : length (encode status_answer) < 11
unfolding encode
encoded = omega arith

abbrev select_frame : RawFrame
select_frame = record status_frame {
  message_type = 0x6f;
  payload = (0x00 ∷ 0xa4 ∷ 0x04 ∷ 0x00 ∷ 0x08 ∷ fido_aid) ++ (0x00 ∷ []);
}

abbrev u2f_v2 : List ℕ
u2f_v2 = 0x55 ∷ 0x32 ∷ 0x46 ∷ 0x5f ∷ 0x56 ∷ 0x32 ∷ 0x90 ∷ 0x00 ∷ []

abbrev selected : DummyReader
selected = record dummy { selected_applet = fido }

select_exchanged :
    dummy_reader.exchange_apdu dummy (normalize_apdu_for_exchange select_frame.payload)
    ≡ (selected, value u2f_v2)
unfolding normalize_apdu_for_exchange handle_apdu execute parse_short_apdu bytes_eq
select_exchanged = refl

read_transfer-exchange_apdu_example :
    let after = handle_bulk_out dummy_reader quiet (raw_bytes select_frame) in
    let read = read_transfer 19 8 after.0 in
    (after.1 ≡ ok tt)
    × (after.0.bridge.inner.reader ≡ selected)
    × (read_response read.1 ≡ some (data_block 0 7 (ok_status active) 0 0 u2f_v2))
    × (read.0.pending_in_frames ≡ [])
read_transfer-exchange_apdu_example =
    read_transfer-exchange_apdu dummy_reader quiet select_frame selected u2f_v2 19 8 quiet-Inv refl
      refl refl refl (omega arith) refl (omega arith, omega arith) refl (λ h. omega (arith, h))
      select_exchanged (omega arith) (omega arith) (omega arith) (omega arith)
