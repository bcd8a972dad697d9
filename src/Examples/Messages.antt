-- ===== src/Examples/Messages.antt =====
-- The theorems on the message formats, at concrete messages.
use vusbipd_ccid.Base.{◌≡◌, refl, ◌<◌, ◌^◌, some, [], ◌∷◌, length, arith}
use vusbipd_ccid.Base.Result.{ok}
use vusbipd_ccid.Protocol.{
  get_slot_status, xfr_block, decode, command_of, CcidResponse, data_block, ok_status, active,
  encode,
}
use vusbipd_ccid.Protocol.Layout.{RawFrame, raw_bytes, Means, xfr}
use vusbipd_ccid.Protocol.Decode.{decode-raw_bytes, decode_ok}
use vusbipd_ccid.Protocol.Encode.{read_response, IsResponse, read_response-encode}
use vusbipd_ccid.Examples.{status_request}

abbrev block : RawFrame
block = record {
  message_type = 0x6f;
  slot = 0;
  seq = 3;
  p0 = 1;
  p1 = 2;
  p2 = 1;
  payload = 0x00 ∷ 0xa4 ∷ [];
}

abbrev answer : CcidResponse
answer = data_block 0 3 (ok_status active) 0 0 (0x90 ∷ 0x00 ∷ [])

answer-IsResponse : IsResponse answer
answer-IsResponse = ground arith

decode_test : decode status_request ≡ ok (get_slot_status 0 7)
unfolding decode command_of
decode_test = refl

decode-raw_bytes_example : decode (raw_bytes block) ≡ ok (xfr_block 0 3 1 258 (0x00 ∷ 0xa4 ∷ []))
decode-raw_bytes_example = decode-raw_bytes block (omega arith) (xfr refl)

decode_ok_example :
    (r : RawFrame) × (status_request ≡ raw_bytes r)
    × (length r.payload < 2 ^ 32)
    × Means r (get_slot_status 0 7)
decode_ok_example = decode_ok status_request (ground arith) decode_test

read_response-encode_example : read_response (encode answer) ≡ some answer
read_response-encode_example = read_response-encode answer answer-IsResponse
