-- ===== src/UnitTests/Protocol.antt =====
-- The unit tests of src/ccid/protocol.rs.
use vusbipd_ccid.Base.{ℕ, ◌≡◌, refl, some, List, [], ◌∷◌, take, drop, get_elem?}
use vusbipd_ccid.Base.Result.{ok}
use vusbipd_ccid.Protocol.{
  pc_to_rdr_xfr_block, pc_to_rdr_get_parameters, pc_to_rdr_set_parameters, rdr_to_pc_data_block,
  rdr_to_pc_parameters, xfr_block, get_parameters, set_parameters, data_block, parameters,
  SlotStatus, active, inactive, no_error, ok_status, decode, encode, command_of, header,
}

abbrev DecodeXfrBlockCommand : Type 0
DecodeXfrBlockCommand =
    let frame : List ℕ =
      pc_to_rdr_xfr_block ∷ 0x04 ∷ 0x00 ∷ 0x00 ∷ 0x00 ∷ 0x00 ∷ 0x22 ∷ 0x00 ∷ 0x34 ∷ 0x12 ∷ 0x00
      ∷ 0xa4 ∷ 0x04 ∷ 0x00 ∷ [] in
    decode frame ≡ ok (xfr_block 0 0x22 0 0x1234 (0x00 ∷ 0xa4 ∷ 0x04 ∷ 0x00 ∷ []))

decode_xfr_block_command : DecodeXfrBlockCommand
unfolding decode command_of
decode_xfr_block_command = refl

abbrev EncodeDataBlockResponse : Type 0
EncodeDataBlockResponse =
    let status : SlotStatus = record { icc = active; command = no_error } in
    let frame = encode (data_block 0 1 status 0 0 (0x90 ∷ 0x00 ∷ [])) in
    (get_elem? frame 0 ≡ some rdr_to_pc_data_block)
    × (take 4 (drop 1 frame) ≡ 0x02 ∷ 0x00 ∷ 0x00 ∷ 0x00 ∷ [])
    × (drop 10 frame ≡ 0x90 ∷ 0x00 ∷ [])

encode_data_block_response : EncodeDataBlockResponse
unfolding encode header
encode_data_block_response = (refl, refl, refl)

abbrev DecodeGetParametersCommand : Type 0
DecodeGetParametersCommand =
    let frame : List ℕ = pc_to_rdr_get_parameters ∷ 0 ∷ 0 ∷ 0 ∷ 0 ∷ 0 ∷ 9 ∷ 0 ∷ 0 ∷ 0 ∷ [] in
    decode frame ≡ ok (get_parameters 0 9)

decode_get_parameters_command : DecodeGetParametersCommand
unfolding decode command_of
decode_get_parameters_command = refl

abbrev t1_parameters : List ℕ
t1_parameters = 0x11 ∷ 0x10 ∷ 0x00 ∷ 0x15 ∷ 0x00 ∷ 0xfe ∷ 0x00 ∷ []

abbrev DecodeSetParametersCommand : Type 0
DecodeSetParametersCommand =
    let frame : List ℕ =
      pc_to_rdr_set_parameters ∷ 0x07 ∷ 0x00 ∷ 0x00 ∷ 0x00 ∷ 0x00 ∷ 0x44 ∷ 0x01 ∷ 0x00 ∷ 0x00
      ∷ t1_parameters in
    decode frame ≡ ok (set_parameters 0 0x44 0x01 t1_parameters)

decode_set_parameters_command : DecodeSetParametersCommand
unfolding decode command_of
decode_set_parameters_command = refl

abbrev EncodeParametersResponse : Type 0
EncodeParametersResponse =
    let frame = encode (parameters 0 1 (ok_status inactive) 0 1 t1_parameters) in
    (get_elem? frame 0 ≡ some rdr_to_pc_parameters)
    × (take 4 (drop 1 frame) ≡ 0x07 ∷ 0x00 ∷ 0x00 ∷ 0x00 ∷ [])
    × (get_elem? frame 9 ≡ some 0x01)
    × (drop 10 frame ≡ t1_parameters)

encode_parameters_response : EncodeParametersResponse
unfolding encode header
encode_parameters_response = (refl, refl, refl, refl)
