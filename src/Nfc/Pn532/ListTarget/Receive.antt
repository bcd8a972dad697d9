-- ===== src/Nfc/Pn532/ListTarget/Receive.antt =====
-- examples/pn532_list_passive_target.rs: the example's own receive_dynamic_response.
use vusbipd_ccid.Base.{ℕ, ◌+◌, ◌-◌, not, ◌||◌, List, [], ◌∷◌, length, ◌==◌, if◌then◌else◌, bytes_eq}
use mathlib.Core.List.{foldl}
use vusbipd_ccid.Base.Bytes.{u8}
use vusbipd_ccid.Base.Result.{Result, err, panic, ◌>>=◌, ◌>>◌, fail_if, index, slice}
use vusbipd_ccid.Base.Run.{Run}
use vusbipd_ccid.Nfc.Pn532.{Pn532Error, bad_response_frame, syntax, crc_error, read_then}
use vusbipd_ccid.Nfc.Pn532.Chip.{Pn532Device}

abbrev pub example_preamble : List ℕ
example_preamble = 0x00 ∷ 0x00 ∷ 0xff ∷ []

abbrev pub example_pn532_to_host : ℕ
example_pn532_to_host = 0xd5

abbrev pub example_postamble : ℕ
example_postamble = 0x00

-- The tests on the frame, after the second read.
unfoldable pub example_frame : ℕ → List ℕ → Result Pn532Error (List ℕ)
example_frame expected_response_command frame = do
  last ← index frame (length frame - 1)
  fail_if (not (last == example_postamble)) bad_response_frame
  first ← index frame 0
  second ← index frame 1
  fail_if (not (first == example_pn532_to_host) || not (second == expected_response_command))
      bad_response_frame
  summed ← slice frame 0 (length frame - 1)
  let checksum = foldl (λ sum byte. u8 (sum + byte)) 0 summed
  fail_if (not (checksum == 0)) crc_error
  slice frame 2 (length frame - 2)

module _ {P : Type 0} (pn532 : Pn532Device P) where
  -- The tests on the length, and the frame that is read by it.
  unfoldable pub example_body : ℕ → P → ℕ → P × Result Pn532Error (List ℕ)
  unfolding read_then example_frame
  example_body expected_response_command p frame_len =
      if frame_len == 0
      then (p, err bad_response_frame)
      else if frame_len == 1
      then (p, err syntax)
      else read_then pn532.port p (frame_len + 2)
          (λ p' frame. (p', example_frame expected_response_command frame))

  -- The frame by its header; `read_exact` gives five bytes.
  unfoldable pub example_header : ℕ → P → List ℕ → P × Result Pn532Error (List ℕ)
  unfolding example_body
  example_header expected_response_command p (h0 ∷ h1 ∷ h2 ∷ h3 ∷ h4 ∷ []) =
      if not (bytes_eq (h0 ∷ h1 ∷ h2 ∷ []) example_preamble)
      then (p, err bad_response_frame)
      else if not (u8 (h3 + h4) == 0)
      then (p, err crc_error)
      else example_body expected_response_command p h3
  example_header expected_response_command p other = (p, panic)

  unfoldable pub example_receive : ℕ → Run P Pn532Error (List ℕ)
  unfolding example_header read_then
  example_receive expected_response_command p =
      read_then pn532.port p 5 (example_header expected_response_command)
