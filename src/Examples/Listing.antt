-- ===== src/Examples/Listing.antt =====
-- The theorems on the example program, at concrete responses and at the simulated chip.
use vusbipd_ccid.Base.{ℕ, ◌≡◌, ◌≢◌, ◌⊎◌, refl, some, List, [], ◌∷◌, arith}
use vusbipd_ccid.Base.Result.{Returned, value, ok, err}
use vusbipd_ccid.Base.Text.{Message, text, chars}
use vusbipd_ccid.Nfc.Pn532.{receive_dynamic_response_from, crc_error, ats_historical_bytes}
use vusbipd_ccid.Nfc.Pn532.Target.{target_found}
use vusbipd_ccid.Nfc.Pn532.ListTarget.{hex, print_ats, print_iso_type_a_target}
use vusbipd_ccid.Nfc.Pn532.ListTarget.Program.{Terminal}
use vusbipd_ccid.Nfc.Pn532.ListTarget.Receive.{example_receive}
use vusbipd_ccid.Nfc.Pn532.ListTarget.Reception.{example_receive-agrees}
use vusbipd_ccid.Nfc.Pn532.ListTarget.Agreement.{print_iso_type_a_target-agrees, print_ats-extra}
use vusbipd_ccid.Examples.Chip.{Chip, chip, idle_chip, sent_chip, type_a_card, found}

abbrev answering : Chip
answering = sent_chip (0x00 ∷ [])

abbrev read_header : Chip × Returned Message (List ℕ)
read_header = chip.port.read_exact answering 5

abbrev header : List ℕ
header = 0x00 ∷ 0x00 ∷ 0xff ∷ 0x05 ∷ 0xfb ∷ []

header_test : read_header ≡ (read_header.0, value header)
header_test = refl

example_receive-agrees_example :
    ((header ≡ 0x00 ∷ 0x00 ∷ 0xff ∷ 0xff ∷ 0xff ∷ [])
      × (example_receive chip 0x41 answering ≡ (read_header.0, err crc_error)))
    ⊎ ((header ≢ 0x00 ∷ 0x00 ∷ 0xff ∷ 0xff ∷ 0xff ∷ [])
        × (example_receive chip 0x41 answering
            ≡ receive_dynamic_response_from chip.port answering 0x41))
example_receive-agrees_example =
    example_receive-agrees chip 0x41 answering read_header.0 header header_test

found_test : target_found type_a_card ≡ ok (1, found)
unfolding target_found ats_historical_bytes
found_test = refl

print_iso_type_a_target-agrees_example : (print_iso_type_a_target type_a_card []).1 ≡ ok (some 1)
print_iso_type_a_target-agrees_example =
    print_iso_type_a_target-agrees type_a_card 1 found [] refl found_test

print_ats-extra_example :
    print_ats (0xaa ∷ 0x02 ∷ 0x70 ∷ []) 1 []
    ≡ ((text "ATS/extra: " ∷ chars (hex (0x02 ∷ 0x70 ∷ [])) ∷ []) ∷ [], ok tt)
print_ats-extra_example = print_ats-extra (0xaa ∷ []) (0x70 ∷ []) 0x02 [] (omega arith)

abbrev start : Terminal Chip
start = record { chip = idle_chip; printed = [] }
