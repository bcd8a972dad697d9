-- ===== src/Examples/Polls.antt =====
-- The theorem on polls that follow on one another, at the simulated chip.
use vusbipd_ccid.Base.{◌≡◌, refl, some, bytes_eq, arith}
use vusbipd_ccid.Base.Result.{ok}
use vusbipd_ccid.Nfc.Pn532.{receive_dynamic_response_from, check_frame, ats_historical_bytes}
use vusbipd_ccid.Nfc.Pn532.Target.{target_found}
use vusbipd_ccid.Nfc.Pn532.Chip.{
  wait_serial_ready, process_dynamic_response, instant_now, wait_until, wait_round,
}
use vusbipd_ccid.Nfc.Pn532.Reader.{
  Pn532UartReader, poll_card, poll_target, poll_answered, set_rf_field,
}
use vusbipd_ccid.Nfc.Pn532.Backoff.{poll_card_again}
use vusbipd_ccid.Examples.Chip.{
  Chip, chip, documented, idle_reader, active_reader, idle_chip, found, idle-IsCoherent,
}

-- The reader after a poll that finds the card.
abbrev polled : Pn532UartReader Chip
polled = record active_reader { last_poll = some 0 }

finds_card : poll_card chip idle_reader ≡ (polled, ok (some found))
unfolding poll_card poll_target poll_answered set_rf_field process_dynamic_response
    wait_serial_ready wait_until wait_round instant_now receive_dynamic_response_from check_frame
    bytes_eq target_found ats_historical_bytes
finds_card = refl

poll_card_again_example :
    poll_card chip (record polled { pn532 = record idle_chip { time = 7 } })
    ≡ (record polled { pn532 = record idle_chip { time = 7 } }, ok (some found))
poll_card_again_example =
    poll_card_again chip documented idle_reader polled (some found) (record idle_chip { time = 7 })
      0 idle-IsCoherent finds_card refl (omega arith)
