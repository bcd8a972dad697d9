-- ===== src/Examples/Chip.antt =====
-- The theorems on the PN532 reader, at a simulated chip that answers each request at once.
use vusbipd_ccid.Base.{
  bytes_eq, Bool, ℕ, ◌+◌, ◌≡◌, refl, ap, true, false, some, none, List, [], ◌∷◌, ◌++◌, length, ◌==◌,
  if◌then◌else◌, arith,
}
use vusbipd_ccid.Base.Result.{ok, err, Returned, value, Result}
use vusbipd_ccid.Base.Run.{Ends}
use vusbipd_ccid.Base.Text.{Message}
use vusbipd_ccid.Nfc.{CardPresence, iso_dep, target_lost, ReaderError}
use vusbipd_ccid.Nfc.Pn532.{receive_dynamic_response_from, Pn532Error, check_frame}
use vusbipd_ccid.Nfc.Pn532.Chip.{
  BorrowedRequest, Pn532Device, wait_serial_ready, process_dynamic_response, from_millis,
  instant_now, wait_until, wait_round,
}
use vusbipd_ccid.Nfc.Pn532.Reader.{
  Pn532UartReader, poll_card, exchange_apdu, set_rf_field, recently_polled,
}
use vusbipd_ccid.Nfc.Pn532.Waiting.{IsDocumented, Waited, wait_serial_ready-Waited}
use vusbipd_ccid.Nfc.Pn532.Coherence.{IsCoherent, Polled}
use vusbipd_ccid.Nfc.Pn532.Polling.{poll_card-Polled}
use vusbipd_ccid.Nfc.Pn532.Exchange.{Exchanged, exchange_apdu-Exchanged}
use vusbipd_ccid.Nfc.Pn532.Answer.{normal_frame}
use vusbipd_ccid.Nfc.Pn532.Delivery.{exchange_apdu-normal_frame, exchange_apdu-status}
use vusbipd_ccid.Nfc.Pn532.Layout.{target_response, answer_to_select, poll_card-target_response}
use vusbipd_ccid.Nfc.Pn532.Factory.{SerialPort}
use vusbipd_ccid.Examples.Port.{take_exact, take_exact_length, take_exact_front}

-- What the port delivers, and the time.
pub record Chip : Type 0 where
  pub delivered : List ℕ
  pub time : ℕ

abbrev pub idle_chip : Chip
idle_chip = record { delivered = []; time = 0 }

abbrev pub type_a_card : List ℕ
type_a_card =
    target_response 1 1 0x04 0x00 0x20 (0x08 ∷ 0x01 ∷ 0x02 ∷ 0x03 ∷ [])
      (answer_to_select 0x78 (0x80 ∷ 0x70 ∷ 0x02 ∷ []) (0x80 ∷ 0x73 ∷ []))

-- A poll finds a card, an exchange of an APDU that begins with 0xff fails, and any other succeeds.
abbrev exchange_answer : List ℕ → List ℕ
exchange_answer (target ∷ first ∷ rest) =
    if first == 0xff then (0x01 ∷ []) else (0x00 ∷ 0x90 ∷ 0x00 ∷ [])
exchange_answer request = 0x01 ∷ []

abbrev answer_of : BorrowedRequest → List ℕ
answer_of request =
    if request.command == 0x40
    then normal_frame 0x41 (exchange_answer request.data_bytes)
    else normal_frame 0x4b type_a_card

abbrev read_chip : Chip → ℕ → Chip × Returned Message (List ℕ)
read_chip c n =
    (record c { delivered = (take_exact c.delivered n).0 }, (take_exact c.delivered n).1)

abbrev pub chip : Pn532Device Chip
chip = record {
  process = λ c request n timeout_ms. (c, value []);
  send = λ c request. (record c { delivered = answer_of request }, value tt);
  receive_ack = λ c. (c, value tt);
  bytes_to_read = λ c. (c, value (length c.delivered));
  port = record { read_exact = read_chip };
  now = λ c. (c, c.time);
  sleep = λ c n. record c { time = c.time + n };
  rf_configuration = 0x32;
  in_data_exchange = 0x40;
  sam_configuration = record { command = 0x14; data_bytes = 0x01 ∷ [] };
  get_firmware_version = record { command = 0x02; data_bytes = [] };
  inlist_one_iso_a_target = record { command = 0x4a; data_bytes = 0x01 ∷ 0x00 ∷ [] };
}

pub read_chip_length :
    (c c' : Chip) (n : ℕ) (bytes : List ℕ) → read_chip c n ≡ (c', value bytes) → length bytes ≡ n
read_chip_length c c' n bytes e =
    take_exact_length c.delivered c'.delivered n bytes
      (ap (λ (x : Chip × Returned Message (List ℕ)). (x.0.delivered, x.1)) e)

abbrev pub documented : IsDocumented chip
documented = record {
  clock = λ c. c.time;
  clock-now = λ c. (omega arith, omega arith);
  clock-sleep = λ c n. omega arith;
  clock-bytes_to_read = λ c. omega arith;
  length-read_exact = read_chip_length;
  in_data_exchange_below = omega arith;
  inlist_below = omega arith;
}

abbrev pub idle_reader : Pn532UartReader Chip
idle_reader = record {
  config = record { port = 0x43 ∷ 0x31 ∷ []; baud_rate = 115200 };
  pn532 = idle_chip;
  active_target = none;
  cached_card = none;
  last_poll = none;
  rf_field_enabled = false;
  firmware_version = [];
}

abbrev pub found : CardPresence
found = record {
  uid = 0x08 ∷ 0x01 ∷ 0x02 ∷ 0x03 ∷ [];
  protocol = iso_dep;
  historical_bytes = 0x80 ∷ 0x73 ∷ [];
}

abbrev pub active_reader : Pn532UartReader Chip
active_reader = record idle_reader {
  active_target = some 1;
  cached_card = some found;
  rf_field_enabled = true;
}

pub idle-IsCoherent : IsCoherent idle_reader
unfolding IsCoherent
idle-IsCoherent = refl

pub active-IsCoherent : IsCoherent active_reader
unfolding IsCoherent
active-IsCoherent = refl

wait_serial_ready-Waited_example :
    Ends (λ c x. Waited (0 + from_millis 1000) c.time x) (wait_serial_ready chip 1000 idle_chip)
wait_serial_ready-Waited_example = wait_serial_ready-Waited chip documented 1000 idle_chip

poll_card-Polled_example : Ends Polled (poll_card chip idle_reader)
poll_card-Polled_example = poll_card-Polled chip documented idle_reader idle-IsCoherent

exchange_apdu-Exchanged_example :
    Ends Exchanged (exchange_apdu chip (0x00 ∷ 0xa4 ∷ []) active_reader)
exchange_apdu-Exchanged_example =
    exchange_apdu-Exchanged chip documented active_reader (0x00 ∷ 0xa4 ∷ []) active-IsCoherent

abbrev select : List ℕ
select = 0x00 ∷ 0xa4 ∷ 0x04 ∷ 0x00 ∷ []

abbrev bad_apdu : List ℕ
bad_apdu = 0xff ∷ 0x00 ∷ []

-- The chip once a request is sent.
abbrev pub sent_chip : List ℕ → Chip
sent_chip apdu = record idle_chip { delivered = normal_frame 0x41 (exchange_answer (1 ∷ apdu)) }

select_sent :
    Path
      (Chip × Result Message Bool)
      (wait_serial_ready chip 5000 (sent_chip select))
      (sent_chip select, ok true)
unfolding wait_serial_ready wait_until wait_round instant_now
select_sent = refl

bad_apdu_sent :
    Path
      (Chip × Result Message Bool)
      (wait_serial_ready chip 5000 (sent_chip bad_apdu))
      (sent_chip bad_apdu, ok true)
unfolding wait_serial_ready wait_until wait_round instant_now
bad_apdu_sent = refl

front :
    (c : Chip) (bytes rest : List ℕ)
    → c.delivered ≡ bytes ++ rest
    → (c' : Chip) × (read_chip c (length bytes) ≡ (c', value bytes)) × (c'.delivered ≡ rest)
front c bytes rest e =
    let (left, given, same) = take_exact_front c.delivered bytes rest e in
    (
      record c { delivered = left },
      ap (λ (x : List ℕ × Returned Message (List ℕ)). (record c { delivered = x.0 }, x.1)) given,
      same,
    )

exchange_apdu-normal_frame_example :
    (c : Chip) × (exchange_apdu chip select active_reader
      ≡ (record active_reader { pn532 = c }, ok (0x90 ∷ 0x00 ∷ [])))
    × (c.delivered ≡ [])
exchange_apdu-normal_frame_example =
    exchange_apdu-normal_frame chip (λ c. c.delivered) front active_reader 1 select
      (0x90 ∷ 0x00 ∷ []) [] (sent_chip select) (sent_chip select) (sent_chip select)
      (sent_chip select) (omega arith) refl (omega arith) (omega arith) refl select_sent refl
      select_sent refl

exchange_apdu-status_example :
    (r' : Pn532UartReader Chip) × (m : Message) × (exchange_apdu chip bad_apdu active_reader
      ≡ (r', err (target_lost m)))
    × (r'.active_target ≡ none)
    × (r'.cached_card ≡ none)
    × ((now : ℕ) → recently_polled r' now ≡ false)
exchange_apdu-status_example =
    exchange_apdu-status chip (λ c. c.delivered) front active_reader 1 bad_apdu [] []
      (sent_chip bad_apdu) (sent_chip bad_apdu) (sent_chip bad_apdu) (sent_chip bad_apdu)
      (omega arith) refl (omega arith) (omega arith) refl bad_apdu_sent refl bad_apdu_sent 0x01
      (omega arith) refl

-- The chip once a poll is answered.
abbrev lit_reader : Pn532UartReader Chip
lit_reader = record idle_reader { rf_field_enabled = true }

field_on :
    Path
      (Pn532UartReader Chip × Result ReaderError (Unit {0}))
      (set_rf_field chip true idle_reader)
      (lit_reader, ok tt)
unfolding set_rf_field
field_on = refl

poll_answer :
    Path
      (Chip × Result Pn532Error (List ℕ))
      (process_dynamic_response chip chip.inlist_one_iso_a_target 500 idle_chip)
      (idle_chip, ok type_a_card)
unfolding process_dynamic_response wait_serial_ready wait_until wait_round instant_now
    receive_dynamic_response_from check_frame bytes_eq
poll_answer = refl

poll_card-target_response_example : poll_card chip idle_reader ≡ (
  record lit_reader { last_poll = some 0; active_target = some 1; cached_card = some found },
  ok (some found),
)
poll_card-target_response_example =
    poll_card-target_response chip idle_reader lit_reader 1 1 0x04 0x00 0x20 0x78
      (0x08 ∷ 0x01 ∷ 0x02 ∷ 0x03 ∷ []) (0x80 ∷ 0x70 ∷ 0x02 ∷ []) (0x80 ∷ 0x73 ∷ []) idle_chip
      (omega arith) (omega arith) (omega arith) refl field_on poll_answer

abbrev pub serial : SerialPort Chip
serial = record {
  open_port = λ name baud_rate timeout_ms. value idle_chip;
  send_wakeup_message = λ c. (c, value tt);
}
