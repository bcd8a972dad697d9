-- ===== src/Examples/Start.antt =====
-- The theorems on the start of the program, at concrete command lines.
use vusbipd_ccid.Base.{ℕ, ◌≡◌, refl, List, [], ◌∷◌, ◌==◌}
use vusbipd_ccid.Base.Result.{ok}
use vusbipd_ccid.Config.{Cli, AppConfig, pn532_uart, uart_config, try_from, trim, is_whitespace}
use vusbipd_ccid.Nfc.Backends.{any_reader}
use vusbipd_ccid.Device.{Usbip, outward}
use vusbipd_ccid.App.{run, Started, try_from-run}
use vusbipd_ccid.Examples.Chip.{chip, documented, serial}

-- The address is that of the default, 127.0.0.1:13240, by its port.
abbrev at_port : List ℕ → Cli ℕ
at_port name = record {
  listen_addr = 13240;
  backend = pn532_uart;
  serial_port = name;
  serial_baud_rate = 115200;
}

abbrev com_port : List ℕ
com_port = 0x43 ∷ 0x4f ∷ 0x4d ∷ 0x36 ∷ []

abbrev accepted : AppConfig ℕ
accepted = record {
  listen_addr = 13240;
  reader = uart_config (record { port = com_port; baud_rate = 115200 });
}

accepted_test : try_from (at_port com_port) ≡ ok accepted
unfolding try_from trim is_whitespace
accepted_test = refl

abbrev codes : Usbip
codes = record {
  get_status = 0;
  get_configuration = 8;
  set_feature = 3;
  clear_feature = 1;
  bulk = 2;
  interrupt = 3;
  is_ep0 = λ ep. ep.address == 0;
  direction = λ ep. outward;
}

try_from-run_example :
    Started (any_reader chip documented) codes 2 13240 (run chip documented serial accepted)
try_from-run_example =
    try_from-run chip documented serial codes 2 (at_port com_port) accepted accepted_test
