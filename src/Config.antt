-- ===== src/Config.antt =====
-- src/config.rs: the command line and the configuration made of it.
use vusbipd_ccid.Base.{
  ℕ, ◌≡◌, refl, Bool, true, false, ◌&&◌, ◌||◌, List, [], ◌∷◌, is_empty, leb, ◌==◌, if◌then◌else◌,
  All, arith, ◌↔◌, ◌⊎◌, inl, inr,
}
use vusbipd_ccid.Base.Result.{Result, ok, err}
use vusbipd_ccid.Base.Text.{Message, plain}
use vusbipd_ccid.Nfc.Pn532.Reader.{Pn532UartConfig}

pub data ReaderBackend : Type 0 where
  pn532_uart dummy : ReaderBackend

-- What clap makes of the command line, over the type of socket addresses. A string is its characters.
pub record Cli (Addr : Type 0) : Type 0 where
  pub listen_addr : Addr
  pub backend : ReaderBackend
  pub serial_port : List ℕ
  pub serial_baud_rate : ℕ

pub data ReaderConfig : Type 0 where
  uart_config : Pn532UartConfig → ReaderConfig
  dummy_config : ReaderConfig

pub record AppConfig (Addr : Type 0) : Type 0 where
  pub listen_addr : Addr
  pub reader : ReaderConfig

-- `char::is_whitespace`: the characters with the property White_Space.
unfoldable pub is_whitespace : ℕ → Bool
is_whitespace c =
    (leb 0x09 c && leb c 0x0d)
    || (c == 0x20)
    || (c == 0x85)
    || (c == 0xa0)
    || (c == 0x1680)
    || (leb 0x2000 c && leb c 0x200a)
    || (c == 0x2028)
    || (c == 0x2029)
    || (c == 0x202f)
    || (c == 0x205f)
    || (c == 0x3000)

-- `str::trim`, from the front and from the back.
unfoldable pub trim_start : List ℕ → List ℕ
trim_start [] = []
trim_start (c ∷ cs) = let rest = trim_start cs in if is_whitespace c then rest else (c ∷ cs)

unfoldable pub trim_end : List ℕ → List ℕ
trim_end [] = []
trim_end (c ∷ cs) =
    let rest = trim_end cs in if is_empty rest && is_whitespace c then [] else (c ∷ rest)

unfoldable pub trim : List ℕ → List ℕ
unfolding trim_start trim_end
trim s = trim_end (trim_start s)

-- `AppConfig::try_from(cli)`
unfoldable pub try_from : {Addr : Type 0} → Cli Addr → Result Message (AppConfig Addr)
unfolding trim
try_from cli = elim cli.backend [
  | pn532_uart ↦
      if is_empty (trim cli.serial_port)
      then err (plain "--serial-port must be provided for the pn532-uart backend")
      else ok (record {
        listen_addr = cli.listen_addr;
        reader = uart_config (record { port = cli.serial_port; baud_rate = cli.serial_baud_rate });
      })
  | dummy ↦ ok (record { listen_addr = cli.listen_addr; reader = dummy_config })
]

abbrev pub is_err : {E A : Type 0} → Result E A → Bool
is_err (err e) = true
is_err x = false

-- A string of white space alone.
pub IsBlank : List ℕ → Type 0
IsBlank s = All (λ c. is_whitespace c ≡ true) s

trim_end-IsBlank_iff : (s : List ℕ) → (is_empty (trim_end s) ≡ true) ↔ IsBlank s
unfolding trim_end IsBlank
trim_end-IsBlank_iff [] = ground arith
trim_end-IsBlank_iff (c ∷ cs) = ground (arith, trim_end-IsBlank_iff cs)

trim_start-IsBlank_iff : (s : List ℕ) → IsBlank (trim_start s) ↔ IsBlank s
unfolding trim_start IsBlank
trim_start-IsBlank_iff [] = ground arith
trim_start-IsBlank_iff (c ∷ cs) = ground (arith, trim_start-IsBlank_iff cs)

pub trim-IsBlank_iff : (s : List ℕ) → (is_empty (trim s) ≡ true) ↔ IsBlank s
unfolding trim
trim-IsBlank_iff s =
    let ends = trim_end-IsBlank_iff (trim_start s) in
    let starts = trim_start-IsBlank_iff s in ground (arith, ends, starts)

pub backend-cases : (b : ReaderBackend) → (b ≡ pn532_uart) ⊎ (b ≡ dummy)
backend-cases pn532_uart = inl refl
backend-cases dummy = inr refl

-- The command line is refused exactly if the PN532 backend is chosen and the serial port is blank:
-- empty, or white space alone.
pub try_from-IsBlank_iff :
    {Addr : Type 0} (cli : Cli Addr)
    → (is_err (try_from cli) ≡ true) ↔ ((cli.backend ≡ pn532_uart) × IsBlank cli.serial_port)
unfolding try_from
try_from-IsBlank_iff cli = elim (backend-cases cli.backend) [
  | inl uart ↦ let blank = trim-IsBlank_iff cli.serial_port in ground (arith, uart, blank)
  | inr simulated ↦ ground (arith, simulated)
]
