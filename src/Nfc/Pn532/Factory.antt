-- ===== src/Nfc/Pn532/Factory.antt =====
-- src/nfc/pn532.rs: Pn532UartFactory, which opens the reader.
use vusbipd_ccid.Base.{
  ℕ, ◌≡◌, refl, true, false, none, List, ◌∷◌, is_empty, if◌then◌else◌, arith, ◌⊎◌, inl, inr,
  if_cases,
}
use vusbipd_ccid.Base.Result.{Result, ok, err, panic, stuck, Returned, value, fault}
use vusbipd_ccid.Base.Run.{Run, ◌>>=◌, give, or_else, call, call-cases, Returned-cases}
use vusbipd_ccid.Base.Text.{Message, text, chars, plain}
use vusbipd_ccid.Nfc.{ReaderError, configuration, transport, protocol, target_lost, unsupported, io}
use vusbipd_ccid.Nfc.Pn532.{
  Pn532Error, bad_ack, bad_response_frame, syntax, crc_error, buf_too_small, timeout_ack,
  timeout_response, interface_error, map_pn532_error,
}
use vusbipd_ccid.Nfc.Pn532.Chip.{BorrowedRequest, Pn532Device}
use vusbipd_ccid.Nfc.Pn532.Reader.{
  Pn532UartConfig, Pn532UartReader, pn532_apdu_timeout_ms, pn532_init_timeout_ms, rf_max_retries,
}

-- What is there before the chip: opening the serial port, by name, baud rate and timeout, and the
-- message that wakes the chip. A path has the characters of its name.
pub record SerialPort (P : Type 0) : Type 0 where
  pub open_port : List ℕ → ℕ → ℕ → Returned Message P
  pub send_wakeup_message : P → P × Returned Message (Unit {0})

module _ {P : Type 0} (device : Pn532Device P) (serial : SerialPort P) where
  -- `process` with its error named by the action.
  process_named : Message → BorrowedRequest → ℕ → Run P ReaderError (List ℕ)
  process_named action request response_len =
      or_else (map_pn532_error action)
        (call (λ p. device.process p request response_len pn532_init_timeout_ms))

  -- The calls on the chip in `open`, which give the firmware version.
  initialize : List ℕ → Run P ReaderError (List ℕ)
  unfolding process_named
  initialize port_name = do
    woken ←
        or_else
          (λ error.
            transport (text "failed to wake PN532 on " ∷ chars port_name ∷ (text ": " ∷ error)))
          (call serial.send_wakeup_message)
    configured ← process_named (plain "initialize SAM configuration") device.sam_configuration 0
    firmware ← process_named (plain "read firmware version") device.get_firmware_version 4
    retries ←
        process_named (plain "configure RF retries")
          (record { command = device.rf_configuration; data_bytes = rf_max_retries }) 0
    give firmware

  -- The reader around an initialized chip.
  opened :
      Pn532UartConfig → P × Result ReaderError (List ℕ) → Result ReaderError (Pn532UartReader P)
  opened config (p, ok firmware) = ok (record {
    config = config;
    pn532 = p;
    active_target = none;
    cached_card = none;
    last_poll = none;
    rf_field_enabled = false;
    firmware_version = firmware;
  })
  opened config (p, err e) = err e
  opened config (p, panic) = panic
  opened config (p, stuck) = stuck

  unfoldable pub open_pn532 : Pn532UartConfig → Result ReaderError (Pn532UartReader P)
  unfolding initialize opened
  open_pn532 config =
      if is_empty config.port
      then err (configuration (plain "PN532 UART port path must not be empty"))
      else elim (serial.open_port config.port config.baud_rate pn532_apdu_timeout_ms) [
        | value p ↦ opened config (initialize config.port p)
        | fault error ↦ err (
            transport
              (text "failed to open PN532 UART port " ∷ chars config.port ∷ (text ": " ∷ error)))
      ]

-- What opening ends in: a reader with no target, no card, no poll and the field off, which keeps
-- the configuration; a configuration error for an empty path alone; or an error of the port or the
-- chip.
unfoldable pub Opened :
    {P : Type 0} → Pn532UartConfig → Result ReaderError (Pn532UartReader P) → Type 0
Opened config (ok r) =
    (r.config ≡ config)
    × (is_empty config.port ≡ false)
    × (r.active_target ≡ none)
    × (r.cached_card ≡ none)
    × (r.last_poll ≡ none)
    × (r.rf_field_enabled ≡ false)
Opened config (err (configuration m)) = is_empty config.port ≡ true
Opened config (err (transport m)) = is_empty config.port ≡ false
Opened config (err (protocol m)) = is_empty config.port ≡ false
Opened config (err (io m)) = is_empty config.port ≡ false
Opened config (err (target_lost m)) = ⊥
Opened config (err (unsupported m)) = ⊥
Opened config panic = ⊥
Opened config stuck = ⊥

-- What initializing ends in.
Initialized : Result ReaderError (List ℕ) → Type 0
Initialized (ok firmware) = Unit
Initialized (err (transport m)) = Unit
Initialized (err (protocol m)) = Unit
Initialized (err (io m)) = Unit
Initialized x = ⊥

map_pn532_error-Initialized :
    (action : Message) (x : Pn532Error) → Initialized (err (map_pn532_error action x))
unfolding Initialized map_pn532_error
map_pn532_error-Initialized action bad_ack = tt
map_pn532_error-Initialized action bad_response_frame = tt
map_pn532_error-Initialized action syntax = tt
map_pn532_error-Initialized action crc_error = tt
map_pn532_error-Initialized action buf_too_small = tt
map_pn532_error-Initialized action timeout_ack = tt
map_pn532_error-Initialized action timeout_response = tt
map_pn532_error-Initialized action (interface_error inner) = tt

module _ {P : Type 0} (device : Pn532Device P) (serial : SerialPort P) where
  process_named-cases :
      (action : Message) (request : BorrowedRequest) (response_len : ℕ) (p : P)
      → ((p' : P) × (response : List ℕ) × (process_named device serial action request response_len p
            ≡ (p', ok response)))
        ⊎ ((p' : P) × (x : Pn532Error) × (process_named device serial action request response_len p
              ≡ (p', err (map_pn532_error action x))))
  unfolding process_named
  process_named-cases action request response_len p =
      elim (call-cases (device.process p request response_len pn532_init_timeout_ms)) [
        | inl (p', response, e) ↦ inl (p', response, ground (arith, e))
        | inr (p', x, e) ↦ inr (p', x, ground (arith, e))
      ]

  initialize-Initialized :
      (port_name : List ℕ) (p : P) → Initialized (initialize device serial port_name p).1
  unfolding initialize Initialized
  initialize-Initialized port_name p = elim (call-cases (serial.send_wakeup_message p)) [
    | inr (p₁, x, e₁) ↦ ground (arith, e₁)
    | inl (p₁, u, e₁) ↦
        elim (process_named-cases (plain "initialize SAM configuration") device.sam_configuration 0
          p₁) [
            | inr (p₂, x, e₂) ↦ ground (
              arith,
              e₁,
              e₂,
              map_pn532_error-Initialized (plain "initialize SAM configuration") x,
            )
            | inl (p₂, configured, e₂) ↦
                elim (process_named-cases (plain "read firmware version")
                  device.get_firmware_version 4 p₂) [
                    | inr (p₃, x, e₃) ↦ ground (
                      arith,
                      e₁,
                      e₂,
                      e₃,
                      map_pn532_error-Initialized (plain "read firmware version") x,
                    )
                    | inl (p₃, firmware, e₃) ↦
                        elim (process_named-cases (plain "configure RF retries")
                          (record {
                            command = device.rf_configuration;
                            data_bytes = rf_max_retries;
                          })
                          0 p₃) [
                            | inr (p₄, x, e₄) ↦ ground (
                              arith,
                              e₁,
                              e₂,
                              e₃,
                              e₄,
                              map_pn532_error-Initialized (plain "configure RF retries") x,
                            )
                            | inl (p₄, retries, e₄) ↦ ground (arith, e₁, e₂, e₃, e₄)
                          ]
                  ]
          ]
  ]

  opened-Opened :
      (config : Pn532UartConfig) (y : P × Result ReaderError (List ℕ))
      → is_empty config.port ≡ false
      → Initialized y.1
      → Opened config (opened device serial config y)
  unfolding opened Opened Initialized
  opened-Opened config (p, ok firmware) h i = (refl, h, refl, refl, refl, refl)
  opened-Opened config (p, err (transport m)) h i = h
  opened-Opened config (p, err (protocol m)) h i = h
  opened-Opened config (p, err (io m)) h i = h
  opened-Opened config (p, err (configuration m)) h i = elim i [ ]
  opened-Opened config (p, err (target_lost m)) h i = elim i [ ]
  opened-Opened config (p, err (unsupported m)) h i = elim i [ ]
  opened-Opened config (p, panic) h i = elim i [ ]
  opened-Opened config (p, stuck) h i = elim i [ ]

  -- Opening a PN532 reader returns, with no panic. A reader that is opened keeps its configuration
  -- and starts with no target, no card, no poll and the RF field off; a configuration error means
  -- an empty path, and every other result a path that is not empty.
  pub open_pn532-Opened :
      (config : Pn532UartConfig) → Opened config (open_pn532 device serial config)
  unfolding open_pn532 Opened
  open_pn532-Opened config =
      if_cases (Opened config) (is_empty config.port) (λ empty. empty)
        (λ named.
          elim (Returned-cases
            (serial.open_port config.port config.baud_rate pn532_apdu_timeout_ms)) [
              | inl (p, e) ↦ rw e (
                  opened-Opened config (initialize device serial config.port p) named
                    (initialize-Initialized config.port p))
              | inr (x, e) ↦ rw e named
            ])
