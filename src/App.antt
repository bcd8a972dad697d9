-- ===== src/App.antt =====
-- src/app.rs and src/usbip/server.rs: from the configuration to the bridge that is served.
use vusbipd_ccid.Base.{[], ◌∷◌, is_empty, ◌≡◌, refl, false, List, ℕ, arith, none, inl, inr}
use mathlib.Core.Path.{subst}
use vusbipd_ccid.Bridge.Slot.{new_lem}
use vusbipd_ccid.Base.Result.{Result, ok, err, panic, stuck, ◌>>=◌}
use vusbipd_ccid.Nfc.{
  ReaderError, configuration, transport, protocol, target_lost, unsupported, io, NfcReader,
}
use vusbipd_ccid.Nfc.Dummy.{open_dummy}
use vusbipd_ccid.Nfc.Backends.{AnyReader, any_pn532, any_dummy, any_reader}
use vusbipd_ccid.Nfc.Pn532.Chip.{Pn532Device}
use vusbipd_ccid.Nfc.Pn532.Reader.{Pn532UartConfig, Pn532UartReader}
use vusbipd_ccid.Nfc.Pn532.Waiting.{IsDocumented}
use vusbipd_ccid.Nfc.Pn532.Coherence.{idle-IsCoherent}
use vusbipd_ccid.Nfc.Pn532.Factory.{SerialPort, open_pn532, Opened, open_pn532-Opened}
use vusbipd_ccid.Bridge.{CcidBridge}
use vusbipd_ccid.Transport.State.{Mutex, CcidTransport, idle, new}
use vusbipd_ccid.Device.{Usbip}
use vusbipd_ccid.Device.Build.{UsbDevice, build_virtual_ccid_device}
use vusbipd_ccid.Device.Urbs.{Reachable, start}
use vusbipd_ccid.Config.{
  Cli, AppConfig, ReaderConfig, uart_config, dummy_config, try_from, trim, backend-cases,
}

-- `UsbIpServer`, with the bridge that the device behind it gets.
pub record UsbIpServer (Addr S : Type 0) : Type 0 where
  pub listen_addr : Addr
  pub bridge : Mutex (CcidBridge S)

-- The device that `UsbIpServer::run` hands to the usbip crate.
unfoldable pub served_device : {Addr S : Type 0} → Usbip → ℕ → UsbIpServer Addr S → UsbDevice S
unfolding build_virtual_ccid_device
served_device usbip full server = build_virtual_ccid_device usbip full server.bridge

-- A reader that was opened, in its box: its target, card and field agree.
boxed_pn532 :
    {P : Type 0} (config : Pn532UartConfig) (x : Result ReaderError (Pn532UartReader P))
    → Opened config x
    → Result ReaderError (AnyReader P)
unfolding Opened
boxed_pn532 config (ok r) h =
    ok (any_pn532 (record { reader = r; is_coherent = idle-IsCoherent r h.2 }))
boxed_pn532 config (err e) h = err e
boxed_pn532 config panic h = panic
boxed_pn532 config stuck h = stuck

module _ {P : Type 0} (device : Pn532Device P) (documented : IsDocumented device)
    (serial : SerialPort P) where
  open_reader : ReaderConfig → Result ReaderError (AnyReader P)
  unfolding boxed_pn532
  open_reader (uart_config config) =
      boxed_pn532 config (open_pn532 device serial config) (open_pn532-Opened device serial config)
  open_reader dummy_config = ok (any_dummy open_dummy)

  -- `Application::run` up to the server, which waits for URBs.
  unfoldable pub run :
      {Addr : Type 0} → AppConfig Addr → Result ReaderError (UsbIpServer Addr (AnyReader P))
  unfolding open_reader
  run config = do
    reader ← open_reader config.reader
    ok (record {
      listen_addr = config.listen_addr;
      bridge = record {
        poisoned = false;
        inner = vusbipd_ccid.Bridge.new (any_reader device documented) reader;
      };
    })

-- A path that is not empty.
Named : ReaderConfig → Type 0
Named (uart_config config) = is_empty config.port ≡ false
Named dummy_config = Unit

-- A reader, or an error that is not one of the configuration.
Opens : {A : Type 0} → Result ReaderError A → Type 0
Opens (ok a) = Unit
Opens (err (configuration m)) = ⊥
Opens (err e) = Unit
Opens panic = ⊥
Opens stuck = ⊥

not_blank : (s : List ℕ) → is_empty (trim s) ≡ false → is_empty s ≡ false
unfolding trim
not_blank [] h = cc
not_blank (c ∷ cs) h = refl

try_from-Named :
    {Addr : Type 0} (cli : Cli Addr) (config : AppConfig Addr)
    → try_from cli ≡ ok config
    → Named config.reader
unfolding try_from Named
try_from-Named cli config e = elim (backend-cases cli.backend) [
  | inl uart ↦ ground (arith, uart, e, not_blank cli.serial_port)
  | inr simulated ↦ ground (arith, simulated, e)
]

try_from-listen_addr :
    {Addr : Type 0} (cli : Cli Addr) (config : AppConfig Addr)
    → try_from cli ≡ ok config
    → config.listen_addr ≡ cli.listen_addr
unfolding try_from
try_from-listen_addr cli config e = elim (backend-cases cli.backend) [
  | inl uart ↦ ground (arith, uart, e)
  | inr simulated ↦ ground (arith, simulated, e)
]

boxed_pn532-Opens :
    {P : Type 0} (config : Pn532UartConfig) (x : Result ReaderError (Pn532UartReader P))
    (h : Opened config x)
    → is_empty config.port ≡ false
    → Opens (boxed_pn532 config x h)
unfolding boxed_pn532 Opened Opens
boxed_pn532-Opens config (ok r) h named = tt
boxed_pn532-Opens config (err (configuration m)) h named = cc
boxed_pn532-Opens config (err (transport m)) h named = tt
boxed_pn532-Opens config (err (protocol m)) h named = tt
boxed_pn532-Opens config (err (io m)) h named = tt
boxed_pn532-Opens config (err (target_lost m)) h named = tt
boxed_pn532-Opens config (err (unsupported m)) h named = tt
boxed_pn532-Opens config panic h named = elim h [ ]
boxed_pn532-Opens config stuck h named = elim h [ ]

-- The transport has the bridge, and nothing is queued, buffered or pending in it.
pub record IsFresh {S : Type 0} (bridge : Mutex (CcidBridge S)) (t : CcidTransport S) : Type 0 where
  pub has_bridge : t.bridge ≡ bridge
  pub no_responses : t.pending_in_frames ≡ []
  pub no_notifications : t.pending_interrupt_frames ≡ []
  pub no_bytes : t.pending_out_buffer ≡ []
  pub no_length : t.next_frame_len ≡ none
  pub no_bulk_abort : t.bulk_abort ≡ none
  pub no_control_abort : t.control_abort ≡ none
  pub none_seen : t.slot_present ≡ false
  pub is_idle : t.state ≡ idle

-- What a start ends in: a bridge with no card and no power under a lock that is not poisoned, in a
-- fresh transport behind the device that URBs reach, or an error of the port or the chip.
unfoldable pub Started :
    {P Addr : Type 0} (nfc : NfcReader (AnyReader P)) (usbip : Usbip) (full : ℕ) (addr : Addr)
    → Result ReaderError (UsbIpServer Addr (AnyReader P))
    → Type 0
Started nfc usbip full addr (ok server) =
    (server.listen_addr ≡ addr)
    × (server.bridge.poisoned ≡ false)
    × (server.bridge.inner.slot_powered ≡ false)
    × (server.bridge.inner.current_card ≡ none)
    × IsFresh server.bridge (served_device usbip full server).interface.handler
    × Reachable usbip nfc (served_device usbip full server).interface.handler
Started nfc usbip full addr (err (configuration m)) = ⊥
Started nfc usbip full addr (err e) = Unit
Started nfc usbip full addr panic = ⊥
Started nfc usbip full addr stuck = ⊥

module _ {P : Type 0} (device : Pn532Device P) (documented : IsDocumented device)
    (serial : SerialPort P) where
  open_reader-Opens :
      (config : ReaderConfig) → Named config → Opens (open_reader device documented serial config)
  unfolding open_reader Named Opens
  open_reader-Opens (uart_config config) named =
      boxed_pn532-Opens config (open_pn532 device serial config)
        (open_pn532-Opened device serial config) named
  open_reader-Opens dummy_config named = tt

  -- What follows the opening in `run`.
  served :
      {Addr : Type 0} (usbip : Usbip) (full : ℕ) (addr : Addr)
      (x : Result ReaderError (AnyReader P))
      → Opens x
      → Started (any_reader device documented) usbip full addr (
          x >>= λ reader. ok (record {
            listen_addr = addr;
            bridge = record {
              poisoned = false;
              inner = vusbipd_ccid.Bridge.new (any_reader device documented) reader;
            };
          }))
  unfolding Opens Started served_device new
  served usbip full addr (ok reader) h =
      let (off, without_card) = new_lem (any_reader device documented) reader in
      (
        refl,
        refl,
        off,
        without_card,
        record {
          has_bridge = refl;
          no_responses = refl;
          no_notifications = refl;
          no_bytes = refl;
          no_length = refl;
          no_bulk_abort = refl;
          no_control_abort = refl;
          none_seen = refl;
          is_idle = refl;
        },
        start reader,
      )
  served usbip full addr (err (configuration m)) h = h
  served usbip full addr (err (transport m)) h = tt
  served usbip full addr (err (protocol m)) h = tt
  served usbip full addr (err (io m)) h = tt
  served usbip full addr (err (target_lost m)) h = tt
  served usbip full addr (err (unsupported m)) h = tt
  served usbip full addr panic h = h
  served usbip full addr stuck h = h

  -- If the port and the clock behave as documented: from a configuration that the command line was
  -- accepted for, the start returns, with no panic and no configuration error. When it succeeds it
  -- serves at the address of the command line, the bridge has no card, no power and a lock that is
  -- not poisoned, and the handler of the device that is served has that bridge and is idle, with no
  -- response, notification or byte queued, no abort pending and no card seen; it is a transport that
  -- histories of URBs lead to.
  pub try_from-run :
      {Addr : Type 0} (usbip : Usbip) (full : ℕ) (cli : Cli Addr) (config : AppConfig Addr)
      → try_from cli ≡ ok config
      → Started
          (any_reader device documented)
          usbip
          full
          cli.listen_addr
          (run device documented serial config)
  unfolding run
  try_from-run usbip full cli config e =
      subst
        (λ addr.
          Started (any_reader device documented) usbip full addr
            (run device documented serial config))
        (try_from-listen_addr cli config e)
        (served usbip full config.listen_addr (open_reader device documented serial config.reader)
          (open_reader-Opens config.reader (try_from-Named cli config e)))
