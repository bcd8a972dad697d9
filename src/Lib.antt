-- ===== src/Lib.antt =====
-- A model of vusbipd-ccid, a USB/IP daemon that offers a virtual CCID smart-card reader and passes
-- the APDUs of the host to a card in an NFC reader.
--
-- The host writes CCID messages to the bulk OUT endpoint. The transport (src/ccid/transport.rs)
-- cuts the byte stream into messages, has the bridge (src/ccid/bridge.rs) handle each, and queues
-- the encoded response for the bulk IN endpoint and a slot notification for the interrupt endpoint;
-- an abort takes a control request and a bulk message, in either order. The bridge keeps the slot
-- (card, power, protocol parameters) and calls the reader behind the trait of src/nfc/mod.rs.
--
-- Files:
--   Base        Rust's Result with panic and the running out of fuel beside it (Base/Result), the
--               monad of code that changes a state and may fail (Base/Run), bytes, bits, lists, tests
--               and the printing of hexadecimals.
--   Protocol    src/ccid/protocol.rs: CcidCommand, CcidResponse, decode, encode. Protocol/Layout is
--               an independent description of the message format; Protocol/Encode has a reader of
--               responses, as a host has one.
--   Nfc         src/nfc/mod.rs: NfcReader is a record of functions on the state S of a reader. The
--               bridge and the transport take it as a parameter and assume nothing of it but that
--               its methods return. Nfc/Backends has the boxed reader of the two backends.
--   Nfc/Dummy   src/nfc/dummy.rs: the simulated card, and its instance of NfcReader.
--   Nfc/Pn532   src/nfc/pn532.rs: the parser of response frames, over a port that is a parameter with
--               the contract of read_exact, and the parser of answers to select. Pn532/Answer has
--               the frames as the chip sends them. Pn532/Chip has the requests and the waits, over
--               the record Pn532Device of the pn532 crate, the port and the clock; Target the answers
--               to polls; Reader the state of Pn532UartReader and its methods; Factory the opening
--               of the port; Instance makes it an NfcReader, on the states in which target, card and
--               field agree. The other files there are about one of these each.
--   Nfc/Pn532/ListTarget  examples/pn532_list_passive_target.rs, with what it prints as a value.
--   Bridge      src/ccid/bridge.rs: CcidBridge S, and handle_command, which gives the new bridge and
--               the response, or a panic. Each match arm that branches on a result of the reader is
--               a function of its own (power_on_polled, xfr_exchanged, ...). Bridge/Dump has
--               format_hex. Bridge/Selection is about a reader that knows which card it talks
--               to, and Bridge/Uart about the bridge with a PN532 reader.
--   Transport   src/ccid/transport.rs: CcidTransport S; Transport/State has the operations on the
--               queues, Transport the requests. A call gives the transport after it also when it
--               fails, since the code changes `self` before it returns the error.
--               Transport/Session joins the host's message formats to the transport and the bridge;
--               Transport/Pipeline and Batch do so for several messages. Transport/Access is about
--               what the requests do to the bridge, Transport/Poisoned about a poisoned lock.
--   Device      src/usbip/device.rs: the control requests of the device and the URBs of the interface.
--               The usbip crate's types, codes and endpoint tests are the record Usbip. Device/Build
--               has build_virtual_ccid_device, which describes the device to that crate. Device/Urbs,
--               Calls and Uart are about histories of URBs, Device/Limits about the class descriptor.
--   Config      src/config.rs: the check of the command line.
--   App         src/app.rs and src/usbip/server.rs: the opening of the reader and the bridge and
--               device that are served.
--   UnitTests   the repository's own unit tests, as statements of the model, and their runs; the
--               tests' fake readers are instances of NfcReader.
--   Examples    concrete runs of the theorems.
--
-- Conventions: a byte is a natural number, and a theorem that needs it to be below 256 says so. An
-- index or slice out of range is `panic`, and so is `request.command as u8 + 1` at 255. Messages
-- of errors keep their parts and are not rendered. Log lines are left out, except where evaluating
-- their arguments can panic. Paths and strings of the configuration are lists of character codes.
-- The mutex of the bridge is a flag: a panic inside the bridge poisons it. The loop of
-- handle_bulk_out runs on fuel, one more than the length of the buffer: each round takes at least
-- the ten bytes of a header. Instants and durations are in nanoseconds. The wait for the serial
-- port runs on two rounds more than a fifth of its timeout in milliseconds: each round sleeps for
-- at least five. `Instant + Duration` does not overflow. `usize` is taken to have 64 bits, so that
-- 10 plus a 32-bit length does not overflow.
--
-- Not modelled: the sockets and the server loop of the usbip crate, the parsing of arguments by
-- clap, the set-up of tracing, log lines, the Debug implementations and main, which are libraries'
-- code or calls of it.
pub mod Base
pub mod Protocol
pub mod Nfc
pub mod Bridge
pub mod Transport
pub mod Device
pub mod Config
pub mod App
pub mod UnitTests
pub mod Examples
