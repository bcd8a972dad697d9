-- ===== src/Examples.antt =====
-- Concrete messages, bridges and transports, and the theorems applied to them.
mod Messages
mod Commands
mod Requests
mod Card
mod Handshake
mod Port
mod Chip
mod Session
mod Start
mod Link
mod Polls
mod Poisoned
mod Batch
mod Daemon
mod Listing
mod Device
use vusbipd_ccid.Base.{
  ◌≡◌, refl, ◌<◌, ℕ, Bool, true, false, some, none, List, [], ◌∷◌, arith, is_some,
}
use vusbipd_ccid.Base.Result.{value}
use vusbipd_ccid.Base.Text.{plain}
use vusbipd_ccid.Nfc.{CardPresence, iso_dep, NfcReader}
use vusbipd_ccid.Nfc.Dummy.{DummyReader, no_applet, dummy_atr, dummy_reader, capabilities}
use vusbipd_ccid.Bridge.{CcidBridge, default_t1_parameters}
use vusbipd_ccid.Bridge.Slot.{IsValid}
use vusbipd_ccid.Transport.State.{CcidTransport, idle, receiving}
use vusbipd_ccid.Transport.Invariant.{Core, Inv}

abbrev pub card : CardPresence
card = record {
  uid = 0x01 ∷ 0x02 ∷ 0x03 ∷ 0x04 ∷ [];
  protocol = iso_dep;
  historical_bytes = dummy_atr;
}

abbrev pub dummy : DummyReader
dummy = record { card_present = true; selected_applet = no_applet }

-- A bridge with the simulated card in it, powered or not.
abbrev pub bridge_with : Bool → CcidBridge DummyReader
bridge_with powered = record {
  reader = dummy;
  reader_capabilities = capabilities dummy;
  current_card = some card;
  slot_powered = powered;
  protocol_num = 1;
  params = default_t1_parameters;
}

pub bridge_with-IsValid : (powered : Bool) → IsValid (bridge_with powered)
bridge_with-IsValid powered = record { powered_card = λ _. refl; t1 = refl; seven = omega arith }

-- A reader with no card, which does not call itself the dummy.
abbrev pub empty_reader : NfcReader (Unit {0})
empty_reader = record {
  capabilities =
      λ s. record { name = "empty"; supports_iso_dep = true; supports_apdu_exchange = true };
  poll_card = λ s. (s, value none);
  power_off = λ s. (s, value tt);
  exchange_apdu = λ s apdu. (s, value []);
}

-- The header of a GetSlotStatus, and a SELECT of the FIDO applet that is cut short.
abbrev pub status_request : List ℕ
status_request = 0x65 ∷ 0 ∷ 0 ∷ 0 ∷ 0 ∷ 0 ∷ 7 ∷ 0 ∷ 0 ∷ 0 ∷ []

abbrev pub short_select : List ℕ
short_select = 0x00 ∷ 0xa4 ∷ 0x04 ∷ 0x00 ∷ 0x08 ∷ 0xa0 ∷ 0x00 ∷ []

-- A transport that waits for the rest of a GetSlotStatus and has a control abort pending.
abbrev pub waiting : CcidTransport DummyReader
waiting = record {
  bridge = record { poisoned = false; inner = bridge_with true };
  state = receiving;
  pending_in_frames = [];
  pending_interrupt_frames = [];
  pending_out_buffer = 0x65 ∷ 0 ∷ 0 ∷ [];
  next_frame_len = none;
  slot_present = false;
  bulk_abort = none;
  control_abort = some (0, 7);
}

pub waiting-Inv : Inv waiting
waiting-Inv = record {
  core = record {
    bounded = omega arith;
    cached = tt;
    for_zero = refl;
    valid = bridge_with-IsValid true;
  };
  state_fits = refl;
}
