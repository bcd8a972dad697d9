-- ===== src/Examples/Poisoned.antt =====
-- The theorems on a poisoned lock, with the simulated card.
use vusbipd_ccid.Base.{◌≡◌, refl, true, [], ◌∷◌, arith}
use vusbipd_ccid.Base.Result.{err}
use vusbipd_ccid.Protocol.Layout.{raw_bytes, status}
use vusbipd_ccid.Nfc.Dummy.{DummyReader, dummy_reader}
use vusbipd_ccid.Transport.State.{CcidTransport, lock_poisoned}
use vusbipd_ccid.Transport.{handle_bulk_out}
use vusbipd_ccid.Transport.Invariant.{Inv}
use vusbipd_ccid.Transport.Poisoned.{handle_bulk_out_poisoned}
use vusbipd_ccid.Device.Calls.{Urb, after_urbs, poisoned_for_good}
use vusbipd_ccid.Examples.{bridge_with}
use vusbipd_ccid.Examples.Handshake.{quiet, quiet-Inv}
use vusbipd_ccid.Examples.Session.{status_frame}
use vusbipd_ccid.Examples.Device.{usb, bulk_out, configuration_request}

abbrev poisoned_transport : CcidTransport DummyReader
poisoned_transport = record quiet { bridge = record { poisoned = true; inner = bridge_with true } }

poisoned_transport-Inv : Inv poisoned_transport
poisoned_transport-Inv = record {
  core = record {
    bounded = quiet-Inv.core.bounded;
    cached = quiet-Inv.core.cached;
    for_zero = quiet-Inv.core.for_zero;
    valid = quiet-Inv.core.valid;
  };
  state_fits = refl;
}

abbrev status_urb : Urb
status_urb = record {
  endpoint = bulk_out;
  buffer_length = 64;
  setup = configuration_request;
  request = raw_bytes status_frame;
}

poisoned_for_good_example :
    (after_urbs usb dummy_reader poisoned_transport (status_urb ∷ status_urb ∷ [])).bridge
    ≡ record { poisoned = true; inner = bridge_with true }
poisoned_for_good_example =
    poisoned_for_good usb dummy_reader poisoned_transport (status_urb ∷ status_urb ∷ []) refl

handle_bulk_out_poisoned_example :
    ((handle_bulk_out dummy_reader poisoned_transport (raw_bytes status_frame)).1
      ≡ err lock_poisoned)
    × ((handle_bulk_out dummy_reader poisoned_transport (raw_bytes status_frame)).0.bridge
        ≡ poisoned_transport.bridge)
handle_bulk_out_poisoned_example =
    handle_bulk_out_poisoned dummy_reader poisoned_transport status_frame poisoned_transport-Inv
      refl refl (omega arith) (omega arith) (status refl)
