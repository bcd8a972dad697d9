-- ===== src/Examples/Requests.antt =====
-- The theorems on the transport, at a transport that has received part of a message.
use vusbipd_ccid.Base.{refl, [], ◌∷◌}
use vusbipd_ccid.Nfc.Dummy.{dummy_reader}
use vusbipd_ccid.Transport.{handle_bulk_out}
use vusbipd_ccid.Transport.Kept.{Sound}
use vusbipd_ccid.Transport.Requests.{handle_bulk_out-Sound}
use vusbipd_ccid.Transport.Progress.{Expected, handle_bulk_out-Expected}
use vusbipd_ccid.Examples.{waiting, waiting-Inv, status_request}

handle_bulk_out-Sound_example : Sound (handle_bulk_out dummy_reader waiting status_request)
handle_bulk_out-Sound_example =
    handle_bulk_out-Sound dummy_reader waiting status_request waiting-Inv refl

handle_bulk_out-Expected_example :
    Expected (handle_bulk_out dummy_reader waiting (0 ∷ 0xff ∷ 0xff ∷ [])).1
handle_bulk_out-Expected_example =
    handle_bulk_out-Expected dummy_reader waiting (0 ∷ 0xff ∷ 0xff ∷ []) waiting-Inv refl
