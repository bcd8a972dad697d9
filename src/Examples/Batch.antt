-- ===== src/Examples/Batch.antt =====
-- The theorem on a batch of messages, with the simulated card.
use vusbipd_ccid.Base.{◌≡◌, refl, true, false, some, List, [], ◌∷◌, map, arith}
use vusbipd_ccid.Base.Result.{ok}
use vusbipd_ccid.Protocol.{slot_status, ok_status, active, encode, get_slot_status, CcidResponse}
use vusbipd_ccid.Protocol.Layout.{RawFrame, status}
use vusbipd_ccid.Nfc.Dummy.{dummy_reader}
use vusbipd_ccid.Bridge.{handle_command, refresh_card_presence}
use vusbipd_ccid.Transport.{handle_bulk_out}
use vusbipd_ccid.Transport.Pipeline.{
  Handles, handled, handled_none, message_bytes, AllDelivered, bulk_out-AllDelivered,
}
use vusbipd_ccid.Transport.Drain.{IsReadable, read_responses}
use vusbipd_ccid.Transport.Batch.{read_responses-handle_bulk_out}
use vusbipd_ccid.Examples.{bridge_with}
use vusbipd_ccid.Examples.Handshake.{quiet, quiet-Inv}
use vusbipd_ccid.Examples.Session.{status_frame, status_answer, status_handled}

abbrev next_frame : RawFrame
next_frame = record status_frame { seq = 8 }

abbrev next_answer : CcidResponse
next_answer = slot_status 0 8 (ok_status active) 0 0

next_handled :
    handle_command dummy_reader (bridge_with true) (get_slot_status 0 8)
    ≡ (bridge_with true, ok next_answer)
unfolding handle_command refresh_card_presence
next_handled = refl

abbrev both : List RawFrame
both = status_frame ∷ next_frame ∷ []

abbrev answers : List CcidResponse
answers = status_answer ∷ next_answer ∷ []

both-Handles : Handles dummy_reader (bridge_with true) both answers (bridge_with true)
both-Handles =
    handled {r = status_frame} (omega arith) (omega arith) (status refl) status_handled
      (handled {r = next_frame} (omega arith) (omega arith) (status refl) next_handled handled_none)

answers-IsReadable : IsReadable 11 status_answer × IsReadable 11 next_answer
unfolding encode
answers-IsReadable = omega arith

bulk_out-AllDelivered_example :
    AllDelivered []
      (bridge_with true)
      answers
      (handle_bulk_out dummy_reader quiet (message_bytes both))
bulk_out-AllDelivered_example =
    bulk_out-AllDelivered dummy_reader quiet quiet-Inv refl refl refl both-Handles

read_responses-handle_bulk_out_example :
    let after = handle_bulk_out dummy_reader quiet (message_bytes both) in
    let read = read_responses 2 11 8 after.0 in
    (after.1 ≡ ok tt)
    × (after.0.bridge ≡ record { poisoned = false; inner = bridge_with true })
    × (read.1 ≡ map some answers)
    × (read.0.pending_in_frames ≡ [])
read_responses-handle_bulk_out_example =
    read_responses-handle_bulk_out dummy_reader quiet both answers (bridge_with true) 11 8 quiet-Inv
      refl refl refl refl both-Handles (omega arith, tt) (omega arith)
      (answers-IsReadable.0, (answers-IsReadable.1, tt)) (omega arith)
