-- ===== src/UnitTests/Transport.antt =====
-- The unit tests of src/ccid/transport.rs, with the reader that they fake.
use vusbipd_ccid.Base.{
  ℕ, ◌/◌, ◌≡◌, refl, true, false, Option, some, none, List, [], ◌∷◌, take, drop, length, get_elem?,
  is_empty, bytes_eq,
}
use vusbipd_ccid.Base.Bytes.{u16_from_le_bytes}
use vusbipd_ccid.Base.Result.{ok, Returned, value}
use vusbipd_ccid.Nfc.{CardPresence, ReaderError, NfcReader, iso_dep}
use vusbipd_ccid.Protocol.{
  pc_to_rdr_icc_power_on, pc_to_rdr_get_slot_status, pc_to_rdr_abort, CcidCommand, decode,
  command_of, encode, encode_status, get_slot_status, icc_power_on,
}
use vusbipd_ccid.Bridge
use vusbipd_ccid.Transport.State.{
  CcidTransport, Done, new, receiving, ready_to_send, update_state, declared_len, enqueue_response,
  push_in_frame, update_slot_presence, back_is,
}
use vusbipd_ccid.Transport.{
  handle_bulk_out, handle_bulk_in, bulk_out_loop, try_take_complete_frame, process_frame,
  queue_aborted_response, handle_control_request, handle_interrupt_in,
}

record FakeReader : Type 0 where
  pub poll_results : List (Returned ReaderError (Option CardPresence))

-- `self.poll_results.pop_front().unwrap_or_else(|| Ok(None))`
abbrev pop_poll : FakeReader → FakeReader × Returned ReaderError (Option CardPresence)
pop_poll r = elim r.poll_results [
  | [] ↦ (r, value none)
  | result ∷ rest ↦ (record { poll_results = rest }, result)
]

abbrev fake_reader : NfcReader FakeReader
fake_reader = record {
  capabilities =
      λ r. record { name = "fake"; supports_iso_dep = true; supports_apdu_exchange = true };
  poll_card = pop_poll;
  power_off = λ r. (r, value tt);
  exchange_apdu = λ r apdu. (r, value (0x90 ∷ 0x00 ∷ []));
}

abbrev new_transport : List (Returned ReaderError (Option CardPresence)) → CcidTransport FakeReader
new_transport poll_results = new (record {
  poisoned = false;
  inner = Bridge.new fake_reader (record { poll_results = poll_results });
})

-- The calls of the tests on the transport.
send : CcidTransport FakeReader → List ℕ → Done FakeReader (Unit {0})
unfolding handle_bulk_out bulk_out_loop try_take_complete_frame update_state declared_len
    process_frame decode command_of Bridge.handle_command Bridge.refresh_card_presence
    enqueue_response queue_aborted_response push_in_frame update_slot_presence back_is bytes_eq
    encode encode_status
send t payload = handle_bulk_out fake_reader t payload

receive : CcidTransport FakeReader → ℕ → CcidTransport FakeReader × List ℕ
unfolding handle_bulk_in
receive t max_len = handle_bulk_in t max_len

control : CcidTransport FakeReader → ℕ → ℕ → ℕ → Done FakeReader (List ℕ)
unfolding handle_control_request
control t request_type request v = handle_control_request fake_reader t request_type request v

interrupt : CcidTransport FakeReader → CcidTransport FakeReader × List ℕ
unfolding handle_interrupt_in Bridge.refresh_card_presence update_slot_presence
interrupt t = handle_interrupt_in fake_reader t

abbrev with_card : CcidTransport FakeReader
with_card = new_transport (
    value (some (record { uid = 1 ∷ 2 ∷ 3 ∷ 4 ∷ []; protocol = iso_dep; historical_bytes = [] }))
    ∷ [])

-- A message with no payload.
abbrev message : ℕ → ℕ → List ℕ
message message_type seq = message_type ∷ 0 ∷ 0 ∷ 0 ∷ 0 ∷ 0 ∷ seq ∷ 0 ∷ 0 ∷ 0 ∷ []

-- `.expect(..)`
abbrev Succeeds : {A : Type 0} → Done FakeReader A → Type 0
Succeeds (t, ok a) = Unit
Succeeds other = ⊥

abbrev BulkOutQueuesAResponseFrame : Type 0
BulkOutQueuesAResponseFrame =
    let payload = message pc_to_rdr_get_slot_status 1 in
    let out = send with_card payload in
    ((c : CcidCommand) × (decode payload ≡ ok c))
    × Succeeds out
    × (is_empty (receive out.0 64).1 ≡ false)

bulk_out_queues_a_response_frame : BulkOutQueuesAResponseFrame
unfolding new Bridge.new send receive control interrupt
bulk_out_queues_a_response_frame = ((get_slot_status 0 1, refl), tt, refl)

abbrev FragmentedBulkOutIsBufferedUntilComplete : Type 0
FragmentedBulkOutIsBufferedUntilComplete =
    let payload = message pc_to_rdr_get_slot_status 1 in
    let first = send with_card (take 4 payload) in
    let read = receive first.0 64 in
    let second = send read.0 (drop 4 payload) in
    Succeeds first
    × (first.0.state ≡ receiving)
    × (is_empty read.1 ≡ true)
    × Succeeds second
    × (second.0.state ≡ ready_to_send)
    × (is_empty (receive second.0 64).1 ≡ false)

fragmented_bulk_out_is_buffered_until_complete : FragmentedBulkOutIsBufferedUntilComplete
unfolding new Bridge.new send receive control interrupt
fragmented_bulk_out_is_buffered_until_complete = (tt, refl, refl, tt, refl, refl)

abbrev SlotChangeInterruptIsGeneratedWhenCardAppears : Type 0
SlotChangeInterruptIsGeneratedWhenCardAppears =
    let payload = message pc_to_rdr_icc_power_on 1 in
    let out = send with_card payload in
    ((c : CcidCommand) × (decode payload ≡ ok c))
    × Succeeds out
    × ((interrupt out.0).1 ≡ 0x50 ∷ 0x03 ∷ [])

slot_change_interrupt_is_generated_when_card_appears : SlotChangeInterruptIsGeneratedWhenCardAppears
unfolding new Bridge.new send receive control interrupt
slot_change_interrupt_is_generated_when_card_appears = ((icc_power_on 0 1 0, refl), tt, refl)

abbrev InterruptInReturnsEmptyWhenQueueIsEmpty : Type 0
InterruptInReturnsEmptyWhenQueueIsEmpty =
    let first = interrupt (new_transport (value none ∷ [])) in
    let second = interrupt first.0 in (first.1 ≡ 0x50 ∷ 0x00 ∷ []) × (second.1 ≡ 0x50 ∷ 0x00 ∷ [])

interrupt_in_returns_empty_when_queue_is_empty : InterruptInReturnsEmptyWhenQueueIsEmpty
unfolding new Bridge.new send receive control interrupt
interrupt_in_returns_empty_when_queue_is_empty = (refl, refl)

-- The command status of a response that is read.
abbrev command_status : List ℕ → Option ℕ
command_status response = elim (get_elem? response 7) [ none ↦ none | some byte ↦ some (byte / 64) ]

abbrev ControlAbortRequiresMatchingBulkAbort : Type 0
ControlAbortRequiresMatchingBulkAbort =
    let start = new_transport (value none ∷ []) in
    let requested = control start 0x21 0x01 (u16_from_le_bytes 0 7) in
    let out = send requested.0 (message pc_to_rdr_get_slot_status 9) in
    let response = (receive out.0 64).1 in
    Succeeds requested
    × Succeeds out
    × (get_elem? response 0 ≡ some 0x81)
    × (get_elem? response 6 ≡ some 9)
    × (command_status response ≡ some 1)
    × (get_elem? response 8 ≡ some 0xff)

control_abort_requires_matching_bulk_abort : ControlAbortRequiresMatchingBulkAbort
unfolding new Bridge.new send receive control interrupt
control_abort_requires_matching_bulk_abort = (tt, tt, refl, refl, refl, refl)

abbrev MatchingBulkAbortCompletesAbortSequence : Type 0
MatchingBulkAbortCompletesAbortSequence =
    let start = new_transport (value none ∷ []) in
    let requested = control start 0x21 0x01 (u16_from_le_bytes 0 7) in
    let out = send requested.0 (message pc_to_rdr_abort 7) in
    let response = (receive out.0 64).1 in
    Succeeds requested
    × Succeeds out
    × (get_elem? response 0 ≡ some 0x81)
    × (get_elem? response 6 ≡ some 7)
    × (command_status response ≡ some 0)
    × (get_elem? response 8 ≡ some 0)

matching_bulk_abort_completes_abort_sequence : MatchingBulkAbortCompletesAbortSequence
unfolding new Bridge.new send receive control interrupt
matching_bulk_abort_completes_abort_sequence = (tt, tt, refl, refl, refl, refl)

abbrev DuplicateSlotStatusResponsesAreCoalesced : Type 0
DuplicateSlotStatusResponsesAreCoalesced =
    let payload = message pc_to_rdr_get_slot_status 1 in
    let first = send (new_transport (value none ∷ value none ∷ [])) payload in
    let second = send first.0 payload in
    Succeeds first × Succeeds second × (length second.0.pending_in_frames ≡ 1)

duplicate_slot_status_responses_are_coalesced : DuplicateSlotStatusResponsesAreCoalesced
unfolding new Bridge.new send receive control interrupt
duplicate_slot_status_responses_are_coalesced = (tt, tt, refl)
