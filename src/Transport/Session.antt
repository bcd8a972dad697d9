-- ===== src/Transport/Session.antt =====
-- A command of the host from its bytes on the bulk OUT endpoint to its response on bulk IN.
use vusbipd_ccid.Base.{
  ◌^◌, ℕ, ◌+◌, ◌≤◌, ◌<◌, ◌≡◌, ◌≢◌, ◌∙◌, ap, false, none, some, List, [], ◌∷◌, length, arith,
}
use vusbipd_ccid.Base.Result.{ok, Returned, value}
use vusbipd_ccid.Nfc.{NfcReader, ReaderError}
use vusbipd_ccid.Protocol.{
  data_block, ok_status, active, xfr_block, CcidCommand, CcidResponse, encode,
}
use vusbipd_ccid.Protocol.Layout.{RawFrame, raw_bytes, Means, xfr}
use vusbipd_ccid.Protocol.Encode.{read_response, IsResponse, read_response-encode, encode_shape}
use vusbipd_ccid.Bridge.{
  Handled, CcidBridge, handle_command, current_icc_status, normalize_apdu_for_exchange,
}
use vusbipd_ccid.Bridge.Select.{IsTruncatedSelect}
use vusbipd_ccid.Bridge.Exchange.{xfr_block-active, exchange_reply}
use vusbipd_ccid.Base.Bytes.{IsBytes, u16_from_le_bytes}
use vusbipd_ccid.Transport.State.{Mutex, CcidTransport}
use vusbipd_ccid.Transport.{handle_bulk_out}
use vusbipd_ccid.Transport.Invariant.{Inv}
use vusbipd_ccid.Transport.Reading.{read_transfer, read_transfer-handle_bulk_in}
use vusbipd_ccid.Transport.Delivered.{Delivered, queued, bulk_out-Delivered}

module _ {S : Type 0} (nfc : NfcReader S) where
  -- From a valid transport with a usable lock, nothing pending and no control abort: where a message
  -- of the host with at most 3072 bytes of payload, other than an abort, is a command that the
  -- bridge answers, handling its bytes succeeds, the bridge is as the command left it, and a host
  -- that reads packets of any one size until one is shorter, one more than the response has bytes
  -- at most, reads exactly this response, after which nothing is queued.
  pub read_transfer-handle_bulk_out :
      (t : CcidTransport S) (r : RawFrame) {c : CcidCommand} (b : CcidBridge S)
      (response : CcidResponse) (packets size : ℕ)
      → Inv t
      → t.pending_out_buffer ≡ []
      → t.pending_in_frames ≡ []
      → t.bridge.poisoned ≡ false
      → t.control_abort ≡ none
      → length r.payload ≤ 3072
      → r.message_type ≢ 0x72
      → Means r c
      → handle_command nfc t.bridge.inner c ≡ (b, ok response)
      → IsResponse response
      → 0 < size
      → length (encode response) < packets
      → let after = handle_bulk_out nfc t (raw_bytes r) in
        let read = read_transfer packets size after.0 in
        (after.1 ≡ ok tt)
        × (after.0.bridge ≡ record { poisoned = false; inner = b })
        × (read_response read.1 ≡ some response)
        × (read.0.pending_in_frames ≡ [])
  unfolding Delivered queued
  read_transfer-handle_bulk_out t r b response packets size i out queue p free fits no_abort m e
        shaped pos enough =
      let after : CcidTransport S = (handle_bulk_out nfc t (raw_bytes r)).0 in
      let (done, front, left, control, bridge) =
        bulk_out-Delivered nfc t r b response i out p free fits no_abort m e in
      let only : after.pending_in_frames ≡ encode response ∷ [] =
        front ∙ ap (λ (q : List (List ℕ)). queued q (encode response)) queue in
      let (bytes, rest) =
        read_transfer-handle_bulk_in packets size after (encode response) [] pos enough only in
      (done, bridge, ap read_response bytes ∙ read_response-encode response shaped, rest)

  -- From a valid transport with a usable lock, nothing pending, no control abort and a powered card:
  -- where the host sends an XfrBlock of at most 3072 bytes, no truncated SELECT, and the reader
  -- answers the normalised APDU with bytes, a host that reads packets of any one size until one is
  -- shorter gets a data block with the slot, the sequence number, an active card and exactly these
  -- bytes.
  pub read_transfer-exchange_apdu :
      (t : CcidTransport S) (r : RawFrame) (s : S) (apdu_response : List ℕ) (packets size : ℕ)
      → Inv t
      → t.pending_out_buffer ≡ []
      → t.pending_in_frames ≡ []
      → t.bridge.poisoned ≡ false
      → t.control_abort ≡ none
      → length r.payload ≤ 3072
      → r.message_type ≡ 0x6f
      → (r.slot < 256) × (r.seq < 256)
      → current_icc_status t.bridge.inner ≡ active
      → ¬ IsTruncatedSelect r.payload
      → nfc.exchange_apdu t.bridge.inner.reader (normalize_apdu_for_exchange r.payload)
        ≡ (s, value apdu_response)
      → IsBytes apdu_response
      → length apdu_response + 10 < packets
      → packets < 2 ^ 32
      → 0 < size
      → let after = handle_bulk_out nfc t (raw_bytes r) in
        let read = read_transfer packets size after.0 in
        (after.1 ≡ ok tt)
        × (after.0.bridge.inner.reader ≡ s)
        × (read_response read.1
            ≡ some (data_block r.slot r.seq (ok_status active) 0 0 apdu_response))
        × (read.0.pending_in_frames ≡ [])
  read_transfer-exchange_apdu t r s apdu_response packets size i out queue p free fits xfr_type
        fields a whole_select exchanged bytes enough small pos =
      let c : CcidCommand = xfr_block r.slot r.seq r.p0 (u16_from_le_bytes r.p1 r.p2) r.payload in
      let handled : Handled S = handle_command nfc t.bridge.inner c in
      let response : CcidResponse = data_block r.slot r.seq (ok_status active) 0 0 apdu_response in
      let shaped : IsResponse response = ground (arith, fields, bytes, enough, small) in
      let (kept, reply, status_after) =
        xfr_block-active nfc t.bridge.inner r.slot r.seq r.p0 (u16_from_le_bytes r.p1 r.p2)
          r.payload a whole_select in
      let answer : handled.1 ≡ ok response =
        reply
        ∙ ap (λ (x : S × Returned ReaderError (List ℕ)). ok (exchange_reply r.slot r.seq x.1))
            exchanged in
      let (done, bridge, read, rest) =
        read_transfer-handle_bulk_out t r handled.0 response packets size i out queue p free fits
          (ground (arith, xfr_type)) (xfr xfr_type) (ap (λ x. (handled.0, x)) answer) shaped pos
          (omega (arith, enough, encode_shape response shaped)) in
      (
        done,
        ap (λ (l : Mutex (CcidBridge S)). l.inner.reader) bridge
            ∙ kept
            ∙ ap (λ (x : S × Returned ReaderError (List ℕ)). x.0) exchanged,
        read,
        rest,
      )
