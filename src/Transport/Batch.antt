-- ===== src/Transport/Batch.antt =====
-- A batch of messages and its responses, from the host's writes to its reads.
use vusbipd_ccid.Base.{
  ℕ, ◌≤◌, ◌<◌, ◌≡◌, ◌≢◌, ◌∙◌, ap, refl, sym, Bool, false, Option, none, some, List, [], ◌∷◌, map,
  length, arith, All,
}
use vusbipd_ccid.Base.Result.{ok}
use vusbipd_ccid.Nfc.{NfcReader}
use vusbipd_ccid.Protocol.{CcidCommand, CcidResponse, encode, command_seq}
use vusbipd_ccid.Protocol.Layout.{
  RawFrame, Means, power_on, power_off, status, get, reset, set, xfr, stop, other,
}
use vusbipd_ccid.Protocol.Encode.{read_response, IsResponse, read_response-encode}
use vusbipd_ccid.Bridge.{CcidBridge, Handled, handle_command}
use vusbipd_ccid.Bridge.Replies.{response_seq, handle_command-Answers}
use vusbipd_ccid.Transport.State.{CcidTransport}
use vusbipd_ccid.Transport.{handle_bulk_out}
use vusbipd_ccid.Transport.Invariant.{Inv}
use vusbipd_ccid.Transport.Pipeline.{
  message_bytes, queue_all, Handles, handled_none, handled, AllDelivered, bulk_out-AllDelivered,
}
use vusbipd_ccid.Transport.Drain.{
  Differ, IsReadable, queue_all-map, read_responses, read_responses-queue,
}

-- No message is followed by one with the same sequence number.
abbrev pub SeqsDiffer : List RawFrame → Type 0
SeqsDiffer [] = Unit
SeqsDiffer (r ∷ []) = Unit
SeqsDiffer (r ∷ r' ∷ rs) = (r.seq ≢ r'.seq) × SeqsDiffer (r' ∷ rs)

encode_injective :
    (r r' : CcidResponse) → IsResponse r → IsResponse r' → encode r ≡ encode r' → r ≡ r'
encode_injective r r' h h' e =
    let read : Path (Option CcidResponse) (some r) (some r') =
      sym (read_response-encode r h) ∙ ap read_response e ∙ read_response-encode r' h' in
    cc

Means-seq : {r : RawFrame} {c : CcidCommand} → Means r c → command_seq c ≡ r.seq
Means-seq (power_on e) = refl
Means-seq (power_off e) = refl
Means-seq (status e) = refl
Means-seq (get e) = refl
Means-seq (reset e) = refl
Means-seq (set e) = refl
Means-seq (xfr e) = refl
Means-seq (stop e) = refl
Means-seq (other e) = refl

module _ {S : Type 0} (nfc : NfcReader S) where
  answer_seq :
      (b b' : CcidBridge S) {r : RawFrame} {c : CcidCommand} {response : CcidResponse}
      → Means r c
      → handle_command nfc b c ≡ (b', ok response)
      → response_seq response ≡ r.seq
  answer_seq b b' {c} {response} m e =
      (handle_command-Answers nfc b c response (ap (λ (x : Handled S). x.1) e)).same_seq
      ∙ Means-seq m

  Handles-length :
      {b b' : CcidBridge S} {rs : List RawFrame} {responses : List CcidResponse}
      → Handles nfc b rs responses b'
      → length responses ≡ length rs
  Handles-length handled_none = refl
  Handles-length (handled fits no_abort m e h) = omega (arith, Handles-length h)

  Handles-Differ :
      (packets : ℕ) {b b' : CcidBridge S} {rs : List RawFrame} {responses : List CcidResponse}
      → Handles nfc b rs responses b'
      → SeqsDiffer rs
      → All (IsReadable packets) responses
      → Differ responses
  Handles-Differ packets handled_none d h = tt
  Handles-Differ packets (handled fits no_abort m e handled_none) d h = tt
  Handles-Differ packets
        (handled {r} {response} fits no_abort m e
          (handled {r = r'} {response = response'} fits' no_abort' m' e' rest))
        d h =
      (
        λ same. d.0 (
            sym (answer_seq _ _ m e)
            ∙ ap response_seq (encode_injective response response' h.0.0 h.1.0.0 same)
            ∙ answer_seq _ _ m' e'),
        Handles-Differ packets (handled fits' no_abort' m' e' rest) d.1 h.1,
      )

  -- From a valid transport with a usable lock, nothing pending and no control abort: the messages
  -- of at most 32 commands, none an abort, none with more than 3072 bytes of payload and none with
  -- the sequence number of the one before it, where the bridge alone answers each in turn, are
  -- handled when they come in one packet; the bridge is as the commands left it, and a host that
  -- then reads a response for each, in packets of any one size until one is shorter, gets exactly
  -- the answers of the bridge in the order of the messages, after which nothing is queued.
  pub read_responses-handle_bulk_out :
      (t : CcidTransport S) (rs : List RawFrame) (responses : List CcidResponse) (b : CcidBridge S)
      (packets size : ℕ)
      → Inv t
      → t.pending_out_buffer ≡ []
      → t.pending_in_frames ≡ []
      → t.bridge.poisoned ≡ false
      → t.control_abort ≡ none
      → Handles nfc t.bridge.inner rs responses b
      → SeqsDiffer rs
      → length rs ≤ 32
      → All (IsReadable packets) responses
      → 0 < size
      → let after = handle_bulk_out nfc t (message_bytes rs) in
        let read = read_responses (length rs) packets size after.0 in
        (after.1 ≡ ok tt)
        × (after.0.bridge ≡ record { poisoned = false; inner = b })
        × (read.1 ≡ map some responses)
        × (read.0.pending_in_frames ≡ [])
  unfolding AllDelivered
  read_responses-handle_bulk_out t rs responses b packets size i out queue p free h d few shaped
        pos =
      let after : CcidTransport S = (handle_bulk_out nfc t (message_bytes rs)).0 in
      let (done, front, left, control, bridge) =
        bulk_out-AllDelivered nfc t i out free
          (ap (λ (q : Bool). record { poisoned = q; inner = t.bridge.inner }) p) h in
      let queued : after.pending_in_frames ≡ map encode responses =
        front
        ∙ ap (λ (q : List (List ℕ)). queue_all q responses) queue
        ∙ queue_all-map responses (Handles-Differ packets h d shaped)
            (omega (arith, Handles-length h)) in
      let (read, empty) = read_responses-queue responses packets size after pos shaped queued in
      (
        done,
        bridge,
        ap (λ (n : ℕ). (read_responses n packets size after).1) (sym (Handles-length h)) ∙ read,
        ap (λ (n : ℕ). (read_responses n packets size after).0.pending_in_frames)
              (sym (Handles-length h))
            ∙ empty,
      )
