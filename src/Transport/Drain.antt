-- ===== src/Transport/Drain.antt =====
-- Several queued responses, and the host that reads them.
use vusbipd_ccid.Base.{
  ℕ, zero, suc, ◌+◌, ◌≤◌, ◌<◌, ◌≡◌, ◌≢◌, ◌∙◌, ap, refl, sym, Option, some, List, [], ◌∷◌, ◌++◌, map,
  length, arith, All, length-append,
}
use mathlib.Core.List.{append_assoc, append-nil}
use vusbipd_ccid.Base.{bytes_eq, bytes_eq→eq}
use vusbipd_ccid.Protocol.{CcidResponse, encode}
use vusbipd_ccid.Protocol.Encode.{read_response, IsResponse, read_response-encode}
use vusbipd_ccid.Transport.State.{CcidTransport, back_is}
use vusbipd_ccid.Transport.Delivered.{queued}
use vusbipd_ccid.Transport.Pipeline.{queue_all}
use vusbipd_ccid.Transport.Reading.{read_transfer, read_transfer-handle_bulk_in}

-- No response is followed by one with the same bytes.
abbrev pub Differ : List CcidResponse → Type 0
Differ [] = Unit
Differ (r ∷ []) = Unit
Differ (r ∷ r' ∷ rs) = (encode r ≢ encode r') × Differ (r' ∷ rs)

back_is-append :
    (frames : List (List ℕ)) (last frame : List ℕ)
    → back_is (frames ++ last ∷ []) frame ≡ bytes_eq last frame
unfolding back_is
back_is-append [] last frame = refl
back_is-append (f ∷ []) last frame = refl
back_is-append (f ∷ g ∷ fs) last frame = back_is-append (g ∷ fs) last frame

-- Behind a last response with other bytes, while there is room, a response is appended.
queued-append :
    (frames : List (List ℕ)) (last frame : List ℕ)
    → last ≢ frame
    → length frames < 31
    → queued (frames ++ last ∷ []) frame ≡ (frames ++ last ∷ []) ++ frame ∷ []
unfolding queued
queued-append frames last frame n few = ground (
  arith,
  back_is-append frames last frame,
  bytes_eq→eq last frame,
  length-append frames (last ∷ []),
)

queue_all-append :
    (frames : List (List ℕ)) (last : CcidResponse) (rs : List CcidResponse)
    → Differ (last ∷ rs)
    → length frames + length rs < 32
    → queue_all (frames ++ encode last ∷ []) rs ≡ (frames ++ encode last ∷ []) ++ map encode rs
queue_all-append frames last [] d few = sym (append-nil _)
queue_all-append frames last (r ∷ rs) d few =
    ap (λ (q : List (List ℕ)). queue_all q rs)
      (queued-append frames (encode last) (encode r) d.0 (omega arith))
    ∙ queue_all-append (frames ++ encode last ∷ []) r rs d.1
        (omega (arith, length-append frames (encode last ∷ [])))
    ∙ append_assoc (frames ++ encode last ∷ []) (encode r ∷ []) (map encode rs)

-- From an empty queue nothing is lost.
pub queue_all-map :
    (rs : List CcidResponse) → Differ rs → length rs ≤ 32 → queue_all [] rs ≡ map encode rs
unfolding queued
queue_all-map [] d few = refl
queue_all-map (r ∷ rs) d few = queue_all-append [] r rs d (omega arith)

-- A response with fields as they are in Rust, which so many packets of any size hold.
abbrev pub IsReadable : ℕ → CcidResponse → Type 0
IsReadable packets r = IsResponse r × (length (encode r) < packets)

-- The host reads so many responses, each in packets of one size until one is shorter.
unfoldable pub read_responses :
    {S : Type 0} → ℕ → ℕ → ℕ → CcidTransport S → CcidTransport S × List (Option CcidResponse)
read_responses zero packets size t = (t, [])
read_responses (suc n) packets size t =
    let first = read_transfer packets size t in
    let rest = read_responses n packets size first.0 in (rest.0, read_response first.1 ∷ rest.1)

-- A host that reads as many responses as are queued gets them all, in order.
pub read_responses-queue :
    {S : Type 0} (rs : List CcidResponse) (packets size : ℕ) (t : CcidTransport S)
    → 0 < size
    → All (IsReadable packets) rs
    → t.pending_in_frames ≡ map encode rs
    → ((read_responses (length rs) packets size t).1 ≡ map some rs)
      × ((read_responses (length rs) packets size t).0.pending_in_frames ≡ [])
unfolding read_responses
read_responses-queue [] packets size t pos h e = (refl, e)
read_responses-queue (r ∷ rs) packets size t pos ((shaped, enough), h) e =
    let (bytes, left) =
      read_transfer-handle_bulk_in packets size t (encode r) (map encode rs) pos enough e in
    let (read, empty) =
      read_responses-queue rs packets size (read_transfer packets size t).0 pos h left in
    (cc (bytes, read, read_response-encode r shaped), empty)
