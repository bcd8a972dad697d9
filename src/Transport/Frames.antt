-- ===== src/Transport/Frames.antt =====
-- Cutting the byte stream of the host into frames.
use vusbipd_ccid.Base.{
  ◌<◌, take-append-drop, length-take, ℕ, ◌+◌, ◌≤◌, ◌≡◌, ap, inl, inr, Option, none, some, List, [],
  ◌∷◌, ◌++◌, length, take, drop, ltb, if◌then◌else◌, arith, length-append,
}
use vusbipd_ccid.Base.Result.{ok, err}
use vusbipd_ccid.Base.Bytes.{u32_from_le_bytes}
use vusbipd_ccid.Base.Text.{text, num}
use vusbipd_ccid.Protocol.{CcidCommand, decode, command_of}
use vusbipd_ccid.Protocol.Layout.{split}
use vusbipd_ccid.Protocol.Decode.{decode_long}
use vusbipd_ccid.Transport.State.{
  CcidTransport, Done, IoError, invalid_data, declared_len, update_state,
}
use vusbipd_ccid.Transport.{try_take_complete_frame}

-- The payload length that a buffer of ten bytes or more begins with.
abbrev pub declared : List ℕ → ℕ
declared (m ∷ a ∷ b ∷ c ∷ d ∷ rest) = u32_from_le_bytes a b c d
declared _ = 0

-- A length that the transport keeps is that of the frame at the front of its buffer.
abbrev pub Cached : Option ℕ → List ℕ → Type 0
Cached none buffer = Unit
Cached (some n) buffer = (10 ≤ length buffer) × (n ≡ 10 + declared buffer) × (n ≤ 3082)

declared_len-declared :
    (buffer : List ℕ) → 10 ≤ length buffer → declared_len buffer ≡ ok (declared buffer)
unfolding declared_len
declared_len-declared buffer h = elim (split buffer) [
  | inl short ↦ absurd (omega arith)
  | inr s ↦ rw s.same
]

pub declared-append :
    (buffer more : List ℕ) → 10 ≤ length buffer → declared (buffer ++ more) ≡ declared buffer
declared-append buffer more h = elim (split buffer) [
  | inl short ↦ absurd (omega arith)
  | inr s ↦ rw s.same
]

pub Cached-append :
    (n : Option ℕ) (buffer more : List ℕ) → Cached n buffer → Cached n (buffer ++ more)
Cached-append none buffer more c = tt
Cached-append (some n) buffer more c =
    ground (arith, declared-append buffer more, length-append buffer more)

-- A frame whose length field is that of what follows the header is decoded.
pub decode_framed :
    (frame : List ℕ)
    → 10 ≤ length frame
    → length frame ≡ 10 + declared frame
    → (c : CcidCommand) × (decode frame ≡ ok c)
decode_framed frame h e = elim (split frame) [
  | inl short ↦ absurd (omega arith)
  | inr s ↦ (
    command_of s.m s.slot s.seq s.p0 s.p1 s.p2 s.rest,
    rw s.same (
        ground (
          arith,
          decode_long s.m s.a s.b s.c s.d s.slot s.seq s.p0 s.p1 s.p2 s.rest,
          ap (λ (f : List ℕ). length f) s.same,
          ap (λ (f : List ℕ). declared f) s.same,
        )),
  )
]

-- What a byte stream begins with: too little for a frame, a header that states too much, or a
-- frame and what is behind it.
pub data Cut : Type 0 where
  wait : Cut
  too_long : ℕ → Cut
  whole : (frame rest : List ℕ) → Cut

unfoldable pub cut : List ℕ → Cut
cut buffer =
    if ltb (length buffer) 10
    then wait
    else if ltb 3082 (10 + declared buffer)
    then too_long (10 + declared buffer)
    else if ltb (length buffer) (10 + declared buffer)
    then wait
    else whole (take (10 + declared buffer) buffer) (drop (10 + declared buffer) buffer)

abbrev pub too_long_error : ℕ → IoError
too_long_error n = record {
  kind = invalid_data;
  message = text "CCID frame length " ∷ num n ∷ text " exceeds configured maximum" ∷ [];
}

-- The length that is kept for an unfinished frame.
abbrev pub awaited : List ℕ → Option ℕ
awaited buffer = if ltb (length buffer) 10 then none else some (10 + declared buffer)

abbrev pub taken : {S : Type 0} → CcidTransport S → Cut → Done S (Option (List ℕ))
taken t wait = (update_state (record t { next_frame_len = awaited t.pending_out_buffer }), ok none)
taken t (too_long n) = (
  update_state (record t { pending_out_buffer = []; next_frame_len = none }),
  err (too_long_error n),
)
taken t (whole frame rest) =
    (update_state (record t { pending_out_buffer = rest; next_frame_len = none }), ok (some frame))

module _ {S : Type 0} where
  -- Where a kept length is that of the frame at the front of the buffer, `try_take_complete_frame`
  -- acts on the bytes alone, as `cut` divides them: it waits for more, refuses a header that states
  -- more than 3072 bytes of payload, or takes the frame off the buffer; it keeps the length of an
  -- unfinished frame, so that a kept length changes nothing.
  pub try_take-cut :
      (t : CcidTransport S)
      → Cached t.next_frame_len t.pending_out_buffer
      → try_take_complete_frame t ≡ taken t (cut t.pending_out_buffer)
  unfolding try_take_complete_frame cut
  try_take-cut t c = ground (arith, declared_len-declared t.pending_out_buffer)

-- A frame that is cut off is one by its length field, and what is cut is the buffer.
pub cut_whole :
    (buffer frame rest : List ℕ)
    → cut buffer ≡ whole frame rest
    → (frame ++ rest ≡ buffer) × (10 ≤ length frame) × (length frame ≡ 10 + declared frame)
unfolding cut
cut_whole buffer frame rest e =
    let n = 10 + declared buffer in
    ground (
      arith,
      take-append-drop n buffer,
      length-take n buffer,
      declared-append (take n buffer) (drop n buffer),
    )

pub cut_too_long : (buffer : List ℕ) (n : ℕ) → cut buffer ≡ too_long n → 3082 < n
unfolding cut
cut_too_long buffer n e = ground arith
