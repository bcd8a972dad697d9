-- ===== src/Protocol/Decode.antt =====
-- `CcidCommand::decode` on any input, against the message format of `Layout`.
use vusbipd_ccid.Base.{
  ℕ, ◌<◌, ◌^◌, ◌≡◌, inl, inr, List, [], ◌∷◌, length, if◌then◌else◌, ◌==◌, arith, lt→ltb,
}
use mathlib.Core.Path.{subst}
use vusbipd_ccid.Base.Result.{ok, err, Returns}
use vusbipd_ccid.Base.Bytes.{IsBytes, u32_from_le_bytes, u32_to_le_bytes}
use vusbipd_ccid.Protocol.{CcidCommand, decode, command_of, frame_too_short, length_mismatch}
use vusbipd_ccid.Protocol.Layout.{
  RawFrame, raw_bytes, Means, power_on, power_off, status, get, reset, set, xfr, stop, other, Split,
  split,
}

decode_short :
    (frame : List ℕ) → length frame < 10 → decode frame ≡ err (frame_too_short (length frame))
unfolding decode
decode_short frame h = rw (lt→ltb (length frame) 10 h)

pub decode_long :
    (m a b c d s q x y z : ℕ) (ps : List ℕ)
    → decode (m ∷ a ∷ b ∷ c ∷ d ∷ s ∷ q ∷ x ∷ y ∷ z ∷ ps) ≡ (
        if u32_from_le_bytes a b c d == length ps
        then ok (command_of m s q x y z ps)
        else err (length_mismatch (u32_from_le_bytes a b c d) (length ps)))
unfolding decode
decode_long m a b c d s q x y z ps = ground arith

-- `decode` returns on every input, with a command or an error: no index is out of range.
pub decode-Returns : (frame : List ℕ) → Returns (decode frame)
decode-Returns frame = elim (split frame) [
  | inl short ↦ rw (decode_short frame short) tt
  | inr s ↦
      rw (s.same, decode_long s.m s.a s.b s.c s.d s.slot s.seq s.p0 s.p1 s.p2 s.rest) (ground arith)
]

command_of-Means :
    (r : RawFrame) → Means r (command_of r.message_type r.slot r.seq r.p0 r.p1 r.p2 r.payload)
unfolding command_of
command_of-Means r = grind (arith, power_on, power_off, status, get, reset, set, xfr, stop, other)

-- The command that `decode` makes of a message is the one that its type means.
Means-command_of :
    (r : RawFrame) {c : CcidCommand}
    → Means r c
    → command_of r.message_type r.slot r.seq r.p0 r.p1 r.p2 r.payload ≡ c
unfolding command_of
Means-command_of r (power_on e) = ground arith
Means-command_of r (power_off e) = ground arith
Means-command_of r (status e) = ground arith
Means-command_of r (get e) = ground arith
Means-command_of r (reset e) = ground arith
Means-command_of r (set e) = ground arith
Means-command_of r (xfr e) = ground arith
Means-command_of r (stop e) = ground arith
Means-command_of r (other e) = ground arith

-- A message of the format, with a payload that its length field can state, is decoded into the
-- command that its type means.
pub decode-raw_bytes :
    (r : RawFrame) {c : CcidCommand}
    → length r.payload < 2 ^ 32
    → Means r c
    → decode (raw_bytes r) ≡ ok c
decode-raw_bytes r fits m =
    rw (decode_long _ _ _ _ _ _ _ _ _ _ r.payload) (ground (arith, Means-command_of r m))

le_bytes_of :
    (a b c d n : ℕ)
    → (a < 256) × (b < 256) × (c < 256) × (d < 256)
    → u32_from_le_bytes a b c d ≡ n
    → u32_to_le_bytes n ≡ a ∷ b ∷ c ∷ d ∷ []
le_bytes_of a b c d n h e = ground arith

decode_ok_long :
    (m a b c d s q x y z : ℕ) (ps : List ℕ) {cmd : CcidCommand}
    → (a < 256) × (b < 256) × (c < 256) × (d < 256)
    → decode (m ∷ a ∷ b ∷ c ∷ d ∷ s ∷ q ∷ x ∷ y ∷ z ∷ ps) ≡ ok cmd
    → (u32_to_le_bytes (length ps) ≡ a ∷ b ∷ c ∷ d ∷ [])
      × (length ps < 2 ^ 32)
      × (command_of m s q x y z ps ≡ cmd)
decode_ok_long m a b c d s q x y z ps h e =
    ground (arith, decode_long m a b c d s q x y z ps, le_bytes_of a b c d (length ps))

abbrev raw_of : {frame : List ℕ} → Split frame → RawFrame
raw_of s = record {
  message_type = s.m;
  slot = s.slot;
  seq = s.seq;
  p0 = s.p0;
  p1 = s.p1;
  p2 = s.p2;
  payload = s.rest;
}

-- What `decode` accepts, of a list of bytes, is a message of the format: the bytes are those of a
-- header that states the length of the payload behind it, and the command is the one that the
-- message type means.
pub decode_ok :
    (frame : List ℕ) {c : CcidCommand}
    → IsBytes frame
    → decode frame ≡ ok c
    → (r : RawFrame) × (frame ≡ raw_bytes r) × (length r.payload < 2 ^ 32) × Means r c
decode_ok frame {c} bytes e = elim (split frame) [
  | inl short ↦ cc (decode_short frame short)
  | inr s ↦
      let (low, fits, meant) =
        decode_ok_long s.m s.a s.b s.c s.d s.slot s.seq s.p0 s.p1 s.p2 s.rest
          (ground (arith, subst IsBytes s.same bytes)) (rw s.same at e) in
      (raw_of s, ground arith, fits, rw meant at (command_of-Means (raw_of s)))
]
