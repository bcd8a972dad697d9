-- ===== src/Protocol/Layout.antt =====
-- The message format of the CCID specification, independent of the code: the ten bytes of the
-- header and the payload, what each message type means, and how a host reads a response.
use vusbipd_ccid.Base.{ℕ, ◌<◌, ◌≡◌, ◌≢◌, ◌⊎◌, inl, inr, refl, List, [], ◌∷◌, ◌++◌, length, arith}
use vusbipd_ccid.Base.Bytes.{u32_to_le_bytes, u16_from_le_bytes}
use vusbipd_ccid.Protocol.{
  CcidCommand, icc_power_on, icc_power_off, get_slot_status, get_parameters, reset_parameters,
  set_parameters, xfr_block, abort, unknown,
}

pub record RawFrame : Type 0 where
  pub message_type : ℕ
  pub slot : ℕ
  pub seq : ℕ
  pub p0 : ℕ
  pub p1 : ℕ
  pub p2 : ℕ
  pub payload : List ℕ

abbrev pub raw_bytes : RawFrame → List ℕ
raw_bytes r =
    r.message_type
    ∷ (u32_to_le_bytes (length r.payload) ++ (r.slot ∷ r.seq ∷ r.p0 ∷ r.p1 ∷ r.p2 ∷ r.payload))

-- The command that a message is, by its type.
pub data Means (r : RawFrame) : CcidCommand → Type 0 where
  power_on : r.message_type ≡ 0x62 → Means r (icc_power_on r.slot r.seq r.p0)
  power_off : r.message_type ≡ 0x63 → Means r (icc_power_off r.slot r.seq)
  status : r.message_type ≡ 0x65 → Means r (get_slot_status r.slot r.seq)
  get : r.message_type ≡ 0x6c → Means r (get_parameters r.slot r.seq)
  reset : r.message_type ≡ 0x6d → Means r (reset_parameters r.slot r.seq)
  set : r.message_type ≡ 0x61 → Means r (set_parameters r.slot r.seq r.p0 r.payload)
  xfr :
      r.message_type ≡ 0x6f
      → Means r (xfr_block r.slot r.seq r.p0 (u16_from_le_bytes r.p1 r.p2) r.payload)
  stop : r.message_type ≡ 0x72 → Means r (abort r.slot r.seq)
  other :
      (r.message_type ≢ 0x61)
        × (r.message_type ≢ 0x62)
        × (r.message_type ≢ 0x63)
        × (r.message_type ≢ 0x65)
        × (r.message_type ≢ 0x6c)
        × (r.message_type ≢ 0x6d)
        × (r.message_type ≢ 0x6f)
        × (r.message_type ≢ 0x72)
      → Means r (unknown r.message_type r.slot r.seq (r.p0 ∷ r.p1 ∷ r.p2 ∷ []) r.payload)

-- A frame is shorter than the header, or a header with what follows.
pub record Split (frame : List ℕ) : Type 0 where
  pub m : ℕ
  pub a : ℕ
  pub b : ℕ
  pub c : ℕ
  pub d : ℕ
  pub slot : ℕ
  pub seq : ℕ
  pub p0 : ℕ
  pub p1 : ℕ
  pub p2 : ℕ
  pub rest : List ℕ
  pub same : frame ≡ m ∷ a ∷ b ∷ c ∷ d ∷ slot ∷ seq ∷ p0 ∷ p1 ∷ p2 ∷ rest

pub split : (frame : List ℕ) → (length frame < 10) ⊎ Split frame
split (m ∷ a ∷ b ∷ c ∷ d ∷ s ∷ q ∷ x ∷ y ∷ z ∷ rest) = inr (record {
  m = m;
  a = a;
  b = b;
  c = c;
  d = d;
  slot = s;
  seq = q;
  p0 = x;
  p1 = y;
  p2 = z;
  rest = rest;
  same = refl;
})
split [] = inl (omega arith)
split (a ∷ []) = inl (omega arith)
split (a ∷ b ∷ []) = inl (omega arith)
split (a ∷ b ∷ c ∷ []) = inl (omega arith)
split (a ∷ b ∷ c ∷ d ∷ []) = inl (omega arith)
split (a ∷ b ∷ c ∷ d ∷ e ∷ []) = inl (omega arith)
split (a ∷ b ∷ c ∷ d ∷ e ∷ f ∷ []) = inl (omega arith)
split (a ∷ b ∷ c ∷ d ∷ e ∷ f ∷ g ∷ []) = inl (omega arith)
split (a ∷ b ∷ c ∷ d ∷ e ∷ f ∷ g ∷ h ∷ []) = inl (omega arith)
split (a ∷ b ∷ c ∷ d ∷ e ∷ f ∷ g ∷ h ∷ i ∷ []) = inl (omega arith)
