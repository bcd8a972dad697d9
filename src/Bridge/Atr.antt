-- ===== src/Bridge/Atr.antt =====
-- The ATR that power on answers with, against a reader of ATRs after ISO 7816-3.
use Prim.Native.Nat.{bit_xor}
use mathlib.Core.List.{foldl}
use vusbipd_ccid.Base.{
  ℕ, zero, suc, ◌+◌, ◌/◌, ◌%◌, ◌<◌, ◌≡◌, refl, sym, ◌∙◌, Bool, true, false, ◌&&◌, ◌||◌, not, Option,
  none, some, List, [], ◌∷◌, ◌++◌, length, take, ltb, ◌==◌, if◌then◌else◌, arith, bit_or,
  Bool-cases, inl, inr, length-take, ==_self, length-append, take-append_exact, ==→eq, take_all,
  ltb→le,
}
use vusbipd_ccid.Base.Bytes.{passes_up_to, passed, u8}
use vusbipd_ccid.Base.Bits.{bit_xor_self}
use vusbipd_ccid.Nfc.{CardPresence}
use vusbipd_ccid.Bridge.{build_pseudo_atr, starts_atr, xor_all}

infixl 5 ◌>>=◌
abbrev ◌>>=◌ {ℓ κ} : {A : Type ℓ} {B : Type κ} → Option A → (A → Option B) → Option B
none >>= f = none
some a >>= f = f a

abbrev skip : ℕ → List ℕ → Option (List ℕ)
skip zero bs = some bs
skip (suc n) [] = none
skip (suc n) (b ∷ bs) = skip n bs

abbrev add_protocol : ℕ → List ℕ × List ℕ → List ℕ × List ℕ
add_protocol p (ps, rest) = (p ∷ ps, rest)

abbrev read_td : (ℕ → List ℕ → Option (List ℕ × List ℕ)) → List ℕ → Option (List ℕ × List ℕ)
read_td more [] = none
read_td more (td ∷ rest) = more (td / 16) rest >>= λ r. some (add_protocol (td % 16) r)

-- The interface bytes that the nibble `y` announces: TA, TB and TC are skipped, and TD gives a
-- protocol and the next nibble. An ATR has at most 32 bytes behind TS, which bounds the fuel.
read_interface : ℕ → ℕ → List ℕ → Option (List ℕ × List ℕ)
read_interface zero y bs = none
read_interface (suc fuel) y bs = do
  rest ← skip (y % 2 + y / 2 % 2 + y / 4 % 2) bs
  if y / 8 % 2 == 0 then some ([], rest) else read_td (read_interface fuel) rest

-- The historical bytes, with the check byte TCK behind them unless T=0 is the only protocol.
abbrev read_historical : ℕ → List ℕ → Bool → Option (List ℕ)
read_historical k rest check =
    if length rest == (if check then k + 1 else k) then some (take k rest) else none

abbrev needs_check : List ℕ → Bool
needs_check [] = false
needs_check (p ∷ ps) = not (p == 0) || needs_check ps

-- The protocols and the historical bytes of a well-formed ATR.
pub read_atr : List ℕ → Option (List ℕ × List ℕ)
read_atr (ts ∷ t0 ∷ bs) =
    if ts == 0x3b || ts == 0x3f
    then (do
      (ps, rest) ← read_interface 32 (t0 / 16) bs
      hist ← read_historical (t0 % 16) rest (needs_check ps)
      if needs_check ps && not (xor_all (t0 ∷ bs) == 0) then none else some (ps, hist))
    else none
read_atr _ = none

foldl_snoc :
    (acc : ℕ) (xs : List ℕ) (c : ℕ)
    → foldl bit_xor acc (xs ++ c ∷ []) ≡ bit_xor (foldl bit_xor acc xs) c
foldl_snoc acc [] c = refl
foldl_snoc acc (x ∷ xs) c = foldl_snoc (bit_xor acc x) xs c

-- The exclusive or of bytes and of its own value is 0.
xor_all_check : (xs : List ℕ) → xor_all (xs ++ xor_all xs ∷ []) ≡ 0
xor_all_check xs = foldl_snoc 0 xs (xor_all xs) ∙ bit_xor_self (xor_all xs)

t0_table : passes_up_to (λ n. bit_or 0x80 (u8 n) == 128 + n) 15 ≡ true
unfolding passes_up_to
t0_table = refl

t0_byte : (n : ℕ) → n < 16 → bit_or 0x80 (u8 n) ≡ 128 + n
t0_byte n h = ==→eq _ _ (passed (λ n. bit_or 0x80 (u8 n) == 128 + n) 15 n t0_table (omega arith))

abbrev kept : List ℕ → List ℕ
kept hb = if ltb 0x0f (length hb) then take 15 hb else hb

kept-eq-take : (hb : List ℕ) → (kept hb ≡ take 15 hb) × (length (take 15 hb) < 16)
kept-eq-take hb = elim (Bool-cases (ltb 0x0f (length hb))) [
  | inl long ↦ (rw long, omega (arith, length-take 15 hb))
  | inr short ↦ (
    rw short (sym (take_all 15 hb (omega (arith, ltb→le 15 (length hb) short)))),
    omega (arith, length-take 15 hb),
  )
]

read_t0_t1 : (hist : List ℕ) → read_interface 32 8 (0x80 ∷ 0x01 ∷ hist) ≡ some (0 ∷ 1 ∷ [], hist)
unfolding read_interface
read_t0_t1 hist = refl

read_atr_t0_t1 :
    (hist : List ℕ) (t0 c : ℕ)
    → length hist < 16
    → t0 ≡ 128 + length hist
    → xor_all (t0 ∷ 0x80 ∷ 0x01 ∷ (hist ++ c ∷ [])) ≡ 0
    → read_atr (0x3b ∷ t0 ∷ 0x80 ∷ 0x01 ∷ (hist ++ c ∷ [])) ≡ some (0 ∷ 1 ∷ [], hist)
unfolding read_atr
read_atr_t0_t1 hist t0 c fits e check =
    let nibble : t0 / 16 ≡ 8 = omega arith in
    let count : t0 % 16 ≡ length hist = omega arith in
    rw (
      nibble,
      count,
      read_t0_t1 (hist ++ c ∷ []),
      length-append hist (c ∷ []),
      ==_self,
      take-append_exact hist (c ∷ []),
      check,
    )

-- A card whose historical bytes do not begin like an ATR is announced by bytes that a reader of ATRs
-- after ISO 7816-3, which checks the check byte, takes for an ATR for T=0 and T=1 with the first
-- fifteen of the historical bytes.
pub read_atr-build_pseudo_atr :
    (card : CardPresence)
    → starts_atr card.historical_bytes ≡ false
    → read_atr (build_pseudo_atr card) ≡ some (0 ∷ 1 ∷ [], take 15 card.historical_bytes)
unfolding build_pseudo_atr
read_atr-build_pseudo_atr card h =
    let hist : List ℕ = take 15 card.historical_bytes in
    let (same, fits) = kept-eq-take card.historical_bytes in
    rw (h, same)
      (read_atr_t0_t1 hist _ _ fits (t0_byte (length hist) fits)
        (xor_all_check (bit_or 0x80 (u8 (length hist)) ∷ 0x80 ∷ 0x01 ∷ hist)))
