-- ===== src/Nfc/Pn532/Ats.antt =====
-- The historical bytes of an answer to select, after ISO 14443-4.
use vusbipd_ccid.Base.{
  ℕ, ◌+◌, ◌/◌, ◌%◌, ◌<◌, ◌≡◌, refl, true, List, [], ◌∷◌, ◌++◌, length, arith, length-append,
  drop-append_exact, ◌==◌, ==→eq,
}
use vusbipd_ccid.Base.Result.{ok, Returns}
use vusbipd_ccid.Base.Bytes.{passes_up_to, passed}
use vusbipd_ccid.Nfc.Pn532.{ats_historical_bytes, bit_count}

-- The number of interface bytes that T0 announces: TA, TB and TC, by its bits 4 to 6.
abbrev pub announced : ℕ → ℕ
announced t0 = t0 / 16 % 2 + t0 / 32 % 2 + t0 / 64 % 2

abbrev counted : ℕ → ℕ
counted t0 = bit_count t0 0x10 + bit_count t0 0x20 + bit_count t0 0x40

count_table : passes_up_to (λ t0. counted t0 == announced t0) 255 ≡ true
unfolding passes_up_to
count_table = refl

counted-announced : (t0 : ℕ) → t0 < 256 → counted t0 ≡ announced t0
counted-announced t0 h =
    ==→eq _ _ (passed (λ n. counted n == announced n) 255 t0 count_table (omega arith))

-- An answer to select with its length in front, the format byte T0, the interface bytes that T0
-- announces and any historical bytes gives these historical bytes.
pub ats_historical_bytes-layout :
    (t0 : ℕ) (interface_bytes historical : List ℕ)
    → t0 < 256
    → length interface_bytes ≡ announced t0
    → ats_historical_bytes
        ((2 + length interface_bytes + length historical) ∷ t0 ∷ (interface_bytes ++ historical))
      ≡ ok historical
unfolding ats_historical_bytes
ats_historical_bytes-layout t0 interface_bytes historical h e = ground (
  arith,
  counted-announced t0 h,
  length-append interface_bytes historical,
  drop-append_exact interface_bytes historical,
)

-- `ats_historical_bytes` returns on every input, with bytes or an error: no index is out of range.
pub ats_historical_bytes-Returns : (ats : List ℕ) → Returns (ats_historical_bytes ats)
unfolding ats_historical_bytes
ats_historical_bytes-Returns [] = ground arith
ats_historical_bytes-Returns (a ∷ []) = ground arith
ats_historical_bytes-Returns (tl ∷ t0 ∷ rest) = ground arith
