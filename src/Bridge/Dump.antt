-- ===== src/Bridge/Dump.antt =====
-- src/ccid/bridge.rs: format_hex, which the log lines of the bridge use.
use vusbipd_ccid.Base.{
  ℕ, ◌/◌, ◌<◌, ◌≡◌, refl, Bool, true, false, List, [], ◌∷◌, ◌++◌, bit_and, bytes_eq, bytes_eq→eq,
  arith, ap,
}
use vusbipd_ccid.Base.Result.{Result, Infallible, ok, err, panic, stuck, index, ◌>>=◌}
use vusbipd_ccid.Base.Bytes.{IsBytes, passes_up_to, passed}
use vusbipd_ccid.Base.Hex.{lower_hex}
use vusbipd_ccid.Nfc.Pn532

-- "0123456789abcdef"
abbrev pub hex_digits : List ℕ
hex_digits =
    0x30 ∷ 0x31 ∷ 0x32 ∷ 0x33 ∷ 0x34 ∷ 0x35 ∷ 0x36 ∷ 0x37 ∷ 0x38 ∷ 0x39 ∷ 0x61 ∷ 0x62 ∷ 0x63 ∷ 0x64
    ∷ 0x65 ∷ 0x66 ∷ []

-- The two characters of a byte.
abbrev pub byte_hex : ℕ → Result Infallible (List ℕ)
byte_hex byte = do
  high ← index hex_digits (byte / 16)
  low ← index hex_digits (bit_and byte 0x0f)
  ok (high ∷ low ∷ [])

unfoldable pub format_hex : List ℕ → Result Infallible (List ℕ)
format_hex [] = ok []
format_hex (byte ∷ bytes) = do digits ← byte_hex byte; rest ← format_hex bytes; ok (digits ++ rest)

abbrev gives : Result Infallible (List ℕ) → List ℕ → Bool
gives (ok xs) ys = bytes_eq xs ys
gives r ys = false

gives→ok : (r : Result Infallible (List ℕ)) (ys : List ℕ) → gives r ys ≡ true → r ≡ ok ys
gives→ok (ok xs) ys h = ap (λ (l : List ℕ). ok l) (bytes_eq→eq xs ys h)
gives→ok (err e) ys h = elim e [ ]
gives→ok panic ys h = cc
gives→ok stuck ys h = cc

hex_table : passes_up_to (λ byte. gives (byte_hex byte) (lower_hex byte)) 255 ≡ true
unfolding passes_up_to bytes_eq
hex_table = refl

byte_hex-lower_hex : (byte : ℕ) → byte < 256 → byte_hex byte ≡ ok (lower_hex byte)
byte_hex-lower_hex byte h =
    gives→ok (byte_hex byte) (lower_hex byte)
      (passed (λ b. gives (byte_hex b) (lower_hex b)) 255 byte hex_table (omega arith))

-- On bytes the two dumps of the log lines, by a table of digits in the bridge and by the formatting
-- of the standard library in the PN532 driver, give the same characters; the table is never read out
-- of range.
pub format_hex-agrees :
    (bytes : List ℕ) → IsBytes bytes → format_hex bytes ≡ ok (Pn532.format_hex bytes)
unfolding format_hex Pn532.format_hex
format_hex-agrees [] h = refl
format_hex-agrees (byte ∷ bytes) (small, rest) =
    rw (byte_hex-lower_hex byte small) (rw (format_hex-agrees bytes rest) refl)
