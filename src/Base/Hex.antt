-- ===== src/Base/Hex.antt =====
-- Hexadecimal digits, as the formatting of the standard library writes them: `{:02x}` and `{:02X}`
-- of a byte, by the codes of the characters.
use Prim.Native.Nat.{ℕ, ◌+◌, ◌-◌, ◌/◌, ◌%◌}
use mathlib.Core.List.{List, [], ◌∷◌}
use vusbipd_ccid.Base.Tests.{ltb, if◌then◌else◌}

-- The letters begin at `a` or at `A`.
abbrev pub digit : ℕ → ℕ → ℕ
digit letters n = if ltb n 10 then 0x30 + n else letters + (n - 10)

abbrev two_digits : ℕ → ℕ → List ℕ
two_digits letters byte =
    if ltb byte 16
    then (0x30 ∷ digit letters byte ∷ [])
    else (digit letters (byte / 16) ∷ digit letters (byte % 16) ∷ [])

abbrev pub lower_hex : ℕ → List ℕ
lower_hex byte = two_digits 0x61 byte

abbrev pub upper_hex : ℕ → List ℕ
upper_hex byte = two_digits 0x41 byte
