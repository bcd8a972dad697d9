-- ===== src/Base/Bytes.antt =====
-- Bytes and the little-endian and big-endian words of the wire formats.
use Prim.Native.Nat.{ℕ, zero, suc, ◌+◌, ◌*◌, ◌/◌, ◌%◌, ◌^◌, ◌≤◌, ◌<◌}
use mathlib.Core.Path.{◌≡◌}
use mathlib.Core.Bool.{Bool, true, false}
use mathlib.Core.List.{List, [], ◌∷◌}
use native.Mathlib.Omega.{arith}
use vusbipd_ccid.Base.Tests.{if◌then◌else◌}
use vusbipd_ccid.Base.Lists.{All}

abbrev pub IsByte : ℕ → Type 0
IsByte b = b < 256

abbrev pub IsBytes : List ℕ → Type 0
IsBytes = All IsByte

-- `n as u8`, `n as u32`
abbrev pub u8 : ℕ → ℕ
u8 n = n % 2 ^ 8

abbrev pub u32 : ℕ → ℕ
u32 n = n % 2 ^ 32

-- `u32::from_le_bytes` and `u32::to_le_bytes`
abbrev pub u32_from_le_bytes : ℕ → ℕ → ℕ → ℕ → ℕ
u32_from_le_bytes a b c d = a + 256 * b + 65536 * c + 16777216 * d

abbrev pub u32_to_le_bytes : ℕ → List ℕ
u32_to_le_bytes n = n % 256 ∷ n / 256 % 256 ∷ n / 65536 % 256 ∷ n / 16777216 % 256 ∷ []

-- `u16::from_le_bytes`, and the bytes of `u16::to_le_bytes`
abbrev pub u16_from_le_bytes : ℕ → ℕ → ℕ
u16_from_le_bytes a b = a + 256 * b

abbrev pub u16_low : ℕ → ℕ
u16_low n = n % 256

abbrev pub u16_high : ℕ → ℕ
u16_high n = n / 256 % 256

-- A test that every number up to the last passes, found by running it.
unfoldable pub passes_up_to : (ℕ → Bool) → ℕ → Bool
passes_up_to test zero = test zero
passes_up_to test (suc last) = if test (suc last) then passes_up_to test last else false

pub passed :
    (test : ℕ → Bool) (last x : ℕ) → passes_up_to test last ≡ true → x ≤ last → test x ≡ true
unfolding passes_up_to
passed test zero zero run reached = run
passed test zero (suc x) run reached = absurd (omega arith)
passed test (suc last) x run reached = ground (arith, passed test last x)
