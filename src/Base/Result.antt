-- ===== src/Base/Result.antt =====
-- Rust's `Result`, with what else a run can do: `panic` is an index or a slice out of range, and
-- `stuck` (no Rust value) says that a model's fuel ran out.
use Prim.Native.Nat.{ℕ, ◌-◌}
use mathlib.Core.Bool.{Bool, true, false, ◌&&◌}
use mathlib.Core.Option.{Option, none, some}
use mathlib.Core.List.{List}
use vusbipd_ccid.Base.Tests.{leb, if◌then◌else◌}
use vusbipd_ccid.Base.Lists.{length, get_elem?, take, drop}

pub data Result {ℓ} (E : Type 0) (A : Type ℓ) : Type ℓ where
  ok : A → Result E A
  err : E → Result E A
  panic : Result E A
  stuck : Result E A

-- The error type of code that gives no error.
abbrev pub Infallible : Type 0
Infallible = ⊥

infixl 5 ◌>>=◌ ◌>>◌
abbrev pub ◌>>=◌ {ℓ κ} :
    {E : Type 0} {A : Type ℓ} {B : Type κ} → Result E A → (A → Result E B) → Result E B
ok a >>= f = f a
err e >>= f = err e
panic >>= f = panic
stuck >>= f = stuck

abbrev pub ◌>>◌ {ℓ} : {E : Type 0} {B : Type ℓ} → Result E (Unit {0}) → Result E B → Result E B
m >> k = m >>= λ _. k

abbrev pub map_err {ℓ} : {E F : Type 0} {A : Type ℓ} → (E → F) → Result E A → Result F A
map_err f (ok a) = ok a
map_err f (err e) = err (f e)
map_err f panic = panic
map_err f stuck = stuck

-- `return Err(..)` unless the test fails: `fail_if (len < 10) e`.
abbrev pub fail_if : {E : Type 0} → Bool → E → Result E (Unit {0})
fail_if true e = err e
fail_if false e = ok tt

-- The code returns to its caller, with a value or with an error.
abbrev pub Returns {ℓ} : {E : Type 0} {A : Type ℓ} → Result E A → Type 0
Returns (ok a) = Unit
Returns (err e) = Unit
Returns panic = ⊥
Returns stuck = ⊥

abbrev or_panic {ℓ} : {E : Type 0} {A : Type ℓ} → Option A → Result E A
or_panic none = panic
or_panic (some a) = ok a

-- `xs[i]`
abbrev pub index {ℓ} : {E : Type 0} {A : Type ℓ} → List A → ℕ → Result E A
index xs i = or_panic (get_elem? xs i)

-- `xs[lo..hi]`
abbrev pub slice {ℓ} : {E : Type 0} {A : Type ℓ} → List A → ℕ → ℕ → Result E (List A)
slice xs lo hi = if leb lo hi && leb hi (length xs) then ok (take (hi - lo) (drop lo xs)) else panic

-- `xs[lo..]`
abbrev pub slice_from {ℓ} : {E : Type 0} {A : Type ℓ} → List A → ℕ → Result E (List A)
slice_from xs lo = if leb lo (length xs) then ok (drop lo xs) else panic

-- The result of a call that is known to return: Rust's `Result` itself.
pub data Returned {ℓ} (E : Type 0) (A : Type ℓ) : Type ℓ where
  value : A → Returned E A
  fault : E → Returned E A

abbrev pub settled {ℓ} : {E : Type 0} {A : Type ℓ} (r : Result E A) → Returns r → Returned E A
settled (ok a) h = value a
settled (err e) h = fault e
settled panic h = elim h [ ]
settled stuck h = elim h [ ]
