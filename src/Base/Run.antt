-- ===== src/Base/Run.antt =====
-- Code that changes a state and gives a `Result`: the state after it is there also when it fails.
use mathlib.Core.Bool.{Bool}
use mathlib.Core.Path.{◌≡◌, refl}
use mathlib.Core.Logic.{◌⊎◌, inl, inr}
use vusbipd_ccid.Base.Tests.{if◌then◌else◌}
use vusbipd_ccid.Base.Result.{Result, ok, err, panic, stuck, Returns, Returned, value, fault}

abbrev pub Run : Type 0 → Type 0 → Type 0 → Type 0
Run S E A = S → S × Result E A

abbrev pub proceed : {S E A B : Type 0} → (A → Run S E B) → S × Result E A → S × Result E B
proceed f (s, ok a) = f a s
proceed f (s, err e) = (s, err e)
proceed f (s, panic) = (s, panic)
proceed f (s, stuck) = (s, stuck)

infixl 5 ◌>>=◌ ◌>>◌
abbrev pub ◌>>=◌ : {S E A B : Type 0} → Run S E A → (A → Run S E B) → Run S E B
m >>= f = λ s. proceed f (m s)

abbrev pub ◌>>◌ : {S E B : Type 0} → Run S E (Unit {0}) → Run S E B → Run S E B
m >> k = m >>= λ _. k

abbrev pub give : {S E A : Type 0} → A → Run S E A
give a = λ s. (s, ok a)

abbrev pub fail : {S E A : Type 0} → E → Run S E A
fail e = λ s. (s, err e)

abbrev pub get : {S E : Type 0} → Run S E S
get = λ s. (s, ok s)

abbrev pub modify : {S E : Type 0} → (S → S) → Run S E (Unit {0})
modify change = λ s. (change s, ok tt)

-- A result that does not depend on the state.
abbrev pub lift : {S E A : Type 0} → Result E A → Run S E A
lift r = λ s. (s, r)

-- `return Err(..)` if the test holds.
abbrev pub fail_when : {S E : Type 0} → Bool → E → Run S E (Unit {0})
fail_when test e = if test then fail e else give tt

abbrev map_fault : {S E F A : Type 0} → (E → F) → S × Result E A → S × Result F A
map_fault f (s, ok a) = (s, ok a)
map_fault f (s, err e) = (s, err (f e))
map_fault f (s, panic) = (s, panic)
map_fault f (s, stuck) = (s, stuck)

abbrev pub or_else : {S E F A : Type 0} → (E → F) → Run S E A → Run S F A
or_else f m = λ s. map_fault f (m s)

abbrev given : {S E A : Type 0} → S × Returned E A → S × Result E A
given (s, value a) = (s, ok a)
given (s, fault e) = (s, err e)

-- A call of code that is known to return.
abbrev pub call : {S E A : Type 0} → (S → S × Returned E A) → Run S E A
call f = λ s. given (f s)

-- What holds of the state and the result after a run.
abbrev pub Ends : {S E A : Type 0} → (S → Result E A → Type 0) → S × Result E A → Type 0
Ends Post x = Post x.0 x.1

pub Returned-cases :
    {E A : Type 0} (x : Returned E A) → ((a : A) × (x ≡ value a)) ⊎ ((e : E) × (x ≡ fault e))
Returned-cases (value a) = inl (a, refl)
Returned-cases (fault e) = inr (e, refl)

pub call-cases :
    {S E A : Type 0} (x : S × Returned E A)
    → ((s : S) × (a : A) × (x ≡ (s, value a))) ⊎ ((s : S) × (e : E) × (x ≡ (s, fault e)))
call-cases (s, value a) = inl (s, a, refl)
call-cases (s, fault e) = inr (s, e, refl)

pub run-cases :
    {S E A : Type 0} (x : S × Result E A)
    → Returns x.1
    → ((s : S) × (a : A) × (x ≡ (s, ok a))) ⊎ ((s : S) × (e : E) × (x ≡ (s, err e)))
run-cases (s, ok a) h = inl (s, a, refl)
run-cases (s, err e) h = inr (s, e, refl)
run-cases (s, panic) h = elim h [ ]
run-cases (s, stuck) h = elim h [ ]
