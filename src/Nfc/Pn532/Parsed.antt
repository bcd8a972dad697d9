-- ===== src/Nfc/Pn532/Parsed.antt =====
-- src/nfc/pn532.rs: what the parsers of a poll's response end in.
use vusbipd_ccid.Base.{
  ltb→lt, take, drop, ℕ, ◌+◌, ◌≡◌, refl, List, [], ◌∷◌, arith, ◌⊎◌, inl, inr, length, ltb, leb,
  if_cases,
}
use vusbipd_ccid.Base.Result.{Result, ok, err, panic, stuck}
use vusbipd_ccid.Base.Text.{Message}
use vusbipd_ccid.Nfc.{ReaderError, configuration, transport, protocol, target_lost, unsupported, io}
use vusbipd_ccid.Nfc.Pn532.{ats_historical_bytes}
use vusbipd_ccid.Nfc.Pn532.Total.{index_within}
use vusbipd_ccid.Nfc.Pn532.Target.{target_found, target_historical_bytes}

-- A value, or a protocol error.
pub IsParsed : {A : Type 0} → Result ReaderError A → Type 0
IsParsed (ok a) = Unit
IsParsed (err (protocol m)) = Unit
IsParsed (err e) = ⊥
IsParsed panic = ⊥
IsParsed stuck = ⊥

ats_historical_bytes-IsParsed : (ats : List ℕ) → IsParsed (ats_historical_bytes ats)
unfolding ats_historical_bytes IsParsed
ats_historical_bytes-IsParsed [] = ground arith
ats_historical_bytes-IsParsed (a ∷ []) = ground arith
ats_historical_bytes-IsParsed (tl ∷ t0 ∷ rest) = ground arith

pub target_historical_bytes-IsParsed :
    (response : List ℕ) (uid_end : ℕ) → IsParsed (target_historical_bytes response uid_end)
unfolding IsParsed
target_historical_bytes-IsParsed response uid_end =
    if_cases IsParsed (ltb uid_end (length response))
      (λ more.
        let (ats_len, e) = index_within response uid_end (omega (arith, ltb→lt _ _ more)) in
        rw e (
          if_cases IsParsed (leb (uid_end + ats_len) (length response))
            (λ fits.
              ground
                (arith, fits, ats_historical_bytes-IsParsed (take ats_len (drop uid_end response))))
            (λ long. tt)))
      (λ none_left. tt)

pub target_found-IsParsed : (response : List ℕ) → IsParsed (target_found response)
unfolding target_found IsParsed
target_found-IsParsed (c ∷ t ∷ a ∷ b ∷ s ∷ n ∷ rest) =
    ground (arith, target_historical_bytes-IsParsed (c ∷ t ∷ a ∷ b ∷ s ∷ n ∷ rest) (6 + n))
target_found-IsParsed [] = ground arith
target_found-IsParsed (c ∷ []) = ground arith
target_found-IsParsed (c ∷ t ∷ []) = ground arith
target_found-IsParsed (c ∷ t ∷ a ∷ []) = ground arith
target_found-IsParsed (c ∷ t ∷ a ∷ b ∷ []) = ground arith
target_found-IsParsed (c ∷ t ∷ a ∷ b ∷ s ∷ []) = ground arith

pub parsed-cases :
    {A : Type 0} (x : Result ReaderError A)
    → IsParsed x
    → ((a : A) × (x ≡ ok a)) ⊎ ((m : Message) × (x ≡ err (protocol m)))
unfolding IsParsed
parsed-cases (ok a) h = inl (a, refl)
parsed-cases (err (protocol m)) h = inr (m, refl)
parsed-cases (err (configuration m)) h = elim h [ ]
parsed-cases (err (transport m)) h = elim h [ ]
parsed-cases (err (target_lost m)) h = elim h [ ]
parsed-cases (err (unsupported m)) h = elim h [ ]
parsed-cases (err (io m)) h = elim h [ ]
parsed-cases panic h = elim h [ ]
parsed-cases stuck h = elim h [ ]
