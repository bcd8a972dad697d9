-- ===== src/Nfc/Pn532/ListTarget/Agreement.antt =====
-- examples/pn532_list_passive_target.rs: the fields of a target that the program prints.
use vusbipd_ccid.Base.{
  ◌++◌, length-append, drop-append_exact, ◌∙◌, ℕ, ◌+◌, ◌≤◌, ◌≡◌, refl, ap, false, some, List, [],
  ◌∷◌, length, take, arith, ltb, leb, ltb→lt, Bool-cases, inl, inr,
}
use vusbipd_ccid.Base.Result.{Result, ok, err, panic, stuck}
use vusbipd_ccid.Base.Run.{proceed, give}
use vusbipd_ccid.Base.Text.{Message, text, chars}
use vusbipd_ccid.Nfc.Pn532.Layout.{get_elem?-append}
use vusbipd_ccid.Nfc.{CardPresence}
use vusbipd_ccid.Nfc.Pn532.Target.{target_found}
use vusbipd_ccid.Nfc.Pn532.Total.{index_within}
use vusbipd_ccid.Nfc.Pn532.Parsed.{parsed-cases, target_historical_bytes-IsParsed}
use vusbipd_ccid.Nfc.Pn532.Reader.{counts_no_target}
use vusbipd_ccid.Nfc.Pn532.ListTarget.{
  hex, print_ats, print_fields, print_target, print_iso_type_a_target,
}
use vusbipd_ccid.Nfc.Pn532.ListTarget.Fields.{Listed, listed_fields}

print_ats_ok :
    (response : List ℕ) (uid_end : ℕ) (printed : List Message)
    → (print_ats response uid_end printed).1 ≡ ok tt
unfolding print_ats
print_ats_ok response uid_end printed = elim (Bool-cases (ltb uid_end (length response))) [
  | inr none_left ↦ ground (arith, none_left)
  | inl more ↦
      let (ats_len, e) = index_within response uid_end (omega (arith, ltb→lt _ _ more)) in
      elim (Bool-cases (leb (uid_end + 1 + ats_len) (length response))) [
        | inl whole ↦ ground (arith, more, e, whole)
        | inr short ↦ ground (arith, more, e, short)
      ]
]

proceed-give :
    {A : Type 0} (a : A) (y : List Message × Result Message (Unit {0}))
    → y.1 ≡ ok tt
    → (proceed (λ _. give a) y).1 ≡ ok a
proceed-give a (printed, ok u) e = refl
proceed-give a (printed, err x) e = cc
proceed-give a (printed, panic) e = cc
proceed-give a (printed, stuck) e = cc

print_fields_ok :
    (response : List ℕ) (l : Listed) (printed : List Message)
    → (print_fields response l printed).1 ≡ ok (some l.target_number)
unfolding print_fields
print_fields_ok response l printed =
    proceed-give (some l.target_number) _ (print_ats_ok response l.uid_end _)

target_found-fits :
    (c t a b s n : ℕ) (rest : List ℕ) (target : ℕ) (card : CardPresence)
    → target_found (c ∷ t ∷ a ∷ b ∷ s ∷ n ∷ rest) ≡ ok (target, card)
    → (t ≡ target) × (n ≤ length rest)
unfolding target_found
target_found-fits c t a b s n rest target card e =
    elim (parsed-cases _
      (target_historical_bytes-IsParsed (c ∷ t ∷ a ∷ b ∷ s ∷ n ∷ rest) (6 + n))) [
        | inl (historical, h) ↦ ground (arith, e, h)
        | inr (m, h) ↦ ground (arith, e, h)
      ]

abbrev shown : ℕ → ℕ → ℕ → ℕ → ℕ → ℕ → List ℕ → Listed
shown c t a b s n rest = record {
  target_count = c;
  target_number = t;
  sens_res = a ∷ b ∷ [];
  sel_res = s;
  uid = take n rest;
  uid_end = 6 + n;
}

listed_fields-fits :
    (c t a b s n : ℕ) (rest : List ℕ)
    → n ≤ length rest
    → listed_fields (c ∷ t ∷ a ∷ b ∷ s ∷ n ∷ rest) ≡ ok (shown c t a b s n rest)
unfolding listed_fields
listed_fields-fits c t a b s n rest fits = ground (arith, fits)

target_found-long :
    (response : List ℕ) (target : ℕ) (card : CardPresence)
    → target_found response ≡ ok (target, card)
    → 6 ≤ length response
unfolding target_found
target_found-long response target card e = ground arith

print_target-agrees :
    (response : List ℕ) (target : ℕ) (card : CardPresence) (printed : List Message)
    → target_found response ≡ ok (target, card)
    → (print_target response printed).1 ≡ ok (some target)
unfolding print_target
print_target-agrees (c ∷ t ∷ a ∷ b ∷ s ∷ n ∷ rest) target card printed e =
    let (same_target, fits) = target_found-fits c t a b s n rest target card e in
    rw (listed_fields-fits c t a b s n rest fits) (
      print_fields_ok (c ∷ t ∷ a ∷ b ∷ s ∷ n ∷ rest) (shown c t a b s n rest) printed
      ∙ ap (λ (x : ℕ). ok (some x)) same_target)
print_target-agrees [] target card printed e =
    absurd (omega (arith, target_found-long [] target card e))
print_target-agrees (c ∷ []) target card printed e =
    absurd (omega (arith, target_found-long (c ∷ []) target card e))
print_target-agrees (c ∷ t ∷ []) target card printed e =
    absurd (omega (arith, target_found-long (c ∷ t ∷ []) target card e))
print_target-agrees (c ∷ t ∷ a ∷ []) target card printed e =
    absurd (omega (arith, target_found-long (c ∷ t ∷ a ∷ []) target card e))
print_target-agrees (c ∷ t ∷ a ∷ b ∷ []) target card printed e =
    absurd (omega (arith, target_found-long (c ∷ t ∷ a ∷ b ∷ []) target card e))
print_target-agrees (c ∷ t ∷ a ∷ b ∷ s ∷ []) target card printed e =
    absurd (omega (arith, target_found-long (c ∷ t ∷ a ∷ b ∷ s ∷ []) target card e))

-- Where the driver takes a target and a card from a response that counts a target, the example
-- program reports the same target, whatever it printed before.
pub print_iso_type_a_target-agrees :
    (response : List ℕ) (target : ℕ) (card : CardPresence) (printed : List Message)
    → counts_no_target response ≡ false
    → target_found response ≡ ok (target, card)
    → (print_iso_type_a_target response printed).1 ≡ ok (some target)
unfolding print_iso_type_a_target
print_iso_type_a_target-agrees response target card printed counted e =
    rw counted (print_target-agrees response target card printed e)

-- On a response that ends with an answer to select, whose first byte counts all of its bytes as
-- ISO 14443-4 has it, the example program prints the answer to select as extra bytes: it adds one
-- byte for the length, so it does not report that ISO-DEP was activated.
pub print_ats-extra :
    (front rest : List ℕ) (b : ℕ) (printed : List Message)
    → b ≡ length (b ∷ rest)
    → print_ats (front ++ b ∷ rest) (length front) printed
      ≡ (printed ++ (text "ATS/extra: " ∷ chars (hex (b ∷ rest)) ∷ []) ∷ [], ok tt)
unfolding print_ats
print_ats-extra front rest b printed whole = ground (
  arith,
  whole,
  length-append front (b ∷ rest),
  get_elem?-append front rest b,
  drop-append_exact front (b ∷ rest),
)
