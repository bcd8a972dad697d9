-- ===== src/Nfc/Dummy/Session.antt =====
-- src/nfc/dummy.rs: the applet that a session has selected, and what depends on it.
use vusbipd_ccid.Base.{
  All, ◌∙◌, sym, ap, length-take, ◌≤◌, ℕ, ◌≡◌, true, Option, none, some, List, [], ◌∷◌, ◌++◌, ◌⊎◌,
  ◌↔◌, inl, inr, arith, Option-cases, length, take, drop, bytes_eq, bytes_eq→eq, bytes_eq_self,
  take-append-drop,
}
use vusbipd_ccid.Base.Result.{Result, ok}
use vusbipd_ccid.Nfc.{ReaderError}
use vusbipd_ccid.Nfc.Dummy.{
  DummyReader, no_applet, fido, ShortApdu, parse_short_apdu, is_select, execute, handle_apdu,
  sw_wrong_length, fido_aid,
}

-- The bytes of a SELECT of the FIDO applet, with or without bytes after the name.
unfoldable pub IsFidoSelect : List ℕ → Type 0
IsFidoSelect apdu =
    (p2 : ℕ) × (rest : List ℕ) × ((p2 ≡ 0x00) ⊎ (p2 ≡ 0x0c))
    × (apdu ≡ (0x00 ∷ 0xa4 ∷ 0x04 ∷ p2 ∷ 0x08 ∷ fido_aid) ++ rest)

Selects : Option ShortApdu → Type 0
Selects none = ⊥
Selects (some a) = (is_select a ≡ true) × (bytes_eq a.data_field fido_aid ≡ true)

not-Selects-none : ¬ Selects none
unfolding Selects
not-Selects-none h = h

parse_short_apdu-select :
    (p2 : ℕ) (rest : List ℕ)
    → (p2 ≡ 0x00) ⊎ (p2 ≡ 0x0c)
    → Selects (parse_short_apdu ((0x00 ∷ 0xa4 ∷ 0x04 ∷ p2 ∷ 0x08 ∷ fido_aid) ++ rest))
unfolding parse_short_apdu Selects
parse_short_apdu-select p2 rest h = ground (arith, bytes_eq_self fido_aid)

aid-field :
    (lc : ℕ) (body : List ℕ)
    → lc ≤ length body
    → take lc body ≡ fido_aid
    → (lc ≡ 8) × (body ≡ fido_aid ++ drop lc body)
aid-field lc body fits e = (
  omega (arith, length-take lc body, ap (λ (l : List ℕ). length l) e),
  sym (take-append-drop lc body) ∙ ap (λ (l : List ℕ). l ++ drop lc body) e,
)

select-fields :
    (cla ins p1 p2 lc b : ℕ) (body : List ℕ)
    → Selects (parse_short_apdu (cla ∷ ins ∷ p1 ∷ p2 ∷ lc ∷ b ∷ body))
    → (cla ≡ 0x00)
      × (ins ≡ 0xa4)
      × (p1 ≡ 0x04)
      × ((p2 ≡ 0x00) ⊎ (p2 ≡ 0x0c))
      × (lc ≤ length (b ∷ body))
      × (take lc (b ∷ body) ≡ fido_aid)
unfolding parse_short_apdu Selects
select-fields cla ins p1 p2 lc b body h = ground (arith, bytes_eq→eq (take lc (b ∷ body)) fido_aid)

select-parse_short_apdu : (apdu : List ℕ) → Selects (parse_short_apdu apdu) → IsFidoSelect apdu
unfolding parse_short_apdu Selects IsFidoSelect
select-parse_short_apdu (cla ∷ ins ∷ p1 ∷ p2 ∷ lc ∷ b ∷ body) h =
    let (ec, ei, e1, e2, fits, e) = select-fields cla ins p1 p2 lc b body h in
    let (el, eb) = aid-field lc (b ∷ body) fits e in (p2, drop lc (b ∷ body), e2, cc)
select-parse_short_apdu (cla ∷ ins ∷ p1 ∷ p2 ∷ lc ∷ []) h = ground (arith, bytes_eq→eq [] fido_aid)
select-parse_short_apdu (cla ∷ ins ∷ p1 ∷ p2 ∷ []) h = ground (arith, bytes_eq→eq [] fido_aid)
select-parse_short_apdu (cla ∷ ins ∷ p1 ∷ []) h = ground arith
select-parse_short_apdu (cla ∷ ins ∷ []) h = ground arith
select-parse_short_apdu (cla ∷ []) h = ground arith
select-parse_short_apdu [] h = ground arith

execute-Selects_iff :
    (r : DummyReader) (a : ShortApdu)
    → r.selected_applet ≡ no_applet
    → ((execute r a).0.selected_applet ≡ fido) ↔ Selects (some a)
unfolding execute Selects
execute-Selects_iff r a h = ground arith

parse_short_apdu-Selects_iff : (apdu : List ℕ) → Selects (parse_short_apdu apdu) ↔ IsFidoSelect apdu
unfolding IsFidoSelect
parse_short_apdu-Selects_iff apdu =
    (select-parse_short_apdu apdu, λ (p2, rest, h, e). rw e (parse_short_apdu-select p2 rest h))

-- From a reader with no applet selected, an APDU leaves the FIDO applet selected if and only if a
-- card is present and the APDU is the SELECT of the FIDO applet: `00 a4 04`, `00` or `0c`, `08`,
-- the eight bytes of the name, and anything after that.
pub handle_apdu-selects_iff :
    (r : DummyReader) (apdu : List ℕ)
    → r.selected_applet ≡ no_applet
    → ((handle_apdu r apdu).0.selected_applet ≡ fido)
      ↔ ((r.card_present ≡ true) × IsFidoSelect apdu)
unfolding handle_apdu
handle_apdu-selects_iff r apdu h =
    let fido_select = parse_short_apdu-Selects_iff apdu in
    elim (Option-cases (parse_short_apdu apdu)) [
      | inl e ↦ ground (arith, e, not-Selects-none, fido_select)
      | inr (a, e) ↦ ground (arith, e, fido_select, execute-Selects_iff r a h)
    ]

-- A session: the state after the APDUs, and their answers.
pub session : DummyReader → List (List ℕ) → List (Result ReaderError (List ℕ))
session r [] = []
session r (apdu ∷ apdus) = (handle_apdu r apdu).1 ∷ session (handle_apdu r apdu).0 apdus

-- An answer of two bytes.
pub IsBare : Result ReaderError (List ℕ) → Type 0
IsBare (ok (sw1 ∷ sw2 ∷ [])) = Unit
IsBare r = ⊥

execute-IsBare :
    (r : DummyReader) (a : ShortApdu)
    → r.selected_applet ≡ no_applet
    → ¬ Selects (some a)
    → IsBare (execute r a).1 × ((execute r a).0 ≡ r)
unfolding execute Selects IsBare
execute-IsBare r a h k = ground (arith, h, k)

IsBare-status : IsBare (ok sw_wrong_length)
unfolding IsBare
IsBare-status = tt

unselected-IsBare :
    (r : DummyReader) (apdu : List ℕ)
    → r.card_present ≡ true
    → r.selected_applet ≡ no_applet
    → ¬ IsFidoSelect apdu
    → IsBare (handle_apdu r apdu).1 × ((handle_apdu r apdu).0 ≡ r)
unfolding handle_apdu
unselected-IsBare r apdu present h k =
    let fido_select = parse_short_apdu-Selects_iff apdu in
    elim (Option-cases (parse_short_apdu apdu)) [
      | inl e ↦ ground (arith, e, IsBare-status)
      | inr (a, e) ↦ ground (arith, e, k, fido_select, execute-IsBare r a h)
    ]

-- In a session on the simulated card, with the card present, that starts with no applet selected and
-- holds no SELECT of the FIDO applet, every answer is a status word alone: no data of the applet is
-- given out.
pub session-IsBare :
    (r : DummyReader) (apdus : List (List ℕ))
    → r.card_present ≡ true
    → r.selected_applet ≡ no_applet
    → All (λ apdu. ¬ IsFidoSelect apdu) apdus
    → All IsBare (session r apdus)
unfolding session
session-IsBare r [] present h none_selected = tt
session-IsBare r (apdu ∷ apdus) present h (unselected, rest) =
    let (bare, same) = unselected-IsBare r apdu present h unselected in
    (bare, rw same (session-IsBare r apdus present h rest))
