-- ===== src/UnitTests/Dummy.antt =====
-- The unit tests of src/nfc/dummy.rs.
use vusbipd_ccid.Base.{
  ℕ, ◌≡◌, refl, ◌-◌, Bool, true, ◌||◌, some, List, [], ◌∷◌, take, drop, length, get_elem?, bytes_eq,
}
use vusbipd_ccid.Base.Result.{Result, ok}
use vusbipd_ccid.Nfc.{ReaderError}
use vusbipd_ccid.Nfc.Dummy.{
  DummyReader, no_applet, handle_apdu, execute, parse_short_apdu, handle_ctap_msg,
  authenticator_get_info, fido_version_2_0,
}

abbrev reader : DummyReader
reader = record { card_present = true; selected_applet = no_applet }

abbrev select_fido : List ℕ
select_fido =
    0x00 ∷ 0xa4 ∷ 0x04 ∷ 0x00 ∷ 0x08 ∷ 0xa0 ∷ 0x00 ∷ 0x00 ∷ 0x06 ∷ 0x47 ∷ 0x2f ∷ 0x00 ∷ 0x01 ∷ []

-- `ends_with`
abbrev ends_with : List ℕ → List ℕ → Bool
ends_with xs end = bytes_eq (drop (length xs - length end) xs) end

-- `windows(n).any(|window| window == word)`
abbrev has_window : List ℕ → List ℕ → Bool
has_window [] word = bytes_eq [] word
has_window (x ∷ xs) word = bytes_eq (take (length word) (x ∷ xs)) word || has_window xs word

-- What holds of the value of a call that is expected to succeed.
abbrev Expect : Result ReaderError (List ℕ) → (List ℕ → Type 0) → Type 0
Expect (ok response) check = check response
Expect other check = ⊥

abbrev SelectFidoAidReturnsU2fV2 : Type 0
SelectFidoAidReturnsU2fV2 = Expect (handle_apdu reader select_fido).1 (λ response.
    (take 6 response ≡ b'U' ∷ b'2' ∷ b'F' ∷ b'_' ∷ b'V' ∷ b'2' ∷ [])
    × (ends_with response (0x90 ∷ 0x00 ∷ []) ≡ true))

select_fido_aid_returns_u2f_v2 : SelectFidoAidReturnsU2fV2
unfolding handle_apdu execute parse_short_apdu bytes_eq
select_fido_aid_returns_u2f_v2 = (refl, refl)

abbrev AuthenticatorGetInfoReturnsSuccessStatus : Type 0
AuthenticatorGetInfoReturnsSuccessStatus =
    let selected = handle_apdu reader select_fido in
    let get_info : List ℕ = 0x80 ∷ 0x10 ∷ 0x80 ∷ 0x00 ∷ 0x01 ∷ 0x04 ∷ [] in
    Expect selected.1 (λ first. Expect (handle_apdu selected.0 get_info).1 (λ response.
      (get_elem? response 0 ≡ some 0x00)
      × (has_window response fido_version_2_0 ≡ true)
      × (ends_with response (0x90 ∷ 0x00 ∷ []) ≡ true)))

authenticator_get_info_returns_success_status : AuthenticatorGetInfoReturnsSuccessStatus
unfolding handle_apdu execute parse_short_apdu bytes_eq handle_ctap_msg authenticator_get_info
authenticator_get_info_returns_success_status = (refl, refl, refl)
