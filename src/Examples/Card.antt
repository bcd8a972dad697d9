-- ===== src/Examples/Card.antt =====
-- The theorems on the simulated card, at concrete APDUs.
use vusbipd_ccid.Base.{ℕ, ◌≡◌, ◌↔◌, refl, true, List, [], ◌∷◌, ◌++◌}
use vusbipd_ccid.Nfc.Dummy.{handle_apdu, fido, fido_aid}
use vusbipd_ccid.Nfc.Dummy.Session.{IsFidoSelect, handle_apdu-selects_iff}
use vusbipd_ccid.Examples.{dummy, short_select}

abbrev select : List ℕ
select = (0x00 ∷ 0xa4 ∷ 0x04 ∷ 0x00 ∷ 0x08 ∷ fido_aid) ++ (0x00 ∷ [])

handle_apdu-selects_iff_example :
    ((handle_apdu dummy select).0.selected_applet ≡ fido) ↔ ((true ≡ true) × IsFidoSelect select)
handle_apdu-selects_iff_example = handle_apdu-selects_iff dummy select refl

abbrev get_info : List ℕ
get_info = 0x80 ∷ 0x10 ∷ 0x80 ∷ 0x00 ∷ 0x01 ∷ 0x04 ∷ []

not_select : ¬ IsFidoSelect get_info
unfolding IsFidoSelect
not_select (p2, rest, h, e) = cc

not_short_select : ¬ IsFidoSelect short_select
unfolding IsFidoSelect
not_short_select (p2, rest, h, e) = cc
