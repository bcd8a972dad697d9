-- ===== src/Nfc/Dummy/Status.antt =====
-- src/nfc/dummy.rs: every answer of the simulated card ends in a status word.
use vusbipd_ccid.Base.{ℕ, ◌≡◌, refl, true, List, [], ◌∷◌, ◌++◌, ◌⊎◌, inl, inr, arith, Option-cases}
use vusbipd_ccid.Base.Result.{Result, ok}
use vusbipd_ccid.Nfc.{ReaderError}
use vusbipd_ccid.Nfc.Dummy.{
  DummyReader, ShortApdu, parse_short_apdu, authenticator_get_info, handle_ctap_msg, ctap_success,
  ctap_error, ctap2_err_invalid_command, execute, handle_apdu, sw_success, sw_ins_not_supported,
  sw_wrong_parameters, sw_wrong_length, sw_file_not_found, fido_version_u2f_v2,
}

-- A body and the status of success, or the status of an error alone.
unfoldable pub IsReply : List ℕ → Type 0
IsReply reply =
    ((body : List ℕ) × (reply ≡ body ++ sw_success))
    ⊎ ((reply ≡ sw_ins_not_supported)
        ⊎ ((reply ≡ sw_wrong_parameters)
            ⊎ ((reply ≡ sw_wrong_length) ⊎ (reply ≡ sw_file_not_found))))

unfoldable pub Replies : Result ReaderError (List ℕ) → Type 0
Replies (ok reply) = IsReply reply
Replies r = ⊥

Replies-status :
    Replies (ok sw_ins_not_supported)
    × Replies (ok sw_wrong_parameters)
    × Replies (ok sw_wrong_length)
    × Replies (ok sw_file_not_found)
unfolding Replies IsReply
Replies-status =
    (inr (inl refl), inr (inr (inl refl)), inr (inr (inr (inl refl))), inr (inr (inr (inr refl))))

Replies-body : (body : List ℕ) → Replies (ok (body ++ sw_success))
unfolding Replies IsReply
Replies-body body = inl (body, refl)

authenticator_get_info_ok : (info : List ℕ) × (authenticator_get_info ≡ ok info)
unfolding authenticator_get_info
authenticator_get_info_ok = (_, refl)

handle_ctap_msg-Replies : (p1 : ℕ) (body : List ℕ) → Replies (handle_ctap_msg p1 body)
unfolding handle_ctap_msg
handle_ctap_msg-Replies p1 [] = ground (arith, Replies-status)
handle_ctap_msg-Replies p1 (c ∷ cs) =
    let (info, e) = authenticator_get_info_ok in
    ground (
      arith,
      e,
      Replies-status,
      Replies-body (ctap_success info),
      Replies-body (ctap_error ctap2_err_invalid_command),
    )

execute-Replies : (r : DummyReader) (a : ShortApdu) → Replies (execute r a).1
unfolding execute
execute-Replies r a = ground (
  arith,
  handle_ctap_msg-Replies a.p1 a.data_field,
  Replies-status,
  Replies-body [],
  Replies-body fido_version_u2f_v2,
)

-- As long as the card is present, every APDU, well-formed or not, is answered, by a status word
-- of an error or by a body with the status word of success.
pub handle_apdu-Replies :
    (r : DummyReader) (apdu : List ℕ) → r.card_present ≡ true → Replies (handle_apdu r apdu).1
unfolding handle_apdu
handle_apdu-Replies r apdu present = elim (Option-cases (parse_short_apdu apdu)) [
  | inl e ↦ ground (arith, Replies-status)
  | inr (a, e) ↦ ground (arith, execute-Replies r a)
]
