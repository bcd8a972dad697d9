-- ===== src/Nfc/Pn532/Target.antt =====
-- src/nfc/pn532.rs: what a poll makes of the chip's response: a target and its card.
use vusbipd_ccid.Base.{ℕ, ◌+◌, List, [], ◌∷◌, length, ltb, leb, if◌then◌else◌}
use vusbipd_ccid.Base.Result.{Result, ok, err, ◌>>=◌, ◌>>◌, fail_if, index, slice}
use vusbipd_ccid.Base.Text.{text, num}
use vusbipd_ccid.Nfc.{CardPresence, iso_dep, ReaderError, protocol}
use vusbipd_ccid.Nfc.Pn532.{ats_historical_bytes}

abbrev pub target_historical_bytes : List ℕ → ℕ → Result ReaderError (List ℕ)
target_historical_bytes response uid_end =
    if ltb uid_end (length response)
    then (do
      ats_len ← index response uid_end
      if leb (uid_end + ats_len) (length response)
          then (slice response uid_end (uid_end + ats_len) >>= ats_historical_bytes)
          else err (
              protocol (
                text "PN532 target response truncated before ATS: "
                ∷ num (length response)
                ∷ text " bytes"
                ∷ [])))
    else ok []

-- The rest of `poll_card` on a response that counts a target: its number and the card.
unfoldable pub target_found : List ℕ → Result ReaderError (ℕ × CardPresence)
target_found response = do
  fail_if (ltb (length response) 6) (
      protocol
        (text "PN532 target response too short: " ∷ num (length response) ∷ text " bytes" ∷ []))
  target ← index response 1
  uid_len ← index response 5
  let uid_end = 6 + uid_len
  fail_if (ltb (length response) uid_end) (
      protocol (
        text "PN532 target response truncated before UID: "
        ∷ num (length response)
        ∷ text " bytes"
        ∷ []))
  historical_bytes ← target_historical_bytes response uid_end
  uid ← slice response 6 uid_end
  ok (target, record { uid = uid; protocol = iso_dep; historical_bytes = historical_bytes })
