-- ===== src/Nfc/Pn532/ListTarget/Fields.antt =====
-- examples/pn532_list_passive_target.rs: the fields of a response to a poll that are shown.
use vusbipd_ccid.Base.{ℕ, ◌+◌, List, [], ◌∷◌, length, ltb}
use vusbipd_ccid.Base.Result.{Result, ok, ◌>>=◌, ◌>>◌, fail_if, index, slice}
use vusbipd_ccid.Base.Text.{Message, text, num}

-- The fields, and where the UID ends.
pub record Listed : Type 0 where
  pub target_count : ℕ
  pub target_number : ℕ
  pub sens_res : List ℕ
  pub sel_res : ℕ
  pub uid : List ℕ
  pub uid_end : ℕ

unfoldable pub listed_fields : List ℕ → Result Message Listed
listed_fields response = do
  fail_if (ltb (length response) 6)
      (text "InListPassiveTarget response too short: " ∷ num (length response) ∷ text " bytes" ∷ [])
  target_count ← index response 0
  target_number ← index response 1
  sens_res ← slice response 2 4
  sel_res ← index response 4
  uid_len ← index response 5
  let uid_end = 6 + uid_len
  fail_if (ltb (length response) uid_end) (
      text "InListPassiveTarget response ended before UID: "
      ∷ num (length response)
      ∷ text " bytes"
      ∷ [])
  uid ← slice response 6 uid_end
  ok (record {
    target_count = target_count;
    target_number = target_number;
    sens_res = sens_res;
    sel_res = sel_res;
    uid = uid;
    uid_end = uid_end;
  })
