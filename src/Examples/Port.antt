-- ===== src/Examples/Port.antt =====
-- The theorems on the PN532 parsers, with the bytes of a list as the port.
use vusbipd_ccid.Base.{
  ℕ, ◌≡◌, refl, List, [], ◌∷◌, ◌++◌, length, take, drop, ltb, if◌then◌else◌, arith,
  take-append_exact, drop-append_exact, length-append, length-take,
}
use vusbipd_ccid.Base.Result.{ok, Returned, value, fault}
use vusbipd_ccid.Base.Text.{Message, plain}
use vusbipd_ccid.Nfc.Pn532.{Read, receive_dynamic_response_from}
use vusbipd_ccid.Nfc.Pn532.Answer.{extended_frame, receive-extended_frame}

abbrev pub take_exact : List ℕ → ℕ → List ℕ × Returned Message (List ℕ)
take_exact bytes n =
    if ltb (length bytes) n
    then ([], fault (plain "failed to fill whole buffer"))
    else (drop n bytes, value (take n bytes))

abbrev bytes_port : Read (List ℕ)
bytes_port = record { read_exact = take_exact }

pub take_exact_front :
    (r bytes rest : List ℕ)
    → r ≡ bytes ++ rest
    → (r' : List ℕ) × (take_exact r (length bytes) ≡ (r', value bytes)) × (r' ≡ rest)
take_exact_front r bytes rest e = (
  rest,
  ground (
    arith,
    e,
    take-append_exact bytes rest,
    drop-append_exact bytes rest,
    length-append bytes rest,
  ),
  refl,
)

pub take_exact_length :
    (r r' : List ℕ) (n : ℕ) (bytes : List ℕ) → take_exact r n ≡ (r', value bytes) → length bytes ≡ n
take_exact_length r r' n bytes e = ground (arith, length-take n r)

abbrev status_word : List ℕ
status_word = 0x00 ∷ 0x90 ∷ 0x00 ∷ []

receive-extended_frame_example :
    (r' : List ℕ) × (receive_dynamic_response_from bytes_port
        (extended_frame 0x41 status_word ++ [])
        0x41
      ≡ (r', ok status_word))
    × (r' ≡ [])
receive-extended_frame_example =
    receive-extended_frame bytes_port (λ r. r) take_exact_front 0x41 status_word
      (extended_frame 0x41 status_word ++ []) [] (omega arith) refl
