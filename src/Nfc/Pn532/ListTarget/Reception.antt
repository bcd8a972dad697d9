-- ===== src/Nfc/Pn532/ListTarget/Reception.antt =====
-- examples/pn532_list_passive_target.rs: how the program and the driver read a response.
use vusbipd_ccid.Base.{
  ℕ, ◌+◌, ◌≡◌, ◌≢◌, refl, false, List, [], ◌∷◌, bytes_eq, bytes_eq→eq, arith, ◌⊎◌, inl, inr,
  Bool-cases, not, ◌==◌, if◌then◌else◌,
}
use vusbipd_ccid.Base.Bytes.{u8}
use vusbipd_ccid.Base.Result.{Result, err, value}
use vusbipd_ccid.Nfc.Pn532.{
  extended_frame_marker, receive_dynamic_response_from, receive_header, receive_checked,
  receive_body, read_then, check_frame, wrapping_sum, crc_error, Pn532Error, preamble,
}
use vusbipd_ccid.Nfc.Pn532.Chip.{Pn532Device}
use vusbipd_ccid.Nfc.Pn532.ListTarget.Receive.{
  example_frame, example_body, example_header, example_receive,
}

frame-agrees :
    (command : ℕ) (frame : List ℕ) → example_frame command frame ≡ check_frame command frame
unfolding example_frame check_frame
frame-agrees command frame = refl

sum-agrees : (a b : ℕ) → wrapping_sum (a ∷ b ∷ []) ≡ u8 (a + b)
sum-agrees a b = omega arith

abbrev extended_header : List ℕ
extended_header = 0x00 ∷ 0x00 ∷ 0xff ∷ 0xff ∷ 0xff ∷ []

other_start :
    (a b c d e : ℕ)
    → bytes_eq (a ∷ b ∷ c ∷ []) preamble ≡ false
    → (a ∷ b ∷ c ∷ d ∷ e ∷ []) ≢ extended_header
unfolding bytes_eq
other_start a b c d e other same = absurd (cc (other, same))

other_length :
    (a b c d e : ℕ)
    → bytes_eq (d ∷ e ∷ []) extended_frame_marker ≡ false
    → (a ∷ b ∷ c ∷ d ∷ e ∷ []) ≢ extended_header
unfolding bytes_eq
other_length a b c d e other same = absurd (cc (other, same))

module _ {P : Type 0} (pn532 : Pn532Device P) where
  body-agrees :
      (command : ℕ) (p : P) (n : ℕ)
      → example_body pn532 command p n ≡ receive_body pn532.port command p n
  unfolding example_body receive_body example_frame check_frame
  body-agrees command p n = refl

  -- A header of five bytes with the length `d` and its complement `e`.
  abbrev checked : ℕ → P → ℕ → ℕ → P × Result Pn532Error (List ℕ)
  checked command p d e =
      if not (u8 (d + e) == 0) then (p, err crc_error) else example_body pn532 command p d

  pub checked-agrees :
      (command : ℕ) (p : P) (d e : ℕ)
      → checked command p d e ≡ receive_checked pn532.port command p d (d ∷ e ∷ [])
  unfolding receive_checked
  checked-agrees command p d e = rw (sum-agrees d e) (rw (body-agrees command p d) refl)

  -- An extended frame, or one that both read alike.
  abbrev Compared : ℕ → P → List ℕ → Type 0
  Compared command p bytes =
      ((bytes ≡ extended_header) × (example_header pn532 command p bytes ≡ (p, err crc_error)))
      ⊎ ((bytes ≢ extended_header)
          × (example_header pn532 command p bytes ≡ receive_header pn532.port command p bytes))

  header-Compared : (command : ℕ) (p : P) (bytes : List ℕ) → Compared command p bytes
  unfolding example_header receive_header
  header-Compared command p [] = inr ((λ e. cc), refl)
  header-Compared command p (a ∷ []) = inr ((λ e. cc), refl)
  header-Compared command p (a ∷ b ∷ []) = inr ((λ e. cc), refl)
  header-Compared command p (a ∷ b ∷ c ∷ []) = inr ((λ e. cc), refl)
  header-Compared command p (a ∷ b ∷ c ∷ d ∷ []) = inr ((λ e. cc), refl)
  header-Compared command p (a ∷ b ∷ c ∷ d ∷ e ∷ f ∷ rest) = inr ((λ e. cc), refl)
  header-Compared command p (a ∷ b ∷ c ∷ d ∷ e ∷ []) =
      elim (Bool-cases (bytes_eq (a ∷ b ∷ c ∷ []) preamble)) [
        | inr other ↦ inr (other_start a b c d e other, rw other refl)
        | inl begins ↦ elim (Bool-cases (bytes_eq (d ∷ e ∷ []) extended_frame_marker)) [
          | inl extended ↦
              let start = bytes_eq→eq (a ∷ b ∷ c ∷ []) preamble begins in
              let marker = bytes_eq→eq (d ∷ e ∷ []) extended_frame_marker extended in
              let d_is : d ≡ 0xff = cc in
              let e_is : e ≡ 0xff = cc in inl (cc, rw begins (ground (arith, d_is, e_is)))
          | inr plain ↦
              inr
                (other_length a b c d e plain, rw begins (rw plain (checked-agrees command p d e)))
        ]
      ]

  -- Where five bytes are read as a header, the example program and the driver read the response
  -- alike, with the same data or error and the same bytes left on the port, unless the bytes begin an
  -- extended frame: there the example program fails with a checksum error and reads no further.
  pub example_receive-agrees :
      (command : ℕ) (p p' : P) (bytes : List ℕ)
      → pn532.port.read_exact p 5 ≡ (p', value bytes)
      → ((bytes ≡ 0x00 ∷ 0x00 ∷ 0xff ∷ 0xff ∷ 0xff ∷ [])
          × (example_receive pn532 command p ≡ (p', err crc_error)))
        ⊎ ((bytes ≢ 0x00 ∷ 0x00 ∷ 0xff ∷ 0xff ∷ 0xff ∷ [])
            × (example_receive pn532 command p
                ≡ receive_dynamic_response_from pn532.port p command))
  unfolding example_receive receive_dynamic_response_from read_then
  example_receive-agrees command p p' bytes read = rw read (header-Compared command p' bytes)
