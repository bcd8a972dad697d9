-- ===== src/Nfc/Pn532/Answer.antt =====
-- Frames of the PN532 from its user manual, and what the driver makes of them.
use mathlib.Core.List.{foldl}
use vusbipd_ccid.Base.{
  ℕ, ◌+◌, ◌-◌, ◌*◌, ◌/◌, ◌%◌, ◌≤◌, ◌<◌, ◌≡◌, refl, sym, ◌∙◌, ap, some, List, [], ◌∷◌, ◌++◌, length,
  take, arith, get_elem?, take-append_exact, length-append, bytes_eq_self, bytes_eq→eq,
}
use vusbipd_ccid.Base.Result.{Result, ok, value}
use vusbipd_ccid.Base.Bytes.{u8}
use vusbipd_ccid.Nfc.Pn532.{
  preamble, extended_frame_marker, Read, Pn532Error, wrapping_sum, check_frame,
  receive_dynamic_response_from, receive_header, receive_checked, receive_body, receive_extended,
  read_then,
}

-- The byte that makes a sum 0.
abbrev pub complement : List ℕ → ℕ
complement bytes = (256 - wrapping_sum bytes) % 256

foldl_last :
    (acc c : ℕ) (bytes : List ℕ)
    → foldl (λ sum byte. u8 (sum + byte)) acc (bytes ++ c ∷ [])
      ≡ u8 (foldl (λ sum byte. u8 (sum + byte)) acc bytes + c)
foldl_last acc c [] = refl
foldl_last acc c (b ∷ bytes) = foldl_last (u8 (acc + b)) c bytes

foldl_byte :
    (acc : ℕ) (bytes : List ℕ) → acc < 256 → foldl (λ sum byte. u8 (sum + byte)) acc bytes < 256
foldl_byte acc [] h = h
foldl_byte acc (b ∷ bytes) h = foldl_byte (u8 (acc + b)) bytes (omega arith)

cancelled : (n : ℕ) → n < 256 → u8 (n + (256 - n) % 256) ≡ 0
cancelled n h = omega arith

wrapping_sum-complement : (bytes : List ℕ) → wrapping_sum (bytes ++ complement bytes ∷ []) ≡ 0
wrapping_sum-complement bytes =
    foldl_last 0 (complement bytes) bytes
    ∙ cancelled (wrapping_sum bytes) (foldl_byte 0 bytes (omega arith))

-- What follows the length of an answer: TFI, the command, the data, the checksum and the postamble.
abbrev pub answer_summed : ℕ → List ℕ → List ℕ
answer_summed command data_bytes =
    (0xd5 ∷ command ∷ data_bytes) ++ complement (0xd5 ∷ command ∷ data_bytes) ∷ []

abbrev pub answer_body : ℕ → List ℕ → List ℕ
answer_body command data_bytes = answer_summed command data_bytes ++ 0x00 ∷ []

get_elem?-last : {A : Type 0} (xs : List A) (x : A) → get_elem? (xs ++ x ∷ []) (length xs) ≡ some x
get_elem?-last [] x = refl
get_elem?-last (y ∷ xs) x = get_elem?-last xs x

data_part :
    (data_bytes : List ℕ) (c d : ℕ)
    → take (length data_bytes) ((data_bytes ++ c ∷ []) ++ d ∷ []) ≡ data_bytes
data_part [] c d = refl
data_part (b ∷ data_bytes) c d = ap (◌∷◌ b) (data_part data_bytes c d)

check_frame_summed :
    (command c : ℕ) (data_bytes : List ℕ)
    → wrapping_sum ((0xd5 ∷ command ∷ data_bytes) ++ c ∷ []) ≡ 0
    → check_frame command (((0xd5 ∷ command ∷ data_bytes) ++ c ∷ []) ++ 0x00 ∷ []) ≡ ok data_bytes
unfolding check_frame
check_frame_summed command c data_bytes zero_sum =
    let summed : List ℕ = (0xd5 ∷ command ∷ data_bytes) ++ c ∷ [] in
    ground (
      arith,
      zero_sum,
      length-append summed (0x00 ∷ []),
      length-append data_bytes (c ∷ []),
      get_elem?-last summed 0x00,
      take-append_exact summed (0x00 ∷ []),
      data_part data_bytes c 0x00,
    )

length-answer_body :
    (command : ℕ) (data_bytes : List ℕ)
    → length (answer_body command data_bytes) ≡ length data_bytes + 2 + 2
length-answer_body command data_bytes =
    let c = complement (0xd5 ∷ command ∷ data_bytes) in
    omega (
      arith,
      length-append (answer_summed command data_bytes) (0x00 ∷ []),
      length-append data_bytes (c ∷ []),
    )

check_frame-answer_body :
    (command : ℕ) (data_bytes : List ℕ)
    → check_frame command (answer_body command data_bytes) ≡ ok data_bytes
check_frame-answer_body command data_bytes =
    check_frame_summed command (complement (0xd5 ∷ command ∷ data_bytes)) data_bytes
      (wrapping_sum-complement (0xd5 ∷ command ∷ data_bytes))

-- A normal frame: preamble, length, its complement, and the body.
abbrev pub normal_frame : ℕ → List ℕ → List ℕ
normal_frame command data_bytes =
    let n = length data_bytes + 2 in
    (0x00 ∷ 0x00 ∷ 0xff ∷ n ∷ complement (n ∷ []) ∷ []) ++ answer_body command data_bytes

-- An extended frame: the marker, the length in two bytes, and the byte that makes their sum 0.
abbrev pub extended_head : ℕ → List ℕ
extended_head n = n / 256 ∷ n % 256 ∷ complement (n / 256 ∷ n % 256 ∷ []) ∷ []

abbrev pub extended_frame : ℕ → List ℕ → List ℕ
extended_frame command data_bytes =
    (0x00 ∷ 0x00 ∷ 0xff ∷ 0xff ∷ 0xff ∷ [])
    ++ (extended_head (length data_bytes + 2) ++ answer_body command data_bytes)

module _ {R : Type 0} (read : Read R) where
  receive_header-normal :
      (command : ℕ) (r : R) (n : ℕ)
      → n < 255
      → receive_header read command r (0x00 ∷ 0x00 ∷ 0xff ∷ n ∷ complement (n ∷ []) ∷ [])
        ≡ receive_body read command r n
  unfolding receive_header receive_checked
  receive_header-normal command r n h =
      let sum : wrapping_sum (n ∷ complement (n ∷ []) ∷ []) ≡ 0 =
        wrapping_sum-complement (n ∷ []) in
      ground (
        arith,
        sum,
        bytes_eq_self preamble,
        bytes_eq→eq (n ∷ complement (n ∷ []) ∷ []) extended_frame_marker,
      )

  receive_header-extended :
      (command : ℕ) (r : R)
      → receive_header read command r (0x00 ∷ 0x00 ∷ 0xff ∷ 0xff ∷ 0xff ∷ [])
        ≡ read_then read r 3 (receive_extended read command)
  unfolding receive_header
  receive_header-extended command r =
      ground (arith, bytes_eq_self preamble, bytes_eq_self extended_frame_marker)

  receive_extended-head :
      (command : ℕ) (r : R) (n : ℕ)
      → receive_extended read command r (extended_head n) ≡ receive_body read command r n
  unfolding receive_extended receive_checked
  receive_extended-head command r n =
      let same : 256 * (n / 256) + n % 256 ≡ n = omega arith in
      let sum : wrapping_sum (extended_head n) ≡ 0 =
        wrapping_sum-complement (n / 256 ∷ n % 256 ∷ []) in
      ground (arith, same, sum)

-- `supply` is what is still to be read: as many bytes as asked for are read off its front.
module _ {R : Type 0} (read : Read R) (supply : R → List ℕ)
    (exact : (r : R) (bytes rest : List ℕ)
      → supply r ≡ bytes ++ rest
      → (r' : R) × (read.read_exact r (length bytes) ≡ (r', value bytes))
        × (supply r' ≡ rest)) where
  read_then_exact :
      {A : Type 0} (use_bytes : R → List ℕ → R × Result Pn532Error A) (r : R) (bytes rest : List ℕ)
      → supply r ≡ bytes ++ rest
      → (r' : R) × (read_then read r (length bytes) use_bytes ≡ use_bytes r' bytes)
        × (supply r' ≡ rest)
  unfolding read_then
  read_then_exact use_bytes r bytes rest e =
      let (r', given, left) = exact r bytes rest e in (r', rw given refl, left)

  receive_body_exact :
      (command : ℕ) (data_bytes : List ℕ) (r : R) (rest : List ℕ)
      → supply r ≡ answer_body command data_bytes ++ rest
      → (r' : R) × (receive_body read command r (length data_bytes + 2) ≡ (r', ok data_bytes))
        × (supply r' ≡ rest)
  unfolding receive_body
  receive_body_exact command data_bytes r rest e =
      let k : R → List ℕ → R × Result Pn532Error (List ℕ) =
        λ r' frame. (r', check_frame command frame) in
      let (r', given, left) = read_then_exact k r (answer_body command data_bytes) rest e in
      let reads : read_then read r (length data_bytes + 2 + 2) k ≡ (r', ok data_bytes) =
        ap (λ (m : ℕ). read_then read r m k) (sym (length-answer_body command data_bytes))
        ∙ given
        ∙ ap (λ x. (r', x)) (check_frame-answer_body command data_bytes) in
      (r', ground (arith, reads), left)

  -- If a read takes the bytes asked for off the front of what the port delivers: an answer of at
  -- most 252 bytes of data, in a normal frame with its checksums, is read as these data, and what
  -- follows the frame is left on the port.
  pub receive-normal_frame :
      (command : ℕ) (data_bytes : List ℕ) (r : R) (rest : List ℕ)
      → length data_bytes ≤ 252
      → supply r ≡ normal_frame command data_bytes ++ rest
      → (r' : R) × (receive_dynamic_response_from read r command ≡ (r', ok data_bytes))
        × (supply r' ≡ rest)
  unfolding receive_dynamic_response_from
  receive-normal_frame command data_bytes r rest short e =
      let n : ℕ = length data_bytes + 2 in
      let head : List ℕ = 0x00 ∷ 0x00 ∷ 0xff ∷ n ∷ complement (n ∷ []) ∷ [] in
      let (r₁, given, left) = read_then_exact (receive_header read command) r head _ e in
      let (r₂, parsed, done) = receive_body_exact command data_bytes r₁ rest left in
      (r₂, given ∙ receive_header-normal read command r₁ n (omega arith) ∙ parsed, done)

  -- If a read takes the bytes asked for off the front of what the port delivers: an answer of at
  -- most 65533 bytes of data, in an extended frame with its checksums, is read as these data, and
  -- what follows the frame is left on the port.
  pub receive-extended_frame :
      (command : ℕ) (data_bytes : List ℕ) (r : R) (rest : List ℕ)
      → length data_bytes ≤ 65533
      → supply r ≡ extended_frame command data_bytes ++ rest
      → (r' : R) × (receive_dynamic_response_from read r command ≡ (r', ok data_bytes))
        × (supply r' ≡ rest)
  unfolding receive_dynamic_response_from
  receive-extended_frame command data_bytes r rest fits e =
      let n : ℕ = length data_bytes + 2 in
      let (r₁, given, left) =
        read_then_exact (receive_header read command) r (0x00 ∷ 0x00 ∷ 0xff ∷ 0xff ∷ 0xff ∷ []) _
          e in
      let (r₂, given', left') =
        read_then_exact (receive_extended read command) r₁ (extended_head n) _ left in
      let (r₃, parsed, done) = receive_body_exact command data_bytes r₂ rest left' in
      (
        r₃,
        given
            ∙ receive_header-extended read command r₁
            ∙ given'
            ∙ receive_extended-head read command r₂ n
            ∙ parsed,
        done,
      )
