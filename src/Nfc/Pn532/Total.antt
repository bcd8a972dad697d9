-- ===== src/Nfc/Pn532/Total.antt =====
-- The parser of PN532 responses on any bytes.
use vusbipd_ccid.Base.{
  ◌*◌, ==→ne, some, inl, inr, ℕ, zero, suc, ◌+◌, ◌-◌, ◌≤◌, ◌≡◌, refl, List, [], ◌∷◌, length, arith,
  if_cases, not, ◌==◌, bytes_eq, get_elem?,
}
use vusbipd_ccid.Base.Result.{Result, Returns, value}
use vusbipd_ccid.Base.Run.{call-cases}
use vusbipd_ccid.Nfc.Pn532.{
  preamble, extended_frame_marker, Read, Pn532Error, check_frame, wrapping_sum,
  receive_dynamic_response_from, receive_header, receive_checked, receive_body, receive_extended,
  read_then,
}

pub index_within :
    (bytes : List ℕ) (i : ℕ) → suc i ≤ length bytes → (b : ℕ) × (get_elem? bytes i ≡ some b)
index_within [] i h = absurd (omega arith)
index_within (b ∷ bytes) zero h = (b, refl)
index_within (b ∷ bytes) (suc i) h = index_within bytes i (omega arith)

check_frame-Returns :
    (command : ℕ) (frame : List ℕ) → 4 ≤ length frame → Returns (check_frame command frame)
unfolding check_frame
check_frame-Returns command frame h =
    let (last, e) = index_within frame (length frame - 1) (omega arith) in
    let (first, e₀) = index_within frame 0 (omega arith) in
    let (second, e₁) = index_within frame 1 (omega arith) in ground (arith, e, e₀, e₁)

module _ {R : Type 0} (read : Read R)
    (exact : (r r' : R) (n : ℕ) (bytes : List ℕ)
      → read.read_exact r n ≡ (r', value bytes)
      → length bytes ≡ n) where
  pub read_then-Returns :
      {A : Type 0} (r : R) (n : ℕ) (use_bytes : R → List ℕ → R × Result Pn532Error A)
      → ((r' : R) (bytes : List ℕ) → length bytes ≡ n → Returns (use_bytes r' bytes).1)
      → Returns (read_then read r n use_bytes).1
  unfolding read_then
  read_then-Returns r n use_bytes h = elim (call-cases (read.read_exact r n)) [
    | inl (r', bytes, e) ↦ rw e (h r' bytes (exact r r' n bytes e))
    | inr (r', x, e) ↦ rw e tt
  ]

  receive_body-Returns : (command : ℕ) (r : R) (n : ℕ) → Returns (receive_body read command r n).1
  unfolding receive_body
  receive_body-Returns command r n =
      if_cases (λ (d : R × Result Pn532Error (List ℕ)). Returns d.1) (n == 0) (λ _. tt)
        (λ many.
          if_cases (λ (d : R × Result Pn532Error (List ℕ)). Returns d.1) (n == 1) (λ _. tt)
            (λ more.
              read_then-Returns r (n + 2) (λ r' frame. (r', check_frame command frame))
                (λ r' bytes long.
                  check_frame-Returns command bytes
                    (omega (arith, long, ==→ne n 0 many, ==→ne n 1 more)))))

  pub receive_checked-Returns :
      (command : ℕ) (r : R) (n : ℕ) (checked : List ℕ)
      → Returns (receive_checked read command r n checked).1
  unfolding receive_checked
  receive_checked-Returns command r n checked =
      if_cases (λ (d : R × Result Pn532Error (List ℕ)). Returns d.1)
        (not (wrapping_sum checked == 0)) (λ _. tt) (λ _. receive_body-Returns command r n)

  receive_extended-Returns :
      (command : ℕ) (r : R) (bytes : List ℕ)
      → length bytes ≡ 3
      → Returns (receive_extended read command r bytes).1
  unfolding receive_extended
  receive_extended-Returns command r (a ∷ b ∷ c ∷ []) h =
      receive_checked-Returns command r (256 * a + b) (a ∷ b ∷ c ∷ [])
  receive_extended-Returns command r [] h = absurd (omega arith)
  receive_extended-Returns command r (a ∷ []) h = absurd (omega arith)
  receive_extended-Returns command r (a ∷ b ∷ []) h = absurd (omega arith)
  receive_extended-Returns command r (a ∷ b ∷ c ∷ d ∷ bytes) h = absurd (omega arith)

  receive_header-Returns :
      (command : ℕ) (r : R) (bytes : List ℕ)
      → length bytes ≡ 5
      → Returns (receive_header read command r bytes).1
  unfolding receive_header
  receive_header-Returns command r (a ∷ b ∷ c ∷ d ∷ e ∷ []) h =
      if_cases (λ (x : R × Result Pn532Error (List ℕ)). Returns x.1)
        (not (bytes_eq (a ∷ b ∷ c ∷ []) preamble)) (λ _. tt)
        (λ _.
          if_cases (λ (x : R × Result Pn532Error (List ℕ)). Returns x.1)
            (bytes_eq (d ∷ e ∷ []) extended_frame_marker)
            (λ _.
              read_then-Returns r 3 (receive_extended read command)
                (λ r' bytes three. receive_extended-Returns command r' bytes three))
            (λ _. receive_checked-Returns command r d (d ∷ e ∷ [])))
  receive_header-Returns command r [] h = absurd (omega arith)
  receive_header-Returns command r (a ∷ []) h = absurd (omega arith)
  receive_header-Returns command r (a ∷ b ∷ []) h = absurd (omega arith)
  receive_header-Returns command r (a ∷ b ∷ c ∷ []) h = absurd (omega arith)
  receive_header-Returns command r (a ∷ b ∷ c ∷ d ∷ []) h = absurd (omega arith)
  receive_header-Returns command r (a ∷ b ∷ c ∷ d ∷ e ∷ f ∷ bytes) h = absurd (omega arith)

  -- If a read that succeeds gives as many bytes as were asked for, reading a response returns on every
  -- stream of bytes, with the data or an error: no index or slice is out of range, whatever length the
  -- header states.
  pub receive-Returns :
      (r : R) (command : ℕ) → Returns (receive_dynamic_response_from read r command).1
  unfolding receive_dynamic_response_from
  receive-Returns r command =
      read_then-Returns r 5 (receive_header read command)
        (λ r' bytes five. receive_header-Returns command r' bytes five)
