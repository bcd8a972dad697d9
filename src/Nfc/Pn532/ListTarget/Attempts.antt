-- ===== src/Nfc/Pn532/ListTarget/Attempts.antt =====
-- examples/pn532_list_passive_target.rs: the polls of the program come to an end.
use mathlib.Core.Path.{subst}
use vusbipd_ccid.Base.{
  sym, not, bytes_eq, ◌++◌, ℕ, zero, suc, ◌+◌, ◌-◌, ◌≤◌, ◌<◌, ◌≡◌, true, false, List, [], ◌∷◌,
  length, arith, if_cases, inl, inr, length-append,
}
use vusbipd_ccid.Base.Result.{Result, Returns, ok, err, panic, stuck}
use vusbipd_ccid.Base.Run.{Run, Ends, call-cases}
use vusbipd_ccid.Base.Text.{Message}
use vusbipd_ccid.Nfc.Pn532.{
  Pn532Error, bad_ack, bad_response_frame, syntax, crc_error, buf_too_small, timeout_ack,
  timeout_response, interface_error,
}
use vusbipd_ccid.Nfc.Pn532.Chip.{BorrowedRequest, Pn532Device}
use vusbipd_ccid.Nfc.Pn532.Reader.{counts_no_target}
use vusbipd_ccid.Nfc.Pn532.Total.{read_then-Returns, receive_checked-Returns}
use vusbipd_ccid.Nfc.Pn532.Waiting.{IsDocumented, wait-cases}
use vusbipd_ccid.Nfc.Pn532.ListTarget.{poll_timeout_ms}
use vusbipd_ccid.Nfc.Pn532.ListTarget.Receive.{example_header, example_receive, example_preamble}
use vusbipd_ccid.Nfc.Pn532.ListTarget.Reception.{checked-agrees}
use vusbipd_ccid.Nfc.Pn532.ListTarget.Program.{
  Terminal, example_wait, example_process, polled, poll_attempts, poll_iso_a_target, attempts,
}

-- A response that counts a target, or an error.
unfoldable pub Found : Result Message (List ℕ) → Type 0
Found (ok response) = counts_no_target response ≡ false
Found (err e) = Unit
Found panic = ⊥
Found stuck = ⊥

one_more :
    (lines : List Message) (line : Message) → length (lines ++ line ∷ []) ≤ suc (length lines)
one_more lines line = omega (arith, length-append lines (line ∷ []))

module _ {P : Type 0} (pn532 : Pn532Device P) (documented : IsDocumented pn532) where
  example_header-Returns :
      (command : ℕ) (p : P) (bytes : List ℕ)
      → length bytes ≡ 5
      → Returns (example_header pn532 command p bytes).1
  unfolding example_header
  example_header-Returns command p (a ∷ b ∷ c ∷ d ∷ e ∷ []) h =
      if_cases (λ (x : P × Result Pn532Error (List ℕ)). Returns x.1)
        (not (bytes_eq (a ∷ b ∷ c ∷ []) example_preamble)) (λ _. tt)
        (λ _.
          subst (λ (x : P × Result Pn532Error (List ℕ)). Returns x.1)
            (sym (checked-agrees pn532 command p d e))
            (receive_checked-Returns pn532.port documented.length-read_exact command p d
              (d ∷ e ∷ [])))
  example_header-Returns command p [] h = absurd (omega arith)
  example_header-Returns command p (a ∷ []) h = absurd (omega arith)
  example_header-Returns command p (a ∷ b ∷ []) h = absurd (omega arith)
  example_header-Returns command p (a ∷ b ∷ c ∷ []) h = absurd (omega arith)
  example_header-Returns command p (a ∷ b ∷ c ∷ d ∷ []) h = absurd (omega arith)
  example_header-Returns command p (a ∷ b ∷ c ∷ d ∷ e ∷ f ∷ rest) h = absurd (omega arith)

  example_receive-Returns : (command : ℕ) (p : P) → Returns (example_receive pn532 command p).1
  unfolding example_receive
  example_receive-Returns command p =
      read_then-Returns pn532.port documented.length-read_exact p 5 (example_header pn532 command)
        (λ p' bytes five. example_header-Returns command p' bytes five)

  example_process-Returns :
      (request : BorrowedRequest) (timeout_ms : ℕ) (p : P)
      → request.command < 255
      → Returns (example_process pn532 request timeout_ms p).1
  unfolding example_process example_wait
  example_process-Returns request timeout_ms p h = elim (call-cases (pn532.send p request)) [
    | inr (p₁, e, sent) ↦ ground (arith, sent)
    | inl (p₁, u, sent) ↦ elim (wait-cases pn532 documented timeout_ms p₁) [
      | inr (p₂, e, waited) ↦ ground (arith, sent, waited)
      | inl (p₂, false, waited) ↦ ground (arith, sent, waited)
      | inl (p₂, true, waited) ↦ elim (call-cases (pn532.receive_ack p₂)) [
        | inr (p₃, e, acked) ↦ ground (arith, sent, waited, acked)
        | inl (p₃, v, acked) ↦ elim (wait-cases pn532 documented timeout_ms p₃) [
          | inr (p₄, e, again) ↦ ground (arith, sent, waited, acked, again)
          | inl (p₄, false, again) ↦ ground (arith, sent, waited, acked, again)
          | inl (p₄, true, again) ↦
              ground (
                arith,
                sent,
                waited,
                acked,
                again,
                example_receive-Returns (request.command + 1) p₄,
              )
        ]
      ]
    ]
  ]

  -- A target or an error, with so many lines printed at most.
  Bounded : ℕ → Terminal P → Result Message (List ℕ) → Type 0
  Bounded lines t x = Found x × (length t.printed ≤ lines)

  polled-Bounded :
      (again : Run (Terminal P) Message (List ℕ)) (attempt lines : ℕ)
      (y : Terminal P × Result Pn532Error (List ℕ))
      → Returns y.1
      → suc (length y.0.printed) ≤ lines
      → ((t : Terminal P)
          → length t.printed ≤ suc (length y.0.printed)
          → Ends (Bounded lines) (again t))
      → Ends (Bounded lines) (polled pn532 again attempt y)
  unfolding polled Bounded Found
  polled-Bounded again attempt lines (t, ok response) r fits h =
      if_cases (λ (m : Terminal P × Result Message (List ℕ)). Ends (Bounded lines) m)
        (counts_no_target response) (λ none_found. h _ (one_more t.printed _))
        (λ found. (found, omega (arith, fits)))
  polled-Bounded again attempt lines (t, err timeout_response) r fits h = h _ (one_more t.printed _)
  polled-Bounded again attempt lines (t, err bad_ack) r fits h = (tt, omega (arith, fits))
  polled-Bounded again attempt lines (t, err bad_response_frame) r fits h =
      (tt, omega (arith, fits))
  polled-Bounded again attempt lines (t, err syntax) r fits h = (tt, omega (arith, fits))
  polled-Bounded again attempt lines (t, err crc_error) r fits h = (tt, omega (arith, fits))
  polled-Bounded again attempt lines (t, err buf_too_small) r fits h = (tt, omega (arith, fits))
  polled-Bounded again attempt lines (t, err timeout_ack) r fits h = (tt, omega (arith, fits))
  polled-Bounded again attempt lines (t, err (interface_error inner)) r fits h =
      (tt, omega (arith, fits))
  polled-Bounded again attempt lines (t, panic) r fits h = elim r [ ]
  polled-Bounded again attempt lines (t, stuck) r fits h = elim r [ ]

  poll_attempts-Bounded :
      (port_name : List ℕ) (left : ℕ) (t : Terminal P) (lines : ℕ)
      → length t.printed + left ≤ lines
      → Ends (Bounded lines) (poll_attempts pn532 port_name left t)
  unfolding poll_attempts Bounded Found
  poll_attempts-Bounded port_name zero t lines fits = (tt, omega (arith, fits))
  poll_attempts-Bounded port_name (suc left) t lines fits =
      polled-Bounded (poll_attempts pn532 port_name left) (attempts - left) lines _
        (example_process-Returns pn532.inlist_one_iso_a_target poll_timeout_ms t.chip
          documented.inlist_below)
        (omega (arith, fits))
        (λ t' shown. poll_attempts-Bounded port_name left t' lines (omega (arith, fits, shown)))

  -- If the port and the clock behave as documented: the example program polls at most 20 times. The
  -- polls return, with no panic, a response that counts a target or an error, and print at most one
  -- line each.
  pub poll_iso_a_target-Found :
      (port_name : List ℕ) (t : Terminal P)
      → Ends
          (λ t' x. Found x × (length t'.printed ≤ length t.printed + 20))
          (poll_iso_a_target pn532 port_name t)
  unfolding poll_iso_a_target Bounded
  poll_iso_a_target-Found port_name t =
      poll_attempts-Bounded port_name 20 t (length t.printed + 20) (omega arith)
