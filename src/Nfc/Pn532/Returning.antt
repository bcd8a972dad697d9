-- ===== src/Nfc/Pn532/Returning.antt =====
-- src/nfc/pn532.rs: the methods of the reader end, and never by a panic.
use vusbipd_ccid.Base.{ℕ, ◌+◌, ◌<◌, ◌≡◌, List, true, false, arith, ◌⊎◌, inl, inr}
use vusbipd_ccid.Base.Result.{ok, err, Returns}
use vusbipd_ccid.Base.Run.{call-cases, run-cases}
use vusbipd_ccid.Nfc.Pn532.{Pn532Error}
use vusbipd_ccid.Nfc.Pn532.Chip.{BorrowedRequest, Pn532Device, process_dynamic_response}
use vusbipd_ccid.Nfc.Pn532.Waiting.{IsDocumented, wait-cases}
use vusbipd_ccid.Nfc.Pn532.Total.{receive-Returns}

module _ {P : Type 0} (device : Pn532Device P) (documented : IsDocumented device) where
  process_dynamic_response-Returns :
      (request : BorrowedRequest) (timeout_ms : ℕ) (p : P)
      → request.command < 255
      → Returns (process_dynamic_response device request timeout_ms p).1
  unfolding process_dynamic_response
  process_dynamic_response-Returns request timeout_ms p h =
      elim (call-cases (device.send p request)) [
        | inr (p₁, e, sent) ↦ ground (arith, sent)
        | inl (p₁, u, sent) ↦ elim (wait-cases device documented timeout_ms p₁) [
          | inr (p₂, e, waited) ↦ ground (arith, sent, waited)
          | inl (p₂, false, waited) ↦ ground (arith, sent, waited)
          | inl (p₂, true, waited) ↦ elim (call-cases (device.receive_ack p₂)) [
            | inr (p₃, e, acked) ↦ ground (arith, sent, waited, acked)
            | inl (p₃, v, acked) ↦ elim (wait-cases device documented timeout_ms p₃) [
              | inr (p₄, e, again) ↦ ground (arith, sent, waited, acked, again)
              | inl (p₄, ready, again) ↦ ground (
                arith,
                sent,
                waited,
                acked,
                again,
                receive-Returns device.port documented.length-read_exact p₄ (request.command + 1),
              )
            ]
          ]
        ]
      ]

  pub process-cases :
      (request : BorrowedRequest) (timeout_ms : ℕ) (p : P)
      → request.command < 255
      → ((p' : P) × (response : List ℕ) × (process_dynamic_response device request timeout_ms p
            ≡ (p', ok response)))
        ⊎ ((p' : P) × (x : Pn532Error) × (process_dynamic_response device request timeout_ms p
              ≡ (p', err x)))
  process-cases request timeout_ms p h =
      run-cases (process_dynamic_response device request timeout_ms p)
        (process_dynamic_response-Returns request timeout_ms p h)
