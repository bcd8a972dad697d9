-- ===== src/Nfc/Pn532/Waiting.antt =====
-- src/nfc/pn532.rs: the wait for the serial port, by the clock.
use vusbipd_ccid.Base.{
  ap, ℕ, zero, suc, ◌+◌, ◌*◌, ◌/◌, ◌≤◌, ◌<◌, ◌≡◌, List, Bool, true, false, arith, length, ◌⊎◌, inl,
  inr,
}
use vusbipd_ccid.Base.Result.{Result, Returns, ok, err, panic, stuck, Returned, value}
use vusbipd_ccid.Base.Run.{Run, Ends, call-cases, run-cases}
use vusbipd_ccid.Base.Text.{Message}
use vusbipd_ccid.Nfc.Pn532.Chip.{
  Pn532Device, from_millis, wait_round, wait_until, wait_serial_ready, instant_now,
}

-- What the driver relies on: time does not run backwards, a sleep takes as long as asked for at
-- least, `read_exact` gives as many bytes as asked for, and a command byte is not the last byte.
pub record IsDocumented {P : Type 0} (device : Pn532Device P) : Type 0 where
  pub clock : P → ℕ
  pub clock-now :
      (p : P) → (clock p ≤ (device.now p).1) × ((device.now p).1 ≤ clock (device.now p).0)
  pub clock-sleep : (p : P) (duration : ℕ) → clock p + duration ≤ clock (device.sleep p duration)
  pub clock-bytes_to_read : (p : P) → clock p ≤ clock (device.bytes_to_read p).0
  pub length-read_exact :
      (p p' : P) (n : ℕ) (bytes : List ℕ)
      → device.port.read_exact p n ≡ (p', value bytes)
      → length bytes ≡ n
  pub in_data_exchange_below : device.in_data_exchange < 255
  pub inlist_below : device.inlist_one_iso_a_target.command < 255

-- The end of a wait: a failure of the port, bytes to read, or the deadline reached.
pub Waited : ℕ → ℕ → Result Message Bool → Type 0
Waited deadline time (ok true) = Unit
Waited deadline time (ok false) = deadline ≤ time
Waited deadline time (err e) = Unit
Waited deadline time panic = ⊥
Waited deadline time stuck = ⊥

Waited-le :
    (early late time : ℕ) (x : Result Message Bool)
    → early ≤ late
    → Waited late time x
    → Waited early time x
unfolding Waited
Waited-le early late time (ok true) h waited = tt
Waited-le early late time (ok false) h waited = omega arith
Waited-le early late time (err e) h waited = tt
Waited-le early late time panic h waited = elim waited [ ]
Waited-le early late time stuck h waited = elim waited [ ]

Waited-Returns : (deadline time : ℕ) (x : Result Message Bool) → Waited deadline time x → Returns x
unfolding Waited
Waited-Returns deadline time (ok ready) waited = tt
Waited-Returns deadline time (err e) waited = tt
Waited-Returns deadline time panic waited = elim waited [ ]
Waited-Returns deadline time stuck waited = elim waited [ ]

module _ {P : Type 0} (device : Pn532Device P) (documented : IsDocumented device) where
  clock-available :
      (p p' : P) (x : Returned Message ℕ)
      → device.bytes_to_read (device.now p).0 ≡ (p', x)
      → documented.clock p ≤ documented.clock p'
  clock-available p p' x e = omega (
    arith,
    documented.clock-now p,
    documented.clock-bytes_to_read (device.now p).0,
    ap (λ (y : P × Returned Message ℕ). documented.clock y.0) e,
  )

  wait_round-Waited :
      (deadline : ℕ) (rest : Run P Message Bool) (p : P)
      → ((p' : P)
          → documented.clock p < deadline
          → documented.clock p + from_millis 5 ≤ documented.clock p'
          → Ends (λ p'' x. Waited deadline (documented.clock p'') x) (rest p'))
      → Ends (λ p' x. Waited deadline (documented.clock p') x) (wait_round device deadline rest p)
  unfolding wait_round instant_now Waited
  wait_round-Waited deadline rest p h = elim (call-cases (device.bytes_to_read (device.now p).0)) [
    | inl (p', n, e) ↦ ground (
      arith,
      e,
      clock-available p p' (value n) e,
      documented.clock-now p,
      documented.clock-sleep p' (from_millis 5),
      h (device.sleep p' (from_millis 5)),
    )
    | inr (p', x, e) ↦ ground (arith, e, documented.clock-now p)
  ]

  wait_until-Waited :
      (rounds deadline : ℕ) (p : P)
      → deadline ≤ documented.clock p + from_millis 5 * rounds
      → Ends
          (λ p' x. Waited deadline (documented.clock p') x)
          (wait_until device (suc rounds) deadline p)
  unfolding wait_until
  wait_until-Waited zero deadline p h =
      wait_round-Waited deadline (wait_until device 0 deadline) p
        (λ p' early later. absurd (omega (arith, h, early)))
  wait_until-Waited (suc rounds) deadline p h =
      wait_round-Waited deadline (wait_until device (suc rounds) deadline) p
        (λ p' early later. wait_until-Waited rounds deadline p' (omega (arith, h, later)))

  -- If time does not run backwards and a sleep takes as long as asked for at least: the wait for
  -- the port ends, within a round for each 5 ms of the timeout and two more, and it reports that
  -- nothing came only when the whole timeout has passed.
  pub wait_serial_ready-Waited :
      (timeout_ms : ℕ) (p : P)
      → Ends
          (λ p' x. Waited (documented.clock p + from_millis timeout_ms) (documented.clock p') x)
          (wait_serial_ready device timeout_ms p)
  unfolding wait_serial_ready instant_now
  wait_serial_ready-Waited timeout_ms p =
      let p₁ : P = (device.now p).0 in
      let deadline : ℕ = (device.now p).1 + from_millis timeout_ms in
      Waited-le (documented.clock p + from_millis timeout_ms) deadline _ _
        (omega (arith, documented.clock-now p))
        (wait_until-Waited (timeout_ms / 5 + 1) deadline p₁ (omega (arith, documented.clock-now p)))

  pub wait-cases :
      (timeout_ms : ℕ) (p : P)
      → ((p' : P) × (ready : Bool) × (wait_serial_ready device timeout_ms p ≡ (p', ok ready)))
        ⊎ ((p' : P) × (e : Message) × (wait_serial_ready device timeout_ms p ≡ (p', err e)))
  wait-cases timeout_ms p =
      run-cases (wait_serial_ready device timeout_ms p)
        (Waited-Returns _ _ _ (wait_serial_ready-Waited timeout_ms p))
