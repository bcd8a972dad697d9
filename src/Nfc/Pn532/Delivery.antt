-- ===== src/Nfc/Pn532/Delivery.antt =====
-- src/nfc/pn532.rs: an exchange, from the APDU to the frame of the chip's answer.
use vusbipd_ccid.Base.{
  false, ◌∙◌, ℕ, ◌+◌, ◌≤◌, ◌<◌, ◌≡◌, ◌≢◌, refl, true, false, some, none, List, [], ◌∷◌, ◌++◌,
  length, ap, arith, le→ltb, inl, inr,
}
use vusbipd_ccid.Base.Result.{ok, err, value, Result}
use vusbipd_ccid.Base.Run.{proceed}
use vusbipd_ccid.Base.Text.{Message, text, hex}
use vusbipd_ccid.Nfc.{target_lost, ReaderError}
use vusbipd_ccid.Nfc.Pn532.Chip.{
  BorrowedRequest, Pn532Device, wait_serial_ready, process_dynamic_response,
}
use vusbipd_ccid.Nfc.Pn532.Reader.{
  Pn532UartReader, exchange_apdu, exchange_with, exchange_answered, choose_target,
  deactivate_target, recently_polled, pn532_apdu_timeout_ms,
}
use vusbipd_ccid.Nfc.Pn532.Field.{set_rf_field-cases}
use vusbipd_ccid.Nfc.Pn532.Answer.{normal_frame, receive-normal_frame}

module _ {P : Type 0} (device : Pn532Device P) where
  exchange_with-answered :
      (r : Pn532UartReader P) (target : ℕ) (apdu response : List ℕ) (p : P)
      → process_dynamic_response device
          (record { command = device.in_data_exchange; data_bytes = target ∷ apdu })
          pn532_apdu_timeout_ms
          r.pn532
        ≡ (p, ok response)
      → exchange_with device apdu target r
        ≡ exchange_answered device response (record r { pn532 = p })
  unfolding exchange_with
  exchange_with-answered r target apdu response p e = rw e refl

  choose_target-active :
      (r : Pn532UartReader P) (target : ℕ)
      → r.active_target ≡ some target
      → choose_target device r ≡ (r, ok target)
  unfolding choose_target
  choose_target-active r target active = ground (arith, active)

  exchange_apdu-active :
      (r : Pn532UartReader P) (target : ℕ) (apdu : List ℕ)
      → r.active_target ≡ some target
      → length apdu ≤ 310
      → exchange_apdu device apdu r ≡ exchange_with device apdu target r
  unfolding exchange_apdu
  exchange_apdu-active r target apdu active fits =
      rw (le→ltb 311 (length apdu + 1) (omega (arith, le→ltb, fits))) (
        ap (λ (y : Pn532UartReader P × Result ReaderError ℕ). proceed (exchange_with device apdu) y)
          (choose_target-active r target active))

  exchange_answered-lost :
      (status : ℕ) (response : List ℕ) (r : Pn532UartReader P)
      → status ≢ 0x00
      → (r' : Pn532UartReader P) × (m : Message) × (exchange_answered device (status ∷ response) r
          ≡ (r', err (target_lost m)))
        × (r'.active_target ≡ none)
        × (r'.cached_card ≡ none)
        × ((now : ℕ) → recently_polled r' now ≡ false)
  unfolding exchange_answered deactivate_target
  exchange_answered-lost status response r failed =
      let m : Message = text "PN532 reported APDU exchange status 0x" ∷ hex status ∷ [] in
      let off : Pn532UartReader P = record r {
        active_target = none;
        cached_card = none;
        last_poll = none;
      } in
      elim (set_rf_field-cases device false off) [
        | inl (p, e) ↦ (
          record off { pn532 = p; rf_field_enabled = false },
          m,
          ground (arith, e, failed),
          refl,
          refl,
          λ now. refl,
        )
        | inr (p, x, e) ↦
            (record off { pn532 = p }, m, ground (arith, e, failed), refl, refl, λ now. refl)
      ]

-- `supply` is what is still to be read: as many bytes as asked for are read off its front.
module _ {P : Type 0} (device : Pn532Device P) (supply : P → List ℕ)
    (exact : (p : P) (bytes rest : List ℕ)
      → supply p ≡ bytes ++ rest
      → (p' : P) × (device.port.read_exact p (length bytes) ≡ (p', value bytes))
        × (supply p' ≡ rest)) where
  process-normal_frame :
      (request : BorrowedRequest) (timeout_ms : ℕ) (data_bytes rest : List ℕ) (p p₁ p₂ p₃ p₄ : P)
      → request.command < 255
      → length data_bytes ≤ 252
      → device.send p request ≡ (p₁, value tt)
      → wait_serial_ready device timeout_ms p₁ ≡ (p₂, ok true)
      → device.receive_ack p₂ ≡ (p₃, value tt)
      → wait_serial_ready device timeout_ms p₃ ≡ (p₄, ok true)
      → supply p₄ ≡ normal_frame (request.command + 1) data_bytes ++ rest
      → (p' : P) × (process_dynamic_response device request timeout_ms p ≡ (p', ok data_bytes))
        × (supply p' ≡ rest)
  unfolding process_dynamic_response
  process-normal_frame request timeout_ms data_bytes rest p p₁ p₂ p₃ p₄ small short sent waited
        acked again e =
      let (p', received, left) =
        receive-normal_frame device.port supply exact (request.command + 1) data_bytes p₄ rest short
          e in
      (p', ground (arith, sent, waited, acked, again, received), left)

  exchanged-normal_frame :
      (r : Pn532UartReader P) (target : ℕ) (apdu response rest : List ℕ) (p₁ p₂ p₃ p₄ : P)
      → device.in_data_exchange < 255
      → r.active_target ≡ some target
      → length apdu ≤ 310
      → length response ≤ 252
      → device.send r.pn532
          (record { command = device.in_data_exchange; data_bytes = target ∷ apdu })
        ≡ (p₁, value tt)
      → wait_serial_ready device pn532_apdu_timeout_ms p₁ ≡ (p₂, ok true)
      → device.receive_ack p₂ ≡ (p₃, value tt)
      → wait_serial_ready device pn532_apdu_timeout_ms p₃ ≡ (p₄, ok true)
      → supply p₄ ≡ normal_frame (device.in_data_exchange + 1) response ++ rest
      → (p' : P) × (exchange_apdu device apdu r
          ≡ exchange_answered device response (record r { pn532 = p' }))
        × (supply p' ≡ rest)
  exchanged-normal_frame r target apdu response rest p₁ p₂ p₃ p₄ small active fits short sent waited
        acked again e =
      let (p', answered, left) =
        process-normal_frame
          (record { command = device.in_data_exchange; data_bytes = target ∷ apdu })
          pn532_apdu_timeout_ms response rest r.pn532 p₁ p₂ p₃ p₄ small short sent waited acked
          again e in
      (
        p',
        exchange_apdu-active device r target apdu active fits
            ∙ exchange_with-answered device r target apdu response p' answered,
        left,
      )

  module _ (r : Pn532UartReader P) (target : ℕ) (apdu response rest : List ℕ) (p₁ p₂ p₃ p₄ : P)
      (small : device.in_data_exchange < 255) (active : r.active_target ≡ some target)
      (fits : length apdu ≤ 310) (short : length response ≤ 251)
      (sent : device.send r.pn532
          (record { command = device.in_data_exchange; data_bytes = target ∷ apdu })
        ≡ (p₁, value tt))
      (waited : wait_serial_ready device pn532_apdu_timeout_ms p₁ ≡ (p₂, ok true))
      (acked : device.receive_ack p₂ ≡ (p₃, value tt))
      (again : wait_serial_ready device pn532_apdu_timeout_ms p₃ ≡ (p₄, ok true)) where
    -- If a read takes the bytes asked for off the front of what the port delivers: with an active
    -- target and an APDU of at most 310 bytes, where the crate sends InDataExchange with the number
    -- of the target and the APDU, the port is ready in time before and after the acknowledgement,
    -- and the chip answers in a normal frame with status 0 and at most 251 bytes: the exchange gives
    -- these bytes, leaves on the port what follows the frame, and changes nothing else of the reader.
    pub exchange_apdu-normal_frame :
        supply p₄ ≡ normal_frame (device.in_data_exchange + 1) (0x00 ∷ response) ++ rest
        → (p' : P) × (exchange_apdu device apdu r ≡ (record r { pn532 = p' }, ok response))
          × (supply p' ≡ rest)
    unfolding exchange_answered
    exchange_apdu-normal_frame e =
        exchanged-normal_frame r target apdu (0x00 ∷ response) rest p₁ p₂ p₃ p₄ small active fits
          (omega (arith, short)) sent waited acked again e

    -- If a read takes the bytes asked for off the front of what the port delivers: where the chip
    -- answers an exchange in a normal frame with another status, the exchange fails with a lost
    -- target, and the reader has no target, no card and no time of a poll, whether or not the RF
    -- field could be switched off, so that the next poll asks the chip.
    pub exchange_apdu-status :
        (status : ℕ)
        → status ≢ 0x00
        → supply p₄ ≡ normal_frame (device.in_data_exchange + 1) (status ∷ response) ++ rest
        → (r' : Pn532UartReader P) × (m : Message) × (exchange_apdu device apdu r
            ≡ (r', err (target_lost m)))
          × (r'.active_target ≡ none)
          × (r'.cached_card ≡ none)
          × ((now : ℕ) → recently_polled r' now ≡ false)
    exchange_apdu-status status failed e =
        let (p', exchanged, left) =
          exchanged-normal_frame r target apdu (status ∷ response) rest p₁ p₂ p₃ p₄ small active
            fits (omega (arith, short)) sent waited acked again e in
        let (r', m, lost, idle, uncached, unpolled) =
          exchange_answered-lost device status response (record r { pn532 = p' }) failed in
        (r', m, exchanged ∙ lost, idle, uncached, unpolled)
