-- ===== src/Nfc/Pn532/Layout.antt =====
-- src/nfc/pn532.rs: the response to a poll, as the PN532 user manual lays it out.
use vusbipd_ccid.Base.{
  ◌≢◌, true, false, is_some, ne→==, get_elem?, some, ℕ, ◌+◌, ◌<◌, ◌≡◌, refl, List, [], ◌∷◌, ◌++◌,
  length, arith, length-append, take-append_exact, drop-append_exact, take_all,
}
use vusbipd_ccid.Base.Result.{ok}
use vusbipd_ccid.Nfc.{iso_dep, CardPresence}
use vusbipd_ccid.Nfc.Pn532.{ats_historical_bytes, can_return_cached_presence}
use vusbipd_ccid.Nfc.Pn532.Target.{target_found, target_historical_bytes}
use vusbipd_ccid.Nfc.Pn532.Chip.{Pn532Device, process_dynamic_response}
use vusbipd_ccid.Nfc.Pn532.Reader.{
  Pn532UartReader, set_rf_field, poll_card, poll_target, poll_answered, counts_no_target,
  recently_polled, pn532_poll_timeout_ms,
}
use vusbipd_ccid.Nfc.Pn532.Ats.{announced, ats_historical_bytes-layout}

-- The number of targets, the target, SENS_RES, SEL_RES and the UID with its length in front; the
-- answer to select of an ISO-DEP card follows.
abbrev pub target_response : ℕ → ℕ → ℕ → ℕ → ℕ → List ℕ → List ℕ → List ℕ
target_response count target sens₀ sens₁ sel uid ats =
    (count ∷ target ∷ sens₀ ∷ sens₁ ∷ sel ∷ length uid ∷ uid) ++ ats

-- The length of the whole, T0, the interface bytes and the historical bytes.
abbrev pub answer_to_select : ℕ → List ℕ → List ℕ → List ℕ
answer_to_select t0 interface_bytes historical =
    (2 + length interface_bytes + length historical) ∷ t0 ∷ (interface_bytes ++ historical)

-- A response without an answer to select gives the target and a card with the UID and no historical bytes.
target_found_bare :
    (count target sens₀ sens₁ sel : ℕ) (uid : List ℕ)
    → target_found (target_response count target sens₀ sens₁ sel uid [])
      ≡ ok (target, record { uid = uid; protocol = iso_dep; historical_bytes = [] })
unfolding target_found
target_found_bare count target sens₀ sens₁ sel uid =
    ground (arith, length-append uid [], take-append_exact uid [])

pub get_elem?-append :
    (front rest : List ℕ) (b : ℕ) → get_elem? (front ++ b ∷ rest) (length front) ≡ some b
get_elem?-append [] rest b = refl
get_elem?-append (x ∷ front) rest b = get_elem?-append front rest b

target_historical_bytes-append :
    (front rest : List ℕ) (b : ℕ)
    → b ≡ length (b ∷ rest)
    → target_historical_bytes (front ++ b ∷ rest) (length front) ≡ ats_historical_bytes (b ∷ rest)
target_historical_bytes-append front rest b whole = ground (
  arith,
  length-append front (b ∷ rest),
  get_elem?-append front rest b,
  drop-append_exact front (b ∷ rest),
  take_all b (b ∷ rest) (omega (arith, whole)),
)

-- The response to a poll with an answer to select.
pub target_found-target_response :
    (count target sens₀ sens₁ sel t0 : ℕ) (uid interface_bytes historical : List ℕ)
    → t0 < 256
    → length interface_bytes ≡ announced t0
    → target_found (
        target_response count target sens₀ sens₁ sel uid
          (answer_to_select t0 interface_bytes historical))
      ≡ ok (target, record { uid = uid; protocol = iso_dep; historical_bytes = historical })
unfolding target_found
target_found-target_response count target sens₀ sens₁ sel t0 uid interface_bytes historical h e =
    let front : List ℕ = count ∷ target ∷ sens₀ ∷ sens₁ ∷ sel ∷ length uid ∷ uid in
    let rest : List ℕ = t0 ∷ (interface_bytes ++ historical) in
    let n : ℕ = 2 + length interface_bytes + length historical in
    ground (
      arith,
      length-append uid (n ∷ rest),
      take-append_exact uid (n ∷ rest),
      target_historical_bytes-append front rest n
          (omega (arith, length-append interface_bytes historical)),
      ats_historical_bytes-layout t0 interface_bytes historical h e,
    )

module _ {P : Type 0} (device : Pn532Device P) where
  poll_target-answered :
      (r r' : Pn532UartReader P) (now target : ℕ) (card : CardPresence) (response : List ℕ) (p : P)
      → set_rf_field device true r ≡ (r', ok tt)
      → process_dynamic_response device device.inlist_one_iso_a_target pn532_poll_timeout_ms
          r'.pn532
        ≡ (p, ok response)
      → counts_no_target response ≡ false
      → target_found response ≡ ok (target, card)
      → poll_target device now r ≡ (
        record r' {
          pn532 = p;
          last_poll = some now;
          active_target = some target;
          cached_card = some card;
        },
        ok (some card),
      )
  unfolding poll_target poll_answered
  poll_target-answered r r' now target card response p on answered counted found =
      ground (arith, on, answered, counted, found)

  -- When the cached presence may not be returned, the field can be switched on and the chip answers
  -- the poll with a target whose answer to select is well-formed: the poll reports the card with its
  -- UID and historical bytes, and the reader has the target active, this card cached, and the time
  -- of the poll noted.
  pub poll_card-target_response :
      (r r' : Pn532UartReader P) (count target sens₀ sens₁ sel t0 : ℕ)
      (uid interface_bytes historical : List ℕ) (p : P)
      → count ≢ 0
      → t0 < 256
      → length interface_bytes ≡ announced t0
      → can_return_cached_presence
          (is_some r.cached_card)
          (is_some r.active_target)
          (recently_polled r (device.now r.pn532).1)
        ≡ false
      → set_rf_field device true (record r { pn532 = (device.now r.pn532).0 }) ≡ (r', ok tt)
      → process_dynamic_response device device.inlist_one_iso_a_target pn532_poll_timeout_ms
          r'.pn532
        ≡ (
          p,
          ok (
              target_response count target sens₀ sens₁ sel uid
                (answer_to_select t0 interface_bytes historical)),
        )
      → let card : CardPresence = record {
        uid = uid;
        protocol = iso_dep;
        historical_bytes = historical;
      } in
        poll_card device r ≡ (
          record r' {
            pn532 = p;
            last_poll = some (device.now r.pn532).1;
            active_target = some target;
            cached_card = some card;
          },
          ok (some card),
        )
  unfolding poll_card
  poll_card-target_response r r' count target sens₀ sens₁ sel t0 uid interface_bytes historical p
        some_target byte announced_all stale on answered =
      rw stale (
        poll_target-answered (record r { pn532 = (device.now r.pn532).0 }) r' (device.now r.pn532).1
          target _ _ p on answered (ne→== count 0 some_target)
          (target_found-target_response count target sens₀ sens₁ sel t0 uid interface_bytes
            historical byte announced_all))
