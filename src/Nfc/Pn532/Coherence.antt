-- ===== src/Nfc/Pn532/Coherence.antt =====
-- src/nfc/pn532.rs: the active target, its card and the field belong together.
use vusbipd_ccid.Base.{
  ◌≡◌, Bool, true, ◌&&◌, ◌||◌, not, Option, none, some, is_some, arith, inl, inr, Option-cases,
}
use vusbipd_ccid.Base.Result.{Result, ok, err, panic, stuck}
use vusbipd_ccid.Base.Text.{Message}
use vusbipd_ccid.Nfc.{
  CardPresence, ReaderError, configuration, transport, protocol, target_lost, unsupported, io,
}
use vusbipd_ccid.Nfc.Pn532.{
  can_return_cached_presence, Pn532Error, map_pn532_error, bad_ack, bad_response_frame, syntax,
  crc_error, buf_too_small, timeout_ack, timeout_response, interface_error,
}
use vusbipd_ccid.Nfc.Pn532.Reader.{Pn532UartReader}

-- A target is active only with its card known and the RF field on.
unfoldable pub IsCoherent : {P : Type 0} → Pn532UartReader P → Type 0
IsCoherent r =
    (not (is_some r.active_target) || (is_some r.cached_card && r.rf_field_enabled)) ≡ true

-- After a failure other than the loss of the target.
unfoldable pub KeepsCoherent : {P : Type 0} → Pn532UartReader P → ReaderError → Type 0
KeepsCoherent r (target_lost m) = ⊥
KeepsCoherent r (configuration m) = IsCoherent r
KeepsCoherent r (transport m) = IsCoherent r
KeepsCoherent r (protocol m) = IsCoherent r
KeepsCoherent r (unsupported m) = IsCoherent r
KeepsCoherent r (io m) = IsCoherent r

pub map_pn532_error-KeepsCoherent :
    {P : Type 0} (r : Pn532UartReader P) (action : Message) (x : Pn532Error)
    → IsCoherent r
    → KeepsCoherent r (map_pn532_error action x)
unfolding KeepsCoherent map_pn532_error
map_pn532_error-KeepsCoherent r action bad_ack h = h
map_pn532_error-KeepsCoherent r action bad_response_frame h = h
map_pn532_error-KeepsCoherent r action syntax h = h
map_pn532_error-KeepsCoherent r action crc_error h = h
map_pn532_error-KeepsCoherent r action buf_too_small h = h
map_pn532_error-KeepsCoherent r action timeout_ack h = h
map_pn532_error-KeepsCoherent r action timeout_response h = h
map_pn532_error-KeepsCoherent r action (interface_error inner) h = h

-- The state after a poll: with a card, it is the cached one, its target is active and the field on;
-- with none, no target is active and no card cached.
unfoldable pub Polled :
    {P : Type 0} → Pn532UartReader P → Result ReaderError (Option CardPresence) → Type 0
Polled r (ok (some card)) =
    (is_some r.active_target ≡ true) × (r.cached_card ≡ some card) × (r.rf_field_enabled ≡ true)
Polled r (ok none) = (r.active_target ≡ none) × (r.cached_card ≡ none)
Polled r (err e) = KeepsCoherent r e
Polled r panic = ⊥
Polled r stuck = ⊥

pub idle-IsCoherent : {P : Type 0} (r : Pn532UartReader P) → r.active_target ≡ none → IsCoherent r
unfolding IsCoherent
idle-IsCoherent r idle = ground (arith, idle)

pub other_chip-IsCoherent :
    {P : Type 0} (r : Pn532UartReader P) (p : P)
    → IsCoherent r
    → IsCoherent (record r { pn532 = p })
unfolding IsCoherent
other_chip-IsCoherent r p h = h

-- With the field on.
pub lit-IsCoherent :
    {P : Type 0} (r r' : Pn532UartReader P)
    → r'.active_target ≡ r.active_target
    → r'.cached_card ≡ r.cached_card
    → r'.rf_field_enabled ≡ true
    → IsCoherent r
    → IsCoherent r'
unfolding IsCoherent
lit-IsCoherent r r' same_target same_card lit h = elim (Option-cases r.active_target) [
  | inl e ↦ ground (arith, e, same_target)
  | inr (t, e) ↦ ground (arith, e, same_target, same_card, lit, h)
]

pub cached-Polled :
    {P : Type 0} (r : Pn532UartReader P) (recent : Bool)
    → IsCoherent r
    → can_return_cached_presence (is_some r.cached_card) (is_some r.active_target) recent ≡ true
    → Polled r (ok r.cached_card)
unfolding IsCoherent Polled
cached-Polled r recent h taken = elim (Option-cases r.cached_card) [
  | inl none_cached ↦ elim (Option-cases r.active_target) [
    | inl idle ↦ ground (arith, none_cached, idle, taken)
    | inr (t, active) ↦ ground (arith, none_cached, active, taken, h)
  ]
  | inr (card, cached) ↦ elim (Option-cases r.active_target) [
    | inl idle ↦ ground (arith, cached, idle, taken)
    | inr (t, active) ↦ ground (arith, cached, active, taken, h)
  ]
]

-- After a failed exchange: a lost target is forgotten, with its card.
unfoldable pub Failed : {P : Type 0} → Pn532UartReader P → ReaderError → Type 0
Failed r (target_lost m) = (r.active_target ≡ none) × (r.cached_card ≡ none)
Failed r (configuration m) = IsCoherent r
Failed r (transport m) = IsCoherent r
Failed r (protocol m) = IsCoherent r
Failed r (unsupported m) = IsCoherent r
Failed r (io m) = IsCoherent r

pub KeepsCoherent-Failed :
    {P : Type 0} (r : Pn532UartReader P) (e : ReaderError) → KeepsCoherent r e → Failed r e
unfolding KeepsCoherent Failed
KeepsCoherent-Failed r (target_lost m) h = elim h [ ]
KeepsCoherent-Failed r (configuration m) h = h
KeepsCoherent-Failed r (transport m) h = h
KeepsCoherent-Failed r (protocol m) h = h
KeepsCoherent-Failed r (unsupported m) h = h
KeepsCoherent-Failed r (io m) h = h
