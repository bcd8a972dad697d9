-- ===== src/Transport/Reading.antt =====
-- Bulk IN requests: a host that reads packets of one size gets the queued responses back.
use native.Mathlib.Nat.{mod-eq_of_lt, mod_self}
use mathlib.Core.Path.{subst}
use vusbipd_ccid.Base.{
  ltb→le, sym, Bool-cases, inl, inr, take_all, ℕ, zero, suc, ◌%◌, ◌<◌, ◌≡◌, refl, List, [], ◌∷◌,
  ◌++◌, length, take, drop, is_empty, ltb, ◌==◌, if◌then◌else◌, arith, take-append-drop,
  length-take, length-drop,
}
use vusbipd_ccid.Transport.State.{CcidTransport, update_state}
use vusbipd_ccid.Transport.{handle_bulk_in, serve}

-- A host that reads one transfer: packets of at most `size` bytes until one is shorter.
unfoldable pub read_transfer : {S : Type 0} → ℕ → ℕ → CcidTransport S → CcidTransport S × List ℕ
read_transfer zero size t = (t, [])
read_transfer (suc packets) size t =
    let first = handle_bulk_in t size in
    let rest = read_transfer packets size first.0 in
    if ltb (length first.1) size then first else (rest.0, first.1 ++ rest.1)

-- The queue after a packet.
abbrev left_after : List ℕ → List (List ℕ) → ℕ → List (List ℕ)
left_after frame rest size = if ltb (length frame) size then rest else (drop size frame ∷ rest)

pub drop_all : (n : ℕ) (xs : List ℕ) → length xs ≡ n → drop n xs ≡ []
drop_all zero [] e = refl
drop_all (suc n) [] e = refl
drop_all zero (x ∷ xs) e = absurd (omega arith)
drop_all (suc n) (x ∷ xs) e = drop_all n xs (omega arith)

mod_below : (n m : ℕ) → n < m → n % m ≡ n
mod_below n m h = mod-eq_of_lt h

nonempty : (xs : List ℕ) → is_empty xs ≡ (length xs == 0)
nonempty [] = refl
nonempty (x ∷ xs) = ground arith

module _ {S : Type 0} where
  update_state_pending_in_frames :
      (t : CcidTransport S) → (update_state t).pending_in_frames ≡ t.pending_in_frames
  unfolding update_state
  update_state_pending_in_frames t = ground arith

  serve-packet :
      (t : CcidTransport S) (frame : List ℕ) (rest : List (List ℕ)) (size : ℕ)
      → 0 < size
      → ((serve t (frame ∷ rest) size).1 ≡ take size frame)
        × ((serve t (frame ∷ rest) size).0.pending_in_frames ≡ left_after frame rest size)
  unfolding serve update_state
  serve-packet t frame rest size pos = elim (Bool-cases (ltb (length frame) size)) [
    | inl short ↦ ground (arith, mod_below (length frame) size, take_all size frame, nonempty frame)
    | inr long ↦ elim (Bool-cases (length frame == size)) [
      | inl same ↦
          ground (arith, mod_self size, take_all size frame, drop_all size frame, nonempty frame)
      | inr more ↦ ground arith
    ]
  ]

  handle_bulk_in-packet :
      (t : CcidTransport S) (frame : List ℕ) (rest : List (List ℕ)) (size : ℕ)
      → 0 < size
      → t.pending_in_frames ≡ frame ∷ rest
      → ((handle_bulk_in t size).1 ≡ take size frame)
        × ((handle_bulk_in t size).0.pending_in_frames ≡ left_after frame rest size)
  unfolding handle_bulk_in
  handle_bulk_in-packet t frame rest size pos e =
      subst
        (λ fs.
          ((serve t fs size).1 ≡ take size frame)
          × ((serve t fs size).0.pending_in_frames ≡ left_after frame rest size))
        (sym e) (serve-packet t frame rest size pos)

  -- A host that reads packets of one size, not 0, until one is shorter gets exactly the response at
  -- the front of the queue, whatever its length, also if it is a multiple of the packet size, and
  -- the responses behind it stay queued; one packet more than the response has bytes is enough.
  pub read_transfer-handle_bulk_in :
      (packets size : ℕ) (t : CcidTransport S) (frame : List ℕ) (rest : List (List ℕ))
      → 0 < size
      → length frame < packets
      → t.pending_in_frames ≡ frame ∷ rest
      → ((read_transfer packets size t).1 ≡ frame)
        × ((read_transfer packets size t).0.pending_in_frames ≡ rest)
  unfolding read_transfer
  read_transfer-handle_bulk_in zero size t frame rest pos enough e = absurd (omega arith)
  read_transfer-handle_bulk_in (suc packets) size t frame rest pos enough e =
      let (packet, queue) = handle_bulk_in-packet t frame rest size pos e in
      elim (Bool-cases (ltb (length frame) size)) [
        | inl short ↦ ground (arith, packet, queue, length-take size frame, take_all size frame)
        | inr long ↦ ground (
          arith,
          packet,
          queue,
          length-take size frame,
          take-append-drop size frame,
          read_transfer-handle_bulk_in packets size (handle_bulk_in t size).0 (drop size frame) rest
              pos (omega (arith, length-drop size frame, ltb→le (length frame) size long))
              (rw queue (rw long refl)),
        )
      ]
