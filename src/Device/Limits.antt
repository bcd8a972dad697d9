-- ===== src/Device/Limits.antt =====
-- What the CCID class descriptor promises, and what the transport does.
use mathlib.Core.Path.{subst}
use mathlib.Core.Option.{some-injective}
use vusbipd_ccid.Base.{
  ℕ, ◌≤◌, ◌≡◌, refl, ap, ◌∙◌, sym, Option, some, none, List, ◌∷◌, length, take, drop, get_elem?,
  arith,
}
use vusbipd_ccid.Base.Bytes.{u32_from_le_bytes}
use vusbipd_ccid.Base.Result.{ok}
use vusbipd_ccid.Nfc.{NfcReader}
use vusbipd_ccid.Protocol.Layout.{RawFrame, raw_bytes}
use vusbipd_ccid.Transport.State.{CcidTransport}
use vusbipd_ccid.Transport.{handle_control_request, try_take_complete_frame}
use vusbipd_ccid.Transport.Frames.{Cut, cut, taken, try_take-cut, Cached}
use vusbipd_ccid.Transport.Delivered.{cut-raw_bytes}
use vusbipd_ccid.Device.{class_specific_descriptor}

-- A host's reading of four bytes of a descriptor.
abbrev first_u32 : List ℕ → Option ℕ
first_u32 (a ∷ b ∷ c ∷ d ∷ rest) = some (u32_from_le_bytes a b c d)
first_u32 _ = none

abbrev pub u32_at : ℕ → List ℕ → Option ℕ
u32_at offset descriptor = first_u32 (drop offset descriptor)

module _ {S : Type 0} (nfc : NfcReader S) where
  takes_whole :
      (t : CcidTransport S) (r : RawFrame)
      → t.pending_out_buffer ≡ raw_bytes r
      → t.next_frame_len ≡ none
      → length (raw_bytes r) ≤ 3072
      → (try_take_complete_frame t).1 ≡ ok (some (raw_bytes r))
  takes_whole t r out fresh fits =
      let cached : Cached t.next_frame_len t.pending_out_buffer =
        subst (λ (n : Option ℕ). Cached n t.pending_out_buffer) (sym fresh) tt in
      rw (try_take-cut t cached)
        (ap (λ (k : Cut). (taken t k).1) (ap cut out ∙ cut-raw_bytes r (omega (arith, fits))))

  -- The class descriptor is what the transport honours. Its first byte counts its bytes. The clock
  -- frequency and the data rate in it are those that the two control requests answer. If a buffer
  -- holds one message and nothing else, its length is not yet read, and the message, the header
  -- counted, is no longer than the maximum in the descriptor, then it is taken whole.
  pub class_specific_descriptor-honoured :
      (t : CcidTransport S) (v : ℕ) (r : RawFrame) (longest : ℕ)
      → u32_at 44 class_specific_descriptor ≡ some longest
      → length (raw_bytes r) ≤ longest
      → t.pending_out_buffer ≡ raw_bytes r
      → t.next_frame_len ≡ none
      → (get_elem? class_specific_descriptor 0 ≡ some (length class_specific_descriptor))
        × ((handle_control_request nfc t 0xa1 0x02 v).1
            ≡ ok (take 4 (drop 10 class_specific_descriptor)))
        × ((handle_control_request nfc t 0xa1 0x03 v).1
            ≡ ok (take 4 (drop 19 class_specific_descriptor)))
        × ((try_take_complete_frame t).1 ≡ ok (some (raw_bytes r)))
  unfolding class_specific_descriptor handle_control_request
  class_specific_descriptor-honoured t v r longest says fits out fresh =
      let limit : 3072 ≡ longest = some-injective 3072 longest says in
      (refl, refl, refl, takes_whole t r out fresh (omega (arith, fits, limit)))
