-- ===== src/Transport/Access/Calls.antt =====
-- What is known of the bridge and of the commands that it gets.
use vusbipd_ccid.Base.{
  ap, ◌∙◌, ℕ, ◌≡◌, sym, Bool, true, false, List, arith, if_cases, ◌++◌, take, drop,
  take-append-drop, append-nil, append_assoc,
}
use vusbipd_ccid.Base.Result.{ok, err, panic, stuck, Returned, value, fault}
use vusbipd_ccid.Nfc.{NfcReader, ReaderError}
use vusbipd_ccid.Protocol.{CcidCommand, CcidResponse, abort, decode}
use vusbipd_ccid.Bridge.{CcidBridge, Handled, handle_command}
use vusbipd_ccid.Transport.State.{CcidTransport, Mutex, Done, update_slot_presence}
use vusbipd_ccid.Transport.{
  bridge_answered, refreshed, pop_interrupt, handle_interrupt_in, call_bridge,
}
use vusbipd_ccid.Transport.Access.{Accesses, handling, looking, IsKept}

-- The command was sent in the bytes: some of them, one after the other, decode to it; or it is an
-- abort, which does nothing to the bridge.
pub data Sent (bytes : List ℕ) : CcidCommand → Type 0 where
  in_message :
      (front message back : List ℕ) {c : CcidCommand}
      → bytes ≡ front ++ (message ++ back)
      → decode message ≡ ok c
      → Sent bytes c
  as_abort : {slot seq : ℕ} → Sent bytes (abort slot seq)

-- The bytes end with these.
abbrev pub IsRest : List ℕ → List ℕ → Type 0
IsRest bytes rest = (front : List ℕ) × (bytes ≡ front ++ rest)

take-Sent :
    (bytes : List ℕ) (n : ℕ) (l : List ℕ) (c : CcidCommand)
    → IsRest bytes l
    → decode (take n l) ≡ ok c
    → Sent bytes c
take-Sent bytes n l c (front, e) d =
    in_message front (take n l) (drop n l)
      (e ∙ ap (λ (x : List ℕ). front ++ x) (sym (take-append-drop n l))) d

drop-IsRest : (bytes : List ℕ) (n : ℕ) (l : List ℕ) → IsRest bytes l → IsRest bytes (drop n l)
drop-IsRest bytes n l (front, e) = (
  front ++ take n l,
  e
      ∙ ap (λ (x : List ℕ). front ++ x) (sym (take-append-drop n l))
      ∙ sym (append_assoc front (take n l) (drop n l)),
)

-- What was sent was sent also when more bytes follow.
pub Sent-more : (bytes more : List ℕ) (c : CcidCommand) → Sent bytes c → Sent (bytes ++ more) c
Sent-more bytes more c (in_message front message back e d) =
    in_message front message (back ++ more)
      (ap (λ (x : List ℕ). x ++ more) e
        ∙ append_assoc front (message ++ back) more
        ∙ ap (λ (x : List ℕ). front ++ x) (append_assoc message back more))
      d
Sent-more bytes more c as_abort = as_abort

pub IsRest-more :
    (bytes rest more : List ℕ) → IsRest bytes rest → IsRest (bytes ++ more) (rest ++ more)
IsRest-more bytes rest more (front, e) =
    (front, ap (λ (x : List ℕ). x ++ more) e ∙ append_assoc front rest more)

module _ {S : Type 0} (nfc : NfcReader S) where
  module _ (sent : List ℕ) (b : CcidBridge S) where
    -- The bridge comes of `b`.
    abbrev pub Comes : Mutex (CcidBridge S) → Type 0
    Comes m = Accesses nfc (Sent sent) b m.inner

    answered-Comes :
        (t : CcidTransport S) (x : Handled S)
        → Comes t.bridge
        → Accesses nfc (Sent sent) b x.0
        → Comes (bridge_answered t x).0.bridge
    unfolding bridge_answered
    answered-Comes t (b', ok r) h a = a
    answered-Comes t (b', err e) h a = elim e [ ]
    answered-Comes t (b', panic) h a = a
    answered-Comes t (b', stuck) h a = h

    refreshed-Comes :
        (t : CcidTransport S) (x : CcidBridge S × Returned ReaderError Bool)
        → Accesses nfc (Sent sent) b x.0
        → Comes (refreshed t x).bridge
    unfolding refreshed update_slot_presence
    refreshed-Comes t (b', value true) a = ground arith
    refreshed-Comes t (b', value false) a = ground arith
    refreshed-Comes t (b', fault e) a = a

    pop_interrupt-Comes : (t : CcidTransport S) → Comes t.bridge → Comes (pop_interrupt t).0.bridge
    unfolding pop_interrupt
    pop_interrupt-Comes t h = ground arith

    pub Comes-IsKept : IsKept nfc (Sent sent) (IsRest sent) Comes
    unfolding call_bridge handle_interrupt_in
    Comes-IsKept = record {
      calls = λ t c s h.
          if_cases (λ (d : Done S (CcidResponse × Bool)). Comes d.0.bridge) t.bridge.poisoned
            (λ _. h)
            (λ _. answered-Comes t (handle_command nfc t.bridge.inner c) h (handling c s h));
      looks = λ t h.
          if_cases (λ (d : CcidTransport S × List ℕ). Comes d.0.bridge) t.bridge.poisoned
            (λ _. pop_interrupt-Comes t h)
            (λ _. pop_interrupt-Comes _ (refreshed-Comes t _ (looking h)));
      aborts = λ slot seq. as_abort;
      decoded = λ n l c h e. take-Sent sent n l c h e;
      dropped = λ n l h. drop-IsRest sent n l h;
      cleared = λ l h. (sent, sym (append-nil sent));
    }

  -- Under a poisoned lock nothing happens to the bridge.
  pub poisoned-IsKept :
      (m : Mutex (CcidBridge S))
      → m.poisoned ≡ true
      → IsKept nfc (λ c. Unit {0}) (λ l. Unit {0}) (λ l. l ≡ m)
  unfolding call_bridge handle_interrupt_in pop_interrupt
  poisoned-IsKept m p = record {
    calls = λ t c s h.
        let q : t.bridge.poisoned ≡ true = ap (λ (l : Mutex (CcidBridge S)). l.poisoned) h ∙ p in
        if_cases (λ (d : Done S (CcidResponse × Bool)). d.0.bridge ≡ m) t.bridge.poisoned (λ _. h)
          (λ sound. absurd (cc (q, sound)));
    looks = λ t h.
        let q : t.bridge.poisoned ≡ true = ap (λ (l : Mutex (CcidBridge S)). l.poisoned) h ∙ p in
        if_cases (λ (d : CcidTransport S × List ℕ). d.0.bridge ≡ m) t.bridge.poisoned
          (λ _. ground (arith, h)) (λ sound. absurd (cc (q, sound)));
    aborts = λ slot seq. tt;
    decoded = λ n l c h e. tt;
    dropped = λ n l h. tt;
    cleared = λ l h. tt;
  }
