-- ===== src/Nfc.antt =====
-- src/nfc/mod.rs: cards, reader errors and the `NfcReader` trait.
pub mod Dummy
pub mod Pn532
pub mod Backends
use Prim.Native.String.{String}
use vusbipd_ccid.Base.{ℕ, Bool, Option, List}
use vusbipd_ccid.Base.Result.{Returned}
use vusbipd_ccid.Base.Text.{Message}

pub data CardProtocol : Type 0 where
  iso14443a iso14443b iso_dep : CardProtocol

pub record CardPresence : Type 0 where
  pub uid : List ℕ
  pub protocol : CardProtocol
  pub historical_bytes : List ℕ

pub record ReaderCapabilities : Type 0 where
  pub name : String
  pub supports_iso_dep : Bool
  pub supports_apdu_exchange : Bool

pub data ReaderError : Type 0 where
  configuration transport protocol target_lost unsupported io : Message → ReaderError

-- `dyn NfcReader` over the state `S` of the implementation: a method that takes `&mut self`
-- returns the new state beside its result.
pub record NfcReader (S : Type 0) : Type 0 where
  pub capabilities : S → ReaderCapabilities
  pub poll_card : S → S × Returned ReaderError (Option CardPresence)
  pub power_off : S → S × Returned ReaderError (Unit {0})
  pub exchange_apdu : S → List ℕ → S × Returned ReaderError (List ℕ)
