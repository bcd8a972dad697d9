-- ===== src/Protocol/Encode.antt =====
-- `CcidResponse::encode` against a host that parses the response.
use vusbipd_ccid.Base.{
  ℕ, ◌+◌, ◌/◌, ◌%◌, ◌<◌, ◌^◌, ◌≡◌, refl, List, [], ◌∷◌, length, Option, none, some, ◌==◌,
  if◌then◌else◌, arith, ==_self,
}
use vusbipd_ccid.Base.Bytes.{IsBytes, u32_from_le_bytes}
use vusbipd_ccid.Protocol.{
  IccStatus, active, inactive, not_present, CommandStatus, no_error, failed, time_extension,
  SlotStatus, encode_status, CcidResponse, data_block, slot_status, parameters, encode,
}

-- The host's reading of the status byte: bits 0-1 and 6-7.
abbrev pub read_icc : ℕ → Option IccStatus
read_icc n =
    if n == 0
    then some active
    else if n == 1
    then some inactive
    else if n == 2
    then some not_present
    else none

abbrev pub read_command : ℕ → Option CommandStatus
read_command n =
    if n == 0
    then some no_error
    else if n == 1
    then some failed
    else if n == 2
    then some time_extension
    else none

infixl 5 ◌>>=◌
abbrev ◌>>=◌ {ℓ κ} : {A : Type ℓ} {B : Type κ} → Option A → (A → Option B) → Option B
none >>= f = none
some a >>= f = f a

abbrev pub read_status : ℕ → Option SlotStatus
read_status b = do
  i ← read_icc (b % 4)
  c ← read_command (b / 64)
  some (record { icc = i; command = c })

abbrev body :
    (message_type slot seq : ℕ) (s : SlotStatus) (error last : ℕ) (payload : List ℕ)
    → Option CcidResponse
body message_type slot seq s error last payload =
    if message_type == 0x80
    then some (data_block slot seq s error last payload)
    else if message_type == 0x81
    then (if length payload == 0 then some (slot_status slot seq s error last) else none)
    else if message_type == 0x82
    then some (parameters slot seq s error last payload)
    else none

-- A host's reading of a response; it refuses one whose length field is not that of its payload.
pub read_response : List ℕ → Option CcidResponse
read_response (m ∷ a ∷ b ∷ c ∷ d ∷ slot ∷ seq ∷ status ∷ error ∷ last ∷ payload) =
    if u32_from_le_bytes a b c d == length payload
    then (read_status status >>= λ s. body m slot seq s error last payload)
    else none
read_response _ = none

-- What the fields of a response hold in Rust, and a payload of less than 4 GiB.
abbrev pub IsResponse : CcidResponse → Type 0
IsResponse (data_block slot seq status error chain payload) =
    (slot < 256)
    × (seq < 256)
    × (error < 256)
    × (chain < 256)
    × IsBytes payload
    × (length payload < 2 ^ 32)
IsResponse (slot_status slot seq status error clock) =
    (slot < 256) × (seq < 256) × (error < 256) × (clock < 256)
IsResponse (parameters slot seq status error protocol payload) =
    (slot < 256)
    × (seq < 256)
    × (error < 256)
    × (protocol < 256)
    × IsBytes payload
    × (length payload < 2 ^ 32)

abbrev pub response_payload : CcidResponse → List ℕ
response_payload (data_block slot seq status error chain payload) = payload
response_payload (slot_status slot seq status error clock) = []
response_payload (parameters slot seq status error protocol payload) = payload

-- The two fields of the status byte do not overlap.
read_status-encode_status :
    (s : SlotStatus) → (read_status (encode_status s) ≡ some s) × (encode_status s < 256)
unfolding encode_status
read_status-encode_status s = by_fields s.icc s.command
  where
    by_fields :
        (i : IccStatus) (c : CommandStatus)
        → (read_status (encode_status (record { icc = i; command = c }))
            ≡ some (record { icc = i; command = c }))
          × (encode_status (record { icc = i; command = c }) < 256)
    by_fields active no_error = (refl, omega arith)
    by_fields active failed = (refl, omega arith)
    by_fields active time_extension = (refl, omega arith)
    by_fields inactive no_error = (refl, omega arith)
    by_fields inactive failed = (refl, omega arith)
    by_fields inactive time_extension = (refl, omega arith)
    by_fields not_present no_error = (refl, omega arith)
    by_fields not_present failed = (refl, omega arith)
    by_fields not_present time_extension = (refl, omega arith)

read_response-frame :
    (m a b c d slot seq error last : ℕ) (status : SlotStatus) (payload : List ℕ)
    → u32_from_le_bytes a b c d ≡ length payload
    → read_response (m ∷ a ∷ b ∷ c ∷ d ∷ slot ∷ seq ∷ encode_status status ∷ error ∷ last ∷ payload)
      ≡ body m slot seq status error last payload
unfolding read_response
read_response-frame m a b c d slot seq error last status payload e =
    rw (e, ==_self, (read_status-encode_status status).0)

-- A host that parses the bytes of a response, with byte-sized fields and a payload of less than 4
-- GiB, gets the response back.
pub read_response-encode : (r : CcidResponse) → IsResponse r → read_response (encode r) ≡ some r
unfolding encode
read_response-encode (data_block slot seq status error chain payload) h =
    read_response-frame _ _ _ _ _ slot seq error chain status payload (omega arith)
read_response-encode (slot_status slot seq status error clock) h =
    read_response-frame _ _ _ _ _ slot seq error clock status [] refl
read_response-encode (parameters slot seq status error protocol payload) h =
    read_response-frame _ _ _ _ _ slot seq error protocol status payload (omega arith)

-- Every element of the encoding of a response with byte-sized fields is a byte, and it has ten bytes
-- more than the payload.
pub encode_shape :
    (r : CcidResponse)
    → IsResponse r
    → IsBytes (encode r) × (length (encode r) ≡ 10 + length (response_payload r))
unfolding encode
encode_shape (data_block slot seq status error chain payload) h =
    ground (arith, read_status-encode_status status)
encode_shape (slot_status slot seq status error clock) h =
    ground (arith, read_status-encode_status status)
encode_shape (parameters slot seq status error protocol payload) h =
    ground (arith, read_status-encode_status status)
