-- ===== src/Mqtt/Bytes.antt =====
-- Reads of a Go byte slice, and the results of the parser's methods: a value, an error, or the
-- panic of an index out of range. A slice is a list of numbers below 256.
use flybeeper_com_map_fanet.Prelude.{ℕ, ◌+◌, ◌*◌, ◌<◌, List, Option, none, some, get_elem?, All}

pub data ParseError : Type 0 where
  invalid_topic name_empty : ParseError
  payload_too_short packet_too_short air_too_short service_too_short ground_too_short
        thermal_too_short hw_info_too_short new_hw_info_too_short :
      ℕ → ParseError

pub data Outcome {ℓ} (A : Type ℓ) : Type ℓ where
  ok : A → Outcome A
  err : ParseError → Outcome A
  panic : Outcome A

infixl 5 ◌>>=◌
abbrev pub ◌>>=◌ {ℓ κ} : {A : Type ℓ} {B : Type κ} → Outcome A → (A → Outcome B) → Outcome B
ok a >>= f = f a
err e >>= f = err e
panic >>= f = panic

-- `data[i]`
abbrev pub read : Option ℕ → Outcome ℕ
read none = panic
read (some b) = ok b

abbrev pub at : List ℕ → ℕ → Outcome ℕ
at bytes i = read (get_elem? bytes i)

abbrev pub IsBytes : List ℕ → Type 0
IsBytes = All (λ b. b < 256)

-- `binary.LittleEndian.Uint16` and the three-byte form `b0 | b1<<8 | b2<<16`. The shifted bytes do
-- not overlap, so that their disjunction is their sum.
abbrev pub le16 : ℕ → ℕ → ℕ
le16 b0 b1 = b0 + b1 * 256

abbrev pub le24 : ℕ → ℕ → ℕ → ℕ
le24 b0 b1 b2 = b0 + b1 * 256 + b2 * 65536

abbrev pub le32 : ℕ → ℕ → ℕ → ℕ → ℕ
le32 b0 b1 b2 b3 = b0 + b1 * 256 + b2 * 65536 + b3 * 16777216
