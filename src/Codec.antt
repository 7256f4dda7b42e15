-- ===== src/Codec.antt =====
-- MessagePack (github.com/vmihailenco/msgpack/v5) as a parameter: how it writes one type, and how
-- it reads it. The envelopes of internal/protocol go through it.
pub mod Fields
use airpc.Prelude.{◌≡◌, Text, Result, ok}

-- `msgpack.Marshal` and `msgpack.Unmarshal` at one type; the errors are texts.
pub record Codec (A : Type 0) : Type 0 where
  pub marshal : A → Result Text Text
  pub unmarshal : Text → Result Text A

-- What the library documents: the bytes of a value are read as that value.
abbrev pub RoundTrips : {A : Type 0} → Codec A → Type 0
RoundTrips {A} c = (a : A) (b : Text) → c.marshal a ≡ ok b → c.unmarshal b ≡ ok a

-- What the library documents of types without channels and functions: every value can be written.
abbrev pub IsTotal : {A : Type 0} → Codec A → Type 0
IsTotal {A} c = (a : A) → (b : Text) × (c.marshal a ≡ ok b)
