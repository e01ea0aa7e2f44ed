-- ===== src/Protocol/Hex.antt =====
-- Ids and digests as hex of a fixed width (crates/metralectl-protocol/src/hexid.rs), and node ids
-- (crates/metralectl-protocol/src/fleet.rs). Bytes are numbers below 256, and a text is its bytes.
pub mod Laws
mod Tests
use metralectl.Prelude.{
  ℕ, ◌+◌, ◌-◌, ◌*◌, ◌/◌, ◌%◌, Bool, true, false, ◌&&◌, List, [], ◌∷◌, Option, none, some,
}
use metralectl.Prelude.{
  String, if◌then◌else◌, leb, ltb, ◌==◌, all, length, ◌<>◌, digit_text, decimal, Fallible, success,
  error,
}

-- `char::from(b).to_digit(16)`.
unfoldable pub digit : ℕ → Option ℕ
digit b =
    if leb b'0' b && leb b b'9'
    then some (b - b'0')
    else if leb b'a' b && leb b b'f'
    then some (b - b'a' + 10)
    else if leb b'A' b && leb b b'F'
    then some (b - b'A' + 10)
    else none

abbrev pub prepend : ℕ → Fallible (List ℕ) → Fallible (List ℕ)
prepend b (success bs) = success (b ∷ bs)
prepend b (error why) = error why

-- `u8::try_from(n).unwrap_or(0)`.
abbrev pub byte_of : ℕ → ℕ
byte_of n = if ltb n 256 then n else 0

abbrev pub paired : ℕ → Option ℕ → Option ℕ → Fallible (List ℕ) → Fallible (List ℕ)
paired i (some hi) (some lo) rest = prepend (byte_of (hi * 16 + lo)) rest
paired i hi lo rest = error ("character " <> decimal (i * 2) <> " is not hexadecimal")

-- The loop of `decode` over the pairs; a last byte alone is left out, as `chunks_exact` does.
unfoldable pub decode_pairs : ℕ → List ℕ → Fallible (List ℕ)
unfolding digit
decode_pairs i [] = success []
decode_pairs i (c ∷ []) = success []
decode_pairs i (hi ∷ lo ∷ rest) = paired i (digit hi) (digit lo) (decode_pairs (i + 1) rest)

-- Decode exactly `n` bytes of hex, either case.
unfoldable pub decode : ℕ → List ℕ → Fallible (List ℕ)
unfolding decode_pairs
decode n s =
    if length s == 2 * n
    then decode_pairs 0 s
    else error ("expected " <> decimal (2 * n) <> " hex characters, got " <> decimal (length s))

abbrev pub hex_digit : ℕ → ℕ
hex_digit d = if ltb d 10 then b'0' + d else b'a' + (d - 10)

-- `{b:02x}` of every byte.
unfoldable pub encode : List ℕ → List ℕ
encode [] = []
encode (b ∷ bs) = hex_digit (b / 16) ∷ hex_digit (b % 16) ∷ encode bs

abbrev hex_names : List String
hex_names =
    "0" ∷ "1" ∷ "2" ∷ "3" ∷ "4" ∷ "5" ∷ "6" ∷ "7" ∷ "8" ∷ "9" ∷ "a" ∷ "b" ∷ "c" ∷ "d" ∷ "e" ∷ "f"
    ∷ []

-- `Display` of an id: `encode`, as a text.
unfoldable pub display : List ℕ → String
display [] = ""
display (b ∷ bs) = digit_text (b / 16) hex_names <> digit_text (b % 16) hex_names <> display bs

abbrev pub all_zero : List ℕ → Bool
all_zero bytes = all (λ b. b == 0) bytes

-- `refuse_zero`, as `from_bytes` of an id type `name` calls it.
unfoldable pub from_bytes : Bool → String → List ℕ → Fallible (List ℕ)
from_bytes nonzero name bytes =
    if nonzero && all_zero bytes then error (name <> " is never all zero") else success bytes

abbrev pub named : Bool → String → Fallible (List ℕ) → Fallible (List ℕ)
named nonzero name (success bytes) = from_bytes nonzero name bytes
named nonzero name (error why) = error (name <> ": " <> why)

-- `parse` of an id type of `n` bytes.
unfoldable pub parse_id : Bool → String → ℕ → List ℕ → Fallible (List ℕ)
unfolding decode from_bytes
parse_id nonzero name n s = named nonzero name (decode n s)

-- Why a text was not a node id.
pub data NodeIdError : Type 0 where
  bad_length : (got : ℕ) → NodeIdError
  not_hex : (at : ℕ) → NodeIdError

pub data Parsed : Type 0 where
  parsed : List ℕ → Parsed
  unparsed : NodeIdError → Parsed

unfoldable pub hex_val : ℕ → Option ℕ
hex_val b =
    if leb b'0' b && leb b b'9'
    then some (b - b'0')
    else if leb b'a' b && leb b b'f'
    then some (b - b'a' + 10)
    else if leb b'A' b && leb b b'F'
    then some (b - b'A' + 10)
    else none

abbrev pub then_byte : ℕ → Parsed → Parsed
then_byte b (parsed bs) = parsed (b ∷ bs)
then_byte b (unparsed e) = unparsed e

-- `(hi << 4) | lo`, the halves below 16; `hi` is looked at first.
abbrev pub node_pair : ℕ → Option ℕ → Option ℕ → Parsed → Parsed
node_pair i none lo rest = unparsed (not_hex (i * 2))
node_pair i (some hi) none rest = unparsed (not_hex (i * 2 + 1))
node_pair i (some hi) (some lo) rest = then_byte (hi * 16 + lo) rest

unfoldable pub node_pairs : ℕ → List ℕ → Parsed
unfolding hex_val
node_pairs i [] = parsed []
node_pairs i (c ∷ []) = parsed []
node_pairs i (hi ∷ lo ∷ rest) = node_pair i (hex_val hi) (hex_val lo) (node_pairs (i + 1) rest)

-- `NodeId::parse`.
unfoldable pub parse_node : List ℕ → Parsed
unfolding node_pairs
parse_node s = if length s == 64 then node_pairs 0 s else unparsed (bad_length (length s))
