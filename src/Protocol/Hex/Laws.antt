-- ===== src/Protocol/Hex/Laws.antt =====
-- Hex ids: what parses is what the writer emits, in either case, and the two decoders agree
-- (crates/metralectl-protocol/src/hexid.rs, crates/metralectl-protocol/src/fleet.rs).
use metralectl.Prelude.{ℕ, ◌+◌, ◌-◌, ◌*◌, ◌/◌, ◌%◌, ◌<◌, ◌≡◌, ◌↔◌, refl, ap, Bool, false, ◌&&◌}
use metralectl.Prelude.{
  List, [], ◌∷◌, map, Option, none, some, String, inl, inr, arith, ◌==◌, Bool-cases,
}
use metralectl.Prelude.{length, lower, ◌<>◌, decimal, All, Fallible, success, error}
use metralectl.Protocol.Hex.{
  digit, byte_of, prepend, paired, decode_pairs, decode, hex_digit, encode, all_zero, from_bytes,
  named, parse_id, bad_length, not_hex, Parsed, parsed, unparsed, hex_val, then_byte, node_pair,
  node_pairs, parse_node,
}

abbrev pub IsByte : ℕ → Type 0
IsByte b = b < 256

digit-some : (c d : ℕ) → digit c ≡ some d → (lower c ≡ hex_digit d) × (d < 16)
unfolding digit
digit-some c d e = ground arith

digit-lower : (c d : ℕ) → d < 16 → lower c ≡ hex_digit d → digit c ≡ some d
unfolding digit
digit-lower c d h e = ground arith

-- What two digits and the rest must be for a pair to decode.
record Pair (o o' : Option ℕ) (rest : Fallible (List ℕ)) (bs : List ℕ) : Type 0 where
  hi : ℕ
  lo : ℕ
  more : List ℕ
  high : o ≡ some hi
  low : o' ≡ some lo
  after : rest ≡ success more
  whole : bs ≡ byte_of (hi * 16 + lo) ∷ more

paired-success :
    (i : ℕ) (o o' : Option ℕ) (rest : Fallible (List ℕ)) {bs : List ℕ}
    → paired i o o' rest ≡ success bs
    → Pair o o' rest bs
paired-success i none o' rest e = absurd (cc)
paired-success i (some h) none rest e = absurd (cc)
paired-success i (some h) (some l) (error why) e = absurd (cc)
paired-success i (some h) (some l) (success bs) e = record {
  hi = h;
  lo = l;
  more = bs;
  high = refl;
  low = refl;
  after = refl;
  whole = cc;
}

halves : (hi lo : ℕ) → lo < 16 → ((hi * 16 + lo) / 16 ≡ hi) × ((hi * 16 + lo) % 16 ≡ lo)
halves hi lo h = omega arith

byte_of_whole :
    (hi lo : ℕ) {bs more : List ℕ}
    → hi < 16
    → lo < 16
    → bs ≡ byte_of (hi * 16 + lo) ∷ more
    → bs ≡ (hi * 16 + lo) ∷ more
byte_of_whole hi lo h k e = ground arith

-- A byte is its two halves.
whole_of : (b : ℕ) → b < 256 → byte_of (b / 16 * 16 + b % 16) ≡ b
whole_of b h = ground arith

decode_pairs-success :
    (i n : ℕ) (s bs : List ℕ)
    → length s ≡ 2 * n
    → decode_pairs i s ≡ success bs
    → (map lower s ≡ encode bs) × (length bs ≡ n) × All IsByte bs
unfolding decode_pairs encode
decode_pairs-success i n [] bs h e = let empty : bs ≡ [] = cc in rw empty (refl, omega arith, tt)
decode_pairs-success i n (c ∷ []) bs h e = absurd (omega arith)
decode_pairs-success i n (c ∷ c' ∷ s) bs h e =
    let p = paired-success i (digit c) (digit c') (decode_pairs (i + 1) s) e in
    let first = digit-some c p.hi p.high in
    let second = digit-some c' p.lo p.low in
    let rest = decode_pairs-success (i + 1) (n - 1) s p.more (omega arith) p.after in
    let whole : bs ≡ (p.hi * 16 + p.lo) ∷ p.more =
      byte_of_whole p.hi p.lo first.1 second.1 p.whole in
    let (front, back) = halves p.hi p.lo second.1 in
    rw (whole, front, back, first.0, second.0, rest.0)
      (refl, omega (arith, rest.1), (omega arith, rest.2))

abbrev rest_of : List ℕ → List ℕ
rest_of [] = []
rest_of (x ∷ xs) = xs

abbrev first_of : ℕ → List ℕ → ℕ
first_of d [] = d
first_of d (x ∷ xs) = x

decode_pairs-encode :
    (i : ℕ) (s bs : List ℕ)
    → map lower s ≡ encode bs
    → All IsByte bs
    → decode_pairs i s ≡ success bs
unfolding decode_pairs encode
decode_pairs-encode i [] [] e h = refl
decode_pairs-encode i (c ∷ s) [] e h = absurd (cc)
decode_pairs-encode i [] (b ∷ bs) e h = absurd (cc)
decode_pairs-encode i (c ∷ []) (b ∷ bs) e h = absurd (cc)
decode_pairs-encode i (c ∷ c' ∷ s) (b ∷ bs) e h =
    let rest = decode_pairs-encode (i + 1) s bs (ap rest_of (ap rest_of e)) h.1 in
    let high = digit-lower c (b / 16) (omega arith) (ap (first_of c) e) in
    let low = digit-lower c' (b % 16) (omega arith) (ap (first_of c) (ap rest_of e)) in
    rw (high, low, rest, whole_of b h.0)

length-encode : (bs : List ℕ) → length (encode bs) ≡ 2 * length bs
unfolding encode
length-encode [] = refl
length-encode (b ∷ bs) = omega (arith, length-encode bs)

length-lower : (s : List ℕ) → length (map lower s) ≡ length s
length-lower [] = refl
length-lower (c ∷ s) = omega (arith, length-lower s)

decode-success :
    (n : ℕ) (s bs : List ℕ)
    → decode n s ≡ success bs
    → (map lower s ≡ encode bs) × (length bs ≡ n) × All IsByte bs
unfolding decode
decode-success n s bs e = elim (Bool-cases (length s == 2 * n)) [
  | inl long ↦ decode_pairs-success 0 n s bs (ground arith) (rw long at e)
  | inr short ↦ absurd (ground arith)
]

decode-encode :
    (n : ℕ) (s bs : List ℕ)
    → map lower s ≡ encode bs
    → length bs ≡ n
    → All IsByte bs
    → decode n s ≡ success bs
unfolding decode
decode-encode n s bs e h b =
    let long : length s ≡ 2 * n = omega (arith, length-lower s, length-encode bs, ap length e) in
    ground (arith, decode_pairs-encode 0 s bs e b)

decode_iff :
    (n : ℕ) (s bs : List ℕ)
    → (decode n s ≡ success bs) ↔ ((map lower s ≡ encode bs) × (length bs ≡ n) × All IsByte bs)
decode_iff n s bs = (decode-success n s bs, λ (e, h, b). decode-encode n s bs e h b)

named-success :
    (nonzero : Bool) (name : String) (r : Fallible (List ℕ)) (bs : List ℕ)
    → named nonzero name r ≡ success bs
    → (r ≡ success bs) × ((nonzero && all_zero bs) ≡ false)
unfolding from_bytes
named-success nonzero name (error why) bs e = absurd (cc)
named-success nonzero name (success r) bs e = elim (Bool-cases (nonzero && all_zero r)) [
  | inl zero_id ↦ absurd (ground arith)
  | inr other ↦ let same : r ≡ bs = ground arith in (ap success same, rw (← same) other)
]

-- A text parses as an id of `n` bytes just when it is, but for the case of its letters, what the
-- writer emits for `n` bytes, which are not all zero where the id may not be zero.
pub parse_id_iff :
    (nonzero : Bool) (name : String) (n : ℕ) (s bs : List ℕ)
    → (parse_id nonzero name n s ≡ success bs) ↔ (
        (map lower s ≡ encode bs)
        × (length bs ≡ n)
        × All IsByte bs
        × ((nonzero && all_zero bs) ≡ false))
unfolding parse_id from_bytes
parse_id_iff nonzero name n s bs = (
  λ e.
      let (decoded, kept) = named-success nonzero name (decode n s) bs e in
      let (text, size, bytes) = (decode_iff n s bs).0 decoded in (text, size, bytes, kept),
  λ (text, size, bytes, kept). rw ((decode_iff n s bs).1 (text, size, bytes), kept) refl,
)

-- What `decode` says where `NodeId::parse` gives the answer.
abbrev pub as_decoded : Parsed → Fallible (List ℕ)
as_decoded (parsed bs) = success bs
as_decoded (unparsed (bad_length got)) =
    error ("expected " <> decimal 64 <> " hex characters, got " <> decimal got)
as_decoded (unparsed (not_hex at)) =
    error ("character " <> decimal (at / 2 * 2) <> " is not hexadecimal")

prepend-as_decoded :
    (b : ℕ) (r : Parsed) → b < 256 → prepend (byte_of b) (as_decoded r) ≡ as_decoded (then_byte b r)
prepend-as_decoded b (parsed bs) h = ground arith
prepend-as_decoded b (unparsed (bad_length got)) h = refl
prepend-as_decoded b (unparsed (not_hex at)) h = refl

paired-as_decoded :
    (i : ℕ) (o o' : Option ℕ) (r : Parsed)
    → ((d : ℕ) → o ≡ some d → d < 16)
    → ((d : ℕ) → o' ≡ some d → d < 16)
    → paired i o o' (as_decoded r) ≡ as_decoded (node_pair i o o' r)
paired-as_decoded i none o' r h h' =
    ap (λ k. error ("character " <> decimal k <> " is not hexadecimal")) (omega arith)
paired-as_decoded i (some hi) none r h h' =
    ap (λ k. error ("character " <> decimal k <> " is not hexadecimal")) (omega arith)
paired-as_decoded i (some hi) (some lo) r h h' =
    let high = h hi refl in
    let low = h' lo refl in prepend-as_decoded (hi * 16 + lo) r (omega arith)

hex_val-eq-digit : (c : ℕ) → hex_val c ≡ digit c
unfolding hex_val digit
hex_val-eq-digit c = refl

decode_pairs-node : (i : ℕ) (s : List ℕ) → decode_pairs i s ≡ as_decoded (node_pairs i s)
unfolding decode_pairs node_pairs
decode_pairs-node i [] = refl
decode_pairs-node i (c ∷ []) = refl
decode_pairs-node i (c ∷ c' ∷ s) =
    let small = λ (x : ℕ) (d : ℕ) (e : digit x ≡ some d). (digit-some x d e).1 in
    rw (decode_pairs-node (i + 1) s, hex_val-eq-digit c, hex_val-eq-digit c')
      (paired-as_decoded i (digit c) (digit c') (node_pairs (i + 1) s) (small c) (small c'))

-- The node id's parser and the shared decoder answer alike on every text: the same bytes, and the
-- same refusal, of the length or of the first pair that is not hexadecimal.
pub decode-parse_node : (s : List ℕ) → decode 32 s ≡ as_decoded (parse_node s)
unfolding decode parse_node
decode-parse_node s = elim (Bool-cases (length s == 64)) [
  | inl e ↦ rw (e, decode_pairs-node 0 s) refl
  | inr e ↦ rw e refl
]
