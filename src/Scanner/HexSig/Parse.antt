-- ===== src/Scanner/HexSig/Parse.antt =====
-- components/rust-clam/crates/sig-engine/src/hexsig.rs, `parse`: a signature from its text.
use active_spectral_defense.Base.{
  ℕ, ◌+◌, ◌-◌, ◌*◌, ◌%◌, ◌^◌, Bool, true, false, Option, none, some, List, [], ◌∷◌, ◌++◌, ◌&&◌,
  length, leb, ltb, ◌==◌, if◌then◌else◌,
}
use active_spectral_defense.Scanner.HexSig.{
  Bytes, Reason, trailing_gap, bad_gap_token, bad_gap_range, bad_gap_min, bad_gap_max, odd_digits,
  invalid_hex, bad_hex_sig, no_anchor, Result, ok, err, ◌>>=◌, byte, wildcard, Token, Segment, Gap,
  unbounded, bounded, HexSignature, Run, longest_literal_run,
}

-- where the loop of `split_on_gaps` is: in a segment, behind a `*`, or in the braces of a gap
pub data Mode : Type 0 where
  in_segment after_star in_braces : Mode

-- the loop, with the token that it is in
unfoldable pub split_from : Mode → Bytes → Bytes → List Bytes
split_from in_segment tok [] = tok ∷ []
split_from in_segment tok (b ∷ bs) = elim (b == b'*') [
  | true ↦ tok ∷ split_from after_star (b ∷ []) bs
  | false ↦ split_from in_segment (tok ++ b ∷ []) bs
]
split_from after_star tok [] = tok ∷ [] ∷ []
split_from after_star tok (b ∷ bs) = elim (b == b'{') [
  | true ↦ split_from in_braces (tok ++ b ∷ []) bs
  | false ↦ elim (b == b'*') [
    | true ↦ tok ∷ [] ∷ split_from after_star (b ∷ []) bs
    | false ↦ tok ∷ split_from in_segment (b ∷ []) bs
  ]
]
split_from in_braces tok [] = tok ∷ [] ∷ []
split_from in_braces tok (b ∷ bs) = elim (b == b'}') [
  | true ↦ (tok ++ b ∷ []) ∷ split_from in_segment [] bs
  | false ↦ split_from in_braces (tok ++ b ∷ []) bs
]

unfoldable pub split_on_gaps : Bytes → List Bytes
unfolding split_from
split_on_gaps pattern = split_from in_segment [] pattern

unfoldable pub hex_nibble : ℕ → Option ℕ
hex_nibble b =
    if leb b'0' b && leb b b'9'
    then some (b - b'0')
    else if leb b'a' b && leb b b'f'
    then some (b - b'a' + 10)
    else if leb b'A' b && leb b b'F'
    then some (b - b'A' + 10)
    else none

-- the value of two hex digits
unfoldable pub hex_pair : ℕ → ℕ → Option ℕ
unfolding hex_nibble
hex_pair a b = elim (hex_nibble a) [
  | none ↦ none
  | some hi ↦ elim (hex_nibble b) [ none ↦ none | some lo ↦ some (hi * 16 + lo) ]
]

unfoldable pub hex_token : ℕ → ℕ → ℕ → Result Token
unfolding hex_pair
hex_token line a b =
    if a == b'?' && b == b'?'
    then ok wildcard
    else elim (hex_pair a b) [ none ↦ err (bad_hex_sig line invalid_hex) | some v ↦ ok (byte v) ]

-- the loop over the pairs of bytes
unfoldable pub tokens_of : ℕ → Bytes → Result Segment
unfolding hex_token
tokens_of line [] = ok []
tokens_of line (a ∷ []) = err (bad_hex_sig line odd_digits)
tokens_of line (a ∷ b ∷ bs) = do t ← hex_token line a b; ts ← tokens_of line bs; ok (t ∷ ts)

unfoldable pub parse_segment : ℕ → Bytes → Result Segment
unfolding tokens_of
parse_segment line tok =
    if length tok % 2 == 0 then tokens_of line tok else err (bad_hex_sig line odd_digits)

-- the digits of `str::parse::<usize>`, which fails on an overflow
unfoldable pub digits : ℕ → Bytes → Option ℕ
digits acc [] = some acc
digits acc (b ∷ bs) =
    let value = acc * 10 + (b - b'0') in
    elim (leb b'0' b && leb b b'9' && ltb value (2 ^ 64)) [ true ↦ digits value bs | false ↦ none ]

-- `str::parse::<usize>`: digits, perhaps behind a `+`
unfoldable pub parse_usize : Bytes → Option ℕ
unfolding digits
parse_usize [] = none
parse_usize (b ∷ []) = digits 0 (b ∷ [])
parse_usize (b ∷ c ∷ bs) = if b == b'+' then digits 0 (c ∷ bs) else digits 0 (b ∷ c ∷ bs)

-- `s.strip_suffix('}')`
unfoldable pub strip_brace : Bytes → Option Bytes
strip_brace [] = none
strip_brace (b ∷ []) = if b == b'}' then some [] else none
strip_brace (b ∷ c ∷ bs) = elim (strip_brace (c ∷ bs)) [ none ↦ none | some rest ↦ some (b ∷ rest) ]

-- `inner.split_once('-')`
unfoldable pub split_once : Bytes → Bytes → Option (Bytes × Bytes)
split_once seen [] = none
split_once seen (b ∷ bs) = elim (b == b'-') [
  | true ↦ some (seen, bs)
  | false ↦ split_once (seen ++ b ∷ []) bs
]

-- what is between `*{` and `}`
unfoldable pub inner_of : Bytes → Option Bytes
unfolding strip_brace
inner_of (a ∷ b ∷ bs) = if a == b'*' && b == b'{' then strip_brace bs else none
inner_of _ = none

abbrev or_fail : {A : Type 0} → Option A → ℕ → Reason → Result A
or_fail none line reason = err (bad_hex_sig line reason)
or_fail (some a) line reason = ok a

-- `tok == "*"`
abbrev is_star : Bytes → Bool
is_star (b ∷ []) = b == b'*'
is_star _ = false

unfoldable pub parse_range : ℕ → Bytes → Result Gap
unfolding inner_of split_once parse_usize
parse_range line tok = do
  inner ← or_fail (inner_of tok) line bad_gap_token
  range ← or_fail (split_once [] inner) line bad_gap_range
  least ← or_fail (parse_usize range.0) line bad_gap_min
  most ← or_fail (parse_usize range.1) line bad_gap_max
  ok (bounded least most)

unfoldable pub parse_gap : ℕ → Bytes → Result Gap
unfolding parse_range
parse_gap line tok = if is_star tok then ok unbounded else parse_range line tok

-- the loop over the tokens behind the first: gaps and segments in turn
unfoldable pub parse_rest : ℕ → List Bytes → Result (List Gap × List Segment)
unfolding parse_gap parse_segment
parse_rest line [] = ok ([], [])
parse_rest line (gap_tok ∷ []) = do
  gap ← parse_gap line gap_tok
  err (bad_hex_sig line trailing_gap)
parse_rest line (gap_tok ∷ seg_tok ∷ toks) = do
  gap ← parse_gap line gap_tok
  seg ← parse_segment line seg_tok
  rest ← parse_rest line toks
  ok (gap ∷ rest.0, seg ∷ rest.1)

unfoldable pub parse_all : ℕ → List Bytes → Result (List Gap × List Segment)
unfolding parse_rest
parse_all line [] = ok ([], [])
parse_all line (first ∷ toks) = do
  seg ← parse_segment line first
  rest ← parse_rest line toks
  ok (rest.0, seg ∷ rest.1)

-- a segment's index, an offset in it and the bytes there
abbrev pub Anchor : Type 0
Anchor = ℕ × Run

-- the run of the segment at `idx`, if it beats the best so far
unfoldable pub better_anchor : ℕ → Option Run → Option Anchor → Option Anchor
better_anchor idx none best = best
better_anchor idx (some (off, [])) best = best
better_anchor idx (some (off, b ∷ lit)) none = some (idx, (off, b ∷ lit))
better_anchor idx (some (off, b ∷ lit)) (some (i, (o, l))) =
    if ltb (length l) (length (b ∷ lit)) then some (idx, (off, b ∷ lit)) else some (i, (o, l))

-- the loop over the segments from `idx` on
unfoldable pub best_anchor : ℕ → Option Anchor → List Segment → Option Anchor
unfolding better_anchor
best_anchor idx best [] = best
best_anchor idx best (seg ∷ segs) =
    best_anchor (idx + 1) (better_anchor idx (longest_literal_run seg) best) segs

-- the anchor has to have two bytes
unfoldable pub anchored : Bytes → List Gap × List Segment → Option Anchor → Result HexSignature
anchored name parts none = err no_anchor
anchored name parts (some (s, (o, l))) =
    if leb 2 (length l)
    then ok (record {
      name = name;
      segments = parts.1;
      gaps = parts.0;
      anchor_segment = s;
      anchor_offset = o;
      anchor_literal = l;
    })
    else err no_anchor

unfoldable pub parse : ℕ → Bytes → Bytes → Result HexSignature
unfolding split_on_gaps parse_all best_anchor anchored
parse line name pattern = do
  parts ← parse_all line (split_on_gaps pattern)
  anchored name parts (best_anchor 0 none parts.1)
