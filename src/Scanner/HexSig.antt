-- ===== src/Scanner/HexSig.antt =====
-- components/rust-clam/crates/sig-engine/src/{hexsig,error}.rs: byte patterns with wildcards and
-- gaps. A text is the list of its bytes; the quoted part of an error's reason is left out.
pub mod Parse
pub mod Occurrence
pub mod Formed
pub mod Written
use active_spectral_defense.Base.{
  ℕ, zero, suc, ◌+◌, ◌-◌, ◌*◌, ◌%◌, ◌^◌, Bool, true, false, String, Option, none, some, List, [],
  ◌∷◌, ◌++◌, ◌&&◌, length, get_elem?, leb, ltb, ◌==◌, min, if◌then◌else◌,
}

abbrev pub Bytes : Type 0
Bytes = List ℕ

pub data Reason : Type 0 where
  trailing_gap bad_gap_token bad_gap_range bad_gap_min bad_gap_max odd_digits invalid_hex
        expected_pattern :
      Reason

-- the errors that the parser of patterns returns
pub data SigError : Type 0 where
  -- the line and the reason
  bad_hex_sig : ℕ → Reason → SigError
  no_anchor : SigError

pub data Result (A : Type 0) : Type 0 where
  ok : A → Result A
  err : SigError → Result A

-- `?`
infixl 5 ◌>>=◌
abbrev pub ◌>>=◌ : {A B : Type 0} → Result A → (A → Result B) → Result B
ok a >>= f = f a
err e >>= f = err e

pub data Token : Type 0 where
  byte : ℕ → Token
  wildcard : Token

abbrev pub Segment : Type 0
Segment = List Token

pub data Gap : Type 0 where
  unbounded : Gap
  bounded : ℕ → ℕ → Gap

abbrev pub max_gap_search : ℕ
max_gap_search = 2 ^ 16

pub record HexSignature : Type 0 where
  pub name : Bytes
  pub segments : List Segment
  pub gaps : List Gap
  pub anchor_segment : ℕ
  pub anchor_offset : ℕ
  pub anchor_literal : Bytes

-- `buf[i] == *b`, or a wildcard
unfoldable pub token_matches : Token → Option ℕ → Bool
token_matches t none = false
token_matches wildcard (some b) = true
token_matches (byte a) (some b) = b == a

-- the tokens from `pos` on
unfoldable pub all_match : Bytes → ℕ → Segment → Bool
unfolding token_matches
all_match buf pos [] = true
all_match buf pos (t ∷ ts) = token_matches t (get_elem? buf pos) && all_match buf (pos + 1) ts

unfoldable pub matches_at : Segment → Bytes → ℕ → Bool
unfolding all_match
matches_at seg buf pos =
    if ltb (length buf) (pos + length seg) then false else all_match buf pos seg

abbrev pub Run : Type 0
Run = ℕ × Bytes

-- the length of the best run so far
abbrev pub best_len : Option Run → ℕ
best_len none = 0
best_len (some (_, lit)) = length lit

-- the current run, if it beats the best
unfoldable pub better : Option Run → Run → Option Run
better best cur = if ltb (best_len best) (length cur.1) then some cur else best

-- the loop of `longest_literal_run`, from the token at `i`
unfoldable pub longest_from : ℕ → Option Run → Run → Segment → Option Run
unfolding better
longest_from i best cur [] = better best cur
longest_from i best cur (byte b ∷ ts) =
    let start : ℕ = elim cur.1 [ [] ↦ i | _ ∷ _ ↦ cur.0 ] in
    longest_from (i + 1) best (start, cur.1 ++ b ∷ []) ts
longest_from i best cur (wildcard ∷ ts) = longest_from (i + 1) (better best cur) (cur.0, []) ts

unfoldable pub longest_literal_run : Segment → Option Run
unfolding longest_from
longest_literal_run seg = longest_from 0 none (0, []) seg

unfoldable pub gap_bounds : Gap → ℕ × ℕ
gap_bounds unbounded = (0, max_gap_search)
gap_bounds (bounded least most) = (least, most)

-- `a.saturating_add(b)` on `usize`
unfoldable pub saturating_add : ℕ → ℕ → ℕ
saturating_add a b = min (a + b) (2 ^ 64 - 1)

-- the first of `n` positions from `pos` upwards
unfoldable pub find_up : Bytes → Segment → ℕ → ℕ → Option ℕ
find_up buf seg pos zero = none
find_up buf seg pos (suc n) = elim (matches_at seg buf pos) [
  | true ↦ some pos
  | false ↦ find_up buf seg (pos + 1) n
]

-- the last of the `n + 1` positions from `pos` upwards
unfoldable pub find_down : Bytes → Segment → ℕ → ℕ → Option ℕ
find_down buf seg pos zero = if matches_at seg buf pos then some pos else none
find_down buf seg pos (suc n) = elim (matches_at seg buf (pos + suc n)) [
  | true ↦ some (pos + suc n)
  | false ↦ find_down buf seg pos n
]

unfoldable pub find_forward : Bytes → Segment → ℕ → Gap → Option ℕ
unfolding gap_bounds saturating_add find_up
find_forward buf seg after gap =
    let (least, most) = gap_bounds gap in
    let start = saturating_add after least in
    let end = min (saturating_add after most) (length buf) in
    find_up buf seg start (end + 1 - start)

-- `min + seg.len()` wraps, as in a build for release
unfoldable pub find_backward : Bytes → Segment → ℕ → Gap → Option ℕ
unfolding gap_bounds saturating_add find_down
find_backward buf seg before gap =
    let (least, most) = gap_bounds gap in
    let min_end = (least + length seg) % 2 ^ 64 in
    let latest = before - min_end in
    let earliest = before - saturating_add most (length seg) in
    if ltb before min_end
    then none
    else if ltb latest earliest
    then none
    else find_down buf seg earliest (latest - earliest)

-- gaps with the segments behind them; `none` where an index is out of range, where the code panics
unfoldable pub pairs : List Gap → List Segment → Option (List (Gap × Segment))
pairs [] ss = some []
pairs (g ∷ gs) [] = none
pairs (g ∷ gs) (s ∷ ss) =
    let rest = pairs gs ss in elim rest [ none ↦ none | some ps ↦ some ((g, s) ∷ ps) ]

pub record Around : Type 0 where
  -- the segments before the anchor with the gaps behind them, the nearest first
  pub before : List (Gap × Segment)
  pub anchor : Segment
  pub after : List (Gap × Segment)

-- the signature seen from its `k`th segment; `none` where an index is out of range
unfoldable pub around : ℕ → List Segment → List Gap → List (Gap × Segment) → Option Around
unfolding pairs
around k [] gs before = none
around zero (s ∷ ss) gs before = elim (pairs gs ss) [
  | none ↦ none
  | some after ↦ some (record { before = before; anchor = s; after = after })
]
around (suc k) (s ∷ ss) [] before = none
around (suc k) (s ∷ ss) (g ∷ gs) before = around k ss gs ((g, s) ∷ before)

-- the loop from the anchor to the end of the pattern: where the last segment ends
unfoldable pub walk_forward : Bytes → ℕ → List (Gap × Segment) → Option ℕ
unfolding find_forward
walk_forward buf cursor_end [] = some cursor_end
walk_forward buf cursor_end ((gap, seg) ∷ rest) = elim (find_forward buf seg cursor_end gap) [
  | none ↦ none
  | some pos ↦ walk_forward buf (pos + length seg) rest
]

-- the loop from the anchor to the start of the pattern: where the first segment starts
unfoldable pub walk_backward : Bytes → ℕ → List (Gap × Segment) → Option ℕ
unfolding find_backward
walk_backward buf cursor_start [] = some cursor_start
walk_backward buf cursor_start ((gap, seg) ∷ rest) = elim (find_backward buf seg cursor_start gap) [
  | none ↦ none
  | some pos ↦ walk_backward buf pos rest
]

-- `verify`, once the signature is seen from its anchor
unfoldable pub verify_around : Around → Bytes → ℕ → Option ℕ
unfolding walk_forward walk_backward
verify_around a buf start =
    if matches_at a.anchor buf start
    then elim (walk_forward buf (start + length a.anchor) a.after) [
      | none ↦ none
      | some _ ↦ walk_backward buf start a.before
    ]
    else none

unfoldable pub verify : HexSignature → Bytes → ℕ → Option ℕ
unfolding around verify_around
verify sig buf anchor_match_pos =
    if ltb anchor_match_pos sig.anchor_offset
    then none
    else elim (around sig.anchor_segment sig.segments sig.gaps []) [
      | none ↦ none
      | some a ↦ verify_around a buf (anchor_match_pos - sig.anchor_offset)
    ]
