-- ===== src/Scanner/HexSig/Formed.antt =====
-- What `parse` of components/rust-clam/crates/sig-engine/src/hexsig.rs accepts.
use active_spectral_defense.Base.{
  ℕ, ◌+◌, ◌-◌, ◌^◌, ◌≤◌, ◌<◌, ◌≡◌, refl, Option, none, some, List, [], ◌∷◌, length, leb, ltb, arith,
  Bool-cases, inl, inr, ◌⊎◌, subst, ap,
}
use active_spectral_defense.Scanner.HexSig.{
  Bytes, Result, ok, err, SigError, Segment, Gap, HexSignature, Run, longest_literal_run, verify,
}
use active_spectral_defense.Scanner.HexSig.Occurrence.{IsShort, Occurs, verify-Occurs}
use active_spectral_defense.Scanner.HexSig.Parse.{
  parse_segment, parse_gap, parse_rest, parse_all, Anchor, better_anchor, best_anchor, anchored,
  parse, split_on_gaps,
}

pub Result-cases :
    {A : Type 0} (r : Result A) → ((a : A) × (r ≡ ok a)) ⊎ ((e : SigError) × (r ≡ err e))
Result-cases (ok a) = inl (a, refl)
Result-cases (err e) = inr (e, refl)

parse_rest-lengths :
    (line : ℕ) (toks : List Bytes) (parts : List Gap × List Segment)
    → parse_rest line toks ≡ ok parts
    → length parts.1 ≡ length parts.0
unfolding parse_rest
parse_rest-lengths line [] parts h = ground (arith, h)
parse_rest-lengths line (g ∷ []) parts h = elim (Result-cases (parse_gap line g)) [
  | inl (gap, e) ↦ absurd (ground (arith, h, e))
  | inr (x, e) ↦ absurd (ground (arith, h, e))
]
parse_rest-lengths line (g ∷ s ∷ toks) parts h = elim (Result-cases (parse_gap line g)) [
  | inr (x, e) ↦ absurd (ground (arith, h, e))
  | inl (gap, e) ↦ elim (Result-cases (parse_segment line s)) [
    | inr (x, f) ↦ absurd (ground (arith, h, e, f))
    | inl (seg, f) ↦ elim (Result-cases (parse_rest line toks)) [
      | inr (x, k) ↦ absurd (ground (arith, h, e, f, k))
      | inl (rest, k) ↦ ground (arith, h, e, f, k, parse_rest-lengths line toks rest k)
    ]
  ]
]

-- one segment more than gaps, or nothing at all
parse_all-lengths :
    (line : ℕ) (toks : List Bytes) (parts : List Gap × List Segment)
    → parse_all line toks ≡ ok parts
    → (length parts.1 ≡ length parts.0 + 1) ⊎ (parts.1 ≡ [])
unfolding parse_all
parse_all-lengths line [] parts h = inr (ground (arith, h))
parse_all-lengths line (first ∷ toks) parts h = elim (Result-cases (parse_segment line first)) [
  | inr (x, e) ↦ absurd (ground (arith, h, e))
  | inl (seg, e) ↦ elim (Result-cases (parse_rest line toks)) [
    | inr (x, f) ↦ absurd (ground (arith, h, e, f))
    | inl (rest, f) ↦ inl (ground (arith, h, e, f, parse_rest-lengths line toks rest f))
  ]
]

-- the anchor is in one of the segments
abbrev Below : ℕ → Option Anchor → Type 0
Below n none = Unit
Below n (some (idx, run)) = idx < n

better_anchor-Below :
    (idx : ℕ) (run : Option Run) (best : Option Anchor)
    → Below idx best
    → Below (idx + 1) (better_anchor idx run best)
unfolding better_anchor
better_anchor-Below idx none none h = tt
better_anchor-Below idx none (some (i, (o, l))) h = omega (arith, h)
better_anchor-Below idx (some (off, [])) none h = tt
better_anchor-Below idx (some (off, [])) (some (i, (o, l))) h = omega (arith, h)
better_anchor-Below idx (some (off, b ∷ lit)) none h = omega arith
better_anchor-Below idx (some (off, b ∷ lit)) (some (i, (o, l))) h =
    elim (Bool-cases (ltb (length l) (length (b ∷ lit)))) [
      | inl e ↦ rw (e, better_anchor) (omega arith)
      | inr e ↦ rw (e, better_anchor) (omega (arith, h))
    ]

best_anchor-Below :
    (idx : ℕ) (best : Option Anchor) (segs : List Segment)
    → Below idx best
    → Below (idx + length segs) (best_anchor idx best segs)
unfolding best_anchor
best_anchor-Below idx best [] h = subst (λ n. Below n best) (omega arith) h
best_anchor-Below idx best (seg ∷ segs) h =
    let best' = better_anchor idx (longest_literal_run seg) best in
    let below = best_anchor-Below (idx + 1) best' segs (better_anchor-Below idx _ best h) in
    subst (λ n. Below n (best_anchor (idx + 1) best' segs)) (omega arith) below

anchored-cases :
    (name : Bytes) (parts : List Gap × List Segment) (a : Option Anchor) (sig : HexSignature)
    → anchored name parts a ≡ ok sig
    → (run : Anchor) × (a ≡ some run)
      × (2 ≤ length run.1.1)
      × (sig.segments ≡ parts.1)
      × (sig.gaps ≡ parts.0)
      × (sig.anchor_segment ≡ run.0)
      × (sig.anchor_literal ≡ run.1.1)
unfolding anchored
anchored-cases name parts none sig h = absurd (ground (arith, h))
anchored-cases name parts (some (s, (o, l))) sig h = elim (Bool-cases (leb 2 (length l))) [
  | inr e ↦ absurd (ground (arith, h, e))
  | inl e ↦ (
    (s, (o, l)),
    refl,
    ground (arith, e),
    ground (arith, h, e),
    ground (arith, h, e),
    ground (arith, h, e),
    ground (arith, h, e),
  )
]

-- A signature that `parse` accepts has a gap between any two of its segments and no other, its
-- anchor is in one of them, and the literal that the search looks for has at least two bytes.
pub parse-lengths :
    (line : ℕ) (name pattern : Bytes) (sig : HexSignature)
    → parse line name pattern ≡ ok sig
    → (length sig.segments ≡ length sig.gaps + 1)
      × (sig.anchor_segment < length sig.segments)
      × (2 ≤ length sig.anchor_literal)
unfolding parse
parse-lengths line name pattern sig h =
    elim (Result-cases (parse_all line (split_on_gaps pattern))) [
      | inr (x, e) ↦ absurd (ground (arith, h, e))
      | inl (parts, e) ↦
          let best = best_anchor 0 none parts.1 in
          let found : anchored name parts best ≡ ok sig = rw (parse, e) at h in
          let (run, is_best, long, segs, gaps, idx, lit) =
            anchored-cases name parts best sig found in
          let below : Below (0 + length parts.1) (some run) =
            rw is_best at (best_anchor-Below 0 none parts.1 tt) in
          let lengths : (length parts.1 ≡ length parts.0 + 1) ⊎ (parts.1 ≡ []) =
            parse_all-lengths line (split_on_gaps pattern) parts e in
          let count : length sig.segments ≡ length parts.1 = ap (λ ss. length ss) segs in
          let count_gaps : length sig.gaps ≡ length parts.0 = ap (λ gs. length gs) gaps in
          let count_lit : length sig.anchor_literal ≡ length run.1.1 = ap (λ l. length l) lit in
          let full : length parts.1 ≡ length parts.0 + 1 = elim lengths [
            | inl l ↦ l
            | inr none_left ↦
                let no_room : length parts.1 ≡ 0 = ap (λ ss. length ss) none_left in
                absurd (omega (arith, below, no_room))
          ] in
          (
            omega (arith, count, count_gaps, full),
            ground (arith, count, idx, below),
            omega (arith, count_lit, long),
          )
    ]

-- If `parse` accepts a signature whose segments and least gaps are shorter than half the range of
-- `usize`, and `verify` reports a match in a buffer whose length is below the end of that range,
-- then the whole signature occurs where the match is said to start: its segments match one after
-- another, with every gap within its bounds.
pub parse-verify-Occurs :
    (line : ℕ) (name pattern : Bytes) (sig : HexSignature) (buf : Bytes)
    (anchor_match_pos first : ℕ)
    → parse line name pattern ≡ ok sig
    → IsShort sig.segments sig.gaps
    → length buf < 2 ^ 64 - 1
    → verify sig buf anchor_match_pos ≡ some first
    → Occurs buf first sig.segments sig.gaps
parse-verify-Occurs line name pattern sig buf anchor_match_pos first parsed short fits h =
    verify-Occurs sig buf anchor_match_pos first (parse-lengths line name pattern sig parsed).0
      short fits h
