-- ===== src/Scanner/HexSig/Occurrence.antt =====
-- What a match that components/rust-clam/crates/sig-engine/src/hexsig.rs reports is.
use active_spectral_defense.Base.{
  ℕ, zero, suc, ◌+◌, ◌-◌, ◌%◌, ◌^◌, ◌≤◌, ◌<◌, ◌≡◌, refl, true, some, List, [], ◌∷◌, length, ltb,
  min, arith, All, Bool-cases, Option-cases, inl, inr,
}
use active_spectral_defense.Scanner.HexSig.{
  Bytes, Segment, Gap, HexSignature, matches_at, gap_bounds, saturating_add, find_up, find_down,
  find_forward, find_backward, pairs, Around, around, walk_forward, walk_backward, verify_around,
  verify,
}

-- a gap may lie between the end of a segment and the start of the next
abbrev pub Within : ℕ → ℕ → Gap → Type 0
Within end start gap =
    let (least, most) = gap_bounds gap in (end + least ≤ start) × (start ≤ end + most)

-- the segments match one after another from the position on, with the gaps between them
abbrev pub Occurs : Bytes → ℕ → List Segment → List Gap → Type 0
Occurs buf p [] gs = ⊥
Occurs buf p (s ∷ ss) [] = (matches_at s buf p ≡ true) × (ss ≡ [])
Occurs buf p (s ∷ ss) (g ∷ gs) =
    (matches_at s buf p ≡ true) × ((q : ℕ) × Within (p + length s) q g × Occurs buf q ss gs)

find_up-matches :
    (buf : Bytes) (seg : Segment) (pos n q : ℕ)
    → find_up buf seg pos n ≡ some q
    → (matches_at seg buf q ≡ true) × (pos ≤ q) × (q + 1 ≤ pos + n)
unfolding find_up
find_up-matches buf seg pos zero q h = absurd (ground (arith, h))
find_up-matches buf seg pos (suc n) q h = elim (Bool-cases (matches_at seg buf pos)) [
  | inl e ↦ ground (arith, h, e)
  | inr e ↦ ground (arith, h, e, find_up-matches buf seg (pos + 1) n q)
]

find_down-matches :
    (buf : Bytes) (seg : Segment) (pos n q : ℕ)
    → find_down buf seg pos n ≡ some q
    → (matches_at seg buf q ≡ true) × (pos ≤ q) × (q ≤ pos + n)
unfolding find_down
find_down-matches buf seg pos zero q h = ground (arith, h)
find_down-matches buf seg pos (suc n) q h = elim (Bool-cases (matches_at seg buf (pos + suc n))) [
  | inl e ↦ ground (arith, h, e)
  | inr e ↦ ground (arith, h, e, find_down-matches buf seg pos n q)
]

find_forward-Within :
    (buf : Bytes) (seg : Segment) (after q : ℕ) (gap : Gap)
    → length buf < 2 ^ 64 - 1
    → find_forward buf seg after gap ≡ some q
    → (matches_at seg buf q ≡ true) × Within after q gap
unfolding find_forward saturating_add
find_forward-Within buf seg after q gap fits h =
    let (least, most) = gap_bounds gap in
    let start = saturating_add after least in
    let end = min (saturating_add after most) (length buf) in
    ground (arith, fits, h, find_up-matches buf seg start (end + 1 - start) q)

find_backward-Within :
    (buf : Bytes) (seg : Segment) (before q : ℕ) (gap : Gap)
    → (gap_bounds gap).0 + length seg < 2 ^ 64
    → find_backward buf seg before gap ≡ some q
    → (matches_at seg buf q ≡ true) × Within (q + length seg) before gap
unfolding find_backward saturating_add
find_backward-Within buf seg before q gap fits h =
    let (least, most) = gap_bounds gap in
    let min_end = (least + length seg) % 2 ^ 64 in
    let latest = before - min_end in
    let earliest = before - saturating_add most (length seg) in
    ground (arith, fits, h, find_down-matches buf seg earliest (latest - earliest) q)

-- the walk from the anchor to the end, and from the anchor to the start
abbrev Follows : Bytes → ℕ → List (Gap × Segment) → Type 0
Follows buf end [] = Unit
Follows buf end ((g, s) ∷ rest) =
    (q : ℕ) × (matches_at s buf q ≡ true) × Within end q g × Follows buf (q + length s) rest

abbrev Precedes : Bytes → ℕ → List (Gap × Segment) → ℕ → Type 0
Precedes buf start [] first = first ≡ start
Precedes buf start ((g, s) ∷ rest) first =
    (q : ℕ) × (matches_at s buf q ≡ true)
    × Within (q + length s) start g
    × Precedes buf q rest first

-- no gap and no segment is so long that `usize` wraps
abbrev pub Short : List (Gap × Segment) → Type 0
Short ps = All (λ p. (gap_bounds p.0).0 + length p.1 < 2 ^ 64) ps

walk_forward-Follows :
    (buf : Bytes) (end : ℕ) (ps : List (Gap × Segment)) (last : ℕ)
    → length buf < 2 ^ 64 - 1
    → walk_forward buf end ps ≡ some last
    → Follows buf end ps
unfolding walk_forward
walk_forward-Follows buf end [] last fits h = tt
walk_forward-Follows buf end ((g, s) ∷ ps) last fits h =
    elim (Option-cases (find_forward buf s end g)) [
      | inl miss ↦ absurd (ground (arith, h, miss))
      | inr (q, hit) ↦
          let (m, w) = find_forward-Within buf s end q g fits hit in
          let rest : walk_forward buf (q + length s) ps ≡ some last = ground (arith, h, hit) in
          (q, m, w, walk_forward-Follows buf (q + length s) ps last fits rest)
    ]

walk_backward-Precedes :
    (buf : Bytes) (start : ℕ) (ps : List (Gap × Segment)) (first : ℕ)
    → Short ps
    → walk_backward buf start ps ≡ some first
    → Precedes buf start ps first
unfolding walk_backward
walk_backward-Precedes buf start [] first short h = ground (arith, h)
walk_backward-Precedes buf start ((g, s) ∷ ps) first short h =
    elim (Option-cases (find_backward buf s start g)) [
      | inl miss ↦ absurd (ground (arith, h, miss))
      | inr (q, hit) ↦
          let (m, w) = find_backward-Within buf s start q g short.0 hit in
          let rest : walk_backward buf q ps ≡ some first = ground (arith, h, hit) in
          (q, m, w, walk_backward-Precedes buf q ps first short.1 rest)
    ]

Follows-Occurs :
    (buf : Bytes) (p : ℕ) (s : Segment) (ss : List Segment) (gs : List Gap)
    (after : List (Gap × Segment))
    → length gs ≡ length ss
    → pairs gs ss ≡ some after
    → matches_at s buf p ≡ true
    → Follows buf (p + length s) after
    → Occurs buf p (s ∷ ss) gs
unfolding pairs
Follows-Occurs buf p s [] [] after l h m f = (m, refl)
Follows-Occurs buf p s (x ∷ ss) [] after l h m f = absurd (omega (arith, l))
Follows-Occurs buf p s [] (g ∷ gs) after l h m f = absurd (omega (arith, l))
Follows-Occurs buf p s (x ∷ ss) (g ∷ gs) after l h m f = elim (Option-cases (pairs gs ss)) [
  | inl miss ↦ absurd (ground (arith, h, miss))
  | inr (ps, hit) ↦
      let e : some ((g, x) ∷ ps) ≡ some after = rw hit at h in
      let path : after ≡ (g, x) ∷ ps = ground (arith, e) in
      let f' : Follows buf (p + length s) ((g, x) ∷ ps) = rw path at f in
      let (q, m', w, rest) = f' in
      (m, (q, w, Follows-Occurs buf q x ss gs ps (omega (arith, l)) hit m' rest))
]

-- a match around the anchor is an occurrence of what lies from `before` on
around-Occurs :
    (buf : Bytes) (p first k : ℕ) (ss : List Segment) (gs : List Gap)
    (before : List (Gap × Segment)) (a : Around)
    → length ss ≡ length gs + 1
    → around k ss gs before ≡ some a
    → matches_at a.anchor buf p ≡ true
    → Follows buf (p + length a.anchor) a.after
    → Precedes buf p a.before first
    → (q : ℕ) × Occurs buf q ss gs × Precedes buf q before first
unfolding around
around-Occurs buf p first k [] gs before a l h m f b = absurd (ground (arith, h))
around-Occurs buf p first zero (s ∷ ss) gs before a l h m f b = elim (Option-cases (pairs gs ss)) [
  | inl miss ↦ absurd (ground (arith, h, miss))
  | inr (ps, hit) ↦
      let at_anchor : Around = record { before = before; anchor = s; after = ps } in
      let e : some at_anchor ≡ some a = rw (around, hit) at h in
      let path : a ≡ at_anchor = ground (arith, e) in
      let m' : matches_at s buf p ≡ true = rw path at m in
      let f' : Follows buf (p + length s) ps = rw path at f in
      let b' : Precedes buf p before first = rw path at b in
      (p, Follows-Occurs buf p s ss gs ps (omega (arith, l)) hit m' f', b')
]
around-Occurs buf p first (suc k) (s ∷ ss) [] before a l h m f b = absurd (ground (arith, h))
around-Occurs buf p first (suc k) (s ∷ ss) (g ∷ gs) before a l h m f b =
    let (q, found, (r, here, w, rest)) =
      around-Occurs buf p first k ss gs ((g, s) ∷ before) a (omega (arith, l)) h m f b in
    (r, (here, (q, w, found)), rest)

-- no gap's least length and no segment's length is half the range of `usize`
abbrev pub IsShort : List Segment → List Gap → Type 0
IsShort ss gs = All (λ s. length s < 2 ^ 63) ss × All (λ g. (gap_bounds g).0 < 2 ^ 63) gs

around-Short :
    (k : ℕ) (ss : List Segment) (gs : List Gap) (before : List (Gap × Segment)) (a : Around)
    → IsShort ss gs
    → Short before
    → around k ss gs before ≡ some a
    → Short a.before
unfolding around
around-Short k [] gs before a short b h = absurd (ground (arith, h))
around-Short zero (s ∷ ss) gs before a short b h = elim (Option-cases (pairs gs ss)) [
  | inl miss ↦ absurd (ground (arith, h, miss))
  | inr (ps, hit) ↦
      let at_anchor : Around = record { before = before; anchor = s; after = ps } in
      let e : some at_anchor ≡ some a = rw (around, hit) at h in
      let path : a ≡ at_anchor = ground (arith, e) in rw path b
]
around-Short (suc k) (s ∷ ss) [] before a short b h = absurd (ground (arith, h))
around-Short (suc k) (s ∷ ss) (g ∷ gs) before a short b h =
    around-Short k ss gs ((g, s) ∷ before) a (short.0.1, short.1.1)
      (omega (arith, short.0.0, short.1.0), b) h

verify_around-cases :
    (a : Around) (buf : Bytes) (start first : ℕ)
    → verify_around a buf start ≡ some first
    → (matches_at a.anchor buf start ≡ true)
      × ((last : ℕ) × (walk_forward buf (start + length a.anchor) a.after ≡ some last))
      × (walk_backward buf start a.before ≡ some first)
unfolding verify_around
verify_around-cases a buf start first h = elim (Bool-cases (matches_at a.anchor buf start)) [
  | inr e ↦ absurd (ground (arith, h, e))
  | inl e ↦ elim (Option-cases (walk_forward buf (start + length a.anchor) a.after)) [
    | inl miss ↦ absurd (ground (arith, h, e, miss))
    | inr (last, hit) ↦ (e, (last, hit), ground (arith, h, e, hit))
  ]
]

-- If `verify` reports a match that starts at `first`, then the whole signature occurs there: its
-- segments match one after another, the first at `first`, with every gap within its bounds. The
-- signature has a gap between any two segments, its segments and the least lengths of its gaps
-- are shorter than half the range of `usize`, and the buffer's length is below the end of it.
pub verify-Occurs :
    (sig : HexSignature) (buf : Bytes) (anchor_match_pos first : ℕ)
    → length sig.segments ≡ length sig.gaps + 1
    → IsShort sig.segments sig.gaps
    → length buf < 2 ^ 64 - 1
    → verify sig buf anchor_match_pos ≡ some first
    → Occurs buf first sig.segments sig.gaps
unfolding verify
verify-Occurs sig buf anchor_match_pos first l short fits h =
    let start = anchor_match_pos - sig.anchor_offset in
    elim (Bool-cases (ltb anchor_match_pos sig.anchor_offset)) [
      | inl e ↦ absurd (ground (arith, h, e))
      | inr e ↦ elim (Option-cases (around sig.anchor_segment sig.segments sig.gaps [])) [
        | inl miss ↦ absurd (ground (arith, h, e, miss))
        | inr (a, hit) ↦
            let found : verify_around a buf start ≡ some first = ground (arith, h, e, hit) in
            let (m, (last, forward), backward) = verify_around-cases a buf start first found in
            let f = walk_forward-Follows buf (start + length a.anchor) a.after last fits forward in
            let few = around-Short sig.anchor_segment sig.segments sig.gaps [] a short tt hit in
            let b = walk_backward-Precedes buf start a.before first few backward in
            let (q, whole, same) =
              around-Occurs buf start first sig.anchor_segment sig.segments sig.gaps [] a l hit m f
                b in
            rw same whole
      ]
    ]
