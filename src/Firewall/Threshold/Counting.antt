-- ===== src/Firewall/Threshold/Counting.antt =====
-- When a source reaches the threshold of a rule (components/firewall-perimeter/src/threshold.rs).
use active_spectral_defense.Base.{
  ℕ, suc, ◌+◌, ◌-◌, ◌≤◌, ◌<◌, ◌≡◌, ◌≢◌, refl, Bool, true, false, Option, none, some, List, [], ◌∷◌,
  leb, ltb, if◌then◌else◌, arith, ◌⊎◌, inl, inr, ◌*◌, All, length,
}
use active_spectral_defense.Map.{lookup, insert, IsMap}
use active_spectral_defense.Map.Laws.{lookup-insert, lookup-retain, insert-IsMap}
use active_spectral_defense.Firewall.Threshold.{
  Key, Key-discrete, Count, ThresholdTracker, or_insert, roll, bump, record_and_check, sweep,
}

abbrev pub count_of : Key → ThresholdTracker → Option Count
count_of key t = lookup Key-discrete key t.counts

-- what a match finds, before it is counted
abbrev pub current : ℕ → ℕ → Key → ThresholdTracker → Count
current now window key t = roll now window (or_insert now (count_of key t))

-- One match of `key` changes the count of `key` alone.
pub record_and_check-other :
    (now threshold window : ℕ) (key other : Key) (t : ThresholdTracker)
    → key ≢ other
    → count_of other (record_and_check now key threshold window t).1 ≡ count_of other t
unfolding record_and_check
record_and_check-other now threshold window key other t h = ground (
  arith,
  lookup-insert Key-discrete key other (bump now threshold (current now window key t)).0 t.counts,
)

record_and_check-fires :
    (now threshold window : ℕ) (key : Key) (t : ThresholdTracker)
    → 1 < threshold
    → (record_and_check now key threshold window t).0
      ≡ leb threshold ((current now window key t).count + 1)
unfolding record_and_check
record_and_check-fires now threshold window key t h = ground arith

count-record_and_check :
    (now threshold window : ℕ) (key : Key) (t : ThresholdTracker)
    → 1 < threshold
    → count_of key (record_and_check now key threshold window t).1
      ≡ some (bump now threshold (current now window key t)).0
unfolding record_and_check
count-record_and_check now threshold window key t h = ground (
  arith,
  lookup-insert Key-discrete key key (bump now threshold (current now window key t)).0 t.counts,
)

-- `key` has `m` matches towards its next ban, in a window that began at `t0` or later.
abbrev Counted : ℕ → ℕ → Key → ThresholdTracker → Type 0
Counted t0 m key t =
    ((count_of key t ≡ none) × (m ≡ 0))
    ⊎ ((c : Count) × (count_of key t ≡ some c) × (c.count ≡ m) × (t0 ≤ c.start))

current-Counted :
    (t0 m now window : ℕ) (key : Key) (t : ThresholdTracker)
    → t0 ≤ now
    → now ≤ t0 + window
    → Counted t0 m key t
    → ((current now window key t).count ≡ m) × (t0 ≤ (current now window key t).start)
unfolding roll or_insert
current-Counted t0 m now window key t lo hi h = ground arith

abbrev next : ℕ → ℕ → ℕ
next threshold m = if leb threshold (m + 1) then 0 else m + 1

count_step :
    (t0 m now threshold window : ℕ) (key : Key) (t : ThresholdTracker)
    → 1 < threshold
    → t0 ≤ now
    → now ≤ t0 + window
    → Counted t0 m key t
    → ((record_and_check now key threshold window t).0 ≡ leb threshold (m + 1))
      × Counted t0 (next threshold m) key (record_and_check now key threshold window t).1
unfolding bump
count_step t0 m now threshold window key t big lo hi h =
    let (c, s) = current-Counted t0 m now window key t lo hi h in
    let found = count-record_and_check now threshold window key t big in
    (
      ground (arith, c, record_and_check-fires now threshold window key t big),
      inr (
        (bump now threshold (current now window key t)).0,
        found,
        ground (arith, c),
        ground (arith, s),
      ),
    )

-- How often the matches of `key` at these times, oldest first, reach the threshold.
pub fired : Key → ℕ → ℕ → List ℕ → ThresholdTracker → ℕ
fired key threshold window [] t = 0
fired key threshold window (now ∷ times) t =
    let (reached, t') = record_and_check now key threshold window t in
    let rest = fired key threshold window times t' in if reached then rest + 1 else rest

abbrev pub Within : ℕ → ℕ → List ℕ → Type 0
Within lo hi = All (λ now. (lo ≤ now) × (now ≤ hi))

fired_total :
    (m len f rest threshold : ℕ) (reached : Bool)
    → reached ≡ leb threshold (m + 1)
    → m < threshold
    → next threshold m + len ≡ f * threshold + rest
    → m + suc len ≡ (if reached then f + 1 else f) * threshold + rest
fired_total m len f rest threshold true e small h = ground arith
fired_total m len f rest threshold false e small h = ground arith

fired_from :
    (t0 m threshold window : ℕ) (key : Key) (times : List ℕ) (t : ThresholdTracker)
    → 1 < threshold
    → m < threshold
    → Within t0 (t0 + window) times
    → Counted t0 m key t
    → (rest : ℕ) × (rest < threshold)
      × (m + length times ≡ fired key threshold window times t * threshold + rest)
unfolding fired
fired_from t0 m threshold window key [] t big small w h = (m, small, omega arith)
fired_from t0 m threshold window key (now ∷ times) t big small w h =
    let (answer, counted) = count_step t0 m now threshold window key t big w.0.0 w.0.1 h in
    let t' = (record_and_check now key threshold window t).1 in
    let (rest, below, total) =
      fired_from t0 (next threshold m) threshold window key times t' big (ground arith) w.1
        counted in
    (
      rest,
      below,
      fired_total m (length times) (fired key threshold window times t') rest threshold
          (record_and_check now key threshold window t).0 answer small total,
    )

-- Of the matches of a source that was not counted before, all within one window, every
-- `threshold`-th one fires and no other, for a threshold above 1: their number is the number of
-- matches divided by it.
pub fired-div :
    (t0 threshold window : ℕ) (key : Key) (times : List ℕ) (t : ThresholdTracker)
    → 1 < threshold
    → Within t0 (t0 + window) times
    → count_of key t ≡ none
    → (rest : ℕ) × (rest < threshold)
      × (length times ≡ fired key threshold window times t * threshold + rest)
fired-div t0 threshold window key times t big w fresh =
    let (rest, below, total) =
      fired_from t0 0 threshold window key times t big (omega arith) w (inl (fresh, refl)) in
    (rest, below, omega arith)

-- If the window of a source began `max_idle` or longer before `now` and is still open, and the
-- match at `now` does not reach the threshold, then a sweep at `now` forgets the source, in a map
-- with one entry for a key: it goes by the start of the window, which the match has not moved.
pub sweep-forgets :
    (now threshold window max_idle : ℕ) (key : Key) (t : ThresholdTracker) (c : Count)
    → IsMap Key-discrete t.counts
    → count_of key t ≡ some c
    → c.start + max_idle ≤ now
    → now ≤ c.start + window
    → c.count + 1 < threshold
    → count_of key (sweep now max_idle (record_and_check now key threshold window t).1) ≡ none
unfolding sweep record_and_check
sweep-forgets now threshold window max_idle key t c m found old within below =
    let idle = λ (k : Key) (d : Count). ltb (now - d.start) max_idle in
    let after : Count = record c { count = c.count + 1 } in
    ground (
      arith,
      lookup-retain Key-discrete idle key (insert Key-discrete key after t.counts)
          (insert-IsMap Key-discrete key after t.counts m),
      lookup-insert Key-discrete key key after t.counts,
    )
