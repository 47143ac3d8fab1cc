-- ===== src/Firewall/LogGate/Budget.antt =====
-- How many lines the gate lets through (components/firewall-perimeter/src/log_gate.rs).
use active_spectral_defense.Base.{
  ℕ, ◌+◌, ◌-◌, ◌^◌, ◌≤◌, ◌<◌, ◌≡◌, ◌∙◌, refl, sym, subst, List, [], ◌∷◌, arith, min, All, length,
  dec_lt,
}
use active_spectral_defense.Firewall.LogGate.{
  LogGate, GateResult, emit, suppress, new, one_second, check, take_suppressed_count,
}

abbrev is_emit : GateResult → ℕ
is_emit emit = 1
is_emit suppress = 0

-- the gate after checks at these times, oldest first, and how many were let through
pub checks : List ℕ → LogGate → ℕ × LogGate
checks [] g = (0, g)
checks (now ∷ times) g =
    let (answer, g') = check now g in let (n, g'') = checks times g' in (is_emit answer + n, g'')

-- checks in the second that began with the gate's window
abbrev pub InWindow : LogGate → List ℕ → Type 0
InWindow g = All (λ now. now < g.window_start + one_second)

abbrev after_emit : LogGate → LogGate
after_emit g = record g { emitted_this_window = g.emitted_this_window + 1 }

abbrev after_suppress : LogGate → LogGate
after_suppress g = record g {
  emitted_this_window = g.emitted_this_window + 1;
  suppressed_this_window = g.suppressed_this_window + 1;
}

module _ (now : ℕ) (g : LogGate) (pos : 0 < g.max_per_sec)
    (w : now < g.window_start + one_second) where
  check_below :
      g.emitted_this_window + 1 < 2 ^ 64
      → g.emitted_this_window < g.max_per_sec
      → check now g ≡ (emit, after_emit g)
  unfolding check
  check_below e h = ground arith

  check_above :
      g.emitted_this_window + 1 < 2 ^ 64
      → g.suppressed_this_window + 1 < 2 ^ 64
      → g.max_per_sec ≤ g.emitted_this_window
      → check now g ≡ (suppress, after_suppress g)
  unfolding check
  check_above e s h = ground arith

-- the emitted lines, and what was counted as suppressed
abbrev IsSplit : List ℕ → LogGate → Type 0
IsSplit times g =
    ((checks times g).0 ≡ min (length times) (g.max_per_sec - g.emitted_this_window))
    × ((checks times g).1.suppressed_this_window + (checks times g).0
        ≡ g.suppressed_this_window + length times)

checks_from :
    (times : List ℕ) (g : LogGate)
    → 0 < g.max_per_sec
    → InWindow g times
    → g.emitted_this_window + length times < 2 ^ 64
    → g.suppressed_this_window + length times < 2 ^ 64
    → IsSplit times g
unfolding checks
checks_from [] g pos w e s = (omega arith, omega arith)
checks_from (now ∷ times) g pos w e s = elim (dec_lt g.emitted_this_window g.max_per_sec) [
  | yes h ↦
      let ih = checks_from times (after_emit g) pos w.1 (omega arith) (omega arith) in
      rw (check_below now g pos w.0 (omega arith) h) (omega arith, omega arith)
  | no h ↦
      let ih = checks_from times (after_suppress g) pos w.1 (omega arith) (omega arith) in
      rw (check_above now g pos w.0 (omega arith) (omega arith) (omega arith))
        (omega arith, omega arith)
]

-- In the first second of a gate with a limit above 0, of fewer than 2^64 events exactly the first
-- `max_per_sec` are logged, and the number suppressed that is read out at its end is the number of
-- the others.
pub checks-budget :
    (max_per_sec start : ℕ) (times : List ℕ)
    → 0 < max_per_sec
    → InWindow (new max_per_sec start) times
    → length times < 2 ^ 64
    → let (emitted, g) = checks times (new max_per_sec start) in
      (emitted ≡ min (length times) max_per_sec)
      × ((take_suppressed_count g).0 ≡ length times - max_per_sec)
unfolding new take_suppressed_count
checks-budget max_per_sec start times pos w small =
    let h = checks_from times (new max_per_sec start) pos w (omega arith) (omega arith) in
    (omega arith, omega arith)

check_window-lost :
    (now k : ℕ) (g : LogGate)
    → 0 < g.max_per_sec
    → g.window_start + one_second ≤ now
    → check now (record g { suppressed_this_window = k }) ≡ check now g
unfolding check
check_window-lost now k g pos late = ground arith

check_window-zero :
    (now : ℕ) (g : LogGate)
    → 0 < g.max_per_sec
    → g.window_start + one_second ≤ now
    → (take_suppressed_count (check now g).1).0 ≡ 0
unfolding check take_suppressed_count
check_window-zero now g pos late = ground arith

-- the fields that a check in the window keeps
checks-frame :
    (times : List ℕ) (g : LogGate)
    → 0 < g.max_per_sec
    → InWindow g times
    → ((checks times g).1.window_start ≡ g.window_start)
      × ((checks times g).1.max_per_sec ≡ g.max_per_sec)
unfolding checks check
checks-frame [] g pos w = (refl, refl)
checks-frame (now ∷ times) g pos w =
    let g' = (check now g).1 in
    let start : g'.window_start ≡ g.window_start = ground (arith, w.0) in
    let most : g'.max_per_sec ≡ g.max_per_sec = ground (arith, w.0) in
    let still : InWindow g' times =
      subst (λ s. All (λ now. now < s + one_second) times) (sym start) w.1 in
    let ih = checks-frame times g' (omega (arith, most, pos)) still in (ih.0 ∙ start, ih.1 ∙ most)

-- In a gate with a limit above 0, after fewer than 2^64 events of the first second, of which those
-- beyond the limit are counted as suppressed, the first check of a later second loses that count,
-- which nobody has read: the count that can be read out after it is 0, and its answer and the gate
-- after it are the same whatever the count was.
pub check-drops_count :
    (max_per_sec start now k : ℕ) (times : List ℕ)
    → 0 < max_per_sec
    → InWindow (new max_per_sec start) times
    → length times < 2 ^ 64
    → start + one_second ≤ now
    → let g = (checks times (new max_per_sec start)).1 in
      ((take_suppressed_count g).0 ≡ length times - max_per_sec)
      × ((take_suppressed_count (check now g).1).0 ≡ 0)
      × (check now (record g { suppressed_this_window = k }) ≡ check now g)
unfolding new
check-drops_count max_per_sec start now k times pos w small late =
    let fresh = new max_per_sec start in
    let g = (checks times fresh).1 in
    let (same_start, same_most) = checks-frame times fresh pos w in
    let pos' : 0 < g.max_per_sec = omega (arith, same_most, pos) in
    let late' : g.window_start + one_second ≤ now = omega (arith, same_start, late) in
    (
      (checks-budget max_per_sec start times pos w small).1,
      check_window-zero now g pos' late',
      check_window-lost now k g pos' late',
    )
