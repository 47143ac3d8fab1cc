-- ===== src/Firewall/LogGate.antt =====
-- components/firewall-perimeter/src/log_gate.rs: a cap on log lines in a second. The two atomic
-- counters and the window's start are one state: the model runs one call at a time.
pub mod Budget
use active_spectral_defense.Base.{ℕ, ◌+◌, ◌-◌, ◌%◌, ◌^◌, ltb, leb, ◌==◌, if◌then◌else◌}

pub record LogGate : Type 0 where
  pub max_per_sec : ℕ
  pub window_start : ℕ
  pub emitted_this_window : ℕ
  pub suppressed_this_window : ℕ

pub data GateResult : Type 0 where
  emit suppress : GateResult

unfoldable pub new : ℕ → ℕ → LogGate
new max_per_sec now = record {
  max_per_sec = max_per_sec;
  window_start = now;
  emitted_this_window = 0;
  suppressed_this_window = 0;
}

abbrev pub one_second : ℕ
one_second = 1_000_000_000

-- `fetch_add(1)` on an `AtomicU64` wraps
abbrev pub add_one : ℕ → ℕ
add_one n = (n + 1) % 2 ^ 64

unfoldable pub roll : ℕ → LogGate → LogGate
roll now g =
    if leb one_second (now - g.window_start)
    then record g { window_start = now; emitted_this_window = 0; suppressed_this_window = 0 }
    else g

unfoldable pub count : LogGate → GateResult × LogGate
count g =
    let g' = record g { emitted_this_window = add_one g.emitted_this_window } in
    if ltb g.emitted_this_window g.max_per_sec
    then (emit, g')
    else (suppress, record g' { suppressed_this_window = add_one g.suppressed_this_window })

unfoldable pub check : ℕ → LogGate → GateResult × LogGate
unfolding roll count
check now g = if g.max_per_sec == 0 then (emit, g) else count (roll now g)

unfoldable pub take_suppressed_count : LogGate → ℕ × LogGate
take_suppressed_count g = (g.suppressed_this_window, record g { suppressed_this_window = 0 })
