-- ===== src/Firewall/Threshold.antt =====
-- components/firewall-perimeter/src/threshold.rs: matches counted towards an automatic ban.
pub mod Counting
use active_spectral_defense.Base.{
  ℕ, ◌+◌, ◌-◌, Bool, true, false, Option, none, some, [], leb, ltb, if◌then◌else◌, ℕ_discrete,
}
use active_spectral_defense.Map.{Map, lookup, insert, retain}
use active_spectral_defense.Firewall.Net.{IpAddr, IpAddr-discrete}

-- the rule's index and the source
abbrev pub Key : Type 0
Key = ℕ × IpAddr

unfoldable pub Key-discrete : Discrete Key
unfolding IpAddr-discrete
Key-discrete = hlevel (ℕ_discrete, IpAddr-discrete)

-- the value `(u32, Instant)`
pub record Count : Type 0 where
  pub count : ℕ
  pub start : ℕ

pub record ThresholdTracker : Type 0 where
  pub counts : Map Key Count

unfoldable pub new : ThresholdTracker
new = record { counts = [] }

-- `entry(..).or_insert((0, now))`
unfoldable pub or_insert : ℕ → Option Count → Count
or_insert now none = record { count = 0; start = now }
or_insert now (some c) = c

-- the reset of an expired window
unfoldable pub roll : ℕ → ℕ → Count → Count
roll now window c = if ltb window (now - c.start) then record { count = 0; start = now } else c

-- the count, its test and the reset of a count that has reached the threshold
unfoldable pub bump : ℕ → ℕ → Count → Count × Bool
bump now threshold c =
    let n = c.count + 1 in
    if leb threshold n
    then (record { count = 0; start = now }, true)
    else (record c { count = n }, false)

unfoldable pub record_and_check : ℕ → Key → ℕ → ℕ → ThresholdTracker → Bool × ThresholdTracker
unfolding or_insert roll bump
record_and_check now key threshold window t =
    if leb threshold 1
    then (true, t)
    else (let (c, reached) =
          bump now threshold (roll now window (or_insert now (lookup Key-discrete key t.counts))) in
        (reached, record { counts = insert Key-discrete key c t.counts }))

unfoldable pub sweep : ℕ → ℕ → ThresholdTracker → ThresholdTracker
sweep now max_idle t = record { counts = retain (λ key c. ltb (now - c.start) max_idle) t.counts }
