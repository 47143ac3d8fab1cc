-- ===== src/Firewall/RateLimit.antt =====
-- components/firewall-perimeter/src/rate_limit.rs: a token bucket for each source and rule.
pub mod Burst
use active_spectral_defense.Base.{
  ℕ, ◌-◌, Bool, true, false, Option, none, some, [], ltb, ◌==◌, if◌then◌else◌, ℕ_discrete,
}
use active_spectral_defense.Map.{Map, lookup, insert, retain}
use active_spectral_defense.Float.{Float}
use active_spectral_defense.Firewall.Net.{IpAddr, IpAddr-discrete}

-- the source and the rule's index
abbrev pub Key : Type 0
Key = IpAddr × ℕ

unfoldable pub Key-discrete : Discrete Key
unfolding IpAddr-discrete
Key-discrete = hlevel (ℕ_discrete, IpAddr-discrete)

module _ (fl : Float) where
  pub record Bucket : Type 0 where
    pub tokens : fl.F
    pub last_refill : ℕ

  pub record RateLimiter : Type 0 where
    pub buckets : Map Key Bucket

  unfoldable pub new : RateLimiter
  new = record { buckets = [] }

  -- `(rate_pps as f64).max(1.0)`
  unfoldable pub burst_of : ℕ → fl.F
  burst_of rate_pps = fl.fmax (fl.of_ℕ rate_pps) (fl.of_ℕ 1)

  -- `entry(..).or_insert_with(..)`
  unfoldable pub or_insert : ℕ → ℕ → Option Bucket → Bucket
  unfolding burst_of
  or_insert now rate_pps none = record { tokens = burst_of rate_pps; last_refill = now }
  or_insert now rate_pps (some b) = b

  unfoldable pub refill : ℕ → ℕ → Bucket → Bucket
  unfolding burst_of
  refill now rate_pps b = record {
    tokens =
        fl.fmin (fl.add b.tokens (fl.mul (fl.as_secs (now - b.last_refill)) (fl.of_ℕ rate_pps)))
          (burst_of rate_pps);
    last_refill = now;
  }

  unfoldable pub take_token : Bucket → Bool × Bucket
  take_token b =
      if fl.ge b.tokens (fl.of_ℕ 1)
      then (true, record b { tokens = fl.sub b.tokens (fl.of_ℕ 1) })
      else (false, b)

  unfoldable pub allow : ℕ → Key → ℕ → RateLimiter → Bool × RateLimiter
  allow now key rate_pps r =
      if rate_pps == 0
      then (true, r)
      else (let (ok, b) =
            take_token
              (refill now rate_pps (or_insert now rate_pps (lookup Key-discrete key r.buckets))) in
          (ok, record { buckets = insert Key-discrete key b r.buckets }))

  unfoldable pub sweep : ℕ → ℕ → RateLimiter → RateLimiter
  sweep now max_idle r = record {
    buckets = retain (λ key b. ltb (now - b.last_refill) max_idle) r.buckets;
  }
