-- ===== src/Firewall/RateLimit/Burst.antt =====
-- How many packets a bucket lets through at one instant (components/firewall-perimeter/src/rate_limit.rs).
use active_spectral_defense.Base.{
  ℕ, zero, suc, ◌+◌, ◌-◌, ◌≤◌, ◌<◌, ◌≡◌, refl, false, none, leb, if◌then◌else◌, arith, min, ap, ◌∙◌,
  ◌==◌,
}
use active_spectral_defense.Map.{lookup, insert}
use active_spectral_defense.Map.Laws.{lookup-insert}
use active_spectral_defense.Float.{Float, IsExact, exact_limit}
use active_spectral_defense.Firewall.RateLimit.{
  Key, Key-discrete, Bucket, RateLimiter, or_insert, refill, take_token, burst_of, allow,
}

module _ (fl : Float) where
  -- how many of `n` packets of `key` at the instant `now` are let through
  pub allowed : ℕ → Key → ℕ → ℕ → RateLimiter fl → ℕ
  allowed now key rate zero r = 0
  allowed now key rate (suc n) r =
      let (ok, r') = allow fl now key rate r in
      let rest = allowed now key rate n r' in if ok then rest + 1 else rest

module _ (fl : Float) (ex : IsExact fl) where
  burst_of-exact : (rate : ℕ) → 0 < rate → rate < exact_limit → burst_of fl rate ≡ fl.of_ℕ rate
  unfolding burst_of
  burst_of-exact rate pos small =
      ex.fmax_exact rate 1 small (omega arith) ∙ ap fl.of_ℕ (omega arith)

  -- a bucket that was refilled at this instant and holds `k` tokens
  abbrev holding : ℕ → ℕ → Bucket fl
  holding now k = record { tokens = fl.of_ℕ k; last_refill = now }

  refill-exact :
      (now rate k : ℕ)
      → 0 < rate
      → rate < exact_limit
      → k ≤ rate
      → refill fl now rate (holding now k) ≡ holding now k
  unfolding refill
  refill-exact now rate k pos small fits =
      let z : now - now ≡ 0 = omega arith in
      rw (z, ex.as_secs_zero, ex.mul_zero rate small, ex.add_zero k (omega arith))
        (rw (burst_of-exact rate pos small, ex.fmin_exact k rate (omega arith) small)
          (ap (holding now) (omega arith)))

  take_token-exact :
      (now k : ℕ) → k < exact_limit → take_token fl (holding now k) ≡ (leb 1 k, holding now (k - 1))
  unfolding take_token
  take_token-exact now zero small = ground (arith, ex.ge_exact 0 1 (omega arith) (omega arith))
  take_token-exact now (suc k) small =
      ground
        (arith, ex.ge_exact (suc k) 1 small (omega arith), ex.sub_one (suc k) (omega arith) small)

  -- the bucket of `key` at the instant `now` holds `k` tokens
  abbrev Holds : ℕ → Key → ℕ → ℕ → RateLimiter fl → Type 0
  Holds now key rate k r =
      refill fl now rate (or_insert fl now rate (lookup Key-discrete key r.buckets)) ≡ holding now k

  allow-eq :
      (now : ℕ) (key : Key) (rate k : ℕ) (r : RateLimiter fl)
      → 0 < rate
      → k < exact_limit
      → Holds now key rate k r
      → allow fl now key rate r
        ≡ (leb 1 k, record { buckets = insert Key-discrete key (holding now (k - 1)) r.buckets })
  unfolding allow
  allow-eq now key rate k r pos small h =
      let z : (rate == 0) ≡ false = ground arith in rw (z, h, take_token-exact now k small)

  allow_step :
      (now : ℕ) (key : Key) (rate k : ℕ) (r : RateLimiter fl)
      → 0 < rate
      → rate < exact_limit
      → k ≤ rate
      → Holds now key rate k r
      → ((allow fl now key rate r).0 ≡ leb 1 k)
        × Holds now key rate (k - 1) (allow fl now key rate r).1
  unfolding or_insert
  allow_step now key rate k r pos small fits h =
      rw (allow-eq now key rate k r pos (omega arith) h) (
        refl,
        rw (lookup-insert Key-discrete key key (holding now (k - 1)) r.buckets)
            (ground (arith, refill-exact now rate (k - 1) pos small)),
      )

  allowed_from :
      (now : ℕ) (key : Key) (rate k n : ℕ) (r : RateLimiter fl)
      → 0 < rate
      → rate < exact_limit
      → k ≤ rate
      → Holds now key rate k r
      → allowed fl now key rate n r ≡ min n k
  unfolding allowed
  allowed_from now key rate k zero r pos small fits h = omega arith
  allowed_from now key rate k (suc n) r pos small fits h =
      let (answer, left) = allow_step now key rate k r pos small fits h in
      let ih =
        allowed_from now key rate (k - 1) n (allow fl now key rate r).1 pos small (omega arith)
          left in
      ground (arith, answer, ih)

  -- Where whole numbers below 2^53 are computed with exactly: of `n` packets of a source that is
  -- new to a rule, all at one instant, the rule's limit lets through the first `rate` and no more,
  -- if the limit is not 0 and below 2^53.
  pub allowed-burst :
      (now : ℕ) (key : Key) (rate n : ℕ) (r : RateLimiter fl)
      → 0 < rate
      → rate < exact_limit
      → lookup Key-discrete key r.buckets ≡ none
      → allowed fl now key rate n r ≡ min n rate
  unfolding or_insert
  allowed-burst now key rate n r pos small fresh =
      allowed_from now key rate rate n r pos small (omega arith) (
        rw (fresh, burst_of-exact rate pos small)
          (refill-exact now rate rate pos small (omega arith)))
