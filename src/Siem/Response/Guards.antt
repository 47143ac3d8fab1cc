-- ===== src/Siem/Response/Guards.antt =====
-- When components/active-siem/crates/siem-response/src/lib.rs acts by itself.
use active_spectral_defense.Base.{
  ℕ, ◌≡◌, ◌↔◌, Bool, true, String, ◌&&◌, not, leb, arith, String-discrete, if◌then◌else◌,
}
use active_spectral_defense.Map.{contains_key}
use active_spectral_defense.Siem.Response.{
  Alert, ResponsePolicy, actioned, rank, contains, rate_limited, perform, handle,
}

-- all four guards let the action through
unfoldable pub permits : ℕ → Alert → String → ResponsePolicy → Bool
permits now alert target p =
    leb (rank p.min_severity) (rank alert.severity)
    && (not (contains p.allowlist target)
        && (not (contains_key String-discrete target p.active_blocks)
            && not (rate_limited now p).0))

module _ {A : Type 0} (execute : Alert → String → A → Bool × A) where
  -- `handle` reports an action exactly if the severity suffices, the target is neither on the
  -- allowlist nor blocked already, the rate limit is not reached, and the executor reports
  -- success; and unless the first four hold, the executor's state is as it was.
  pub handle-exact :
      (now : ℕ) (alert : Alert) (target : String) (p : ResponsePolicy) (a : A)
      → (((handle execute now alert target p a).0 ≡ actioned)
          ↔ ((permits now alert target p && (execute alert target a).0) ≡ true))
        × ((if permits now alert target p then a else (handle execute now alert target p a).2) ≡ a)
  unfolding permits handle perform
  handle-exact now alert target p a = ground arith
