-- ===== src/Siem/Response.antt =====
-- components/active-siem/crates/siem-response/src/lib.rs: the policy on automated responses, with
-- the alert of siem-core. The executor, a trait object, is the parameter `execute` on a state of
-- its own; `Instant::now()` is the argument `now`.
pub mod Guards
pub mod Rate
pub mod Blocked
use active_spectral_defense.Base.{
  ℕ, ◌-◌, ◌%◌, ◌^◌, ◌*◌, Bool, true, false, String, Option, none, some, List, [], ◌∷◌, ◌++◌, ◌||◌,
  length, filter, leb, ltb, ite, if◌then◌else◌, String-discrete,
}
use active_spectral_defense.Map.{Map, contains_key, insert, retain}
use active_spectral_defense.Firewall.Conntrack.{from_secs}

pub data Severity : Type 0 where
  info low medium high critical : Severity

-- the derived `Ord`, as a number
unfoldable pub rank : Severity → ℕ
rank info = 0
rank low = 1
rank medium = 2
rank high = 3
rank critical = 4

pub record Alert : Type 0 where
  pub id : ℕ
  pub timestamp_ms : ℕ
  pub rule_id : String
  pub title : String
  pub severity : Severity
  pub mitre_technique : Option String
  pub source_events : List ℕ
  pub context : Map String String

pub record ResponsePolicy : Type 0 where
  pub min_severity : Severity
  pub allowlist : List String
  pub max_actions_per_window : ℕ
  pub window : ℕ
  pub recent_actions : List ℕ
  pub active_blocks : Map String ℕ
  pub block_duration : ℕ

-- `Ok(())` and the texts of `Err`
pub data Outcome : Type 0 where
  actioned : Outcome
  below_min_severity allowlisted already_actioned rate_limit_reached executor_failed : Outcome

unfoldable pub new : Severity → List String → ResponsePolicy
new min_severity allowlist = record {
  min_severity = min_severity;
  allowlist = allowlist;
  max_actions_per_window = 10;
  window = from_secs 60;
  recent_actions = [];
  active_blocks = [];
  block_duration = from_secs (15 * 60);
}

-- `allowlist.contains(..)` on a `HashSet<String>`
unfoldable pub contains : List String → String → Bool
contains [] target = false
contains (x ∷ xs) target = ite (String-discrete x target) true (contains xs target)

-- the policy after `rate_limited` has forgotten the actions before the window
unfoldable pub forget : ℕ → ResponsePolicy → ResponsePolicy
forget now p = record p { recent_actions = filter (λ t. ltb (now - t) p.window) p.recent_actions }

unfoldable pub rate_limited : ℕ → ResponsePolicy → Bool × ResponsePolicy
rate_limited now p =
    let p' = forget now p in (leb p.max_actions_per_window (length p'.recent_actions % 2 ^ 32), p')

-- an action was taken
unfoldable pub note_action : ℕ → String → ResponsePolicy → ResponsePolicy
note_action now target p = record p {
  recent_actions = p.recent_actions ++ now ∷ [];
  active_blocks = insert String-discrete target now p.active_blocks;
}

unfoldable pub expire_blocks : ℕ → ResponsePolicy → ResponsePolicy
expire_blocks now p = record p {
  active_blocks = retain (λ target t. ltb (now - t) p.block_duration) p.active_blocks;
}

module _ {A : Type 0} (execute : Alert → String → A → Bool × A) where
  -- what follows the guards
  unfoldable pub perform : ℕ → Alert → String → A → ResponsePolicy → Outcome × ResponsePolicy × A
  perform now alert target a p =
      let (ok, a') = execute alert target a in
      if ok then (actioned, note_action now target p, a') else (executor_failed, p, a')

  unfoldable pub handle : ℕ → Alert → String → ResponsePolicy → A → Outcome × ResponsePolicy × A
  handle now alert target p a =
      let limited = rate_limited now p in
      if ltb (rank alert.severity) (rank p.min_severity)
      then (below_min_severity, p, a)
      else if contains p.allowlist target
      then (allowlisted, p, a)
      else if contains_key String-discrete target p.active_blocks
      then (already_actioned, p, a)
      else if limited.0
      then (rate_limit_reached, limited.1, a)
      else perform now alert target a limited.1
