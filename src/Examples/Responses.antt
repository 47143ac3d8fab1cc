-- ===== src/Examples/Responses.antt =====
-- The theorems on automated responses.
use active_spectral_defense.Base.{
  ℕ, ◌+◌, ◌≤◌, ◌≡◌, ◌↔◌, refl, Bool, true, String, none, List, [], ◌∷◌, ◌&&◌, arith, if◌then◌else◌,
  String-discrete,
}
use active_spectral_defense.Map.{lookup, contains_key}
use active_spectral_defense.Siem.Response.{
  high, low, Alert, ResponsePolicy, actioned, new, handle, rank, contains, rate_limited, forget,
  perform,
}
use active_spectral_defense.Siem.Response.Guards.{permits, handle-exact}
use active_spectral_defense.Siem.Response.Blocked.{
  Call, handles, expires, acted_on, handle-duplicate,
}
use active_spectral_defense.Siem.Response.Rate.{taken, taken-bounded}

-- the dry run, which counts its calls
abbrev log_only : Alert → String → ℕ → Bool × ℕ
log_only alert target calls = (true, calls + 1)

abbrev beacon : Alert
beacon = record {
  id = 1;
  timestamp_ms = 0;
  rule_id = "beacon";
  title = "periodic beacon";
  severity = high;
  mitre_technique = none;
  source_events = [];
  context = [];
}

abbrev cautious : ResponsePolicy
cautious = record (new low ("10.0.0.1" ∷ [])) { max_actions_per_window = 1 }

handle-exact_example :
    (((handle log_only 5 beacon "10.0.0.9" cautious 0).0 ≡ actioned)
      ↔ ((permits 5 beacon "10.0.0.9" cautious && (log_only beacon "10.0.0.9" 0).0) ≡ true))
    × ((if permits 5 beacon "10.0.0.9" cautious
          then 0
          else (handle log_only 5 beacon "10.0.0.9" cautious 0).2)
        ≡ 0)
handle-exact_example = handle-exact log_only 5 beacon "10.0.0.9" cautious 0

-- an expiry too early, the same target again, and another one
abbrev further : List Call
further = expires 9 ∷ handles 10 beacon "10.0.0.9" ∷ handles 11 beacon "10.0.0.8" ∷ []

handle-duplicate_example :
    acted_on log_only "10.0.0.9" further (handle log_only 5 beacon "10.0.0.9" cautious 0).1 1 ≡ 0
unfolding handle new rank contains String-discrete contains_key lookup rate_limited forget perform
handle-duplicate_example =
    handle-duplicate log_only 5 beacon "10.0.0.9" cautious 0 1 further tt refl
      ((omega arith, omega arith), (tt, (tt, tt)))

abbrev calls : List (ℕ × Alert × String)
calls = (5, beacon, "10.0.0.9") ∷ (6, beacon, "10.0.0.8") ∷ []

taken-bounded_example : taken log_only calls cautious 0 ≤ 1
unfolding new
taken-bounded_example =
    taken-bounded log_only 5 calls cautious 0 (omega arith) refl
      ((omega arith, omega arith), ((omega arith, omega arith), tt))
