-- ===== src/Examples/Policy.antt =====
-- The theorems on the configuration and the policy engine.
use active_spectral_defense.Base.{ℕ, ◌≡◌, refl, some, ◌↔◌}
use active_spectral_defense.Firewall.Config.{validate, ok}
use active_spectral_defense.Firewall.Config.Valid
use active_spectral_defense.Firewall.Config.Valid.{validate_iff}
use active_spectral_defense.Firewall.Engine.{Engine, Decision, evaluate, new}
use active_spectral_defense.Firewall.Engine.Linear.{evaluate-linear, evaluate_linear, IsIndexed}
use active_spectral_defense.Firewall.Engine.Decisions.{evaluate-IsSound, IsSound}
use active_spectral_defense.Examples.Data.{policy, request, nat_float, from_address}

validate_iff_example : (validate policy ≡ ok) ↔ Valid.IsValid policy
validate_iff_example = validate_iff policy

abbrev pub engine : Engine ℕ nat_float
engine = new nat_float policy

pub engine-IsIndexed : IsIndexed engine
unfolding new
engine-IsIndexed = refl

evaluate-linear_example :
    evaluate nat_float from_address 7 request engine
    ≡ some (evaluate_linear nat_float from_address 7 request engine)
evaluate-linear_example = evaluate-linear nat_float from_address 7 request engine engine-IsIndexed

evaluate-IsSound_example :
    (r : Decision × Engine ℕ nat_float) × (evaluate nat_float from_address 7 request engine
      ≡ some r)
    × IsSound engine r
    × IsIndexed r.1
evaluate-IsSound_example = evaluate-IsSound nat_float from_address 7 request engine engine-IsIndexed
