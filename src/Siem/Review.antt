-- ===== src/Siem/Review.antt =====
-- components/active-siem/crates/review-queue/src/{types,trigger,error}.rs: predictions, verdicts,
-- the states of a review, and the trigger. Floating point and the tables of Unicode are parameters.
pub mod Audit
pub mod Containment
pub mod Queue
use active_spectral_defense.Base.{
  ℕ, ◌/◌, Bool, true, false, String, Option, none, some, List, [], ◌∷◌, ◌&&◌, ◌||◌, not,
  if◌then◌else◌, ℤ, Unicode, map,
}
use Prim.Native.String.{◌++◌}
use active_spectral_defense.Float.{Float}
use active_spectral_defense.Map.{Map}
use active_spectral_defense.Siem.Ontology.{same, is_empty, OntologyError}

abbrev pub Timestamp : Type 0
Timestamp = ℤ

pub data TriggerReason : Type 0 where
  low_confidence_attack narrow_margin novel_pattern manual_flag : TriggerReason

unfoldable pub reason_text : TriggerReason → String
reason_text low_confidence_attack = "low_confidence_attack"
reason_text narrow_margin = "narrow_margin"
reason_text novel_pattern = "novel_pattern"
reason_text manual_flag = "manual_flag"

pub data Verdict : Type 0 where
  execute_containment dismiss escalate_further : Verdict

unfoldable pub verdict_text : Verdict → String
verdict_text execute_containment = "execute_containment"
verdict_text dismiss = "dismiss"
verdict_text escalate_further = "escalate_further"

-- the `match` of `Verdict::parse`
unfoldable pub parse_word : String → Option Verdict
parse_word s =
    if same s "contain" || same s "execute_containment" || same s "containment"
    then some execute_containment
    else if same s "dismiss" || same s "benign"
    then some dismiss
    else if same s "escalate" || same s "escalate_further"
    then some escalate_further
    else none

unfoldable pub parse : Unicode → String → Option Verdict
unfolding parse_word
parse unicode s = parse_word (unicode.to_lowercase (unicode.trim s))

-- the derived `==`
unfoldable pub same_verdict : Verdict → Verdict → Bool
same_verdict execute_containment execute_containment = true
same_verdict dismiss dismiss = true
same_verdict escalate_further escalate_further = true
same_verdict _ _ = false

pub data Reviewer : Type 0 where
  human : String → Reviewer
  system_sla_timeout system_auto_resolve : Reviewer

unfoldable pub reviewer_text : Reviewer → String
reviewer_text (human id) = "human:" ++ id
reviewer_text system_sla_timeout = "system:sla_timeout"
reviewer_text system_auto_resolve = "system:auto_resolve"

pub record AuditDecision : Type 0 where
  pub decision_id : String
  pub flow_id : String
  pub reviewer : Reviewer
  pub verdict : Verdict
  pub rationale : String
  pub decided_at : Timestamp

pub data SlaPolicy : Type 0 where
  fail_safe : SlaPolicy
  -- thousandths of a confidence
  fail_secure : ℕ → SlaPolicy

pub data ReviewState : Type 0 where
  auto_resolved : String → ReviewState
  pending : TriggerReason → ReviewState
  -- the reason, the reviewer and the time of the claim
  under_review : TriggerReason → String → Timestamp → ReviewState
  resolved : String → ReviewState

unfoldable pub state_text : ReviewState → String
state_text (auto_resolved _) = "auto_resolved"
state_text (pending _) = "pending"
state_text (under_review _ _ _) = "under_review"
state_text (resolved _) = "resolved"

pub data ReviewQueueError : Type 0 where
  duplicate_flow flow_not_found : String → ReviewQueueError
  -- the flow and its state
  not_pending : String → String → ReviewQueueError
  empty_rationale empty_reviewer : String → ReviewQueueError
  ontology : OntologyError → ReviewQueueError
  -- not an error of the code: an `unwrap` on `None`
  panicked : ReviewQueueError

module _ (f64 : Float) where
  pub record FlowPrediction : Type 0 where
    pub flow_id : String
    pub predicted_label : String
    pub confidence : f64.F
    pub runner_up_label : Option String
    pub runner_up_confidence : Option f64.F
    pub is_out_of_distribution : Bool
    pub observed_at : Timestamp

  unfoldable pub margin : FlowPrediction → Option f64.F
  margin pred = elim pred.runner_up_confidence [
    | none ↦ none
    | some r ↦ some (f64.sub pred.confidence r)
  ]

  pub record QueueItem : Type 0 where
    pub prediction : FlowPrediction
    pub state : ReviewState
    pub enqueued_at : Timestamp

  -- also `SlaBreach` of alert.rs, which has the same fields
  pub record SlaResolution : Type 0 where
    pub prediction : FlowPrediction
    pub decision : AuditDecision

  pub record TriggerConfig : Type 0 where
    pub benign_label : String
    pub min_attack_confidence : f64.F
    pub min_margin : f64.F
    pub min_benign_confidence : f64.F

  -- a literal such as 0.90 is the quotient 90 / 100
  unfoldable pub default_config : TriggerConfig
  default_config = record {
    benign_label = "Benign";
    min_attack_confidence = f64.div (f64.of_ℕ 90) (f64.of_ℕ 100);
    min_margin = f64.div (f64.of_ℕ 15) (f64.of_ℕ 100);
    min_benign_confidence = f64.div (f64.of_ℕ 80) (f64.of_ℕ 100);
  }

  -- `if let Some(margin) = pred.margin() { margin < cfg.min_margin }`
  unfoldable pub is_narrow : FlowPrediction → TriggerConfig → Bool
  unfolding margin
  is_narrow pred cfg = elim (margin pred) [ none ↦ false | some m ↦ f64.lt m cfg.min_margin ]

  abbrev pub is_benign : FlowPrediction → TriggerConfig → Bool
  is_benign pred cfg = same pred.predicted_label cfg.benign_label

  unfoldable pub evaluate : FlowPrediction → TriggerConfig → Option TriggerReason
  unfolding is_narrow
  evaluate pred cfg =
      if pred.is_out_of_distribution
      then some novel_pattern
      else if not (is_benign pred cfg) && f64.lt pred.confidence cfg.min_attack_confidence
      then some low_confidence_attack
      else if is_benign pred cfg && f64.lt pred.confidence cfg.min_benign_confidence
      then some low_confidence_attack
      else if is_narrow pred cfg
      then some narrow_margin
      else none
