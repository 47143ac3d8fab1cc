-- ===== src/Siem/Review/Queue.antt =====
-- components/active-siem/crates/review-queue/src/queue.rs: the review queue. Each operation runs
-- under the queue's lock, and returns its result with the queue it leaves. `now()` is an argument,
-- and the alert sink of a sweep the parameter `notify` on a state of its own.
pub mod Sound
pub mod Kept
pub mod Swept
pub mod Sweep
pub mod Runs
pub mod Closed
pub mod Stuck
pub mod Collision
pub mod Unreviewed
pub mod Views
use active_spectral_defense.Base.{
  ℕ, ◌+◌, ◌%◌, ◌^◌, Bool, true, false, String, Option, none, some, List, [], ◌∷◌, ◌&&◌, not, leb,
  if◌then◌else◌, String-discrete, decimal, ℤ, pos, negsuc, leb_ℤ, ◌-ℤ◌, Unicode,
}
use Prim.Native.String.{◌++◌}
use active_spectral_defense.Float.{Float}
use active_spectral_defense.Map.{Map, size, lookup, contains_key, insert}
use active_spectral_defense.Siem.Ontology.{Result, ok, err, same, is_empty}
use active_spectral_defense.Siem.Ontology.Engine.{OntologyEngine, new}
use active_spectral_defense.Siem.Review.{
  Timestamp, TriggerReason, Verdict, execute_containment, dismiss, Reviewer, human,
  system_sla_timeout, system_auto_resolve, AuditDecision, SlaPolicy, fail_safe, fail_secure,
  ReviewState, auto_resolved, pending, under_review, resolved, state_text, ReviewQueueError,
  duplicate_flow, flow_not_found, not_pending, empty_rationale, empty_reviewer, ontology, panicked,
  FlowPrediction, QueueItem, SlaResolution, TriggerConfig, is_benign, evaluate,
}
use active_spectral_defense.Siem.Review.Audit.{
  register, to_millis, record_prediction, record_decision, decisions_for_flow,
}
use active_spectral_defense.Siem.Review.Containment.{
  ContainmentDecision, ContainmentError, check, execute_if_approved,
}

pub data IngestOutcome : Type 0 where
  -- the verdict and the decision
  auto_resolved_as : Verdict → String → IngestOutcome
  queued_for_review : TriggerReason → IngestOutcome

-- `Pending` or `UnderReview`
unfoldable pub is_open : ReviewState → Bool
is_open (pending _) = true
is_open (under_review _ _ _) = true
is_open _ = false

unfoldable pub decision_id_text : String → ℕ → String
decision_id_text flow_id seq = "dec-" ++ flow_id ++ "-" ++ decimal seq

module _ (f64 : Float) where
  pub record ReviewQueue : Type 0 where
    pub engine : OntologyEngine f64
    pub items : Map String (QueueItem f64)
    pub trigger_cfg : TriggerConfig f64
    pub sla_policy : SlaPolicy
    pub decision_seq : ℕ

  unfoldable pub new_queue : TriggerConfig f64 → SlaPolicy → Result ReviewQueueError ReviewQueue
  new_queue trigger_cfg sla_policy =
      let r = register f64 (new f64) in
      elim r.0 [
        | err error ↦ err (ontology error)
        | ok _ ↦ ok (record {
          engine = r.1;
          items = [];
          trigger_cfg = trigger_cfg;
          sla_policy = sla_policy;
          decision_seq = 0;
        })
      ]

  -- the `u64` counter after `fetch_add`, which wraps
  unfoldable pub next_decision_id : String → ReviewQueue → String × ReviewQueue
  next_decision_id flow_id q = (
    decision_id_text flow_id q.decision_seq,
    record q { decision_seq = (q.decision_seq + 1) % 2 ^ 64 },
  )

  unfoldable pub put : String → QueueItem f64 → ReviewQueue → ReviewQueue
  put flow_id item q = record q { items = insert String-discrete flow_id item q.items }

  abbrev pub with_engine : OntologyEngine f64 → ReviewQueue → ReviewQueue
  with_engine e q = record q { engine = e }

  -- `engine_bridge::record_decision(..)?` of a new decision, and then the new state of the item
  unfoldable pub resolve :
      AuditDecision → QueueItem f64 → ReviewQueue → Result ReviewQueueError Unit × ReviewQueue
  unfolding put
  resolve decision item q =
      let r = record_decision f64 decision q.engine in
      elim r.0 [
        | err error ↦ (err (ontology error), with_engine r.1 q)
        | ok _ ↦ (ok tt, put decision.flow_id item (with_engine r.1 q))
      ]

  abbrev pub verdict_of : FlowPrediction f64 → TriggerConfig f64 → Verdict
  verdict_of prediction cfg = if is_benign f64 prediction cfg then dismiss else execute_containment

  unfoldable pub auto_rationale : FlowPrediction f64 → TriggerConfig f64 → String
  auto_rationale prediction cfg =
      "auto-resolved: predicted '"
      ++ prediction.predicted_label
      ++ "' at "
      ++ f64.fixed 3 prediction.confidence
      ++ " confidence cleared all review thresholds (min_attack_confidence="
      ++ f64.fixed 2 cfg.min_attack_confidence
      ++ ", min_margin="
      ++ f64.fixed 2 cfg.min_margin
      ++ ", min_benign_confidence="
      ++ f64.fixed 2 cfg.min_benign_confidence
      ++ ")"

  unfoldable pub auto_decision :
      Timestamp → String → FlowPrediction f64 → TriggerConfig f64 → AuditDecision
  unfolding auto_rationale
  auto_decision now decision_id prediction cfg = record {
    decision_id = decision_id;
    flow_id = prediction.flow_id;
    reviewer = system_auto_resolve;
    verdict = verdict_of prediction cfg;
    rationale = auto_rationale prediction cfg;
    decided_at = now;
  }

  -- the arm of `ingest` for a prediction that needs no review
  unfoldable pub ingest_resolved :
      Timestamp
      → FlowPrediction f64
      → ReviewQueue
      → Result ReviewQueueError IngestOutcome × ReviewQueue
  unfolding next_decision_id auto_decision resolve
  ingest_resolved now prediction q =
      let (decision_id, q') = next_decision_id prediction.flow_id q in
      let decision = auto_decision now decision_id prediction q.trigger_cfg in
      let item : QueueItem f64 = record {
        prediction = prediction;
        state = auto_resolved decision_id;
        enqueued_at = now;
      } in
      let r = resolve decision item q' in
      elim r.0 [
        | err error ↦ (err error, r.1)
        | ok _ ↦ (ok (auto_resolved_as decision.verdict decision_id), r.1)
      ]

  unfoldable pub ingest_recorded :
      Timestamp
      → FlowPrediction f64
      → ReviewQueue
      → Result ReviewQueueError IngestOutcome × ReviewQueue
  unfolding ingest_resolved put
  ingest_recorded now prediction q = elim (evaluate f64 prediction q.trigger_cfg) [
    | none ↦ ingest_resolved now prediction q
    | some reason ↦
        let item : QueueItem f64 = record {
          prediction = prediction;
          state = pending reason;
          enqueued_at = now;
        } in
        (ok (queued_for_review reason), put prediction.flow_id item q)
  ]

  unfoldable pub ingest :
      Timestamp
      → FlowPrediction f64
      → ReviewQueue
      → Result ReviewQueueError IngestOutcome × ReviewQueue
  unfolding ingest_recorded
  ingest now prediction q =
      let r = record_prediction f64 prediction q.engine in
      if contains_key String-discrete prediction.flow_id q.items
      then (err (duplicate_flow prediction.flow_id), q)
      else elim r.0 [
        | err error ↦ (err (ontology error), with_engine r.1 q)
        | ok _ ↦ ingest_recorded now prediction (with_engine r.1 q)
      ]

  -- the `match` on the item's state
  unfoldable pub claim_in :
      Timestamp
      → String
      → String
      → QueueItem f64
      → ReviewState
      → ReviewQueue
      → Result ReviewQueueError Unit × ReviewQueue
  unfolding put
  claim_in now flow_id reviewer item (pending reason) q =
      (ok tt, put flow_id (record item { state = under_review reason reviewer now }) q)
  claim_in now flow_id reviewer item other q = (err (not_pending flow_id (state_text other)), q)

  unfoldable pub claim :
      Timestamp → String → String → ReviewQueue → Result ReviewQueueError Unit × ReviewQueue
  unfolding claim_in
  claim now flow_id reviewer q = elim (lookup String-discrete flow_id q.items) [
    | none ↦ (err (flow_not_found flow_id), q)
    | some item ↦ claim_in now flow_id reviewer item item.state q
  ]

  -- the decision of a human on an open item
  unfoldable pub decide :
      Timestamp
      → String
      → String
      → Verdict
      → String
      → QueueItem f64
      → ReviewQueue
      → Result ReviewQueueError AuditDecision × ReviewQueue
  unfolding next_decision_id resolve
  decide now flow_id reviewer verdict rationale item q =
      let (decision_id, q') = next_decision_id flow_id q in
      let decision : AuditDecision = record {
        decision_id = decision_id;
        flow_id = flow_id;
        reviewer = human reviewer;
        verdict = verdict;
        rationale = rationale;
        decided_at = now;
      } in
      let r = resolve decision (record item { state = resolved decision_id }) q' in
      elim r.0 [ err error ↦ (err error, r.1) | ok _ ↦ (ok decision, r.1) ]

  unfoldable pub record_verdict :
      Unicode
      → Timestamp
      → String
      → String
      → Verdict
      → String
      → ReviewQueue
      → Result ReviewQueueError AuditDecision × ReviewQueue
  unfolding is_empty is_open decide
  record_verdict unicode now flow_id reviewer verdict rationale q =
      if is_empty (unicode.trim reviewer)
      then (err (empty_reviewer flow_id), q)
      else if is_empty (unicode.trim rationale)
      then (err (empty_rationale flow_id), q)
      else elim (lookup String-discrete flow_id q.items) [
        | none ↦ (err (flow_not_found flow_id), q)
        | some item ↦
            if is_open item.state
            then decide now flow_id reviewer verdict rationale item q
            else (err (not_pending flow_id (state_text item.state)), q)
      ]
