-- ===== src/Siem/Review/Queue/Sweep.antt =====
-- components/active-siem/crates/review-queue/src/queue.rs, `sweep_expired_with_sink`: open items that
-- have waited too long are resolved by the policy of the queue.
use active_spectral_defense.Base.{
  ℕ, ◌+◌, ◌-◌, ◌%◌, ◌^◌, Bool, String, none, some, List, [], ◌∷◌, ◌&&◌, not, leb, if◌then◌else◌,
  String-discrete, decimal, ℤ, pos, negsuc, leb_ℤ, ◌-ℤ◌,
}
use Prim.Native.String.{◌++◌}
use active_spectral_defense.Float.{Float}
use active_spectral_defense.Map.{Map, lookup}
use active_spectral_defense.Siem.Ontology.{Result, ok, err}
use active_spectral_defense.Siem.Review.{
  Timestamp, Verdict, execute_containment, dismiss, system_sla_timeout, AuditDecision, SlaPolicy,
  fail_safe, fail_secure, resolved, ReviewQueueError, panicked, FlowPrediction, QueueItem,
  SlaResolution, TriggerConfig, is_benign,
}
use active_spectral_defense.Siem.Review.Audit.{to_millis}
use active_spectral_defense.Siem.Review.Queue.{is_open, ReviewQueue, next_decision_id, resolve}

unfoldable pub integer_text : ℤ → String
integer_text (pos n) = decimal n
integer_text (negsuc n) = "-" ++ decimal (n + 1)

module _ (f64 : Float) where
  unfoldable pub breach_text : ℤ → String
  unfolding integer_text
  breach_text sla_seconds =
      "SLA breach (" ++ integer_text sla_seconds ++ "s with no human decision); "

  unfoldable pub confidence_millis : FlowPrediction f64 → ℤ
  confidence_millis prediction = to_millis f64 prediction.confidence

  -- `i as u32`
  unfoldable pub as_u32 : ℤ → ℕ
  as_u32 (pos n) = n % 2 ^ 32
  as_u32 (negsuc n) = 2 ^ 32 - 1 - n % 2 ^ 32

  -- the verdict of the policy and its rationale
  unfoldable pub sla_verdict :
      ℤ → SlaPolicy → TriggerConfig f64 → FlowPrediction f64 → Verdict × String
  unfolding breach_text as_u32 confidence_millis
  sla_verdict sla_seconds fail_safe cfg prediction = (
    dismiss,
    breach_text sla_seconds
        ++ "fail-safe policy applied: defaulting to dismiss rather than auto-containing. "
        ++ "Requires urgent follow-up review -- this flow was never seen by a human.",
  )
  sla_verdict sla_seconds (fail_secure threshold) cfg prediction =
      if not (is_benign f64 prediction cfg) && leb threshold (as_u32 (confidence_millis prediction))
      then (
        execute_containment,
        breach_text sla_seconds
            ++ "fail-secure policy applied: confidence "
            ++ f64.fixed 3 prediction.confidence
            ++ " >= threshold, auto-containing. "
            ++ "Requires follow-up review to confirm this wasn't a false positive.",
      )
      else (
        dismiss,
        breach_text sla_seconds
            ++ "fail-secure policy applied: confidence below auto-contain threshold, dismissing. "
            ++ "Requires follow-up review.",
      )

  -- an open item that has waited for the time allowed
  unfoldable pub is_expired : ℤ → QueueItem f64 → Bool
  is_expired cutoff item = is_open item.state && leb_ℤ item.enqueued_at cutoff

  unfoldable pub expired_flow_ids : ℤ → Map String (QueueItem f64) → List String
  unfolding is_expired
  expired_flow_ids cutoff [] = []
  expired_flow_ids cutoff ((id, item) ∷ m) =
      let rest = expired_flow_ids cutoff m in if is_expired cutoff item then id ∷ rest else rest

  abbrev pub Swept : Type 0
  Swept = Result ReviewQueueError (List (SlaResolution f64)) × ReviewQueue f64

  -- the loop's body, for an item that was found
  unfoldable pub time_out :
      ℤ
      → Timestamp
      → String
      → QueueItem f64
      → ReviewQueue f64
      → Result ReviewQueueError (SlaResolution f64) × ReviewQueue f64
  unfolding next_decision_id resolve sla_verdict
  time_out sla_seconds now flow_id item q =
      let verdict = sla_verdict sla_seconds q.sla_policy q.trigger_cfg item.prediction in
      let (decision_id, q') = next_decision_id f64 flow_id q in
      let decision : AuditDecision = record {
        decision_id = decision_id;
        flow_id = flow_id;
        reviewer = system_sla_timeout;
        verdict = verdict.0;
        rationale = verdict.1;
        decided_at = now;
      } in
      let r = resolve f64 decision (record item { state = resolved decision_id }) q' in
      elim r.0 [
        | err error ↦ (err error, r.1)
        | ok _ ↦ (ok (record { prediction = item.prediction; decision = decision }), r.1)
      ]

  -- The loop over the expired flows, which `?` leaves at the first error. `clock` is `now()` when a
  -- flow is resolved.
  unfoldable pub time_out_all : ℤ → (String → Timestamp) → List String → ReviewQueue f64 → Swept
  unfolding time_out
  time_out_all sla_seconds clock [] q = (ok [], q)
  time_out_all sla_seconds clock (id ∷ ids) q = elim (lookup String-discrete id q.items) [
    | none ↦ (err panicked, q)
    | some item ↦
        let r = time_out sla_seconds (clock id) id item q in
        elim r.0 [
          | err error ↦ (err error, r.1)
          | ok breach ↦
              let rest = time_out_all sla_seconds clock ids r.1 in
              elim rest.0 [
                | err error ↦ (err error, rest.1)
                | ok breaches ↦ (ok (breach ∷ breaches), rest.1)
              ]
        ]
  ]

  -- the loop that notifies, once the lock is released
  unfoldable pub notify_all :
      {A : Type 0} → (SlaResolution f64 → A → A) → List (SlaResolution f64) → A → A
  notify_all notify [] a = a
  notify_all notify (b ∷ bs) a = notify_all notify bs (notify b a)

  unfoldable pub sweep_expired_with_sink :
      {A : Type 0}
      → (SlaResolution f64 → A → A)
      → Timestamp
      → (String → Timestamp)
      → ℤ
      → ReviewQueue f64
      → A
      → Swept × A
  unfolding time_out_all expired_flow_ids notify_all
  sweep_expired_with_sink notify now clock sla_seconds q a =
      let ids = expired_flow_ids (now -ℤ sla_seconds) q.items in
      let swept = time_out_all sla_seconds clock ids q in
      elim swept.0 [ err error ↦ (swept, a) | ok breaches ↦ (swept, notify_all notify breaches a) ]

  -- `sweep_expired`, whose sink writes to the log
  unfoldable pub sweep_expired : Timestamp → (String → Timestamp) → ℤ → ReviewQueue f64 → Swept
  unfolding sweep_expired_with_sink
  sweep_expired now clock sla_seconds q =
      (sweep_expired_with_sink (λ breach log. log) now clock sla_seconds q tt).0
