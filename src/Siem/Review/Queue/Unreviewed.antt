-- ===== src/Siem/Review/Queue/Unreviewed.antt =====
-- Predictions that components/active-siem/crates/review-queue/src/queue.rs resolves by itself.
use active_spectral_defense.Base.{
  ◌≡◌, refl, true, false, String, none, List, [], ◌∷◌, arith, ◌∙◌, String-discrete, Unicode,
  IsUnicode,
}
use active_spectral_defense.Float.{Float}
use active_spectral_defense.Map.{contains_key}
use active_spectral_defense.Map.Laws.{lookup-insert, contains_key-insert}
use active_spectral_defense.Siem.Ontology.{ok, same}
use active_spectral_defense.Siem.Ontology.Consistent.{IsConsistent, is_a}
use active_spectral_defense.Siem.Review.{
  Timestamp, AuditDecision, FlowPrediction, evaluate, auto_resolved, QueueItem, is_benign,
  execute_containment, same_verdict,
}
use active_spectral_defense.Siem.Review.Audit.{
  flow_prediction_type, prediction_instance, record_prediction, record_decision, decisions_for_flow,
}
use active_spectral_defense.Siem.Review.Audit.Recorded.{IsRegistered, decided}
use active_spectral_defense.Siem.Review.Audit.Effect.{
  predicted, record_prediction-cases, record_decision-cases, record_prediction-IsConsistent,
  decisions_for_flow-decided,
}
use active_spectral_defense.Siem.Review.Containment.{approved, contain_decisions, judge, check}
use active_spectral_defense.Siem.Review.Queue.{
  ReviewQueue, decision_id_text, next_decision_id, auto_decision, resolve, put, ingest_resolved,
  ingest_recorded, ingest, with_engine,
}
use active_spectral_defense.Siem.Review.Queue.Sound.{predicted-IsSound, named}
use active_spectral_defense.Siem.Review.Queue.Kept.{Sound, ingest_resolved-queue}

module _ (f64 : Float) where
  -- an `ingest` that needs no review goes on to resolve the flow
  pub ingest-unreviewed :
      (now : Timestamp) (p : FlowPrediction f64) (q : ReviewQueue f64)
      → IsRegistered f64 q.engine
      → contains_key String-discrete p.flow_id q.items ≡ false
      → contains_key String-discrete p.flow_id q.engine.store.instances ≡ false
      → evaluate f64 p q.trigger_cfg ≡ none
      → ingest f64 now p q
        ≡ ingest_resolved f64 now p (with_engine f64 (predicted f64 p q.engine) q)
  unfolding ingest ingest_recorded
  ingest-unreviewed now p q h new fresh clear =
      let e = predicted f64 p q.engine in
      let after : record_prediction f64 p q.engine ≡ (ok tt, e) =
        rw fresh at (record_prediction-cases f64 p q.engine h) in
      let q' = with_engine f64 e q in
      let first : ingest f64 now p q ≡ ingest_recorded f64 now p q' =
        rw (new, ingest, after, after) refl in
      let second : ingest_recorded f64 now p q' ≡ ingest_resolved f64 now p q' =
        rw (ingest_recorded, clear) refl in
      first ∙ second

  resolve-engine :
      (d : AuditDecision) (item : QueueItem f64) (q : ReviewQueue f64)
      → record_decision f64 d q.engine ≡ (ok tt, decided f64 d q.engine)
      → (resolve f64 d item q).1.engine ≡ decided f64 d q.engine
  unfolding resolve put
  resolve-engine d item q h = rw (resolve, h, h) refl

  module _ (unicode : Unicode) where
    check_one :
        (flow : String) (d : AuditDecision) (ds : List AuditDecision)
        → ds ≡ d ∷ []
        → same_verdict d.verdict execute_containment ≡ true
        → judge (contain_decisions ds) ≡ approved d.decision_id
    unfolding contain_decisions judge
    check_one flow d ds one contains = rw (one, contain_decisions, contains) refl

    -- In a queue whose items agree with its audit graph, a prediction that needs no review and
    -- whose label is not the benign one, for a flow that is in neither, approves the containment
    -- of the flow at once, provided the identifier of the decision is neither that of an
    -- instance nor the flow's own, and the operations on Unicode leave texts of lower-case letters
    -- alone.
    pub check-ingest_unreviewed :
        (now : Timestamp) (p : FlowPrediction f64) (q : ReviewQueue f64)
        → IsUnicode unicode
        → Sound f64 unicode q
        → contains_key String-discrete p.flow_id q.items ≡ false
        → contains_key String-discrete p.flow_id q.engine.store.instances ≡ false
        → evaluate f64 p q.trigger_cfg ≡ none
        → is_benign f64 p q.trigger_cfg ≡ false
        → contains_key String-discrete
            (decision_id_text p.flow_id q.decision_seq)
            q.engine.store.instances
          ≡ false
        → same p.flow_id (decision_id_text p.flow_id q.decision_seq) ≡ false
        → check f64 unicode (ingest f64 now p q).1.engine p.flow_id
          ≡ approved (decision_id_text p.flow_id q.decision_seq)
    unfolding next_decision_id auto_decision is_a prediction_instance contains_key check
        same_verdict named
    check-ingest_unreviewed now p q u h new fresh clear attack unused apart =
        let e = predicted f64 p q.engine in
        let id = decision_id_text p.flow_id q.decision_seq in
        let d = auto_decision f64 now id p q.trigger_cfg in
        let i = prediction_instance f64 p in
        let item : QueueItem f64 = record {
          prediction = p;
          state = auto_resolved id;
          enqueued_at = now;
        } in
        let recorded : record_prediction f64 p q.engine ≡ (ok tt, e) =
          rw fresh at (record_prediction-cases f64 p q.engine h.registered) in
        let c : IsConsistent f64 e =
          rw recorded at (record_prediction-IsConsistent f64 p q.engine h.consistent) in
        let sound = predicted-IsSound f64 unicode p q.engine q.items c fresh h in
        let own = lookup-insert String-discrete p.flow_id p.flow_id i q.engine.store.instances in
        let typed : is_a f64 flow_prediction_type p.flow_id e.store.instances ≡ true =
          ground (arith, own) in
        let free : contains_key String-discrete id e.store.instances ≡ false = ground (
          arith,
          unused,
          apart,
          contains_key-insert String-discrete p.flow_id id i q.engine.store.instances,
        ) in
        let done : record_decision f64 d e ≡ (ok tt, decided f64 d e) =
          rw free at (record_decision-cases f64 d e sound.registered c typed) in
        let q' = with_engine f64 e q in
        let q'' = (next_decision_id f64 p.flow_id q').1 in
        let unnamed : named f64 p.flow_id q.items ≡ none = ground (arith, new) in
        let empty : decisions_for_flow f64 unicode e p.flow_id ≡ [] =
          rw unnamed at (sound.audited p.flow_id) in
        let together : same p.flow_id p.flow_id ≡ true = ground arith in
        let one : decisions_for_flow f64 unicode (decided f64 d e) p.flow_id ≡ d ∷ [] =
          rw
            (
              decisions_for_flow-decided f64 unicode p.flow_id d e u sound.consistent free,
              together,
              empty,
            )
            refl in
        rw
          (
            ingest-unreviewed now p q h.registered new fresh clear,
            ingest_resolved-queue f64 now p q',
            resolve-engine d item q'' done,
          )
          (check_one p.flow_id d _ one (rw attack refl))
