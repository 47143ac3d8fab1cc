-- ===== src/Siem/Review/Queue/Collision.antt =====
-- Flows and decisions share one space of identifiers in the audit graph of
-- components/active-siem/crates/review-queue/src/queue.rs.
use active_spectral_defense.Base.{
  ◌≡◌, refl, true, false, none, String, List, IsUnicode, arith, ◌∙◌, String-discrete, Unicode,
}
use active_spectral_defense.Float.{Float}
use active_spectral_defense.Map.{lookup, contains_key}
use active_spectral_defense.Map.Laws.{lookup-insert, contains_key-insert}
use active_spectral_defense.Siem.Ontology.{OntologyError, ok, err, duplicate_instance}
use active_spectral_defense.Siem.Ontology.Consistent.{IsConsistent, is_a}
use active_spectral_defense.Siem.Review.{
  Timestamp, AuditDecision, FlowPrediction, evaluate, ontology, auto_resolved, QueueItem,
}
use active_spectral_defense.Siem.Review.Audit.{
  flow_prediction_type, prediction_instance, record_prediction, record_decision,
}
use active_spectral_defense.Siem.Review.Audit.Effect.{
  predicted, record_prediction-cases, record_decision-cases, record_prediction-IsConsistent,
}
use active_spectral_defense.Siem.Review.Queue.{
  ReviewQueue, decision_id_text, next_decision_id, auto_decision, resolve, ingest_resolved, ingest,
  with_engine,
}
use active_spectral_defense.Siem.Review.Queue.Unreviewed.{ingest-unreviewed}
use active_spectral_defense.Siem.Review.Queue.Sound.{predicted-IsSound}
use active_spectral_defense.Siem.Review.Queue.Kept.{Sound, ingest-Sound}
use active_spectral_defense.Siem.Review.Queue.Runs.{Call, run, run_from-Sound}
use active_spectral_defense.Siem.Review.Queue.Stuck.{IsStuck, run-IsStuck}

module _ (f64 : Float) (unicode : Unicode) where
  -- the queue that a failed resolution leaves: the prediction is in the audit graph
  abbrev stuck : FlowPrediction f64 → ReviewQueue f64 → ReviewQueue f64
  stuck p q = (next_decision_id f64 p.flow_id (with_engine f64 (predicted f64 p q.engine) q)).1

  resolve_refused :
      (d : AuditDecision) (item : QueueItem f64) (q : ReviewQueue f64) (x : OntologyError)
      → record_decision f64 d q.engine ≡ (err x, q.engine)
      → resolve f64 d item q ≡ (err (ontology x), q)
  unfolding resolve
  resolve_refused d item q x h = rw (resolve, h, h) refl

  ingest_collides :
      (now : Timestamp) (p : FlowPrediction f64) (q : ReviewQueue f64)
      → Sound f64 unicode q
      → contains_key String-discrete p.flow_id q.items ≡ false
      → contains_key String-discrete p.flow_id q.engine.store.instances ≡ false
      → evaluate f64 p q.trigger_cfg ≡ none
      → contains_key String-discrete
          (decision_id_text p.flow_id q.decision_seq)
          q.engine.store.instances
        ≡ true
      → ingest f64 now p q ≡ (
        err (ontology (duplicate_instance (decision_id_text p.flow_id q.decision_seq))),
        stuck p q,
      )
  unfolding ingest_resolved resolve next_decision_id auto_decision is_a contains_key
      prediction_instance
  ingest_collides now p q h new fresh clear taken =
      let e = predicted f64 p q.engine in
      let id = decision_id_text p.flow_id q.decision_seq in
      let d = auto_decision f64 now id p q.trigger_cfg in
      let i = prediction_instance f64 p in
      let after : record_prediction f64 p q.engine ≡ (ok tt, e) =
        rw fresh at (record_prediction-cases f64 p q.engine h.registered) in
      let c : IsConsistent f64 e =
        rw after at (record_prediction-IsConsistent f64 p q.engine h.consistent) in
      let sound = predicted-IsSound f64 unicode p q.engine q.items c fresh h in
      let own = lookup-insert String-discrete p.flow_id p.flow_id i q.engine.store.instances in
      let typed : is_a f64 flow_prediction_type p.flow_id e.store.instances ≡ true =
        ground (arith, own) in
      let found : contains_key String-discrete id e.store.instances ≡ true = ground (
        arith,
        taken,
        contains_key-insert String-discrete p.flow_id id i q.engine.store.instances,
      ) in
      let same_engine : record_decision f64 d e ≡ (err (duplicate_instance id), e) =
        rw found at (record_decision-cases f64 d e sound.registered c typed) in
      let q' = with_engine f64 e q in
      let item : QueueItem f64 = record {
        prediction = p;
        state = auto_resolved id;
        enqueued_at = now;
      } in
      let refused = resolve_refused d item (stuck p q) (duplicate_instance id) same_engine in
      let third : ingest_resolved f64 now p q'
          ≡ (err (ontology (duplicate_instance id)), stuck p q) =
        rw (ingest_resolved, refused, refused) refl in
      ingest-unreviewed f64 now p q h.registered new fresh clear ∙ third

  -- a flow that is stuck is refused
  ingest-refused :
      (later : Timestamp) (p : FlowPrediction f64) (flow : String) (q : ReviewQueue f64)
      → Sound f64 unicode q
      → IsStuck f64 flow q
      → p.flow_id ≡ flow
      → (ingest f64 later p q).0 ≡ err (ontology (duplicate_instance p.flow_id))
  unfolding contains_key ingest
  ingest-refused later p flow q h lost same_flow =
      let known : contains_key String-discrete p.flow_id q.engine.store.instances ≡ true =
        ground (arith, lost.taken, same_flow) in
      let new : contains_key String-discrete p.flow_id q.items ≡ false =
        ground (arith, lost.absent, same_flow) in
      let refused : record_prediction f64 p q.engine
          ≡ (err (duplicate_instance p.flow_id), q.engine) =
        rw known at (record_prediction-cases f64 p q.engine h.registered) in
      rw (ingest, new, refused) refl

  stuck-IsStuck :
      (p : FlowPrediction f64) (q : ReviewQueue f64)
      → contains_key String-discrete p.flow_id q.items ≡ false
      → IsStuck f64 p.flow_id (stuck p q)
  unfolding next_decision_id contains_key
  stuck-IsStuck p q new =
      let i = prediction_instance f64 p in
      let own =
        contains_key-insert String-discrete p.flow_id p.flow_id i q.engine.store.instances in
      record { taken = ground (arith, own); absent = ground (arith, new) }

  -- An instance of the audit graph may stand under the identifier that the next decision will
  -- get. Then, in a queue whose items agree with its audit graph, for a flow that is in neither
  -- and a prediction that needs no review, `ingest` fails; and after any further sequence of calls
  -- the flow still has no item, and an `ingest` of a prediction for that flow fails again.
  pub ingest-collision :
      (now later : Timestamp) (p p' : FlowPrediction f64) (q : ReviewQueue f64)
      (cs : List (Call f64))
      → IsUnicode unicode
      → Sound f64 unicode q
      → contains_key String-discrete p.flow_id q.items ≡ false
      → contains_key String-discrete p.flow_id q.engine.store.instances ≡ false
      → evaluate f64 p q.trigger_cfg ≡ none
      → contains_key String-discrete
          (decision_id_text p.flow_id q.decision_seq)
          q.engine.store.instances
        ≡ true
      → p'.flow_id ≡ p.flow_id
      → let r = ingest f64 now p q in
        let after = run f64 unicode cs r.1 in
        (r.0 ≡ err (ontology (duplicate_instance (decision_id_text p.flow_id q.decision_seq))))
        × (lookup String-discrete p.flow_id after.items ≡ none)
        × ((ingest f64 later p' after).0 ≡ err (ontology (duplicate_instance p'.flow_id)))
  ingest-collision now later p p' q cs u h new fresh clear taken same_flow =
      let r = ingest f64 now p q in
      let e = ingest_collides now p q h new fresh clear taken in
      let sound = ingest-Sound f64 unicode now p q u h in
      let lost : IsStuck f64 p.flow_id r.1 = rw e (stuck-IsStuck p q new) in
      let lost' = run-IsStuck f64 unicode cs p.flow_id r.1 u sound lost in
      let sound' = run_from-Sound f64 unicode cs r.1 u sound in
      let first : r.0
          ≡ err (ontology (duplicate_instance (decision_id_text p.flow_id q.decision_seq))) =
        rw e refl in
      (
        first,
        lost'.absent,
        ingest-refused later p' p.flow_id (run f64 unicode cs r.1) sound' lost' same_flow,
      )
