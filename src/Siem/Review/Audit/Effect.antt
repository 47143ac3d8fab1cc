-- ===== src/Siem/Review/Audit/Effect.antt =====
-- When recording succeeds, and which decisions of a flow the audit graph then has:
-- components/active-siem/crates/review-queue/src/engine_bridge.rs.
use active_spectral_defense.Base.{
  ◌≡◌, refl, ap, inl, inr, true, false, String, none, List, [], ◌∷◌, ◌++◌, arith, String-discrete,
  Option-cases, Bool-cases, Unicode, IsUnicode, if◌then◌else◌,
}
use active_spectral_defense.Float.{Float}
use active_spectral_defense.Map.{contains_key, insert}
use active_spectral_defense.Map.Laws.{lookup-insert}
use active_spectral_defense.Siem.Ontology.{
  ok, err, same, link, incoming, duplicate_instance, ObjectInstance,
}
use active_spectral_defense.Siem.Ontology.Store.{insert_link}
use active_spectral_defense.Siem.Ontology.Engine.{
  OntologyEngine, Outcome, with_instances, create_object_instance, create_link, link_error,
  traverse,
}
use active_spectral_defense.Siem.Ontology.Consistent.{IsConsistent, is_a}
use active_spectral_defense.Siem.Ontology.Consistent.Preserved.{
  create_object_instance-IsConsistent, create_link-IsConsistent,
}
use active_spectral_defense.Siem.Review.{AuditDecision, FlowPrediction}
use active_spectral_defense.Siem.Review.Audit.{
  flow_prediction_type, review_of_link, review_of, and_then, prediction_instance, decision_instance,
  record_prediction, record_decision, decision_from_instance, decisions, decisions_for_flow,
}
use active_spectral_defense.Siem.Review.Audit.Roundtrip.{
  decision-fits, prediction-fits, decision_from_instance-decision_instance,
}
use active_spectral_defense.Siem.Review.Audit.Recorded.{
  IsRegistered, decided, traverse-create, traverse-decided, new_link,
}

module _ (f64 : Float) where
  -- the audit graph with the prediction
  abbrev pub predicted : FlowPrediction f64 → OntologyEngine f64 → OntologyEngine f64
  predicted p e =
      with_instances f64
        (insert String-discrete p.flow_id (prediction_instance f64 p) e.store.instances) e

  -- Recording a prediction fails exactly if its flow is the identifier of an instance.
  pub record_prediction-cases :
      (p : FlowPrediction f64) (e : OntologyEngine f64)
      → IsRegistered f64 e
      → record_prediction f64 p e ≡ (
          if contains_key String-discrete p.flow_id e.store.instances
          then (err (duplicate_instance p.flow_id), e)
          else (ok tt, predicted p e))
  unfolding record_prediction create_object_instance prediction_instance
  record_prediction-cases p e h =
      rw (h.predictions, create_object_instance, prediction-fits f64 p) refl

  created :
      (d : AuditDecision) (e : OntologyEngine f64)
      → IsRegistered f64 e
      → create_object_instance f64 (decision_instance f64 d) e ≡ (
          if contains_key String-discrete d.decision_id e.store.instances
          then (err (duplicate_instance d.decision_id), e)
          else (
            ok tt,
            with_instances f64
                (insert String-discrete d.decision_id (decision_instance f64 d) e.store.instances)
                e,
          ))
  unfolding create_object_instance decision_instance
  created d e h = rw (h.decided, create_object_instance, decision-fits f64 d) refl

  -- both ends of the new link are there
  linkable :
      (d : AuditDecision) (e : OntologyEngine f64)
      → is_a f64 flow_prediction_type d.flow_id e.store.instances ≡ true
      → contains_key String-discrete d.decision_id e.store.instances ≡ false
      → link_error f64 review_of (link review_of_link d.decision_id d.flow_id) (record e.store {
        instances =
            insert String-discrete d.decision_id (decision_instance f64 d) e.store.instances;
      })
        ≡ none
  unfolding link_error is_a contains_key review_of decision_instance
  linkable d e flow fresh =
      let i = decision_instance f64 d in
      ground (
        arith,
        flow,
        fresh,
        lookup-insert String-discrete d.decision_id d.decision_id i e.store.instances,
        lookup-insert String-discrete d.decision_id d.flow_id i e.store.instances,
      )

  -- Recording a decision on a flow that has a prediction fails exactly if the decision's
  -- identifier is that of an instance.
  pub record_decision-cases :
      (d : AuditDecision) (e : OntologyEngine f64)
      → IsRegistered f64 e
      → IsConsistent f64 e
      → is_a f64 flow_prediction_type d.flow_id e.store.instances ≡ true
      → record_decision f64 d e ≡ (
          if contains_key String-discrete d.decision_id e.store.instances
          then (err (duplicate_instance d.decision_id), e)
          else (ok tt, decided f64 d e))
  unfolding record_decision create_link insert_link
  record_decision-cases d e h c flow =
      elim (Bool-cases (contains_key String-discrete d.decision_id e.store.instances)) [
        | inl old ↦ rw (created d e h, old) refl
        | inr fresh ↦
            rw
              (
                created d e h,
                fresh,
                record_decision,
                h.reviews,
                create_link,
                linkable d e flow fresh,
                new_link f64 d e c fresh,
                insert_link,
              )
              refl
      ]

  and_then-IsConsistent :
      (r : Outcome f64) (f : OntologyEngine f64 → Outcome f64)
      → IsConsistent f64 r.1
      → ((e : OntologyEngine f64) → IsConsistent f64 e → IsConsistent f64 (f e).1)
      → IsConsistent f64 (and_then f64 r f).1
  and_then-IsConsistent (ok u, e) f h k = k e h
  and_then-IsConsistent (err error, e) f h k = h

  pub record_decision-IsConsistent :
      (d : AuditDecision) (e : OntologyEngine f64)
      → IsConsistent f64 e
      → IsConsistent f64 (record_decision f64 d e).1
  unfolding record_decision
  record_decision-IsConsistent d e h =
      and_then-IsConsistent (create_object_instance f64 (decision_instance f64 d) e) _
        (create_object_instance-IsConsistent f64 (decision_instance f64 d) e h)
        (create_link-IsConsistent f64 (link review_of_link d.decision_id d.flow_id))

  pub record_prediction-IsConsistent :
      (p : FlowPrediction f64) (e : OntologyEngine f64)
      → IsConsistent f64 e
      → IsConsistent f64 (record_prediction f64 p e).1
  unfolding record_prediction
  record_prediction-IsConsistent p e h =
      create_object_instance-IsConsistent f64 (prediction_instance f64 p) e h

  module _ (unicode : Unicode) where
    decisions-append :
        (xs ys : List (ObjectInstance f64))
        → decisions f64 unicode (xs ++ ys) ≡ decisions f64 unicode xs ++ decisions f64 unicode ys
    unfolding decisions
    decisions-append [] ys = refl
    decisions-append (x ∷ xs) ys = elim (Option-cases (decision_from_instance f64 unicode x)) [
      | inl e ↦ rw (e, decisions) (decisions-append xs ys)
      | inr (d, e) ↦ rw (e, decisions) (ap (λ ds. d ∷ ds) (decisions-append xs ys))
    ]

    -- A prediction that is new changes the decisions of no flow.
    pub decisions_for_flow-predicted :
        (flow : String) (p : FlowPrediction f64) (e : OntologyEngine f64)
        → IsConsistent f64 e
        → contains_key String-discrete p.flow_id e.store.instances ≡ false
        → decisions_for_flow f64 unicode (predicted p e) flow
          ≡ decisions_for_flow f64 unicode e flow
    unfolding decisions_for_flow
    decisions_for_flow-predicted flow p e h fresh =
        ap (λ is. decisions f64 unicode is)
          (traverse-create f64 flow review_of_link p.flow_id (prediction_instance f64 p) e h fresh)

    -- A decision that is new is added to those of its flow, and to no others.
    pub decisions_for_flow-decided :
        (flow : String) (d : AuditDecision) (e : OntologyEngine f64)
        → IsUnicode unicode
        → IsConsistent f64 e
        → contains_key String-discrete d.decision_id e.store.instances ≡ false
        → decisions_for_flow f64 unicode (decided f64 d e) flow
          ≡ decisions_for_flow f64 unicode e flow ++ (if same d.flow_id flow then d ∷ [] else [])
    unfolding decisions_for_flow decisions
    decisions_for_flow-decided flow d e u h fresh =
        rw
          (
            traverse-decided f64 flow d e h fresh,
            decisions-append (traverse f64 flow review_of_link incoming e)
                (if same d.flow_id flow then decision_instance f64 d ∷ [] else []),
          )
          (elim (Bool-cases (same d.flow_id flow)) [
            | inr other ↦ rw other refl
            | inl own ↦
                rw (own, decisions, decision_from_instance-decision_instance f64 unicode d u) refl
          ])
