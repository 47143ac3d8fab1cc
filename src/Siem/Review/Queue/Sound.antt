-- ===== src/Siem/Review/Queue/Sound.antt =====
-- The invariant that ties the items of components/active-siem/crates/review-queue/src/queue.rs to
-- the audit graph.
use active_spectral_defense.Base.{
  ◌≡◌, refl, ap, inl, inr, true, false, String, Option, none, some, List, [], ◌∷◌, ◌++◌, append-nil,
  ◌||◌, not, arith, String-discrete, Bool-cases, Unicode, IsUnicode, if◌then◌else◌,
}
use active_spectral_defense.Float.{Float}
use active_spectral_defense.Map.{Map, lookup, contains_key, insert, IsMap}
use active_spectral_defense.Map.Laws.{lookup-insert, contains_key-insert, insert-IsMap}
use active_spectral_defense.Siem.Ontology.{same}
use active_spectral_defense.Siem.Ontology.Engine.{OntologyEngine}
use active_spectral_defense.Siem.Ontology.Consistent.{IsConsistent, is_a}
use active_spectral_defense.Siem.Ontology.Consistent.Ends.{is_a-insert}
use active_spectral_defense.Siem.Review.{
  AuditDecision, FlowPrediction, QueueItem, ReviewState, auto_resolved, resolved,
}
use active_spectral_defense.Siem.Review.Audit.{
  flow_prediction_type, decisions_for_flow, prediction_instance, decision_instance,
}
use active_spectral_defense.Siem.Review.Audit.Recorded.{IsRegistered, decided, instances-decided}
use active_spectral_defense.Siem.Review.Audit.Effect.{
  predicted, decisions_for_flow-predicted, decisions_for_flow-decided,
}

-- the decision that a state names
unfoldable pub decision_of : ReviewState → Option String
decision_of (auto_resolved id) = some id
decision_of (resolved id) = some id
decision_of _ = none

-- exactly the decision named has been recorded for the flow
abbrev pub Agrees : String → Option String → List AuditDecision → Type 0
Agrees flow none ds = ds ≡ []
Agrees flow (some id) ds =
    (d : AuditDecision) × (ds ≡ d ∷ []) × (d.decision_id ≡ id) × (d.flow_id ≡ flow)

module _ (f64 : Float) where
  -- the decision that the item of a flow names, if it has one
  unfoldable pub named : String → Map String (QueueItem f64) → Option String
  unfolding decision_of
  named flow items = elim (lookup String-discrete flow items) [
    | none ↦ none
    | some item ↦ decision_of item.state
  ]

  pub named-insert :
      (flow other : String) (item : QueueItem f64) (items : Map String (QueueItem f64))
      → named other (insert String-discrete flow item items)
        ≡ (if same flow other then decision_of item.state else named other items)
  unfolding named
  named-insert flow other item items =
      ground (arith, lookup-insert String-discrete flow other item items)

  module _ (unicode : Unicode) where
    -- The audit graph is consistent and has its schema; the items have a key each; every flow of the queue has a prediction
    -- there; and for every text the decisions about it are the one that its item names, or none.
    pub record IsSound (e : OntologyEngine f64) (items : Map String (QueueItem f64)) : Type 0 where
      pub registered : IsRegistered f64 e
      pub consistent : IsConsistent f64 e
      pub keyed : IsMap String-discrete items
      pub flows :
          (id : String)
          → (not (contains_key String-discrete id items)
              || is_a f64 flow_prediction_type id e.store.instances)
            ≡ true
      pub audited : (id : String) → Agrees id (named id items) (decisions_for_flow f64 unicode e id)

    -- an item is put where the named decision stays the same
    pub put-IsSound :
        (flow : String) (item : QueueItem f64) (e : OntologyEngine f64)
        (items : Map String (QueueItem f64))
        → is_a f64 flow_prediction_type flow e.store.instances ≡ true
        → decision_of item.state ≡ named flow items
        → IsSound e items
        → IsSound e (insert String-discrete flow item items)
    put-IsSound flow item e items typed same_decision h = record {
      registered = h.registered;
      consistent = h.consistent;
      keyed = insert-IsMap String-discrete flow item items h.keyed;
      flows = λ id.
          ground (arith, h.flows id, typed, contains_key-insert String-discrete flow id item items);
      audited = λ id.
          let kept : named id (insert String-discrete flow item items) ≡ named id items =
            ground (arith, named-insert flow id item items, same_decision) in
          rw kept (h.audited id);
    }

    -- the engine has a new prediction
    pub predicted-IsSound :
        (p : FlowPrediction f64) (e : OntologyEngine f64) (items : Map String (QueueItem f64))
        → IsConsistent f64 (predicted f64 p e)
        → contains_key String-discrete p.flow_id e.store.instances ≡ false
        → IsSound e items
        → IsSound (predicted f64 p e) items
    predicted-IsSound p e items c fresh h =
        let i = prediction_instance f64 p in
        record {
          registered = record {
            predictions = h.registered.predictions;
            decided = h.registered.decided;
            reviews = h.registered.reviews;
          };
          consistent = c;
          keyed = h.keyed;
          flows = λ id. ground (
            arith,
            h.flows id,
            fresh,
            is_a-insert f64 flow_prediction_type p.flow_id id i e.store.instances,
          );
          audited = λ id.
              rw (decisions_for_flow-predicted f64 unicode id p e h.consistent fresh)
                (h.audited id);
        }

    -- an open flow is decided
    pub decided-IsSound :
        (d : AuditDecision) (item : QueueItem f64) (e : OntologyEngine f64)
        (items : Map String (QueueItem f64))
        → IsUnicode unicode
        → IsConsistent f64 (decided f64 d e)
        → is_a f64 flow_prediction_type d.flow_id e.store.instances ≡ true
        → contains_key String-discrete d.decision_id e.store.instances ≡ false
        → named d.flow_id items ≡ none
        → decision_of item.state ≡ some d.decision_id
        → IsSound e items
        → IsSound (decided f64 d e) (insert String-discrete d.flow_id item items)
    decided-IsSound d item e items u c typed fresh open_flow closes h =
        let i = decision_instance f64 d in
        record {
          registered = record {
            predictions = h.registered.predictions;
            decided = h.registered.decided;
            reviews = h.registered.reviews;
          };
          consistent = c;
          keyed = insert-IsMap String-discrete d.flow_id item items h.keyed;
          flows = λ id. rw (instances-decided f64 d e) (
              ground (
                arith,
                h.flows id,
                typed,
                fresh,
                contains_key-insert String-discrete d.flow_id id item items,
                is_a-insert f64 flow_prediction_type d.decision_id id i e.store.instances,
              ));
          audited = λ id.
              rw
                (
                  named-insert d.flow_id id item items,
                  decisions_for_flow-decided f64 unicode id d e u h.consistent fresh,
                )
                (elim (Bool-cases (same d.flow_id id)) [
                  | inr other ↦
                      rw (other, append-nil (decisions_for_flow f64 unicode e id)) (h.audited id)
                  | inl own ↦
                      let path : d.flow_id ≡ id = ground (arith, own) in
                      let unnamed : named id items ≡ none = ground (arith, open_flow, path) in
                      let empty : decisions_for_flow f64 unicode e id ≡ [] =
                        rw unnamed at (h.audited id) in
                      rw (own, closes) (d, ap (λ ds. ds ++ d ∷ []) empty, refl, path)
                ]);
        }
