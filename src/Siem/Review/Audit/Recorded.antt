-- ===== src/Siem/Review/Audit/Recorded.antt =====
-- What recording a prediction or a decision does to the audit graph:
-- components/active-siem/crates/review-queue/src/engine_bridge.rs on the engine of ontology-engine.
use active_spectral_defense.Base.{
  ◌≡◌, refl, ◌∙◌, ap, sym, inl, inr, false, String, some, List, [], ◌∷◌, ◌++◌, append-nil, arith,
  String-discrete, Bool-cases, if◌then◌else◌,
}
use active_spectral_defense.Float.{Float}
use active_spectral_defense.Map.{Map, lookup, contains_key, insert}
use active_spectral_defense.Map.Laws.{lookup-insert}
use active_spectral_defense.Siem.Ontology.{same, link, incoming, ObjectInstance}
use active_spectral_defense.Siem.Ontology.Store.{
  Set, elements, insert_link, IndexKey, IndexKey-discrete, add_to,
}
use active_spectral_defense.Siem.Ontology.Engine.{OntologyEngine, with_instances, fetch, traverse}
use active_spectral_defense.Siem.Ontology.Indexes.{holds, members}
use active_spectral_defense.Siem.Ontology.Consistent.{IsConsistent, has}
use active_spectral_defense.Siem.Ontology.Traversal.{traverse-index, linked-exists, index-holds}
use active_spectral_defense.Siem.Review.{AuditDecision}
use active_spectral_defense.Siem.Review.Audit.{
  flow_prediction_type, audit_decision_type, review_of_link, flow_prediction, audit_decision,
  review_of, decision_instance,
}

elements-append :
    (id : String) (set : Set String)
    → contains_key String-discrete id set ≡ false
    → elements (insert String-discrete id tt set) ≡ elements set ++ id ∷ []
unfolding elements insert contains_key lookup
elements-append id [] h = refl
elements-append id ((j, u) ∷ set) h = ground (arith, h, elements-append id set)

module _ (f64 : Float) where
  -- the schema of the audit graph is registered
  pub record IsRegistered (e : OntologyEngine f64) : Type 0 where
    pub predictions :
        lookup String-discrete flow_prediction_type e.object_types ≡ some flow_prediction
    pub decided : lookup String-discrete audit_decision_type e.object_types ≡ some audit_decision
    pub reviews : lookup String-discrete review_of_link e.link_types ≡ some review_of

  fetch-append :
      (instances : Map String (ObjectInstance f64)) (xs ys : List String)
      → fetch f64 instances (xs ++ ys) ≡ fetch f64 instances xs ++ fetch f64 instances ys
  unfolding fetch
  fetch-append instances [] ys = refl
  fetch-append instances (x ∷ xs) ys = ground (arith, fetch-append instances xs ys)

  fetch-insert :
      (id : String) (i : ObjectInstance f64) (instances : Map String (ObjectInstance f64))
      (ids : Set String)
      → contains_key String-discrete id ids ≡ false
      → fetch f64 (insert String-discrete id i instances) (elements ids)
        ≡ fetch f64 instances (elements ids)
  unfolding fetch elements contains_key lookup
  fetch-insert id i instances [] h = refl
  fetch-insert id i instances ((j, u) ∷ ids) h =
      ground
        (arith, h, lookup-insert String-discrete id j i instances, fetch-insert id i instances ids)

  -- nothing is linked to an instance that does not exist
  unlinked :
      (id node link_type : String) (e : OntologyEngine f64)
      → IsConsistent f64 e
      → contains_key String-discrete id e.store.instances ≡ false
      → contains_key String-discrete id (members (node, link_type) e.store.backward_index) ≡ false
  unfolding holds
  unlinked id node link_type e h fresh = ground (
    arith,
    fresh,
    linked-exists f64 node link_type id incoming e h,
    index-holds f64 node link_type id incoming e h,
  )

  -- an instance that is new is on no path
  pub traverse-create :
      (node link_type id : String) (i : ObjectInstance f64) (e : OntologyEngine f64)
      → IsConsistent f64 e
      → contains_key String-discrete id e.store.instances ≡ false
      → traverse f64 node link_type incoming
          (with_instances f64 (insert String-discrete id i e.store.instances) e)
        ≡ traverse f64 node link_type incoming e
  traverse-create node link_type id i e h fresh =
      let ids = members (node, link_type) e.store.backward_index in
      let after = with_instances f64 (insert String-discrete id i e.store.instances) e in
      traverse-index f64 node link_type incoming after
      ∙ fetch-insert id i e.store.instances ids (unlinked id node link_type e h fresh)
      ∙ sym (traverse-index f64 node link_type incoming e)

  -- the audit graph with the decision and its link
  abbrev pub decided : AuditDecision → OntologyEngine f64 → OntologyEngine f64
  decided d e =
      let instances =
        insert String-discrete d.decision_id (decision_instance f64 d) e.store.instances in
      let created = with_instances f64 instances e in
      record created {
        store = (insert_link f64 (link review_of_link d.decision_id d.flow_id) created.store).1;
      }

  fetch_one :
      (id : String) (i : ObjectInstance f64) (instances : Map String (ObjectInstance f64))
      → fetch f64 (insert String-discrete id i instances) (id ∷ []) ≡ i ∷ []
  unfolding fetch
  fetch_one id i instances = ground (arith, lookup-insert String-discrete id id i instances)

  pub new_link :
      (d : AuditDecision) (e : OntologyEngine f64)
      → IsConsistent f64 e
      → contains_key String-discrete d.decision_id e.store.instances ≡ false
      → has (link review_of_link d.decision_id d.flow_id) e.store.links ≡ false
  new_link d e h fresh =
      ground (arith, fresh, linked-exists f64 d.flow_id review_of_link d.decision_id incoming e h)

  members-decided :
      (flow : String) (d : AuditDecision) (e : OntologyEngine f64)
      → has (link review_of_link d.decision_id d.flow_id) e.store.links ≡ false
      → members (flow, review_of_link) (decided d e).store.backward_index ≡ (
          if same d.flow_id flow
          then insert String-discrete d.decision_id tt
              (members (flow, review_of_link) e.store.backward_index)
          else members (flow, review_of_link) e.store.backward_index)
  unfolding insert_link add_to
  members-decided flow d e new =
      let key : IndexKey = (d.flow_id, review_of_link) in
      let set = insert String-discrete d.decision_id tt (members key e.store.backward_index) in
      rw (new, insert_link)
        (ground (
          arith,
          lookup-insert IndexKey-discrete key (flow, review_of_link) set e.store.backward_index,
        ))

  pub instances-decided :
      (d : AuditDecision) (e : OntologyEngine f64)
      → (decided d e).store.instances
        ≡ insert String-discrete d.decision_id (decision_instance f64 d) e.store.instances
  unfolding insert_link
  instances-decided d e = ground arith

  -- a decision that is new reviews the flow it is about, and no other
  pub traverse-decided :
      (flow : String) (d : AuditDecision) (e : OntologyEngine f64)
      → IsConsistent f64 e
      → contains_key String-discrete d.decision_id e.store.instances ≡ false
      → traverse f64 flow review_of_link incoming (decided d e)
        ≡ traverse f64 flow review_of_link incoming e
          ++ (if same d.flow_id flow then decision_instance f64 d ∷ [] else [])
  traverse-decided flow d e h fresh =
      let ids = members (flow, review_of_link) e.store.backward_index in
      let i = decision_instance f64 d in
      let instances = insert String-discrete d.decision_id i e.store.instances in
      let away = unlinked d.decision_id flow review_of_link e h fresh in
      let kept = fetch-insert d.decision_id i e.store.instances ids away in
      let at = members-decided flow d e (new_link d e h fresh) in
      rw
        (
          traverse-index f64 flow review_of_link incoming (decided d e),
          traverse-index f64 flow review_of_link incoming e,
          at,
          instances-decided d e,
        )
        (elim (Bool-cases (same d.flow_id flow)) [
          | inr other ↦ rw other (kept ∙ sym (append-nil _))
          | inl own ↦
              rw (own, elements-append d.decision_id ids away)
                (fetch-append instances (elements ids) (d.decision_id ∷ [])
                  ∙ ap (λ is. is ++ fetch f64 instances (d.decision_id ∷ [])) kept
                  ∙ ap (λ is. fetch f64 e.store.instances (elements ids) ++ is)
                      (fetch_one d.decision_id i e.store.instances))
        ])
