-- ===== src/Siem/Review/Audit/Growth.antt =====
-- What components/active-siem/crates/review-queue/src/engine_bridge.rs does to the audit graph takes
-- no instance out of it.
use active_spectral_defense.Base.{◌≡◌, true, false, String, arith, String-discrete, inl, inr}
use active_spectral_defense.Float.{Float}
use active_spectral_defense.Map.{contains_key}
use active_spectral_defense.Map.Laws.{contains_key-insert}
use active_spectral_defense.Siem.Ontology.{ObjectInstance, LinkInstance, Result-cases, ok}
use active_spectral_defense.Siem.Ontology.Store.{insert_link}
use active_spectral_defense.Siem.Ontology.Engine.{
  OntologyEngine, create_object_instance, create_link,
}
use active_spectral_defense.Siem.Review.{AuditDecision}
use active_spectral_defense.Siem.Review.Audit.{record_decision, decision_instance}

module _ (f64 : Float) where
  abbrev pub Has : String → OntologyEngine f64 → Type 0
  Has id e = contains_key String-discrete id e.store.instances ≡ true

  pub create_object_instance-Has :
      (id : String) (i : ObjectInstance f64) (e : OntologyEngine f64)
      → Has id e
      → Has id (create_object_instance f64 i e).1
  unfolding create_object_instance
  create_object_instance-Has id i e h =
      ground (arith, h, contains_key-insert String-discrete i.id id i e.store.instances)

  pub created-new :
      (i : ObjectInstance f64) (e : OntologyEngine f64) (a : Unit)
      → (create_object_instance f64 i e).0 ≡ ok a
      → contains_key String-discrete i.id e.store.instances ≡ false
  unfolding create_object_instance
  created-new i e a h = ground (arith, h)

  create_link-Has :
      (id : String) (l : LinkInstance) (e : OntologyEngine f64)
      → Has id e
      → Has id (create_link f64 l e).1
  unfolding create_link insert_link
  create_link-Has id l e h = ground (arith, h)

  pub record_decision-Has :
      (id : String) (d : AuditDecision) (e : OntologyEngine f64)
      → Has id e
      → Has id (record_decision f64 d e).1
  unfolding record_decision
  record_decision-Has id d e h =
      let first = create_object_instance f64 (decision_instance f64 d) e in
      let h' = create_object_instance-Has id (decision_instance f64 d) e h in
      elim (Result-cases first.0) [
        | inl (a, k) ↦ rw (k, record_decision) (create_link-Has id _ first.1 h')
        | inr (x, k) ↦ rw (k, record_decision) h'
      ]
