-- ===== src/Siem/Review/Containment.antt =====
-- components/active-siem/crates/review-queue/src/containment.rs: the gate in front of containment.
-- The action, a trait object, is the parameter `execute` on a state of its own.
pub mod Gate
use active_spectral_defense.Base.{Bool, true, false, String, List, [], ◌∷◌, Unicode, if◌then◌else◌}
use active_spectral_defense.Float.{Float}
use active_spectral_defense.Siem.Ontology.{Result, ok, err}
use active_spectral_defense.Siem.Ontology.Engine.{OntologyEngine}
use active_spectral_defense.Siem.Review.{AuditDecision, execute_containment, same_verdict}
use active_spectral_defense.Siem.Review.Audit.{decisions_for_flow}

pub data ContainmentDecision : Type 0 where
  approved : String → ContainmentDecision
  not_approved : ContainmentDecision
  conflicting : List String → ContainmentDecision

pub data ContainmentError : Type 0 where
  refused : String → ContainmentError
  conflict : String → List String → ContainmentError
  action_failed : ContainmentError

-- the identifiers of the decisions that contain
unfoldable pub contain_decisions : List AuditDecision → List String
contain_decisions [] = []
contain_decisions (d ∷ ds) =
    let rest = contain_decisions ds in
    if same_verdict d.verdict execute_containment then d.decision_id ∷ rest else rest

-- the `match` on how many there are
unfoldable pub judge : List String → ContainmentDecision
judge [] = not_approved
judge (id ∷ []) = approved id
judge (id ∷ id' ∷ ids) = conflicting (id ∷ id' ∷ ids)

module _ (f64 : Float) (unicode : Unicode) where
  unfoldable pub check : OntologyEngine f64 → String → ContainmentDecision
  unfolding contain_decisions judge
  check e flow_id = judge (contain_decisions (decisions_for_flow f64 unicode e flow_id))

  module _ {A : Type 0} (execute : String → A → Bool × A) where
    unfoldable pub perform :
        String → ContainmentDecision → A → Result ContainmentError ContainmentDecision × A
    perform flow_id (approved id) a =
        let done = execute flow_id a in
        if done.0 then (ok (approved id), done.1) else (err action_failed, done.1)
    perform flow_id not_approved a = (err (refused flow_id), a)
    perform flow_id (conflicting ids) a = (err (conflict flow_id ids), a)

    unfoldable pub execute_if_approved :
        OntologyEngine f64 → String → A → Result ContainmentError ContainmentDecision × A
    unfolding perform check
    execute_if_approved e flow_id a = perform flow_id (check e flow_id) a
