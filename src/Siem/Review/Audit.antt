-- ===== src/Siem/Review/Audit.antt =====
-- components/active-siem/crates/review-queue/src/{schema,engine_bridge}.rs: the audit graph, its
-- schema, and decisions and predictions as its instances.
pub mod Roundtrip
pub mod Recorded
pub mod Effect
pub mod Growth
use active_spectral_defense.Base.{
  ℕ, Bool, true, false, String, Option, none, some, List, [], ◌∷◌, String-discrete, strip_prefix,
  if◌then◌else◌, ℤ, pos, Unicode, map,
}
use active_spectral_defense.Float.{Float}
use active_spectral_defense.Map.{Map, lookup}
use active_spectral_defense.Siem.Ontology.{
  Result, ok, err, same, string, integer, PropertyType, ObjectType, builder, primary_key, property,
  build, LinkType, link, incoming, OntologyError, object_type_already_registered,
  link_type_already_registered, PropertyValue, string_value, integer_value, ObjectInstance,
}
use active_spectral_defense.Siem.Ontology.Engine.{
  OntologyEngine, Outcome, register_object_type, register_link_type, create_object_instance,
  create_link, traverse, list_instances_by_type,
}
use active_spectral_defense.Siem.Review.{
  FlowPrediction, AuditDecision, Reviewer, human, system_sla_timeout, system_auto_resolve,
  reviewer_text, verdict_text, parse,
}

-- `?` on options
infixl 5 ◌>>=◌
abbrev ◌>>=◌ {ℓ} : {A B : Type ℓ} → Option A → (A → Option B) → Option B
none >>= f = none
some a >>= f = f a

abbrev pub flow_prediction_type : String
flow_prediction_type = "FlowPrediction"

abbrev pub audit_decision_type : String
audit_decision_type = "AuditDecision"

abbrev pub review_of_link : String
review_of_link = "ReviewOf"

-- what `build` returns for the two schemas, which both declare their primary key
unfoldable pub flow_prediction : ObjectType
flow_prediction = record {
  name = flow_prediction_type;
  primary_key = "flow_id";
  property_schemas =
      ("flow_id", string)
      ∷ ("predicted_label", string)
      ∷ ("confidence_millis", integer)
      ∷ ("observed_at", integer)
      ∷ [];
}

unfoldable pub audit_decision : ObjectType
audit_decision = record {
  name = audit_decision_type;
  primary_key = "decision_id";
  property_schemas =
      ("decision_id", string)
      ∷ ("flow_id", string)
      ∷ ("reviewer", string)
      ∷ ("verdict", string)
      ∷ ("rationale", string)
      ∷ ("decided_at", integer)
      ∷ [];
}

unfoldable pub review_of : LinkType
review_of = record {
  name = review_of_link;
  source_type = audit_decision_type;
  target_type = flow_prediction_type;
}

unfoldable pub ignore_already_registered : Result OntologyError Unit → Result OntologyError Unit
ignore_already_registered (ok u) = ok u
ignore_already_registered (err (object_type_already_registered _)) = ok tt
ignore_already_registered (err (link_type_already_registered _)) = ok tt
ignore_already_registered (err other) = err other

unfoldable pub reviewer_of : String → Reviewer
reviewer_of raw = elim (strip_prefix "human:" raw) [
  | some id ↦ human id
  | none ↦ if same raw "system:sla_timeout" then system_sla_timeout else system_auto_resolve
]

module _ (f64 : Float) where
  -- one call after another, with `?` between them
  abbrev pub and_then : Outcome f64 → (OntologyEngine f64 → Outcome f64) → Outcome f64
  and_then (ok u, e) f = f e
  and_then (err error, e) f = (err error, e)

  abbrev ignoring : Outcome f64 → Outcome f64
  ignoring r = (ignore_already_registered r.0, r.1)

  unfoldable pub register : OntologyEngine f64 → Outcome f64
  unfolding ignore_already_registered
  register e = and_then (ignoring (register_object_type f64 flow_prediction e)) (λ e'.
      and_then (ignoring (register_object_type f64 audit_decision e'))
        (λ e''. ignoring (register_link_type f64 review_of e'')))

  unfoldable pub to_millis : f64.F → ℤ
  to_millis confidence =
      pos (f64.round (f64.mul (f64.clamp confidence (f64.of_ℕ 0) (f64.of_ℕ 1)) (f64.of_ℕ 1000)))

  unfoldable pub prediction_instance : FlowPrediction f64 → ObjectInstance f64
  unfolding to_millis
  prediction_instance pred = record {
    id = pred.flow_id;
    object_type = flow_prediction_type;
    properties =
        ("flow_id", string_value pred.flow_id)
        ∷ ("predicted_label", string_value pred.predicted_label)
        ∷ ("confidence_millis", integer_value (to_millis pred.confidence))
        ∷ ("observed_at", integer_value pred.observed_at)
        ∷ [];
  }

  unfoldable pub record_prediction : FlowPrediction f64 → OntologyEngine f64 → Outcome f64
  unfolding prediction_instance
  record_prediction pred e = create_object_instance f64 (prediction_instance pred) e

  unfoldable pub decision_instance : AuditDecision → ObjectInstance f64
  decision_instance decision = record {
    id = decision.decision_id;
    object_type = audit_decision_type;
    properties =
        ("decision_id", string_value decision.decision_id)
        ∷ ("flow_id", string_value decision.flow_id)
        ∷ ("reviewer", string_value (reviewer_text decision.reviewer))
        ∷ ("verdict", string_value (verdict_text decision.verdict))
        ∷ ("rationale", string_value decision.rationale)
        ∷ ("decided_at", integer_value decision.decided_at)
        ∷ [];
  }

  unfoldable pub record_decision : AuditDecision → OntologyEngine f64 → Outcome f64
  unfolding decision_instance
  record_decision decision e =
      and_then (create_object_instance f64 (decision_instance decision) e)
        (λ e'. create_link f64 (link review_of_link decision.decision_id decision.flow_id) e')

  unfoldable pub get_str : ObjectInstance f64 → String → Option String
  get_str instance k = elim (lookup String-discrete k instance.properties) [
    | none ↦ none
    | some v ↦ elim v [ string_value s ↦ some s | _ ↦ none ]
  ]

  unfoldable pub get_int : ObjectInstance f64 → String → Option ℤ
  get_int instance k = elim (lookup String-discrete k instance.properties) [
    | none ↦ none
    | some v ↦ elim v [ integer_value i ↦ some i | _ ↦ none ]
  ]

  module _ (unicode : Unicode) where
    unfoldable pub decision_from_instance : ObjectInstance f64 → Option AuditDecision
    unfolding get_str get_int reviewer_of
    decision_from_instance i = do
      reviewer_raw ← get_str i "reviewer"
      decision_id ← get_str i "decision_id"
      flow_id ← get_str i "flow_id"
      verdict_raw ← get_str i "verdict"
      verdict ← parse unicode verdict_raw
      rationale ← get_str i "rationale"
      decided_at ← get_int i "decided_at"
      some (record {
        decision_id = decision_id;
        flow_id = flow_id;
        reviewer = reviewer_of reviewer_raw;
        verdict = verdict;
        rationale = rationale;
        decided_at = decided_at;
      })

    -- `filter_map(decision_from_instance)`
    unfoldable pub decisions : List (ObjectInstance f64) → List AuditDecision
    unfolding decision_from_instance
    decisions [] = []
    decisions (i ∷ is) =
        let rest = decisions is in
        elim (decision_from_instance i) [ none ↦ rest | some d ↦ d ∷ rest ]

    unfoldable pub decisions_for_flow : OntologyEngine f64 → String → List AuditDecision
    unfolding decisions
    decisions_for_flow e flow_id = decisions (traverse f64 flow_id review_of_link incoming e)

    unfoldable pub all_decisions : OntologyEngine f64 → List AuditDecision
    unfolding decisions
    all_decisions e = decisions (list_instances_by_type f64 audit_decision_type e)
