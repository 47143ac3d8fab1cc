-- ===== src/Siem/Review/Audit/Roundtrip.antt =====
-- Decisions as instances of the audit graph, there and back, and the schema that they fit:
-- components/active-siem/crates/review-queue/src/{types,schema,engine_bridge}.rs.
use active_spectral_defense.Base.{
  ◌≡◌, refl, true, some, [], Unicode, IsUnicode, plain, strip_prefix-append, strip_prefix,
  String-discrete,
}
use active_spectral_defense.Float.{Float}
use active_spectral_defense.Map.{lookup, contains_key, insert}
use active_spectral_defense.Siem.Ontology.{
  ok, string, integer, builder, primary_key, property, build, is_empty, type_of,
  PropertyType-discrete,
}
use active_spectral_defense.Siem.Ontology.Engine.{
  validate_properties, check_declared, check_known, declared_issues,
}
use active_spectral_defense.Siem.Review.{
  AuditDecision, FlowPrediction, Reviewer, human, system_sla_timeout, system_auto_resolve, Verdict,
  execute_containment, dismiss, escalate_further, verdict_text, reviewer_text, parse, parse_word,
}
use active_spectral_defense.Siem.Review.Audit.{
  flow_prediction, audit_decision, decision_instance, prediction_instance, reviewer_of, get_str,
  get_int, decision_from_instance,
}

verdict_text-plain : (v : Verdict) → plain (verdict_text v) ≡ true
unfolding plain verdict_text
verdict_text-plain execute_containment = refl
verdict_text-plain dismiss = refl
verdict_text-plain escalate_further = refl

parse_word-verdict_text : (v : Verdict) → parse_word (verdict_text v) ≡ some v
unfolding parse_word verdict_text String-discrete
parse_word-verdict_text execute_containment = refl
parse_word-verdict_text dismiss = refl
parse_word-verdict_text escalate_further = refl

pub parse-verdict_text :
    (unicode : Unicode) (v : Verdict) → IsUnicode unicode → parse unicode (verdict_text v) ≡ some v
unfolding parse
parse-verdict_text unicode v h =
    let p = verdict_text-plain v in
    rw
      (
        h.trim_plain (verdict_text v) p,
        h.to_lowercase_plain (verdict_text v) p,
        parse_word-verdict_text v,
      )
      refl

reviewer_of-reviewer_text : (r : Reviewer) → reviewer_of (reviewer_text r) ≡ r
unfolding reviewer_of reviewer_text strip_prefix String-discrete
reviewer_of-reviewer_text (human id) =
    rw (reviewer_of, reviewer_text, strip_prefix-append "human:" id) refl
reviewer_of-reviewer_text system_sla_timeout = refl
reviewer_of-reviewer_text system_auto_resolve = refl

module _ (f64 : Float) (unicode : Unicode) where
  -- A decision is read back from its instance as it was recorded, whoever the reviewer and
  -- whatever the texts are, if the operations on Unicode leave texts of lower-case letters alone.
  pub decision_from_instance-decision_instance :
      (d : AuditDecision)
      → IsUnicode unicode
      → decision_from_instance f64 unicode (decision_instance f64 d) ≡ some d
  unfolding decision_from_instance decision_instance get_str get_int lookup String-discrete
  decision_from_instance-decision_instance d h =
      rw (parse-verdict_text unicode d.verdict h, reviewer_of-reviewer_text d.reviewer) refl

-- The builder gives the schemas that `register` expects of it.
build-schemas :
    (build (
        property "observed_at" integer (
          property "confidence_millis" integer (
            property "predicted_label" string
              (property "flow_id" string (primary_key "flow_id" (builder "FlowPrediction"))))))
      ≡ ok flow_prediction)
    × (build (
          property "decided_at" integer (
            property "rationale" string (
              property "verdict" string (
                property "reviewer" string (
                  property "flow_id" string (
                    property "decision_id" string
                      (primary_key "decision_id" (builder "AuditDecision"))))))))
        ≡ ok audit_decision)
unfolding build property primary_key builder insert contains_key lookup flow_prediction
    audit_decision is_empty String-discrete
build-schemas = (refl, refl)

module _ (f64 : Float) where
  pub decision-fits :
      (d : AuditDecision)
      → validate_properties f64 audit_decision (decision_instance f64 d).properties ≡ []
  unfolding validate_properties check_declared check_known declared_issues audit_decision
      decision_instance type_of lookup contains_key String-discrete PropertyType-discrete
  decision-fits d = refl

  pub prediction-fits :
      (p : FlowPrediction f64)
      → validate_properties f64 flow_prediction (prediction_instance f64 p).properties ≡ []
  unfolding validate_properties check_declared check_known declared_issues flow_prediction
      prediction_instance type_of lookup contains_key String-discrete PropertyType-discrete
  prediction-fits p = refl
