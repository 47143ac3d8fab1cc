-- ===== src/Examples/Reviews.antt =====
-- A review queue with three flows, and the audit graph behind it.
use active_spectral_defense.Base.{
  ℕ, ◌+◌, ◌≡◌, ◌⊎◌, refl, Bool, true, false, String, none, some, List, [], ◌∷◌, pos,
  String-discrete, Unicode, IsUnicode, decimal, if◌then◌else◌, ◌++◌,
}
use active_spectral_defense.Map.{lookup, contains_key, insert}
use active_spectral_defense.Siem.Ontology.{
  ok, err, link, incoming, LinkInstance-discrete, duplicate_instance,
}
use active_spectral_defense.Siem.Ontology.Engine.{new, traverse}
use active_spectral_defense.Siem.Ontology.Consistent.{IsConsistent, has}
use active_spectral_defense.Siem.Ontology.Consistent.Steps.{
  registers_object_type, registers_link_type, creates, links, deletes, run-IsConsistent,
  new-IsConsistent,
}
use active_spectral_defense.Siem.Ontology.Consistent.Steps
use active_spectral_defense.Siem.Ontology.Traversal.{returned, traverse-returned}
use active_spectral_defense.Siem.Review.{
  FlowPrediction, AuditDecision, TriggerConfig, human, dismiss, execute_containment, fail_safe,
  ontology, QueueItem, auto_resolved, same_verdict,
}
use active_spectral_defense.Siem.Review.Audit.{
  flow_prediction, audit_decision, review_of, review_of_link, prediction_instance,
  decision_instance, decision_from_instance, decisions_for_flow,
}
use active_spectral_defense.Siem.Review.Audit.Roundtrip.{decision_from_instance-decision_instance}
use active_spectral_defense.Siem.Review.Containment.{
  approved, refused, action_failed, check, execute_if_approved,
}
use active_spectral_defense.Siem.Review.Containment.Gate.{
  execute_if_approved-exact, check-sweep_fail_safe,
}
use active_spectral_defense.Siem.Review.Queue.{ReviewQueue, ingest, decision_id_text}
use active_spectral_defense.Siem.Review.Queue.Sweep.{sweep_expired}
use active_spectral_defense.Siem.Review.Queue.Sound.{IsSound, named}
use active_spectral_defense.Siem.Review.Queue.Runs.{
  Call, ingests, claims, decides, sweeps, run, fresh, new_queue-fresh, run-Sound, fresh-Sound,
}
use active_spectral_defense.Siem.Review.Queue.Closed.{IsClosed, run-IsClosed}
use active_spectral_defense.Siem.Review.Queue.Unreviewed.{check-ingest_unreviewed}
use active_spectral_defense.Siem.Review.Queue.Collision.{ingest-collision}
use active_spectral_defense.Siem.Review.Queue.Kept.{ingest-Sound}
use active_spectral_defense.Siem.Ontology.{PropertyType-discrete, type_of, is_empty, type_text}
use active_spectral_defense.Siem.Ontology.Engine.{
  create_object_instance, register_object_type, register_link_type, check_declared, check_known,
  create_link, declared_issues, link_error, validate_properties,
}
use active_spectral_defense.Siem.Ontology.Store.{IndexKey-discrete, add_to, insert_link}
use active_spectral_defense.Siem.Review.{evaluate, is_narrow, margin, reviewer_text, verdict_text}
use active_spectral_defense.Siem.Review.Audit.{
  record_prediction, register, record_decision, ignore_already_registered, to_millis,
}
use active_spectral_defense.Siem.Review.Queue.{
  auto_decision, auto_rationale, ingest_recorded, ingest_resolved, next_decision_id, put, resolve,
  is_open,
}
use active_spectral_defense.Examples.Data.{nat_float}

-- tables that change nothing
abbrev ascii : Unicode
ascii = record { trim = λ s. s; to_lowercase = λ s. s }

ascii-IsUnicode : IsUnicode ascii
ascii-IsUnicode = record { trim_plain = λ s h. refl; to_lowercase_plain = λ s h. refl }

abbrev cfg : TriggerConfig nat_float
cfg = record {
  benign_label = "Benign";
  min_attack_confidence = 9;
  min_margin = 2;
  min_benign_confidence = 8;
}

abbrev seen : String → ℕ → FlowPrediction nat_float
seen flow confidence = record {
  flow_id = flow;
  predicted_label = "Botnet";
  confidence = confidence;
  runner_up_label = none;
  runner_up_confidence = none;
  is_out_of_distribution = false;
  observed_at = pos 0;
}

abbrev ann : AuditDecision
ann = record {
  decision_id = "d";
  flow_id = "b";
  reviewer = human "ann";
  verdict = dismiss;
  rationale = "scanner";
  decided_at = pos 4;
}

abbrev start : ReviewQueue nat_float
start = fresh nat_float ascii cfg fail_safe

-- `a` contains itself, `b` is reviewed, `c` waits
abbrev history : List (Call nat_float)
history =
    ingests (pos 1) (seen "a" 10)
    ∷ ingests (pos 2) (seen "b" 5)
    ∷ ingests (pos 3) (seen "c" 6)
    ∷ claims (pos 4) "b" "ann"
    ∷ decides (pos 5) "b" "ann" execute_containment "beacon"
    ∷ []

abbrev reviewed : ReviewQueue nat_float
reviewed = run nat_float ascii history start

history-IsSound : IsSound nat_float ascii reviewed.engine reviewed.items
history-IsSound =
    run-Sound nat_float ascii history cfg fail_safe start ascii-IsUnicode
      (new_queue-fresh nat_float ascii cfg fail_safe)

reviewed-IsSound : IsSound nat_float ascii reviewed.engine reviewed.items
reviewed-IsSound =
    run-Sound nat_float ascii history cfg fail_safe start ascii-IsUnicode
      (new_queue-fresh nat_float ascii cfg fail_safe)

-- an action that counts its calls
abbrev count_calls : String → ℕ → Bool × ℕ
count_calls flow n = (true, n + 1)

b_contained :
    ((decisions_for_flow nat_float ascii reviewed.engine "b" ≡ [])
      × (execute_if_approved nat_float ascii count_calls reviewed.engine "b" 0
          ≡ (err (refused "b"), 0)))
    ⊎ ((d : AuditDecision) × (decisions_for_flow nat_float ascii reviewed.engine "b" ≡ d ∷ [])
        × (named nat_float "b" reviewed.items ≡ some d.decision_id)
        × (execute_if_approved nat_float ascii count_calls reviewed.engine "b" 0 ≡ (
            if same_verdict d.verdict execute_containment
            then (if (count_calls "b" 0).0
                then (ok (approved d.decision_id), (count_calls "b" 0).1)
                else (err action_failed, (count_calls "b" 0).1))
            else (err (refused "b"), 0))))
b_contained = execute_if_approved-exact nat_float ascii count_calls "b" reviewed 0 reviewed-IsSound

-- the same queue, whatever it did before, with the policy to fail safe
abbrev safe : ReviewQueue nat_float
safe = record reviewed { sla_policy = fail_safe }

sweep_spares_c :
    check nat_float ascii (sweep_expired nat_float (pos 9) (λ id. pos 9) (pos 5) safe).1.engine "c"
    ≡ check nat_float ascii safe.engine "c"
sweep_spares_c =
    check-sweep_fail_safe nat_float ascii (pos 9) (λ id. pos 9) (pos 5) "c" safe ascii-IsUnicode
      reviewed-IsSound refl

abbrev one_flow : ReviewQueue nat_float
one_flow = (ingest nat_float (pos 1) (seen "a" 10) start).1

one_flow-IsSound : IsSound nat_float ascii one_flow.engine one_flow.items
one_flow-IsSound =
    ingest-Sound nat_float ascii (pos 1) (seen "a" 10) start ascii-IsUnicode
      (fresh-Sound nat_float ascii cfg fail_safe)

abbrev item_a : QueueItem nat_float
item_a = record { prediction = seen "a" 10; state = auto_resolved "dec-a-0"; enqueued_at = pos 1 }

a-IsClosed : IsClosed nat_float "a" item_a one_flow
unfolding PropertyType-discrete type_of is_empty type_text create_object_instance
    register_object_type register_link_type check_declared check_known create_link declared_issues
    link_error validate_properties IndexKey-discrete add_to insert_link evaluate is_narrow margin
    reviewer_text verdict_text record_prediction register record_decision ignore_already_registered
    to_millis auto_decision auto_rationale ingest_recorded ingest_resolved next_decision_id put
    resolve is_open lookup ingest contains_key String-discrete flow_prediction audit_decision insert
    review_of LinkInstance-discrete decision_instance prediction_instance decision_id_text decimal
a-IsClosed = record { found = refl; closed = refl }

a_is_final : IsClosed nat_float "a" item_a (run nat_float ascii history one_flow)
a_is_final =
    run-IsClosed nat_float ascii history "a" item_a one_flow ascii-IsUnicode one_flow-IsSound
      a-IsClosed

-- a flow named like the first decision about the flow `x`
abbrev squatter : FlowPrediction nat_float
squatter = record (seen "dec-x-0" 5) { is_out_of_distribution = true }

abbrev squatted : ReviewQueue nat_float
squatted = (ingest nat_float (pos 1) squatter start).1

squatted-IsSound : IsSound nat_float ascii squatted.engine squatted.items
squatted-IsSound =
    ingest-Sound nat_float ascii (pos 1) squatter start ascii-IsUnicode
      (fresh-Sound nat_float ascii cfg fail_safe)

-- what may follow: the flow again, a verdict on it, and a sweep
abbrev retries : List (Call nat_float)
retries =
    ingests (pos 3) (seen "x" 3)
    ∷ decides (pos 4) "x" "ann" dismiss "benign"
    ∷ sweeps (pos 9) (λ id. pos 9) (pos 5)
    ∷ []

x_is_lost :
    let r = ingest nat_float (pos 2) (seen "x" 10) squatted in
    let after = run nat_float ascii retries r.1 in
    (r.0 ≡ err (ontology (duplicate_instance (decision_id_text "x" squatted.decision_seq))))
    × (lookup String-discrete "x" after.items ≡ none)
    × ((ingest nat_float (pos 10) (seen "x" 9) after).0 ≡ err (ontology (duplicate_instance "x")))
unfolding PropertyType-discrete type_of is_empty type_text create_object_instance
    register_object_type register_link_type check_declared check_known create_link declared_issues
    link_error validate_properties IndexKey-discrete add_to insert_link evaluate is_narrow margin
    reviewer_text verdict_text record_prediction register record_decision ignore_already_registered
    to_millis auto_decision auto_rationale ingest_recorded ingest_resolved next_decision_id put
    resolve is_open lookup ingest contains_key String-discrete flow_prediction audit_decision insert
    review_of LinkInstance-discrete decision_instance prediction_instance decision_id_text decimal
x_is_lost =
    ingest-collision nat_float ascii (pos 2) (pos 10) (seen "x" 10) (seen "x" 9) squatted retries
      ascii-IsUnicode squatted-IsSound refl refl refl refl refl

a_is_approved :
    check nat_float ascii (ingest nat_float (pos 1) (seen "a" 10) start).1.engine "a"
    ≡ approved (decision_id_text "a" start.decision_seq)
unfolding PropertyType-discrete type_of is_empty type_text create_object_instance
    register_object_type register_link_type check_declared check_known create_link declared_issues
    link_error validate_properties IndexKey-discrete add_to insert_link evaluate is_narrow margin
    reviewer_text verdict_text record_prediction register record_decision ignore_already_registered
    to_millis auto_decision auto_rationale ingest_recorded ingest_resolved next_decision_id put
    resolve is_open lookup ingest contains_key String-discrete flow_prediction audit_decision insert
    review_of LinkInstance-discrete decision_instance prediction_instance decision_id_text decimal
a_is_approved =
    check-ingest_unreviewed nat_float ascii (pos 1) (seen "a" 10) start ascii-IsUnicode
      (fresh-Sound nat_float ascii cfg fail_safe) refl refl refl refl refl refl

verdict_read_back :
    decision_from_instance nat_float ascii (decision_instance nat_float ann) ≡ some ann
verdict_read_back = decision_from_instance-decision_instance nat_float ascii ann ascii-IsUnicode

-- the calls of a client of the graph: two instances and a link
abbrev linking : List (Steps.Call nat_float)
linking =
    registers_object_type flow_prediction
    ∷ registers_object_type audit_decision
    ∷ registers_link_type review_of
    ∷ creates (prediction_instance nat_float (seen "b" 5))
    ∷ creates (decision_instance nat_float ann)
    ∷ links (link review_of_link "d" "b")
    ∷ []

-- and the deletion of the link's target
deletion-IsConsistent :
    IsConsistent nat_float (Steps.run nat_float (linking ++ deletes "b" ∷ []) (new nat_float))
deletion-IsConsistent =
    run-IsConsistent nat_float (linking ++ deletes "b" ∷ []) (new nat_float)
      (new-IsConsistent nat_float)

linking-IsConsistent : IsConsistent nat_float (Steps.run nat_float linking (new nat_float))
linking-IsConsistent =
    run-IsConsistent nat_float linking (new nat_float) (new-IsConsistent nat_float)

d_found :
    returned nat_float "d"
      (traverse nat_float "b" review_of_link incoming (Steps.run nat_float linking (new nat_float)))
    ≡ has (link review_of_link "d" "b") (Steps.run nat_float linking (new nat_float)).store.links
d_found =
    traverse-returned nat_float "b" review_of_link "d" incoming
      (Steps.run nat_float linking (new nat_float)) linking-IsConsistent
