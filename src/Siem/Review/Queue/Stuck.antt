-- ===== src/Siem/Review/Queue/Stuck.antt =====
-- A flow of components/active-siem/crates/review-queue/src/queue.rs that has an instance in the
-- audit graph and no item never gets one.
use active_spectral_defense.Base.{
  ◌≡◌, inl, inr, true, false, String, none, some, List, [], ◌∷◌, arith, String-discrete,
  Option-cases, Bool-cases, Unicode, IsUnicode, ℤ,
}
use active_spectral_defense.Float.{Float}
use active_spectral_defense.Map.{lookup, contains_key}
use active_spectral_defense.Map.Laws.{lookup-insert}
use active_spectral_defense.Siem.Ontology.{same, is_empty, Result-cases}
use active_spectral_defense.Siem.Review.{
  Timestamp, Verdict, AuditDecision, FlowPrediction, QueueItem, ReviewState, resolved, human,
  auto_resolved, pending, under_review, evaluate,
}
use active_spectral_defense.Siem.Review.Audit.{
  record_decision, record_prediction, prediction_instance,
}
use active_spectral_defense.Siem.Review.Audit.Growth.{
  create_object_instance-Has, created-new, record_decision-Has,
}
use active_spectral_defense.Siem.Review.Queue.{
  ReviewQueue, is_open, put, resolve, next_decision_id, ingest_recorded, ingest, claim_in, claim,
  decide, record_verdict, auto_decision, with_engine,
}
use active_spectral_defense.Siem.Review.Queue.Kept.{Sound, ingest_resolved-queue}
use active_spectral_defense.Siem.Review.Queue.Swept.{timed_out, sla_decision}
use active_spectral_defense.Siem.Review.Queue.Runs.{
  Call, ingests, claims, decides, sweeps, step, run, step-Sound, sweep-induction,
}

module _ (f64 : Float) where
  -- the flow has an instance and no item
  pub record IsStuck (flow : String) (q : ReviewQueue f64) : Type 0 where
    pub taken : contains_key String-discrete flow q.engine.store.instances ≡ true
    pub absent : lookup String-discrete flow q.items ≡ none

  put-IsStuck :
      (other flow : String) (new : QueueItem f64) (q : ReviewQueue f64)
      → same other flow ≡ false
      → IsStuck flow q
      → IsStuck flow (put f64 other new q)
  unfolding put
  put-IsStuck other flow new q apart h = record {
    taken = h.taken;
    absent = ground (arith, apart, h.absent, lookup-insert String-discrete other flow new q.items);
  }

  resolve-IsStuck :
      (d : AuditDecision) (flow : String) (new : QueueItem f64) (q : ReviewQueue f64)
      → same d.flow_id flow ≡ false
      → IsStuck flow q
      → IsStuck flow (resolve f64 d new q).1
  unfolding resolve put
  resolve-IsStuck d flow new q apart h =
      let after = with_engine f64 (record_decision f64 d q.engine).1 q in
      let h' : IsStuck flow after = record {
        taken = record_decision-Has f64 flow d q.engine h.taken;
        absent = h.absent;
      } in
      elim (Result-cases (record_decision f64 d q.engine).0) [
        | inl (a, e) ↦ rw (resolve, e) (put-IsStuck d.flow_id flow new after apart h')
        | inr (x, e) ↦ rw (resolve, e) h'
      ]

  -- a flow with an item is another
  apart_item :
      (other flow : String) (new : QueueItem f64) (q : ReviewQueue f64)
      → lookup String-discrete other q.items ≡ some new
      → IsStuck flow q
      → same other flow ≡ false
  apart_item other flow new q hit h = ground (arith, hit, h.absent)

  ingest-IsStuck :
      (now : Timestamp) (p : FlowPrediction f64) (flow : String) (q : ReviewQueue f64)
      → IsStuck flow q
      → IsStuck flow (ingest f64 now p q).1
  unfolding ingest ingest_recorded next_decision_id auto_decision record_prediction
      prediction_instance
  ingest-IsStuck now p flow q h =
      let e = (record_prediction f64 p q.engine).1 in
      let q' = with_engine f64 e q in
      let h' : IsStuck flow q' = record {
        taken = create_object_instance-Has f64 flow (prediction_instance f64 p) q.engine h.taken;
        absent = h.absent;
      } in
      elim (Bool-cases (contains_key String-discrete p.flow_id q.items)) [
        | inl known ↦ rw (known, ingest) h
        | inr new ↦ elim (Result-cases (record_prediction f64 p q.engine).0) [
          | inr (x, f) ↦ rw (new, ingest, f) h'
          | inl (a, f) ↦
              let fresh = created-new f64 (prediction_instance f64 p) q.engine a f in
              let apart : same p.flow_id flow ≡ false = ground (arith, fresh, h.taken) in
              elim (Option-cases (evaluate f64 p q.trigger_cfg)) [
                | inr (reason, g) ↦
                    rw (new, ingest, f, ingest_recorded, g)
                      (put-IsStuck p.flow_id flow _ q' apart h')
                | inl g ↦
                    let (id, q'') = next_decision_id f64 p.flow_id q' in
                    let d = auto_decision f64 now id p q.trigger_cfg in
                    let h'' : IsStuck flow q'' = record { taken = h'.taken; absent = h'.absent } in
                    rw (new, ingest, f, ingest_recorded, g, ingest_resolved-queue f64 now p q')
                      (resolve-IsStuck d flow _ q'' apart h'')
              ]
        ]
      ]

  claim_in-IsStuck :
      (now : Timestamp) (other flow reviewer : String) (state : ReviewState) (new : QueueItem f64)
      (q : ReviewQueue f64)
      → lookup String-discrete other q.items ≡ some new
      → IsStuck flow q
      → IsStuck flow (claim_in f64 now other reviewer new state q).1
  unfolding claim_in
  claim_in-IsStuck now other flow reviewer (pending reason) new q hit h =
      put-IsStuck other flow _ q (apart_item other flow new q hit h) h
  claim_in-IsStuck now other flow reviewer (under_review _ _ _) new q hit h = h
  claim_in-IsStuck now other flow reviewer (auto_resolved _) new q hit h = h
  claim_in-IsStuck now other flow reviewer (resolved _) new q hit h = h

  claim-IsStuck :
      (now : Timestamp) (other flow reviewer : String) (q : ReviewQueue f64)
      → IsStuck flow q
      → IsStuck flow (claim f64 now other reviewer q).1
  unfolding claim
  claim-IsStuck now other flow reviewer q h =
      elim (Option-cases (lookup String-discrete other q.items)) [
        | inl miss ↦ rw (miss, claim) h
        | inr (new, hit) ↦
            rw (hit, claim) (claim_in-IsStuck now other flow reviewer new.state new q hit h)
      ]

  decide-IsStuck :
      (now : Timestamp) (other flow reviewer : String) (v : Verdict) (rationale : String)
      (new : QueueItem f64) (q : ReviewQueue f64)
      → same other flow ≡ false
      → IsStuck flow q
      → IsStuck flow (decide f64 now other reviewer v rationale new q).1
  unfolding decide next_decision_id
  decide-IsStuck now other flow reviewer v rationale new q apart h =
      let (id, q') = next_decision_id f64 other q in
      let d : AuditDecision = record {
        decision_id = id;
        flow_id = other;
        reviewer = human reviewer;
        verdict = v;
        rationale = rationale;
        decided_at = now;
      } in
      let new' : QueueItem f64 = record new { state = resolved id } in
      let h' : IsStuck flow q' = record { taken = h.taken; absent = h.absent } in
      let kept = resolve-IsStuck d flow new' q' apart h' in
      elim (Result-cases (resolve f64 d new' q').0) [
        | inl (a, e) ↦ rw (e, decide) kept
        | inr (x, e) ↦ rw (e, decide) kept
      ]

  module _ (unicode : Unicode) where
    record_verdict-IsStuck :
        (now : Timestamp) (other flow reviewer : String) (v : Verdict) (rationale : String)
        (q : ReviewQueue f64)
        → IsStuck flow q
        → IsStuck flow (record_verdict f64 unicode now other reviewer v rationale q).1
    unfolding record_verdict
    record_verdict-IsStuck now other flow reviewer v rationale q h =
        elim (Bool-cases (is_empty (unicode.trim reviewer))) [
          | inl e ↦ rw (e, record_verdict) h
          | inr given ↦ elim (Bool-cases (is_empty (unicode.trim rationale))) [
            | inl e ↦ rw (given, e, record_verdict) h
            | inr reasoned ↦ elim (Option-cases (lookup String-discrete other q.items)) [
              | inl miss ↦ rw (given, reasoned, miss, record_verdict) h
              | inr (new, hit) ↦ elim (Bool-cases (is_open new.state)) [
                | inl waits ↦
                    let apart = apart_item other flow new q hit h in
                    rw (given, reasoned, hit, waits, record_verdict)
                      (decide-IsStuck now other flow reviewer v rationale new q apart h)
                | inr done ↦ rw (given, reasoned, hit, done, record_verdict) h
              ]
            ]
          ]
        ]

    timed_out-IsStuck :
        (sla_seconds : ℤ) (now : Timestamp) (flow id : String) (new : QueueItem f64)
        (q : ReviewQueue f64)
        → lookup String-discrete id q.items ≡ some new
        → IsStuck flow q
        → IsStuck flow (timed_out f64 sla_seconds now id new q)
    unfolding next_decision_id
    timed_out-IsStuck sla_seconds now flow id new q hit h =
        let (decision_id, q') = next_decision_id f64 id q in
        let h' : IsStuck flow q' = record { taken = h.taken; absent = h.absent } in
        resolve-IsStuck (sla_decision f64 sla_seconds now id new q) flow
          (record new { state = resolved decision_id }) q' (apart_item id flow new q hit h) h'

    step-IsStuck :
        (c : Call f64) (flow : String) (q : ReviewQueue f64)
        → Sound f64 unicode q
        → IsStuck flow q
        → IsStuck flow (step f64 unicode c q)
    unfolding step
    step-IsStuck (ingests now p) flow q s h = ingest-IsStuck now p flow q h
    step-IsStuck (claims now other reviewer) flow q s h = claim-IsStuck now other flow reviewer q h
    step-IsStuck (decides now other reviewer v rationale) flow q s h =
        record_verdict-IsStuck now other flow reviewer v rationale q h
    step-IsStuck (sweeps now clock sla_seconds) flow q s h =
        sweep-induction f64 (IsStuck flow) now clock sla_seconds q
          (λ id new q' hit waits. timed_out-IsStuck sla_seconds (clock id) flow id new q' hit)
          s.keyed h

    pub run-IsStuck :
        (cs : List (Call f64)) (flow : String) (q : ReviewQueue f64)
        → IsUnicode unicode
        → Sound f64 unicode q
        → IsStuck flow q
        → IsStuck flow (run f64 unicode cs q)
    unfolding run
    run-IsStuck [] flow q u s h = h
    run-IsStuck (c ∷ cs) flow q u s h =
        run-IsStuck cs flow (step f64 unicode c q) u (step-Sound f64 unicode c q u s)
          (step-IsStuck c flow q s h)
