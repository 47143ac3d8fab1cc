-- ===== src/Siem/Review/Queue/Closed.antt =====
-- Resolved items of components/active-siem/crates/review-queue/src/queue.rs are final.
use active_spectral_defense.Base.{
  ◌≡◌, refl, inl, inr, true, false, String, some, List, [], ◌∷◌, arith, String-discrete,
  Option-cases, Bool-cases, Unicode, IsUnicode, ℤ,
}
use active_spectral_defense.Float.{Float}
use active_spectral_defense.Map.{lookup, contains_key}
use active_spectral_defense.Map.Laws.{lookup-insert}
use active_spectral_defense.Siem.Ontology.{same, is_empty, Result-cases}
use active_spectral_defense.Siem.Review.{
  Timestamp, Verdict, AuditDecision, FlowPrediction, QueueItem, ReviewState, resolved, human,
  auto_resolved, pending, under_review, evaluate,
}
use active_spectral_defense.Siem.Review.Audit.{record_decision, record_prediction}
use active_spectral_defense.Siem.Review.Queue.{
  ReviewQueue, is_open, put, resolve, next_decision_id, ingest_recorded, ingest, claim_in, claim,
  decide, record_verdict, auto_decision, with_engine,
}
use active_spectral_defense.Siem.Review.Queue.Kept.{Sound, ingest_resolved-queue}
use active_spectral_defense.Siem.Review.Queue.Swept.{timed_out, sla_decision}
use active_spectral_defense.Siem.Review.Queue.Runs.{
  Call, ingests, claims, decides, sweeps, step, run, step-Sound, sweep-induction,
}

module _ (f64 : Float) where
  -- the item of the flow, which is not open
  pub record IsClosed (flow : String) (item : QueueItem f64) (q : ReviewQueue f64) : Type 0 where
    pub found : lookup String-discrete flow q.items ≡ some item
    pub closed : is_open item.state ≡ false

  put-IsClosed :
      (other flow : String) (item new : QueueItem f64) (q : ReviewQueue f64)
      → same other flow ≡ false
      → IsClosed flow item q
      → IsClosed flow item (put f64 other new q)
  unfolding put
  put-IsClosed other flow item new q apart h = record {
    found = ground (arith, apart, h.found, lookup-insert String-discrete other flow new q.items);
    closed = h.closed;
  }

  resolve-IsClosed :
      (d : AuditDecision) (flow : String) (item new : QueueItem f64) (q : ReviewQueue f64)
      → same d.flow_id flow ≡ false
      → IsClosed flow item q
      → IsClosed flow item (resolve f64 d new q).1
  unfolding resolve put
  resolve-IsClosed d flow item new q apart h =
      let after = with_engine f64 (record_decision f64 d q.engine).1 q in
      let h' : IsClosed flow item after = record { found = h.found; closed = h.closed } in
      elim (Result-cases (record_decision f64 d q.engine).0) [
        | inl (a, e) ↦ rw (resolve, e) (put-IsClosed d.flow_id flow item new after apart h')
        | inr (x, e) ↦ rw (resolve, e) h'
      ]

  -- an item that is open is another
  apart_open :
      (other flow : String) (item new : QueueItem f64) (q : ReviewQueue f64)
      → lookup String-discrete other q.items ≡ some new
      → is_open new.state ≡ true
      → IsClosed flow item q
      → same other flow ≡ false
  apart_open other flow item new q hit waits h = elim (Bool-cases (same other flow)) [
    | inr apart ↦ apart
    | inl together ↦
        let path : other ≡ flow = ground (arith, together) in
        let one : some new ≡ some item = ground (arith, hit, h.found, path) in
        let same_item : new ≡ item = ground (arith, one) in
        absurd (ground (arith, waits, h.closed, same_item))
  ]

  ingest-IsClosed :
      (now : Timestamp) (p : FlowPrediction f64) (flow : String) (item : QueueItem f64)
      (q : ReviewQueue f64)
      → IsClosed flow item q
      → IsClosed flow item (ingest f64 now p q).1
  unfolding ingest ingest_recorded contains_key next_decision_id auto_decision
  ingest-IsClosed now p flow item q h =
      let e = (record_prediction f64 p q.engine).1 in
      let q' = with_engine f64 e q in
      let h' : IsClosed flow item q' = record { found = h.found; closed = h.closed } in
      elim (Bool-cases (contains_key String-discrete p.flow_id q.items)) [
        | inl known ↦ rw (known, ingest) h
        | inr new ↦
            let apart : same p.flow_id flow ≡ false = ground (arith, new, h.found) in
            elim (Result-cases (record_prediction f64 p q.engine).0) [
              | inr (x, f) ↦ rw (new, ingest, f) h'
              | inl (a, f) ↦ elim (Option-cases (evaluate f64 p q.trigger_cfg)) [
                | inr (reason, g) ↦
                    rw (new, ingest, f, ingest_recorded, g)
                      (put-IsClosed p.flow_id flow item _ q' apart h')
                | inl g ↦
                    let (id, q'') = next_decision_id f64 p.flow_id q' in
                    let d = auto_decision f64 now id p q.trigger_cfg in
                    let h'' : IsClosed flow item q'' = record {
                      found = h.found;
                      closed = h.closed;
                    } in
                    rw (new, ingest, f, ingest_recorded, g, ingest_resolved-queue f64 now p q')
                      (resolve-IsClosed d flow item _ q'' apart h'')
              ]
            ]
      ]

  claim_in-IsClosed :
      (now : Timestamp) (other flow reviewer : String) (state : ReviewState)
      (item new : QueueItem f64) (q : ReviewQueue f64)
      → lookup String-discrete other q.items ≡ some new
      → new.state ≡ state
      → IsClosed flow item q
      → IsClosed flow item (claim_in f64 now other reviewer new state q).1
  unfolding claim_in is_open
  claim_in-IsClosed now other flow reviewer (pending reason) item new q hit waits h =
      let apart = apart_open other flow item new q hit (ground (arith, waits)) h in
      put-IsClosed other flow item _ q apart h
  claim_in-IsClosed now other flow reviewer (under_review _ _ _) item new q hit waits h = h
  claim_in-IsClosed now other flow reviewer (auto_resolved _) item new q hit waits h = h
  claim_in-IsClosed now other flow reviewer (resolved _) item new q hit waits h = h

  claim-IsClosed :
      (now : Timestamp) (other flow reviewer : String) (item : QueueItem f64) (q : ReviewQueue f64)
      → IsClosed flow item q
      → IsClosed flow item (claim f64 now other reviewer q).1
  unfolding claim
  claim-IsClosed now other flow reviewer item q h =
      elim (Option-cases (lookup String-discrete other q.items)) [
        | inl miss ↦ rw (miss, claim) h
        | inr (new, hit) ↦
            rw (hit, claim)
              (claim_in-IsClosed now other flow reviewer new.state item new q hit refl h)
      ]

  decide-IsClosed :
      (now : Timestamp) (other flow reviewer : String) (v : Verdict) (rationale : String)
      (item new : QueueItem f64) (q : ReviewQueue f64)
      → same other flow ≡ false
      → IsClosed flow item q
      → IsClosed flow item (decide f64 now other reviewer v rationale new q).1
  unfolding decide next_decision_id
  decide-IsClosed now other flow reviewer v rationale item new q apart h =
      let (id, q') = next_decision_id f64 other q in
      let d : AuditDecision = record {
        decision_id = id;
        flow_id = other;
        reviewer = human reviewer;
        verdict = v;
        rationale = rationale;
        decided_at = now;
      } in
      let new' : QueueItem f64 = record new { state = resolved id } in
      let h' : IsClosed flow item q' = record { found = h.found; closed = h.closed } in
      let kept = resolve-IsClosed d flow item new' q' apart h' in
      elim (Result-cases (resolve f64 d new' q').0) [
        | inl (a, e) ↦ rw (e, decide) kept
        | inr (x, e) ↦ rw (e, decide) kept
      ]

  module _ (unicode : Unicode) where
    record_verdict-IsClosed :
        (now : Timestamp) (other flow reviewer : String) (v : Verdict) (rationale : String)
        (item : QueueItem f64) (q : ReviewQueue f64)
        → IsClosed flow item q
        → IsClosed flow item (record_verdict f64 unicode now other reviewer v rationale q).1
    unfolding record_verdict
    record_verdict-IsClosed now other flow reviewer v rationale item q h =
        elim (Bool-cases (is_empty (unicode.trim reviewer))) [
          | inl e ↦ rw (e, record_verdict) h
          | inr given ↦ elim (Bool-cases (is_empty (unicode.trim rationale))) [
            | inl e ↦ rw (given, e, record_verdict) h
            | inr reasoned ↦ elim (Option-cases (lookup String-discrete other q.items)) [
              | inl miss ↦ rw (given, reasoned, miss, record_verdict) h
              | inr (new, hit) ↦ elim (Bool-cases (is_open new.state)) [
                | inl waits ↦
                    let apart = apart_open other flow item new q hit waits h in
                    rw (given, reasoned, hit, waits, record_verdict)
                      (decide-IsClosed now other flow reviewer v rationale item new q apart h)
                | inr done ↦ rw (given, reasoned, hit, done, record_verdict) h
              ]
            ]
          ]
        ]

    timed_out-IsClosed :
        (sla_seconds : ℤ) (now : Timestamp) (flow id : String) (item new : QueueItem f64)
        (q : ReviewQueue f64)
        → lookup String-discrete id q.items ≡ some new
        → is_open new.state ≡ true
        → IsClosed flow item q
        → IsClosed flow item (timed_out f64 sla_seconds now id new q)
    unfolding next_decision_id
    timed_out-IsClosed sla_seconds now flow id item new q hit waits h =
        let (decision_id, q') = next_decision_id f64 id q in
        let h' : IsClosed flow item q' = record { found = h.found; closed = h.closed } in
        resolve-IsClosed (sla_decision f64 sla_seconds now id new q) flow item
          (record new { state = resolved decision_id }) q'
          (apart_open id flow item new q hit waits h) h'

    step-IsClosed :
        (c : Call f64) (flow : String) (item : QueueItem f64) (q : ReviewQueue f64)
        → Sound f64 unicode q
        → IsClosed flow item q
        → IsClosed flow item (step f64 unicode c q)
    unfolding step
    step-IsClosed (ingests now p) flow item q s h = ingest-IsClosed now p flow item q h
    step-IsClosed (claims now other reviewer) flow item q s h =
        claim-IsClosed now other flow reviewer item q h
    step-IsClosed (decides now other reviewer v rationale) flow item q s h =
        record_verdict-IsClosed now other flow reviewer v rationale item q h
    step-IsClosed (sweeps now clock sla_seconds) flow item q s h =
        sweep-induction f64 (IsClosed flow item) now clock sla_seconds q
          (λ id new q' hit waits.
            timed_out-IsClosed sla_seconds (clock id) flow id item new q' hit waits)
          s.keyed h

    -- In a queue whose items agree with its audit graph, an item that is resolved, by itself or
    -- by a decision, is the same item after any sequence of calls: no call re-opens a flow or
    -- replaces its decision.
    pub run-IsClosed :
        (cs : List (Call f64)) (flow : String) (item : QueueItem f64) (q : ReviewQueue f64)
        → IsUnicode unicode
        → Sound f64 unicode q
        → IsClosed flow item q
        → IsClosed flow item (run f64 unicode cs q)
    unfolding run
    run-IsClosed [] flow item q u s h = h
    run-IsClosed (c ∷ cs) flow item q u s h =
        run-IsClosed cs flow item (step f64 unicode c q) u (step-Sound f64 unicode c q u s)
          (step-IsClosed c flow item q s h)
