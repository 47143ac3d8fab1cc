-- ===== src/Siem/Review/Queue/Kept.antt =====
-- The operations of components/active-siem/crates/review-queue/src/queue.rs keep the items and the
-- audit graph in step.
use active_spectral_defense.Base.{
  ◌≡◌, refl, sym, inl, inr, true, String, none, some, arith, String-discrete, Option-cases,
  Bool-cases, Unicode, IsUnicode,
}
use active_spectral_defense.Float.{Float}
use active_spectral_defense.Map.{lookup, contains_key}
use active_spectral_defense.Map.Laws.{lookup-insert}
use active_spectral_defense.Siem.Ontology.{is_empty, Result-cases, ok, err, duplicate_instance}
use active_spectral_defense.Siem.Ontology.Consistent.{IsConsistent, is_a}
use active_spectral_defense.Siem.Review.{
  Timestamp, Verdict, AuditDecision, FlowPrediction, QueueItem, ReviewState, auto_resolved, pending,
  under_review, resolved, evaluate, human,
}
use active_spectral_defense.Siem.Review.Audit.{
  flow_prediction_type, record_decision, record_prediction, prediction_instance,
}
use active_spectral_defense.Siem.Review.Audit.Recorded.{decided}
use active_spectral_defense.Siem.Review.Audit.Effect.{
  predicted, record_decision-cases, record_decision-IsConsistent, record_prediction-IsConsistent,
  record_prediction-cases,
}
use active_spectral_defense.Siem.Review.Queue.{
  ReviewQueue, is_open, put, resolve, next_decision_id, ingest_resolved, ingest_recorded, ingest,
  claim, claim_in, decide, record_verdict, auto_decision,
}
use active_spectral_defense.Siem.Review.Queue.Sound.{
  IsSound, decision_of, named, put-IsSound, predicted-IsSound, decided-IsSound,
}

module _ (f64 : Float) where
  pub ingest_resolved-queue :
      (now : Timestamp) (p : FlowPrediction f64) (q : ReviewQueue f64)
      → let id = (next_decision_id f64 p.flow_id q).0 in
        (ingest_resolved f64 now p q).1
        ≡ (resolve f64
            (auto_decision f64 now id p q.trigger_cfg)
            (record { prediction = p; state = auto_resolved id; enqueued_at = now })
            (next_decision_id f64 p.flow_id q).1).1
  unfolding ingest_resolved
  ingest_resolved-queue now p q =
      let id = (next_decision_id f64 p.flow_id q).0 in
      let item : QueueItem f64 = record {
        prediction = p;
        state = auto_resolved id;
        enqueued_at = now;
      } in
      let r =
        resolve f64 (auto_decision f64 now id p q.trigger_cfg) item
          (next_decision_id f64 p.flow_id q).1 in
      elim (Result-cases r.0) [
        | inl (a, e) ↦ rw (e, ingest_resolved) refl
        | inr (x, e) ↦ rw (e, ingest_resolved) refl
      ]

module _ (f64 : Float) (unicode : Unicode) where
  -- the invariant of a queue
  abbrev pub Sound : ReviewQueue f64 → Type 0
  Sound q = IsSound f64 unicode q.engine q.items

  pub resolve-Sound :
      (d : AuditDecision) (item : QueueItem f64) (q : ReviewQueue f64)
      → IsUnicode unicode
      → is_a f64 flow_prediction_type d.flow_id q.engine.store.instances ≡ true
      → named f64 d.flow_id q.items ≡ none
      → decision_of item.state ≡ some d.decision_id
      → Sound q
      → Sound (resolve f64 d item q).1
  unfolding resolve put
  resolve-Sound d item q u typed unnamed closes h =
      let e = record_decision-cases f64 d q.engine h.registered h.consistent typed in
      elim (Bool-cases (contains_key String-discrete d.decision_id q.engine.store.instances)) [
        | inl old ↦
            let after = duplicate_instance d.decision_id in
            let same : record_decision f64 d q.engine ≡ (err after, q.engine) = rw old at e in
            rw (same, resolve, same) h
        | inr fresh ↦
            let after : record_decision f64 d q.engine ≡ (ok tt, decided f64 d q.engine) =
              rw fresh at e in
            let c : IsConsistent f64 (decided f64 d q.engine) =
              rw after at (record_decision-IsConsistent f64 d q.engine h.consistent) in
            rw (after, resolve, after)
              (decided-IsSound f64 unicode d item q.engine q.items u c typed fresh unnamed closes h)
      ]

  ingest_recorded-Sound :
      (now : Timestamp) (p : FlowPrediction f64) (q : ReviewQueue f64)
      → IsUnicode unicode
      → is_a f64 flow_prediction_type p.flow_id q.engine.store.instances ≡ true
      → named f64 p.flow_id q.items ≡ none
      → Sound q
      → Sound (ingest_recorded f64 now p q).1
  unfolding ingest_recorded put decision_of next_decision_id auto_decision
  ingest_recorded-Sound now p q u typed unnamed h =
      elim (Option-cases (evaluate f64 p q.trigger_cfg)) [
        | inl clear ↦
            let (id, q') = next_decision_id f64 p.flow_id q in
            let item : QueueItem f64 = record {
              prediction = p;
              state = auto_resolved id;
              enqueued_at = now;
            } in
            rw (clear, ingest_recorded, ingest_resolved-queue f64 now p q)
              (resolve-Sound (auto_decision f64 now id p q.trigger_cfg) item q' u typed unnamed refl
                h)
        | inr (reason, flagged) ↦
            rw (flagged, ingest_recorded)
              (put-IsSound f64 unicode p.flow_id _ q.engine q.items typed (sym unnamed) h)
      ]

  -- `ingest` keeps the invariant, whether it resolves the flow, queues it or fails.
  pub ingest-Sound :
      (now : Timestamp) (p : FlowPrediction f64) (q : ReviewQueue f64)
      → IsUnicode unicode
      → Sound q
      → Sound (ingest f64 now p q).1
  unfolding ingest named contains_key is_a prediction_instance
  ingest-Sound now p q u h = elim (Bool-cases (contains_key String-discrete p.flow_id q.items)) [
    | inl known ↦ rw (known, ingest) h
    | inr new ↦
        let e = record_prediction-cases f64 p q.engine h.registered in
        elim (Bool-cases (contains_key String-discrete p.flow_id q.engine.store.instances)) [
          | inl old ↦
              let refused = duplicate_instance p.flow_id in
              let same : record_prediction f64 p q.engine ≡ (err refused, q.engine) = rw old at e in
              rw (new, same, ingest, same) h
          | inr fresh ↦
              let after : record_prediction f64 p q.engine ≡ (ok tt, predicted f64 p q.engine) =
                rw fresh at e in
              let c : IsConsistent f64 (predicted f64 p q.engine) =
                rw after at (record_prediction-IsConsistent f64 p q.engine h.consistent) in
              let found =
                lookup-insert String-discrete p.flow_id p.flow_id (prediction_instance f64 p)
                  q.engine.store.instances in
              rw (new, after, ingest, after)
                (ingest_recorded-Sound now p (record q { engine = predicted f64 p q.engine }) u
                  (ground (arith, found)) (ground (arith, new))
                  (predicted-IsSound f64 unicode p q.engine q.items c fresh h))
        ]
  ]

  -- the flow of an item has a prediction
  pub known :
      (flow : String) (item : QueueItem f64) (q : ReviewQueue f64)
      → lookup String-discrete flow q.items ≡ some item
      → Sound q
      → is_a f64 flow_prediction_type flow q.engine.store.instances ≡ true
  unfolding contains_key
  known flow item q hit h = ground (arith, hit, h.flows flow)

  claim_in-Sound :
      (now : Timestamp) (flow reviewer : String) (item : QueueItem f64) (state : ReviewState)
      (q : ReviewQueue f64)
      → is_a f64 flow_prediction_type flow q.engine.store.instances ≡ true
      → decision_of state ≡ named f64 flow q.items
      → Sound q
      → Sound (claim_in f64 now flow reviewer item state q).1
  unfolding claim_in put decision_of
  claim_in-Sound now flow reviewer item (pending reason) q typed kept h =
      put-IsSound f64 unicode flow _ q.engine q.items typed kept h
  claim_in-Sound now flow reviewer item (under_review _ _ _) q typed kept h = h
  claim_in-Sound now flow reviewer item (auto_resolved _) q typed kept h = h
  claim_in-Sound now flow reviewer item (resolved _) q typed kept h = h

  pub claim-Sound :
      (now : Timestamp) (flow reviewer : String) (q : ReviewQueue f64)
      → Sound q
      → Sound (claim f64 now flow reviewer q).1
  unfolding claim named
  claim-Sound now flow reviewer q h = elim (Option-cases (lookup String-discrete flow q.items)) [
    | inl miss ↦ rw (miss, claim) h
    | inr (item, hit) ↦
        rw (hit, claim)
          (claim_in-Sound now flow reviewer item item.state q (known flow item q hit h)
            (ground (arith, hit)) h)
  ]

  pub open_unnamed :
      (flow : String) (item : QueueItem f64) (q : ReviewQueue f64)
      → lookup String-discrete flow q.items ≡ some item
      → is_open item.state ≡ true
      → named f64 flow q.items ≡ none
  unfolding named decision_of is_open
  open_unnamed flow item q hit waits = ground (arith, hit, waits)

  decide-Sound :
      (now : Timestamp) (flow reviewer : String) (v : Verdict) (rationale : String)
      (item : QueueItem f64) (q : ReviewQueue f64)
      → IsUnicode unicode
      → lookup String-discrete flow q.items ≡ some item
      → is_open item.state ≡ true
      → Sound q
      → Sound (decide f64 now flow reviewer v rationale item q).1
  unfolding decide next_decision_id decision_of
  decide-Sound now flow reviewer v rationale item q u hit waits h =
      let (id, q') = next_decision_id f64 flow q in
      let d : AuditDecision = record {
        decision_id = id;
        flow_id = flow;
        reviewer = human reviewer;
        verdict = v;
        rationale = rationale;
        decided_at = now;
      } in
      let item' : QueueItem f64 = record item { state = resolved id } in
      let sound =
        resolve-Sound d item' q' u (known flow item q hit h) (open_unnamed flow item q hit waits)
          refl h in
      elim (Result-cases (resolve f64 d item' q').0) [
        | inl (a, e) ↦ rw (e, decide) sound
        | inr (x, e) ↦ rw (e, decide) sound
      ]

  pub record_verdict-Sound :
      (now : Timestamp) (flow reviewer : String) (v : Verdict) (rationale : String)
      (q : ReviewQueue f64)
      → IsUnicode unicode
      → Sound q
      → Sound (record_verdict f64 unicode now flow reviewer v rationale q).1
  unfolding record_verdict
  record_verdict-Sound now flow reviewer v rationale q u h =
      elim (Bool-cases (is_empty (unicode.trim reviewer))) [
        | inl e ↦ rw (e, record_verdict) h
        | inr named_reviewer ↦ elim (Bool-cases (is_empty (unicode.trim rationale))) [
          | inl e ↦ rw (named_reviewer, e, record_verdict) h
          | inr reasoned ↦ elim (Option-cases (lookup String-discrete flow q.items)) [
            | inl miss ↦ rw (named_reviewer, reasoned, miss, record_verdict) h
            | inr (item, hit) ↦ elim (Bool-cases (is_open item.state)) [
              | inl waits ↦
                  rw (named_reviewer, reasoned, hit, waits, record_verdict)
                    (decide-Sound now flow reviewer v rationale item q u hit waits h)
              | inr closed ↦ rw (named_reviewer, reasoned, hit, closed, record_verdict) h
            ]
          ]
        ]
      ]
