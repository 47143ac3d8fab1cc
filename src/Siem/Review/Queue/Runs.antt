-- ===== src/Siem/Review/Queue/Runs.antt =====
-- Sequences of calls of components/active-siem/crates/review-queue/src/queue.rs.
use active_spectral_defense.Base.{
  ◌≡◌, refl, ◌∙◌, sym, subst, inl, inr, true, String, some, List, [], ◌∷◌, arith, String-discrete,
  Unicode, ℤ, IsUnicode, ◌-ℤ◌,
}
use active_spectral_defense.Float.{Float}
use active_spectral_defense.Map.{lookup, contains_key, insert, IsMap}
use active_spectral_defense.Siem.Ontology.{is_empty, Result-cases, ok}
use active_spectral_defense.Siem.Ontology.Engine.{
  new, traverse, register_object_type, register_link_type,
}
use active_spectral_defense.Siem.Ontology.Consistent.{IsConsistent}
use active_spectral_defense.Siem.Ontology.Consistent.Steps
use active_spectral_defense.Siem.Ontology.Consistent.Steps.{
  registers_object_type, registers_link_type, run-IsConsistent, new-IsConsistent,
}
use active_spectral_defense.Siem.Review.{
  Timestamp, Verdict, FlowPrediction, QueueItem, resolved, SlaPolicy, TriggerConfig,
}
use active_spectral_defense.Siem.Review.Audit.{
  register, flow_prediction, audit_decision, review_of, ignore_already_registered,
  decisions_for_flow, decisions,
}
use active_spectral_defense.Siem.Review.Queue.{
  ReviewQueue, is_open, next_decision_id, new_queue, ingest, claim, record_verdict,
}
use active_spectral_defense.Siem.Review.Queue.Sweep.{
  expired_flow_ids, time_out_all, sweep_expired_with_sink, sweep_expired,
}
use active_spectral_defense.Siem.Review.Queue.Sound.{IsSound, decision_of, named}
use active_spectral_defense.Siem.Review.Queue.Kept.{
  Sound, resolve-Sound, known, open_unnamed, ingest-Sound, claim-Sound, record_verdict-Sound,
}
use active_spectral_defense.Siem.Review.Queue.Swept.{
  expired-Waits, sla_decision, timed_out, time_out_all-induction,
}

module _ (f64 : Float) where
  -- a call that changes the queue
  pub data Call : Type 0 where
    ingests : Timestamp → FlowPrediction f64 → Call
    -- the flow and the reviewer
    claims : Timestamp → String → String → Call
    -- the flow, the reviewer, the verdict and the rationale
    decides : Timestamp → String → String → Verdict → String → Call
    -- the time of each resolution and the seconds allowed
    sweeps : Timestamp → (String → Timestamp) → ℤ → Call

  unfoldable pub step : Unicode → Call → ReviewQueue f64 → ReviewQueue f64
  step unicode (ingests now p) q = (ingest f64 now p q).1
  step unicode (claims now flow reviewer) q = (claim f64 now flow reviewer q).1
  step unicode (decides now flow reviewer v rationale) q =
      (record_verdict f64 unicode now flow reviewer v rationale q).1
  step unicode (sweeps now clock sla_seconds) q = (sweep_expired f64 now clock sla_seconds q).1

  unfoldable pub run : Unicode → List Call → ReviewQueue f64 → ReviewQueue f64
  unfolding step
  run unicode [] q = q
  run unicode (c ∷ cs) q = run unicode cs (step unicode c q)

  pub sweep-queue :
      (now : Timestamp) (clock : String → Timestamp) (sla_seconds : ℤ) (q : ReviewQueue f64)
      → (sweep_expired f64 now clock sla_seconds q).1
        ≡ (time_out_all f64 sla_seconds clock
            (expired_flow_ids f64 (now -ℤ sla_seconds) q.items)
            q).1
  unfolding sweep_expired sweep_expired_with_sink
  sweep-queue now clock sla_seconds q =
      let ids = expired_flow_ids f64 (now -ℤ sla_seconds) q.items in
      elim (Result-cases (time_out_all f64 sla_seconds clock ids q).0) [
        | inl (a, e) ↦ rw (sweep_expired, sweep_expired_with_sink, e) refl
        | inr (x, e) ↦ rw (sweep_expired, sweep_expired_with_sink, e) refl
      ]

  -- what is kept when a waiting flow is timed out is kept by a sweep
  pub sweep-induction :
      (P : ReviewQueue f64 → Type 0) (now : Timestamp) (clock : String → Timestamp)
      (sla_seconds : ℤ) (q : ReviewQueue f64)
      → ((id : String) (item : QueueItem f64) (q : ReviewQueue f64)
          → lookup String-discrete id q.items ≡ some item
          → is_open item.state ≡ true
          → P q
          → P (timed_out f64 sla_seconds (clock id) id item q))
      → IsMap String-discrete q.items
      → P q
      → P (sweep_expired f64 now clock sla_seconds q).1
  sweep-induction P now clock sla_seconds q keep keyed h =
      let cutoff = now -ℤ sla_seconds in
      rw (sweep-queue now clock sla_seconds q) (
        time_out_all-induction f64 P sla_seconds clock keep (expired_flow_ids f64 cutoff q.items) q
          (expired-Waits f64 cutoff q.items keyed) h)

  module _ (unicode : Unicode) where
    pub timed_out-Sound :
        (sla_seconds : ℤ) (now : Timestamp) (id : String) (item : QueueItem f64)
        (q : ReviewQueue f64)
        → IsUnicode unicode
        → lookup String-discrete id q.items ≡ some item
        → is_open item.state ≡ true
        → Sound f64 unicode q
        → Sound f64 unicode (timed_out f64 sla_seconds now id item q)
    unfolding next_decision_id decision_of
    timed_out-Sound sla_seconds now id item q u hit waits h =
        let (decision_id, q') = next_decision_id f64 id q in
        let d = sla_decision f64 sla_seconds now id item q in
        resolve-Sound f64 unicode d (record item { state = resolved decision_id }) q' u
          (known f64 unicode id item q hit h) (open_unnamed f64 unicode id item q hit waits) refl h

    pub sweep-Sound :
        (now : Timestamp) (clock : String → Timestamp) (sla_seconds : ℤ) (q : ReviewQueue f64)
        → IsUnicode unicode
        → Sound f64 unicode q
        → Sound f64 unicode (sweep_expired f64 now clock sla_seconds q).1
    sweep-Sound now clock sla_seconds q u h =
        sweep-induction (Sound f64 unicode) now clock sla_seconds q
          (λ id item q' hit waits. timed_out-Sound sla_seconds (clock id) id item q' u hit waits)
          h.keyed h

    pub step-Sound :
        (c : Call) (q : ReviewQueue f64)
        → IsUnicode unicode
        → Sound f64 unicode q
        → Sound f64 unicode (step unicode c q)
    unfolding step
    step-Sound (ingests now p) q u h = ingest-Sound f64 unicode now p q u h
    step-Sound (claims now flow reviewer) q u h = claim-Sound f64 unicode now flow reviewer q h
    step-Sound (decides now flow reviewer v rationale) q u h =
        record_verdict-Sound f64 unicode now flow reviewer v rationale q u h
    step-Sound (sweeps now clock sla_seconds) q u h = sweep-Sound now clock sla_seconds q u h

    pub run_from-Sound :
        (cs : List Call) (q : ReviewQueue f64)
        → IsUnicode unicode
        → Sound f64 unicode q
        → Sound f64 unicode (run unicode cs q)
    unfolding run
    run_from-Sound [] q u h = h
    run_from-Sound (c ∷ cs) q u h = run_from-Sound cs (step unicode c q) u (step-Sound c q u h)

    abbrev pub fresh : TriggerConfig f64 → SlaPolicy → ReviewQueue f64
    fresh cfg policy = record {
      engine = (register f64 (new f64)).1;
      items = [];
      trigger_cfg = cfg;
      sla_policy = policy;
      decision_seq = 0;
    }

    -- a new queue, which there always is
    pub new_queue-fresh :
        (cfg : TriggerConfig f64) (policy : SlaPolicy)
        → new_queue f64 cfg policy ≡ ok (fresh cfg policy)
    unfolding new_queue register register_object_type register_link_type is_empty contains_key
        lookup insert String-discrete flow_prediction audit_decision review_of
        ignore_already_registered
    new_queue-fresh cfg policy = refl

    registered-IsConsistent : IsConsistent f64 (register f64 (new f64)).1
    unfolding register register_object_type register_link_type is_empty contains_key lookup insert
        String-discrete flow_prediction audit_decision review_of ignore_already_registered Steps.run
        Steps.step
    registered-IsConsistent =
        run-IsConsistent f64
          (registers_object_type flow_prediction
            ∷ registers_object_type audit_decision
            ∷ registers_link_type review_of
            ∷ [])
          (new f64) (new-IsConsistent f64)

    pub fresh-Sound :
        (cfg : TriggerConfig f64) (policy : SlaPolicy) → Sound f64 unicode (fresh cfg policy)
    unfolding register register_object_type register_link_type is_empty contains_key lookup insert
        String-discrete flow_prediction audit_decision review_of ignore_already_registered
        decisions_for_flow decisions named traverse
    fresh-Sound cfg policy = record {
      registered = record { predictions = refl; decided = refl; reviews = refl };
      consistent = registered-IsConsistent;
      keyed = tt;
      flows = λ id. refl;
      audited = λ id. refl;
    }

    -- After any sequence of calls on a new queue, if the operations on Unicode leave texts of
    -- lower-case letters alone: the audit graph is consistent; the items have a key each; every
    -- flow of the queue has its prediction in the graph; and the decisions that the graph has
    -- about any flow are exactly the one that its item names, if the item is resolved, and none
    -- otherwise.
    pub run-Sound :
        (cs : List Call) (cfg : TriggerConfig f64) (policy : SlaPolicy) (q : ReviewQueue f64)
        → IsUnicode unicode
        → new_queue f64 cfg policy ≡ ok q
        → IsSound f64 unicode (run unicode cs q).engine (run unicode cs q).items
    run-Sound cs cfg policy q u h =
        let e : ok (fresh cfg policy) ≡ ok q = sym (new_queue-fresh cfg policy) ∙ h in
        let p : fresh cfg policy ≡ q = ground (arith, e) in
        run_from-Sound cs q u (subst (λ q. Sound f64 unicode q) p (fresh-Sound cfg policy))
