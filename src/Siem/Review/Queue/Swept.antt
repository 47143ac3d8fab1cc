-- ===== src/Siem/Review/Queue/Swept.antt =====
-- A sweep of components/active-siem/crates/review-queue/src/queue.rs keeps the items and the audit
-- graph in step.
use active_spectral_defense.Base.{
  ◌≡◌, refl, inl, inr, Bool, true, false, String, none, some, List, [], ◌∷◌, arith, String-discrete,
  Option-cases, Bool-cases, any, ℤ,
}
use active_spectral_defense.Float.{Float}
use active_spectral_defense.Map.{Map, lookup, insert, IsMap}
use active_spectral_defense.Map.Laws.{lookup-insert}
use active_spectral_defense.Siem.Ontology.{same, Result-cases}
use active_spectral_defense.Siem.Review.{
  Timestamp, AuditDecision, QueueItem, resolved, system_sla_timeout,
}
use active_spectral_defense.Siem.Review.Audit.{record_decision}
use active_spectral_defense.Siem.Review.Queue.{ReviewQueue, is_open, put, resolve, next_decision_id}
use active_spectral_defense.Siem.Review.Queue.Sweep.{
  is_expired, expired_flow_ids, sla_verdict, time_out, time_out_all,
}

abbrev pub listed : String → List String → Bool
listed id ids = any (λ j. same j id) ids

module _ (f64 : Float) where
  -- the flow has an open item
  unfoldable pub waiting : String → Map String (QueueItem f64) → Bool
  waiting id items = elim (lookup String-discrete id items) [
    | none ↦ false
    | some item ↦ is_open item.state
  ]

  -- all the flows are waiting, and none is listed twice
  abbrev pub Waits : List String → Map String (QueueItem f64) → Type 0
  Waits [] items = Unit
  Waits (id ∷ ids) items = (waiting id items ≡ true) × (listed id ids ≡ false) × Waits ids items

  expired-listed :
      (cutoff : ℤ) (k : String) (items : Map String (QueueItem f64))
      → lookup String-discrete k items ≡ none
      → listed k (expired_flow_ids f64 cutoff items) ≡ false
  unfolding expired_flow_ids lookup
  expired-listed cutoff k [] h = refl
  expired-listed cutoff k ((j, item) ∷ items) h = ground (arith, h, expired-listed cutoff k items)

  Waits-cons :
      (ids : List String) (k : String) (item : QueueItem f64) (items : Map String (QueueItem f64))
      → listed k ids ≡ false
      → Waits ids items
      → Waits ids ((k, item) ∷ items)
  unfolding waiting lookup
  Waits-cons [] k item items apart h = tt
  Waits-cons (id ∷ ids) k item items apart h =
      (ground (arith, apart, h.0), h.1, Waits-cons ids k item items (ground (arith, apart)) h.2)

  -- the flows of a sweep
  pub expired-Waits :
      (cutoff : ℤ) (items : Map String (QueueItem f64))
      → IsMap String-discrete items
      → Waits (expired_flow_ids f64 cutoff items) items
  unfolding expired_flow_ids waiting lookup is_expired
  expired-Waits cutoff [] h = tt
  expired-Waits cutoff ((k, item) ∷ items) h =
      let apart = expired-listed cutoff k items h.0 in
      let rest =
        Waits-cons (expired_flow_ids f64 cutoff items) k item items apart
          (expired-Waits cutoff items h.1) in
      elim (Bool-cases (is_expired f64 cutoff item)) [
        | inl e ↦ rw (e, expired_flow_ids) (ground (arith, e), apart, rest)
        | inr e ↦ rw (e, expired_flow_ids) rest
      ]

  Waits-insert :
      (ids : List String) (k : String) (item : QueueItem f64) (items : Map String (QueueItem f64))
      → listed k ids ≡ false
      → Waits ids items
      → Waits ids (insert String-discrete k item items)
  unfolding waiting
  Waits-insert [] k item items apart h = tt
  Waits-insert (id ∷ ids) k item items apart h = (
    ground (arith, apart, h.0, lookup-insert String-discrete k id item items),
    h.1,
    Waits-insert ids k item items (ground (arith, apart)) h.2,
  )

  pub waiting-cases :
      (id : String) (items : Map String (QueueItem f64))
      → waiting id items ≡ true
      → (item : QueueItem f64) × (lookup String-discrete id items ≡ some item)
        × (is_open item.state ≡ true)
  unfolding waiting
  waiting-cases id items h = elim (Option-cases (lookup String-discrete id items)) [
    | inl miss ↦ absurd (ground (arith, h, miss))
    | inr (item, hit) ↦ (item, hit, ground (arith, h, hit))
  ]

  -- the flows that wait, after one is resolved
  resolve-Waits :
      (d : AuditDecision) (item : QueueItem f64) (ids : List String) (q : ReviewQueue f64)
      → listed d.flow_id ids ≡ false
      → Waits ids q.items
      → Waits ids (resolve f64 d item q).1.items
  unfolding resolve put
  resolve-Waits d item ids q apart h = elim (Result-cases (record_decision f64 d q.engine).0) [
    | inl (a, e) ↦ rw (e, resolve) (Waits-insert ids d.flow_id item q.items apart h)
    | inr (x, e) ↦ rw (e, resolve) h
  ]

  -- the decision that a sweep makes, its item and the queue that resolves it
  abbrev pub sla_decision : ℤ → Timestamp → String → QueueItem f64 → ReviewQueue f64 → AuditDecision
  sla_decision sla_seconds now flow item q =
      let v = sla_verdict f64 sla_seconds q.sla_policy q.trigger_cfg item.prediction in
      record {
        decision_id = (next_decision_id f64 flow q).0;
        flow_id = flow;
        reviewer = system_sla_timeout;
        verdict = v.0;
        rationale = v.1;
        decided_at = now;
      }

  abbrev pub timed_out : ℤ → Timestamp → String → QueueItem f64 → ReviewQueue f64 → ReviewQueue f64
  timed_out sla_seconds now flow item q =
      let q' = (next_decision_id f64 flow q).1 in
      let d = sla_decision sla_seconds now flow item q in
      (resolve f64 d (record item { state = resolved d.decision_id }) q').1

  pub time_out-queue :
      (sla_seconds : ℤ) (now : Timestamp) (flow : String) (item : QueueItem f64)
      (q : ReviewQueue f64)
      → (time_out f64 sla_seconds now flow item q).1 ≡ timed_out sla_seconds now flow item q
  unfolding time_out
  time_out-queue sla_seconds now flow item q =
      let d = sla_decision sla_seconds now flow item q in
      let q' = (next_decision_id f64 flow q).1 in
      let r = resolve f64 d (record item { state = resolved d.decision_id }) q' in
      elim (Result-cases r.0) [
        | inl (a, e) ↦ rw (e, time_out) refl
        | inr (x, e) ↦ rw (e, time_out) refl
      ]

  -- what holds of a queue and is kept when a waiting flow is timed out holds after the loop
  pub time_out_all-induction :
      (P : ReviewQueue f64 → Type 0) (sla_seconds : ℤ) (clock : String → Timestamp)
      → ((id : String) (item : QueueItem f64) (q : ReviewQueue f64)
          → lookup String-discrete id q.items ≡ some item
          → is_open item.state ≡ true
          → P q
          → P (timed_out sla_seconds (clock id) id item q))
      → (ids : List String) (q : ReviewQueue f64) → Waits ids q.items
      → P q
      → P (time_out_all f64 sla_seconds clock ids q).1
  unfolding time_out_all
  time_out_all-induction P sla_seconds clock keep [] q w h = h
  time_out_all-induction P sla_seconds clock keep (id ∷ ids) q w h =
      let (item, hit, open_item) = waiting-cases id q.items w.0 in
      let q' = timed_out sla_seconds (clock id) id item q in
      let same_queue = time_out-queue sla_seconds (clock id) id item q in
      let next = keep id item q hit open_item h in
      elim (Result-cases (time_out f64 sla_seconds (clock id) id item q).0) [
        | inr (x, e) ↦ rw (hit, time_out_all, e, same_queue) next
        | inl (a, e) ↦
            let d = sla_decision sla_seconds (clock id) id item q in
            let waits : Waits ids q'.items =
              resolve-Waits d (record item { state = resolved d.decision_id }) ids
                (next_decision_id f64 id q).1 w.1 w.2 in
            let rest = time_out_all-induction P sla_seconds clock keep ids q' waits next in
            elim (Result-cases (time_out_all f64 sla_seconds clock ids q').0) [
              | inl (b, f) ↦ rw (hit, time_out_all, e, same_queue, f, same_queue) rest
              | inr (x, f) ↦ rw (hit, time_out_all, e, same_queue, f, same_queue) rest
            ]
      ]
