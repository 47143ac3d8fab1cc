-- ===== src/Siem/Review/Containment/Gate.antt =====
-- When components/active-siem/crates/review-queue/src/containment.rs lets containment through.
use active_spectral_defense.Base.{
  ◌≡◌, ◌⊎◌, refl, inl, inr, ◌∙◌, ap, sym, Bool, true, false, String, Option, none, some, List, [],
  ◌∷◌, ◌++◌, arith, append-nil, String-discrete, Bool-cases, Unicode, IsUnicode, ℤ, if◌then◌else◌,
}
use active_spectral_defense.Float.{Float}
use active_spectral_defense.Map.{lookup, contains_key}
use active_spectral_defense.Siem.Ontology.{same, Result-cases, ok, err, duplicate_instance}
use active_spectral_defense.Siem.Ontology.Consistent.{is_a}
use active_spectral_defense.Siem.Review.{
  Timestamp, AuditDecision, QueueItem, execute_containment, same_verdict, fail_safe, resolved,
}
use active_spectral_defense.Siem.Review.Audit.{
  flow_prediction_type, decisions_for_flow, record_decision,
}
use active_spectral_defense.Siem.Review.Audit.Recorded.{decided}
use active_spectral_defense.Siem.Review.Audit.Effect.{
  record_decision-cases, decisions_for_flow-decided,
}
use active_spectral_defense.Siem.Review.Containment.{
  ContainmentDecision, approved, refused, action_failed, contain_decisions, judge, check, perform,
  execute_if_approved,
}
use active_spectral_defense.Siem.Review.Queue.{ReviewQueue, is_open, put, resolve, next_decision_id}
use active_spectral_defense.Siem.Review.Queue.Sweep.{sla_verdict, sweep_expired}
use active_spectral_defense.Siem.Review.Queue.Sound.{Agrees, named}
use active_spectral_defense.Siem.Review.Queue.Kept.{Sound, known}
use active_spectral_defense.Siem.Review.Queue.Swept.{timed_out, sla_decision}
use active_spectral_defense.Siem.Review.Queue.Runs.{sweep-induction, timed_out-Sound}

Agrees-cases :
    (flow : String) (name : Option String) (ds : List AuditDecision)
    → Agrees flow name ds
    → (ds ≡ [])
      ⊎ ((d : AuditDecision) × (ds ≡ d ∷ []) × (name ≡ some d.decision_id) × (d.flow_id ≡ flow))
Agrees-cases flow none ds h = inl h
Agrees-cases flow (some id) ds (d, one, same_id, same_flow) =
    inr (d, one, ap (λ id. some id) (sym same_id), same_flow)

module _ (f64 : Float) (unicode : Unicode) where
  module _ {A : Type 0} (execute : String → A → Bool × A) where
    -- In a queue whose items agree with its audit graph, a request for containment of a flow meets
    -- one of two cases. There is no decision about the flow: it is refused as not approved and does
    -- nothing. Or there is exactly one, which the flow's item names: if it is to contain, the action
    -- is executed once, and the result is that approval or, if the action fails, the failure; if it
    -- is another verdict, the request is refused and does nothing. It is never a conflict.
    pub execute_if_approved-exact :
        (flow : String) (q : ReviewQueue f64) (a : A)
        → Sound f64 unicode q
        → ((decisions_for_flow f64 unicode q.engine flow ≡ [])
            × (execute_if_approved f64 unicode execute q.engine flow a ≡ (err (refused flow), a)))
          ⊎ ((d : AuditDecision) × (decisions_for_flow f64 unicode q.engine flow ≡ d ∷ [])
              × (named f64 flow q.items ≡ some d.decision_id)
              × (execute_if_approved f64 unicode execute q.engine flow a ≡ (
                  if same_verdict d.verdict execute_containment
                  then (if (execute flow a).0
                      then (ok (approved d.decision_id), (execute flow a).1)
                      else (err action_failed, (execute flow a).1))
                  else (err (refused flow), a))))
    unfolding execute_if_approved perform check contain_decisions judge
    execute_if_approved-exact flow q a h =
        let ds = decisions_for_flow f64 unicode q.engine flow in
        elim (Agrees-cases flow (named f64 flow q.items) ds (h.audited flow)) [
          | inl empty ↦ inl (empty, rw (empty, execute_if_approved, check) refl)
          | inr (d, one, names, own) ↦
              elim (Bool-cases (same_verdict d.verdict execute_containment)) [
                | inr other ↦ inr (d, one, names, rw (one, contain_decisions, other) refl)
                | inl contains ↦ inr (d, one, names, rw (one, contain_decisions, contains) refl)
              ]
        ]

  contain_decisions-append :
      (ds : List AuditDecision) (d : AuditDecision)
      → same_verdict d.verdict execute_containment ≡ false
      → contain_decisions (ds ++ d ∷ []) ≡ contain_decisions ds
  unfolding contain_decisions
  contain_decisions-append [] d h = ground (arith, h)
  contain_decisions-append (x ∷ ds) d h = ground (arith, contain_decisions-append ds d h)

  -- a decision that does not contain changes no approval
  resolve-check :
      (flow : String) (d : AuditDecision) (item : QueueItem f64) (q : ReviewQueue f64)
      → IsUnicode unicode
      → Sound f64 unicode q
      → is_a f64 flow_prediction_type d.flow_id q.engine.store.instances ≡ true
      → same_verdict d.verdict execute_containment ≡ false
      → check f64 unicode (resolve f64 d item q).1.engine flow ≡ check f64 unicode q.engine flow
  unfolding resolve put check
  resolve-check flow d item q u h typed spares =
      let e = record_decision-cases f64 d q.engine h.registered h.consistent typed in
      elim (Bool-cases (contains_key String-discrete d.decision_id q.engine.store.instances)) [
        | inl old ↦
            let after = duplicate_instance d.decision_id in
            let same_engine : record_decision f64 d q.engine ≡ (err after, q.engine) =
              rw old at e in
            rw (same_engine, resolve, same_engine) refl
        | inr fresh ↦
            let after : record_decision f64 d q.engine ≡ (ok tt, decided f64 d q.engine) =
              rw fresh at e in
            let ds = decisions_for_flow f64 unicode q.engine flow in
            let added =
              decisions_for_flow-decided f64 unicode flow d q.engine u h.consistent fresh in
            rw (after, resolve, after, check, added)
              (ap judge (elim (Bool-cases (same d.flow_id flow)) [
                | inl own ↦ rw own (contain_decisions-append ds d spares)
                | inr other ↦ rw (other, append-nil ds) refl
              ]))
      ]

  resolve-policy :
      (d : AuditDecision) (item : QueueItem f64) (q : ReviewQueue f64)
      → (resolve f64 d item q).1.sla_policy ≡ q.sla_policy
  unfolding resolve put
  resolve-policy d item q = elim (Result-cases (record_decision f64 d q.engine).0) [
    | inl (a, e) ↦ rw (resolve, e) refl
    | inr (x, e) ↦ rw (resolve, e) refl
  ]

  -- the queue is sound, fails safe, and gives the flow the approval given
  abbrev Spares : String → ContainmentDecision → ReviewQueue f64 → Type 0
  Spares flow approval q =
      Sound f64 unicode q
      × (q.sla_policy ≡ fail_safe)
      × (check f64 unicode q.engine flow ≡ approval)

  sla_decision-spares :
      (sla_seconds : ℤ) (now : Timestamp) (id : String) (item : QueueItem f64) (q : ReviewQueue f64)
      → q.sla_policy ≡ fail_safe
      → same_verdict (sla_decision f64 sla_seconds now id item q).verdict execute_containment
        ≡ false
  unfolding sla_verdict same_verdict
  sla_decision-spares sla_seconds now id item q safe =
      ap
        (λ policy.
          same_verdict (sla_verdict f64 sla_seconds policy q.trigger_cfg item.prediction).0
            execute_containment)
        safe

  timed_out-Spares :
      (sla_seconds : ℤ) (now : Timestamp) (flow : String) (approval : ContainmentDecision)
      (id : String) (item : QueueItem f64) (q : ReviewQueue f64)
      → IsUnicode unicode
      → lookup String-discrete id q.items ≡ some item
      → is_open item.state ≡ true
      → Spares flow approval q
      → Spares flow approval (timed_out f64 sla_seconds now id item q)
  unfolding next_decision_id
  timed_out-Spares sla_seconds now flow approval id item q u hit waits h =
      let (decision_id, q') = next_decision_id f64 id q in
      let d = sla_decision f64 sla_seconds now id item q in
      let item' : QueueItem f64 = record item { state = resolved decision_id } in
      let typed = known f64 unicode id item q hit h.0 in
      let spares = sla_decision-spares sla_seconds now id item q h.1 in
      (
        timed_out-Sound f64 unicode sla_seconds now id item q u hit waits h.0,
        resolve-policy d item' q' ∙ h.1,
        resolve-check flow d item' q' u h.0 typed spares ∙ h.2,
      )

  -- In a queue whose items agree with its audit graph and whose policy is to fail safe, a sweep
  -- changes the approval of no flow: no timeout authorises containment.
  pub check-sweep_fail_safe :
      (now : Timestamp) (clock : String → Timestamp) (sla_seconds : ℤ) (flow : String)
      (q : ReviewQueue f64)
      → IsUnicode unicode
      → Sound f64 unicode q
      → q.sla_policy ≡ fail_safe
      → check f64 unicode (sweep_expired f64 now clock sla_seconds q).1.engine flow
        ≡ check f64 unicode q.engine flow
  check-sweep_fail_safe now clock sla_seconds flow q u h safe =
      let approval = check f64 unicode q.engine flow in
      let kept =
        sweep-induction f64 (Spares flow approval) now clock sla_seconds q
          (λ id item q' hit waits.
            timed_out-Spares sla_seconds (clock id) flow approval id item q' u hit waits)
          h.keyed (h, safe, refl) in
      kept.2
