-- ===== src/Siem/Correlation/Turns.antt =====
-- The turns of the correlation engine of components/active-siem/crates/siem-correlation/src/lib.rs:
-- none of them panics, and its memory stays bounded. The timer, whose construction before the loop
-- panics for an interval of 0, is outside: its ticks are turns.
use active_spectral_defense.Base.{
  ℕ, suc, ◌-◌, ◌≡◌, refl, sym, ap, ◌∙◌, Bool, true, false, Option, none, some, List, [], ◌∷◌, leb,
  ltb, arith, if◌then◌else◌, Bool-cases, Option-cases, inl, inr,
}
use active_spectral_defense.Float.{Float}
use active_spectral_defense.Map.{size, lookup, keep, IsMap}
use active_spectral_defense.Map.Laws.{lookup-retain, retain-IsMap, size-retain}
use active_spectral_defense.Firewall.Net.{IpAddr, IpAddr-discrete}
use active_spectral_defense.Siem.Correlation.{CorrelationEvent, HostRecord, Mpsc, new_record}
use active_spectral_defense.Siem.Correlation.Engine.{
  CorrelationVerdict, CorrelationConfig, oldest_host, emit, emit_if, reason_of, maybe_emit,
  sweep_expired, evict, enforce_capacity, entry, handle_event, with_record, received, empty_engine,
}
use active_spectral_defense.Siem.Correlation.Hosts.{
  Holds, AllHosts-retain, AllHosts-lookup, push-Holds,
}
use active_spectral_defense.Siem.Correlation.Bounds.{
  IsWithin, IsBounded, Engine, with_record-IsWithin, maybe_emit-IsWithin,
  enforce_capacity-IsBounded,
}

module _ (f64 f32 : Float) (out : Mpsc (CorrelationVerdict f64 f32)) where
  config-maybe_emit :
      (now : ℕ) (host : IpAddr) (eng : Engine f64 f32 out)
      → (maybe_emit f64 f32 out now host eng).config ≡ eng.config
  unfolding maybe_emit emit_if emit
  config-maybe_emit now host eng = elim (Option-cases (lookup IpAddr-discrete host eng.state)) [
    | inl e ↦ rw (e, maybe_emit) refl
    | inr (r, e) ↦ elim (Option-cases (reason_of f64 f32 r)) [
      | inl q ↦ rw (e, maybe_emit, q) refl
      | inr (reason, q) ↦ rw (e, maybe_emit, q) refl
    ]
  ]

  config-enforce_capacity :
      (eng : Engine f64 f32 out) → (enforce_capacity f64 f32 out eng).config ≡ eng.config
  unfolding enforce_capacity evict
  config-enforce_capacity eng =
      elim (Bool-cases (leb (size eng.state) eng.config.max_tracked_hosts)) [
        | inl e ↦ rw (enforce_capacity, e) refl
        | inr e ↦ elim (Option-cases (oldest_host f64 f32 eng.state)) [
          | inl q ↦ rw (enforce_capacity, e, q) refl
          | inr (x, q) ↦ rw (enforce_capacity, e, q) refl
        ]
      ]

  -- the same limits, kept
  abbrev pub IsNext : Engine f64 f32 out → Engine f64 f32 out → Type 0
  IsNext eng eng' = (eng'.config ≡ eng.config) × IsBounded f64 f32 out eng'

  transfer :
      (m n : ℕ) (eng : Engine f64 f32 out)
      → m ≡ n
      → IsWithin f64 f32 out m eng
      → IsWithin f64 f32 out n eng
  transfer m n eng p h = rw⁻¹ p h

  -- what follows storing the record
  finish-IsNext :
      (eng mid : Engine f64 f32 out)
      → mid.config ≡ eng.config
      → IsWithin f64 f32 out (suc eng.config.max_tracked_hosts) mid
      → IsNext eng (enforce_capacity f64 f32 out mid)
  finish-IsNext eng mid same h =
      let n = ap (λ (c : CorrelationConfig). suc c.max_tracked_hosts) (sym same) in
      let h' = transfer _ _ mid n h in
      (config-enforce_capacity mid ∙ same, enforce_capacity-IsBounded f64 f32 out mid h')

  emitted-IsWithin :
      (now : ℕ) (host : IpAddr) (finalized : Bool) (eng stored : Engine f64 f32 out)
      → stored.config ≡ eng.config
      → IsWithin f64 f32 out (suc eng.config.max_tracked_hosts) stored
      → IsNext eng (
          enforce_capacity f64 f32 out
            (if finalized then stored else maybe_emit f64 f32 out now host stored))
  emitted-IsWithin now host true eng stored same h = finish-IsNext eng stored same h
  emitted-IsWithin now host false eng stored same h =
      finish-IsNext eng _ (config-maybe_emit now host stored ∙ same)
        (maybe_emit-IsWithin f64 f32 out _ now host stored h)

  pub entry-Holds :
      (event : CorrelationEvent f64 f32) (eng : Engine f64 f32 out) (most : ℕ)
      → IsWithin f64 f32 out most eng
      → (b : Bool) × (r : HostRecord f64 f32) × (entry f64 f32 out event
            eng.config.max_evidence_per_host
            (lookup IpAddr-discrete event.host eng.state)
          ≡ some (b, r))
        × Holds f64 f32 eng.config.max_evidence_per_host r
  unfolding entry new_record
  entry-Holds event eng most h = elim (Option-cases (lookup IpAddr-discrete event.host eng.state)) [
    | inl e ↦ (false, new_record f64 f32 event, rw (e, entry) refl, ground arith)
    | inr (r, e) ↦
        let held = AllHosts-lookup f64 f32 _ event.host r eng.state h.records e in
        let (r', pushed, p) = push-Holds f64 f32 event eng.config.max_evidence_per_host r held in
        (r.finalized, r', rw (e, entry, pushed) refl, p)
  ]

  handle_event-IsNext :
      (now : ℕ) (event : CorrelationEvent f64 f32) (eng : Engine f64 f32 out)
      → IsBounded f64 f32 out eng
      → (eng' : Engine f64 f32 out) × (handle_event f64 f32 out now event eng ≡ some eng')
        × IsNext eng eng'
  unfolding handle_event
  handle_event-IsNext now event eng h =
      let (b, r, found, p) = entry-Holds event eng eng.config.max_tracked_hosts h in
      let stored = with_record f64 f32 out event.host r (received f64 f32 out eng) in
      let w = with_record-IsWithin f64 f32 out eng.config.max_tracked_hosts event.host r eng h p in
      (_, rw (handle_event, found) refl, emitted-IsWithin now event.host b eng stored refl w)

  sweep_expired-IsNext :
      (now : ℕ) (eng : Engine f64 f32 out)
      → IsBounded f64 f32 out eng
      → IsNext eng (sweep_expired f64 f32 out now eng)
  unfolding sweep_expired
  sweep_expired-IsNext now eng h = (
    refl,
    record {
      one_record = retain-IsMap IpAddr-discrete _ eng.state h.one_record;
      hosts =
          let n =
            size-retain
              (λ (host : IpAddr) (r : HostRecord f64 f32).
                ltb (now - r.last_seen) eng.config.window)
              eng.state in
          let b = h.hosts in omega (arith, n, b);
      records = AllHosts-retain f64 f32 _ _ eng.state h.records;
    },
  )

  -- a turn of the loop of `run`: the sweep's tick, or an event
  pub data Turn : Type 0 where
    tick : ℕ → Turn
    received_event : ℕ → CorrelationEvent f64 f32 → Turn

  unfoldable pub turn : Turn → Engine f64 f32 out → Option (Engine f64 f32 out)
  turn (tick now) eng = some (sweep_expired f64 f32 out now eng)
  turn (received_event now event) eng = handle_event f64 f32 out now event eng

  -- the engine after these turns
  unfoldable pub run_turns : List Turn → Engine f64 f32 out → Option (Engine f64 f32 out)
  run_turns [] eng = some eng
  run_turns (t ∷ ts) eng = elim (turn t eng) [ none ↦ none | some eng' ↦ run_turns ts eng' ]

  pub turn-IsNext :
      (t : Turn) (eng : Engine f64 f32 out)
      → IsBounded f64 f32 out eng
      → (eng' : Engine f64 f32 out) × (turn t eng ≡ some eng') × IsNext eng eng'
  unfolding turn
  turn-IsNext (tick now) eng h =
      (sweep_expired f64 f32 out now eng, refl, sweep_expired-IsNext now eng h)
  turn-IsNext (received_event now event) eng h = handle_event-IsNext now event eng h

  run_turns-IsNext :
      (ts : List Turn) (eng : Engine f64 f32 out)
      → IsBounded f64 f32 out eng
      → (eng' : Engine f64 f32 out) × (run_turns ts eng ≡ some eng') × IsNext eng eng'
  unfolding run_turns
  run_turns-IsNext [] eng h = (eng, refl, (refl, h))
  run_turns-IsNext (t ∷ ts) eng h =
      let (mid, first, (same, b)) = turn-IsNext t eng h in
      let (eng', rest, (same', b')) = run_turns-IsNext ts mid b in
      (eng', rw (first, run_turns) rest, (same' ∙ same, b'))

  -- From an empty engine, whatever events arrive and whenever the sweep runs, the engine does not
  -- panic and keeps its configuration, it tracks no more than `max_tracked_hosts` hosts, each with
  -- one record, and every record has at least one event and no more than `max_evidence_per_host`
  -- (one where that is 0).
  pub run_turns-IsBounded :
      (ts : List Turn) (config : CorrelationConfig) (ch : out.Ch)
      → (eng : Engine f64 f32 out) × (run_turns ts (empty_engine f64 f32 out config ch) ≡ some eng)
        × (eng.config ≡ config)
        × IsBounded f64 f32 out eng
  unfolding empty_engine
  run_turns-IsBounded ts config ch =
      let (eng, e, (same, b)) =
        run_turns-IsNext ts (empty_engine f64 f32 out config ch)
          (record { one_record = tt; hosts = omega arith; records = tt }) in
      (eng, e, same, b)

  out_tx-enforce_capacity :
      (eng : Engine f64 f32 out) → (enforce_capacity f64 f32 out eng).out_tx ≡ eng.out_tx
  unfolding enforce_capacity evict
  out_tx-enforce_capacity eng =
      elim (Bool-cases (leb (size eng.state) eng.config.max_tracked_hosts)) [
        | inl e ↦ rw (enforce_capacity, e) refl
        | inr e ↦ elim (Option-cases (oldest_host f64 f32 eng.state)) [
          | inl q ↦ rw (enforce_capacity, e, q) refl
          | inr (x, q) ↦ rw (enforce_capacity, e, q) refl
        ]
      ]

  -- In an engine within its limits, while a host whose verdict was decided is tracked, a further
  -- event of it does not panic and sends no verdict: the channel to containment is as it was.
  pub handle_event-once :
      (now : ℕ) (event : CorrelationEvent f64 f32) (eng : Engine f64 f32 out)
      → (r : HostRecord f64 f32) → IsBounded f64 f32 out eng
      → lookup IpAddr-discrete event.host eng.state ≡ some r
      → r.finalized ≡ true
      → (eng' : Engine f64 f32 out) × (handle_event f64 f32 out now event eng ≡ some eng')
        × (eng'.out_tx ≡ eng.out_tx)
  unfolding handle_event entry
  handle_event-once now event eng r h found final =
      let held = AllHosts-lookup f64 f32 _ event.host r eng.state h.records found in
      let (r', pushed, p) = push-Holds f64 f32 event eng.config.max_evidence_per_host r held in
      let stored = with_record f64 f32 out event.host r' (received f64 f32 out eng) in
      (
        enforce_capacity f64 f32 out stored,
        rw (handle_event, found, entry, pushed, final) refl,
        out_tx-enforce_capacity stored,
      )

  -- In a map with one record for a host, a sweep keeps exactly the hosts that were seen within the
  -- window, with their records.
  pub sweep_expired-keeps :
      (now : ℕ) (host : IpAddr) (eng : Engine f64 f32 out)
      → IsMap IpAddr-discrete eng.state
      → lookup IpAddr-discrete host (sweep_expired f64 f32 out now eng).state
        ≡ keep
            (λ r. ltb (now - r.last_seen) eng.config.window)
            (lookup IpAddr-discrete host eng.state)
  unfolding sweep_expired
  sweep_expired-keeps now host eng h =
      lookup-retain IpAddr-discrete
        (λ (host : IpAddr) (r : HostRecord f64 f32). ltb (now - r.last_seen) eng.config.window) host
        eng.state h
