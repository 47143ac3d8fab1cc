-- ===== src/Siem/Correlation/Engine.antt =====
-- components/active-siem/crates/siem-correlation/src/lib.rs: the correlation engine's operations.
-- `Instant::now()` is the argument `now`. Where several hosts were seen last at the same, oldest
-- time, `enforce_capacity` evicts the first of them in the order of the map. A result is `none`
-- where the code would panic.
use active_spectral_defense.Base.{
  ℕ, ◌-◌, Bool, true, false, Option, none, some, List, [], ◌∷◌, length, leb, ltb, if◌then◌else◌,
}
use active_spectral_defense.Float.{Float}
use active_spectral_defense.Map.{Map, size, lookup, insert, remove, retain}
use active_spectral_defense.Firewall.Net.{IpAddr, IpAddr-discrete}
use active_spectral_defense.Firewall.Conntrack.{from_secs}
use active_spectral_defense.Siem.Correlation.{
  Severity, critical, LaneSource, CorrelationMetrics, u64_add, Mpsc, CorrelationEvent, HostRecord,
  new_record, push, distinct_sources, max_severity, mean_confidence,
}

pub record CorrelationConfig : Type 0 where
  pub window : ℕ
  pub sweep_interval : ℕ
  pub channel_capacity : ℕ
  pub max_evidence_per_host : ℕ
  pub max_tracked_hosts : ℕ

abbrev pub default_config : CorrelationConfig
default_config = record {
  window = from_secs 60;
  sweep_interval = from_secs 5;
  channel_capacity = 4096;
  max_evidence_per_host = 16;
  max_tracked_hosts = 100_000;
}

pub data CorrelationReason : Type 0 where
  multi_lane_corroboration single_lane_critical : CorrelationReason

abbrev pub is_critical : Severity → Bool
is_critical critical = true
is_critical _ = false

module _ (f64 f32 : Float) where
  pub record CorrelationVerdict : Type 0 where
    pub host : IpAddr
    pub severity : Severity
    pub confidence : f32.F
    pub sources : List LaneSource
    pub evidence : List (CorrelationEvent f64 f32)
    pub reason : CorrelationReason
    pub first_seen : ℕ
    pub decided_at : ℕ

  abbrev pub Hosts : Type 0
  Hosts = Map IpAddr (HostRecord f64 f32)

  unfoldable pub reason_of : HostRecord f64 f32 → Option CorrelationReason
  reason_of r =
      if leb 2 (length (distinct_sources f64 f32 r))
      then some multi_lane_corroboration
      else if is_critical (max_severity f64 f32 r)
      then some single_lane_critical
      else none

  unfoldable pub verdict_of :
      ℕ → IpAddr → HostRecord f64 f32 → CorrelationReason → CorrelationVerdict
  verdict_of now host r reason = record {
    host = host;
    severity = max_severity f64 f32 r;
    confidence = mean_confidence f64 f32 r;
    sources = distinct_sources f64 f32 r;
    evidence = r.evidence;
    reason = reason;
    first_seen = r.first_seen;
    decided_at = now;
  }

  -- `min_by_key` on `last_seen`, of the hosts and the best so far
  unfoldable pub older : IpAddr × ℕ → Hosts → IpAddr × ℕ
  older best [] = best
  older best ((host, r) ∷ m) =
      older (if ltb r.last_seen best.1 then (host, r.last_seen) else best) m

  unfoldable pub oldest_host : Hosts → Option IpAddr
  unfolding older
  oldest_host [] = none
  oldest_host ((host, r) ∷ m) = some (older (host, r.last_seen) m).0

  module _ (out : Mpsc CorrelationVerdict) where
    pub record CorrelationEngine : Type 0 where
      pub out_tx : out.Ch
      pub state : Hosts
      pub config : CorrelationConfig
      pub metrics : CorrelationMetrics

    unfoldable pub empty_engine : CorrelationConfig → out.Ch → CorrelationEngine
    empty_engine config out_tx = record {
      out_tx = out_tx;
      state = [];
      config = config;
      metrics = record {
        events_received = 0;
        verdicts_emitted = 0;
        verdicts_dropped = 0;
        hosts_evicted_ttl = 0;
        hosts_evicted_capacity = 0;
        xdp_dropped = 0;
        clamav_dropped = 0;
        spectral_dropped = 0;
      };
    }

    -- the end of `maybe_emit`: the record is final, and the verdict is sent
    unfoldable pub emit :
        ℕ → IpAddr → HostRecord f64 f32 → CorrelationReason → CorrelationEngine → CorrelationEngine
    emit now host r reason eng =
        let (ok, ch) = out.try_send (verdict_of now host r reason) eng.out_tx in
        record eng {
          out_tx = ch;
          state = insert IpAddr-discrete host (record r { finalized = true }) eng.state;
          metrics =
              if ok
              then record eng.metrics { verdicts_emitted = u64_add eng.metrics.verdicts_emitted 1 }
              else record eng.metrics { verdicts_dropped = u64_add eng.metrics.verdicts_dropped 1 };
        }

    -- what `maybe_emit` does with the record it finds
    unfoldable pub emit_if :
        ℕ
        → IpAddr
        → HostRecord f64 f32
        → Option CorrelationReason
        → CorrelationEngine
        → CorrelationEngine
    emit_if now host r none eng = eng
    emit_if now host r (some reason) eng = emit now host r reason eng

    unfoldable pub maybe_emit : ℕ → IpAddr → CorrelationEngine → CorrelationEngine
    maybe_emit now host eng = elim (lookup IpAddr-discrete host eng.state) [
      | none ↦ eng
      | some r ↦ emit_if now host r (reason_of r) eng
    ]

    unfoldable pub sweep_expired : ℕ → CorrelationEngine → CorrelationEngine
    sweep_expired now eng =
        let kept = retain (λ host r. ltb (now - r.last_seen) eng.config.window) eng.state in
        let evicted = size eng.state - size kept in
        let counted = record eng.metrics {
          hosts_evicted_ttl = u64_add eng.metrics.hosts_evicted_ttl evicted;
        } in
        record eng { state = kept; metrics = if ltb 0 evicted then counted else eng.metrics }

    unfoldable pub evict : Option IpAddr → CorrelationEngine → CorrelationEngine
    evict none eng = eng
    evict (some host) eng = record eng {
      state = remove IpAddr-discrete host eng.state;
      metrics = record eng.metrics {
        hosts_evicted_capacity = u64_add eng.metrics.hosts_evicted_capacity 1;
      };
    }

    unfoldable pub enforce_capacity : CorrelationEngine → CorrelationEngine
    enforce_capacity eng =
        if leb (size eng.state) eng.config.max_tracked_hosts
        then eng
        else evict (oldest_host eng.state) eng

    abbrev pub received : CorrelationEngine → CorrelationEngine
    received eng = record eng {
      metrics = record eng.metrics { events_received = u64_add eng.metrics.events_received 1 };
    }

    -- the engine with a host's record
    abbrev pub with_record : IpAddr → HostRecord f64 f32 → CorrelationEngine → CorrelationEngine
    with_record host r eng = record eng { state = insert IpAddr-discrete host r eng.state }

    -- the match on `state.entry(host)`: whether the record was final, and the new record
    unfoldable pub entry :
        CorrelationEvent f64 f32
        → ℕ
        → Option (HostRecord f64 f32)
        → Option (Bool × HostRecord f64 f32)
    entry event max_evidence none = some (false, new_record f64 f32 event)
    entry event max_evidence (some r) = elim (push f64 f32 event max_evidence r) [
      | none ↦ none
      | some r' ↦ some (r.finalized, r')
    ]

    unfoldable pub handle_event :
        ℕ → CorrelationEvent f64 f32 → CorrelationEngine → Option CorrelationEngine
    handle_event now event eng =
        elim (entry event eng.config.max_evidence_per_host
          (lookup IpAddr-discrete event.host eng.state)) [
            | none ↦ none
            | some (already_finalized, r) ↦
                let stored = with_record event.host r (received eng) in
                some (
                  enforce_capacity
                    (if already_finalized then stored else maybe_emit now event.host stored))
          ]
