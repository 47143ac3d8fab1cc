-- ===== src/Siem/Correlation/Bounds.antt =====
-- The memory of the correlation engine of components/active-siem/crates/siem-correlation/src/lib.rs
-- is bounded: what each of its operations does to the bounds.
use active_spectral_defense.Base.{
  ℕ, suc, ◌≤◌, ◌≡◌, refl, true, some, leb, arith, Bool-cases, Option-cases, inl, inr, is_some,
}
use active_spectral_defense.Float.{Float}
use active_spectral_defense.Map.{size, lookup, IsMap}
use active_spectral_defense.Map.Laws.{size-insert, insert-IsMap, remove-IsMap, size-remove}
use active_spectral_defense.Firewall.Net.{IpAddr, IpAddr-discrete}
use active_spectral_defense.Siem.Correlation.{HostRecord, Mpsc}
use active_spectral_defense.Siem.Correlation.Engine.{
  CorrelationVerdict, CorrelationReason, CorrelationEngine, emit, emit_if, reason_of, maybe_emit,
  evict, enforce_capacity, with_record, received,
}
use active_spectral_defense.Siem.Correlation.Hosts.{
  Holds, AllHosts, AllHosts-insert, AllHosts-remove, AllHosts-lookup, oldest_host-cases,
}

module _ (f64 f32 : Float) (out : Mpsc (CorrelationVerdict f64 f32)) where
  abbrev pub Engine : Type 0
  Engine = CorrelationEngine f64 f32 out

  -- one record for a host, no more than `most` hosts, and the evidence of each within its limit
  pub record IsWithin (most : ℕ) (eng : Engine) : Type 0 where
    pub one_record : IsMap IpAddr-discrete eng.state
    pub hosts : size eng.state ≤ most
    pub records : AllHosts f64 f32 (Holds f64 f32 eng.config.max_evidence_per_host) eng.state

  abbrev pub IsBounded : Engine → Type 0
  IsBounded eng = IsWithin eng.config.max_tracked_hosts eng

  pub with_record-IsWithin :
      (most : ℕ) (host : IpAddr) (r : HostRecord f64 f32) (eng : Engine)
      → IsWithin most eng
      → Holds f64 f32 eng.config.max_evidence_per_host r
      → IsWithin (suc most) (with_record f64 f32 out host r (received f64 f32 out eng))
  with_record-IsWithin most host r eng h p = record {
    one_record = insert-IsMap IpAddr-discrete host r eng.state h.one_record;
    hosts =
        let n = size-insert IpAddr-discrete host r eng.state in
        let b = h.hosts in ground (arith, n, b);
    records = AllHosts-insert f64 f32 _ host r eng.state p h.records;
  }

  emit-IsWithin :
      (most now : ℕ) (host : IpAddr) (r : HostRecord f64 f32) (reason : CorrelationReason)
      (eng : Engine)
      → IsWithin most eng
      → lookup IpAddr-discrete host eng.state ≡ some r
      → IsWithin most (emit f64 f32 out now host r reason eng)
  unfolding emit
  emit-IsWithin most now host r reason eng h found =
      let done : HostRecord f64 f32 = record r { finalized = true } in
      record {
        one_record = insert-IsMap IpAddr-discrete host done eng.state h.one_record;
        hosts =
            let n = size-insert IpAddr-discrete host done eng.state in
            let b = h.hosts in
            let k : is_some (lookup IpAddr-discrete host eng.state) ≡ true = rw found refl in
            ground (arith, n, b, k);
        records =
            AllHosts-insert f64 f32 _ host done eng.state
              (AllHosts-lookup f64 f32 _ host r eng.state h.records found) h.records;
      }

  pub maybe_emit-IsWithin :
      (most now : ℕ) (host : IpAddr) (eng : Engine)
      → IsWithin most eng
      → IsWithin most (maybe_emit f64 f32 out now host eng)
  unfolding maybe_emit emit_if
  maybe_emit-IsWithin most now host eng h =
      elim (Option-cases (lookup IpAddr-discrete host eng.state)) [
        | inl e ↦ rw (e, maybe_emit) h
        | inr (r, e) ↦ elim (Option-cases (reason_of f64 f32 r)) [
          | inl q ↦ rw (e, maybe_emit, q) h
          | inr (reason, q) ↦ rw (e, maybe_emit, q) (emit-IsWithin most now host r reason eng h e)
        ]
      ]

  evict-IsWithin :
      (most : ℕ) (host : IpAddr) (eng : Engine)
      → IsWithin (suc most) eng
      → is_some (lookup IpAddr-discrete host eng.state) ≡ true
      → IsWithin most (evict f64 f32 out (some host) eng)
  unfolding evict
  evict-IsWithin most host eng h found = record {
    one_record = remove-IsMap IpAddr-discrete host eng.state h.one_record;
    hosts =
        let n = size-remove IpAddr-discrete host eng.state in
        let b = h.hosts in ground (arith, n, b, found);
    records = AllHosts-remove f64 f32 _ host eng.state h.records;
  }

  pub enforce_capacity-IsBounded :
      (eng : Engine)
      → IsWithin (suc eng.config.max_tracked_hosts) eng
      → IsBounded (enforce_capacity f64 f32 out eng)
  unfolding enforce_capacity evict
  enforce_capacity-IsBounded eng h =
      elim (Bool-cases (leb (size eng.state) eng.config.max_tracked_hosts)) [
        | inl e ↦
            rw (enforce_capacity, e)
              (record { one_record = h.one_record; hosts = ground (arith, e); records = h.records })
        | inr e ↦
            let (x, oldest, found) = oldest_host-cases f64 f32 eng.state (ground (arith, e)) in
            rw (enforce_capacity, e, oldest)
              (evict-IsWithin eng.config.max_tracked_hosts x eng h found)
      ]
