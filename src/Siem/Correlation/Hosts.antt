-- ===== src/Siem/Correlation/Hosts.antt =====
-- The host records of the correlation engine of
-- components/active-siem/crates/siem-correlation/src/lib.rs, one by one and in the map.
use active_spectral_defense.Base.{
  ℕ, suc, ◌≤◌, ◌≡◌, refl, ◌∙◌, Bool, true, some, List, [], ◌∷◌, ◌++◌, length, length-append, leb,
  ltb, arith, if◌then◌else◌, Bool-cases, inl, inr, is_some, max, if_pos, if_neg, ◌⊎◌,
}
use active_spectral_defense.Float.{Float}
use active_spectral_defense.Map.{size, lookup, insert, remove, retain}
use active_spectral_defense.Firewall.Net.{IpAddr, IpAddr-discrete}
use active_spectral_defense.Siem.Correlation.{CorrelationEvent, HostRecord, push, remove_first}
use active_spectral_defense.Siem.Correlation.Engine.{Hosts, older, oldest_host}

module _ (f64 f32 : Float) where
  -- a host has evidence, and no more than is allowed, or one event where none is
  abbrev pub Holds : ℕ → HostRecord f64 f32 → Type 0
  Holds most r = (1 ≤ length r.evidence) × (length r.evidence ≤ max 1 most)

  -- every host's record is so
  abbrev pub AllHosts : (HostRecord f64 f32 → Type 0) → Hosts f64 f32 → Type 0
  AllHosts P [] = Unit
  AllHosts P ((host, r) ∷ m) = P r × AllHosts P m

  module _ (P : HostRecord f64 f32 → Type 0) where
    pub AllHosts-insert :
        (host : IpAddr) (r : HostRecord f64 f32) (m : Hosts f64 f32)
        → P r
        → AllHosts P m
        → AllHosts P (insert IpAddr-discrete host r m)
    unfolding insert
    AllHosts-insert host r [] p h = (p, tt)
    AllHosts-insert host r ((j, s) ∷ m) p h = elim (IpAddr-discrete j host) [
      | yes e ↦ rw (if_pos _ e) (p, h.1)
      | no e ↦ rw (if_neg _ e) (h.0, AllHosts-insert host r m p h.1)
    ]

    pub AllHosts-remove :
        (host : IpAddr) (m : Hosts f64 f32)
        → AllHosts P m
        → AllHosts P (remove IpAddr-discrete host m)
    unfolding remove
    AllHosts-remove host [] h = tt
    AllHosts-remove host ((j, s) ∷ m) h = elim (IpAddr-discrete j host) [
      | yes e ↦ rw (if_pos _ e) h.1
      | no e ↦ rw (if_neg _ e) (h.0, AllHosts-remove host m h.1)
    ]

    pub AllHosts-retain :
        (p : IpAddr → HostRecord f64 f32 → Bool) (m : Hosts f64 f32)
        → AllHosts P m
        → AllHosts P (retain p m)
    unfolding retain
    AllHosts-retain p [] h = tt
    AllHosts-retain p ((j, s) ∷ m) h = elim (Bool-cases (p j s)) [
      | inl e ↦ rw (e, retain) (h.0, AllHosts-retain p m h.1)
      | inr e ↦ rw (e, retain) (AllHosts-retain p m h.1)
    ]

    pub AllHosts-lookup :
        (host : IpAddr) (r : HostRecord f64 f32) (m : Hosts f64 f32)
        → AllHosts P m
        → lookup IpAddr-discrete host m ≡ some r
        → P r
    unfolding lookup
    AllHosts-lookup host r [] h e = absurd (ground (arith, e))
    AllHosts-lookup host r ((j, s) ∷ m) h e = elim (IpAddr-discrete j host) [
      | yes y ↦
          let q : some s ≡ some r = rw (if_pos _ y) at e in
          let p : s ≡ r = ground (arith, q) in rw⁻¹ p h.0
      | no n ↦
          let q : lookup IpAddr-discrete host m ≡ some r = rw (if_neg _ n) at e in
          AllHosts-lookup host r m h.1 q
    ]

  first-cases :
      (es : List (CorrelationEvent f64 f32))
      → 1 ≤ length es
      → (rest : List (CorrelationEvent f64 f32)) × (remove_first f64 f32 es ≡ some rest)
        × (length es ≡ suc (length rest))
  unfolding remove_first
  first-cases [] h = absurd (omega arith)
  first-cases (e ∷ rest) h = (rest, refl, refl)

  pub push-Holds :
      (event : CorrelationEvent f64 f32) (most : ℕ) (r : HostRecord f64 f32)
      → Holds most r
      → (r' : HostRecord f64 f32) × (push f64 f32 event most r ≡ some r') × Holds most r'
  unfolding push
  push-Holds event most r h =
      let (rest, removed, l) = first-cases r.evidence h.0 in
      elim (Bool-cases (leb most (length r.evidence))) [
        | inl e ↦
            let n = length-append rest (event ∷ []) in
            (
              record r { last_seen = event.observed_at; evidence = rest ++ event ∷ [] },
              rw (push, e, removed) refl,
              ground (arith, n, l, h.1),
            )
        | inr e ↦
            let n = length-append r.evidence (event ∷ []) in
            (
              record r { last_seen = event.observed_at; evidence = r.evidence ++ event ∷ [] },
              rw (push, e) refl,
              ground (arith, n, e, h.1),
            )
      ]

  lookup_cons :
      (x j : IpAddr) (s : HostRecord f64 f32) (m : Hosts f64 f32)
      → is_some (lookup IpAddr-discrete x m) ≡ true
      → is_some (lookup IpAddr-discrete x ((j, s) ∷ m)) ≡ true
  unfolding lookup
  lookup_cons x j s m h = ground (arith, h)

  lookup_head :
      (x j : IpAddr) (s : HostRecord f64 f32) (m : Hosts f64 f32)
      → x ≡ j
      → is_some (lookup IpAddr-discrete x ((j, s) ∷ m)) ≡ true
  unfolding lookup
  lookup_head x j s m h = ground (arith, h)

  older-cases :
      (best : IpAddr × ℕ) (m : Hosts f64 f32)
      → ((older f64 f32 best m).0 ≡ best.0)
        ⊎ (is_some (lookup IpAddr-discrete (older f64 f32 best m).0 m) ≡ true)
  unfolding older
  older-cases best [] = inl refl
  older-cases best ((host, r) ∷ m) =
      let next = if ltb r.last_seen best.1 then (host, r.last_seen) else best in
      let x = (older f64 f32 next m).0 in
      elim (older-cases next m) [
        | inr found ↦ inr (lookup_cons x host r m found)
        | inl same ↦ elim (Bool-cases (ltb r.last_seen best.1)) [
          | inl e ↦ let p : next.0 ≡ host = rw e refl in inr (lookup_head x host r m (same ∙ p))
          | inr e ↦ let p : next.0 ≡ best.0 = rw e refl in inl (same ∙ p)
        ]
      ]

  pub oldest_host-cases :
      (m : Hosts f64 f32)
      → 1 ≤ size m
      → (x : IpAddr) × (oldest_host f64 f32 m ≡ some x)
        × (is_some (lookup IpAddr-discrete x m) ≡ true)
  unfolding oldest_host
  oldest_host-cases [] h = absurd (omega arith)
  oldest_host-cases ((host, r) ∷ m) h =
      let x = (older f64 f32 (host, r.last_seen) m).0 in
      elim (older-cases (host, r.last_seen) m) [
        | inl same ↦ (x, refl, lookup_head x host r m same)
        | inr found ↦ (x, refl, lookup_cons x host r m found)
      ]
