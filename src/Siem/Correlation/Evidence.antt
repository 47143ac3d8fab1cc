-- ===== src/Siem/Correlation/Evidence.antt =====
-- When components/active-siem/crates/siem-correlation/src/lib.rs escalates a host: what the
-- evidence of a verdict is.
use active_spectral_defense.Base.{
  ◌≤◌, ◌≡◌, ◌↔◌, refl, sym, true, false, none, List, [], ◌∷◌, ◌++◌, ◌||◌, length, length-append,
  leb, All, arith, Bool-cases, inl, inr,
}
use active_spectral_defense.Float.{Float}
use active_spectral_defense.Siem.Correlation.{
  Severity, LaneSource, xdp, CorrelationEvent, HostRecord, max_of, same_source, contains_source,
  collect_sources, distinct_sources, max_severity_of, max_severity,
}
use active_spectral_defense.Siem.Correlation.Engine.{is_critical, reason_of}

same_source_iff : (a b : LaneSource) → (same_source a b ≡ true) ↔ (a ≡ b)
unfolding same_source
same_source_iff a b = ground arith

is_critical-max_of : (a b : Severity) → is_critical (max_of a b) ≡ (is_critical a || is_critical b)
unfolding max_of
is_critical-max_of a b = ground arith

module _ (f64 f32 : Float) where
  abbrev Event : Type 0
  Event = CorrelationEvent f64 f32

  collect_sources-le :
      (found : List LaneSource) (es : List Event)
      → length found ≤ length (collect_sources f64 f32 found es)
  unfolding collect_sources
  collect_sources-le found [] = omega arith
  collect_sources-le found (e ∷ es) = elim (Bool-cases (contains_source found e.source)) [
    | inl h ↦ rw h (collect_sources-le found es)
    | inr h ↦
        let ih = collect_sources-le (found ++ e.source ∷ []) es in
        let l = length-append found (e.source ∷ []) in rw h (omega (arith, ih, l))
  ]

  -- all events are of one lane
  abbrev pub Lane : LaneSource → List Event → Type 0
  Lane s = All (λ e. e.source ≡ s)

  abbrev pub Calm : List Event → Type 0
  Calm = All (λ e. is_critical e.severity ≡ false)

  contains-one : (s t : LaneSource) → contains_source (s ∷ []) t ≡ same_source s t
  unfolding contains_source
  contains-one s t = ground arith

  one-Lane :
      (s : LaneSource) (es : List Event)
      → (leb 2 (length (collect_sources f64 f32 (s ∷ []) es)) ≡ false) ↔ Lane s es
  unfolding collect_sources
  one-Lane s [] = (λ h. tt, λ h. refl)
  one-Lane s (e ∷ es) =
      let c = contains-one s e.source in
      let q = same_source_iff s e.source in
      elim (Bool-cases (same_source s e.source)) [
        | inl h ↦
            rw (c, h) (λ few. (sym (q.0 h), (one-Lane s es).0 few), λ all. (one-Lane s es).1 all.1)
        | inr h ↦
            let more = collect_sources-le (s ∷ e.source ∷ []) es in
            rw (c, h)
              (
                λ few. absurd (ground (arith, few, more)),
                λ all. absurd (ground (arith, h, q.1 (sym all.0))),
              )
      ]

  calm : (es : List Event) → (is_critical (max_severity_of f64 f32 es) ≡ false) ↔ Calm es
  unfolding max_severity_of
  calm [] = (λ h. tt, λ h. refl)
  calm (e ∷ es) =
      let ih = calm es in
      rw (is_critical-max_of e.severity (max_severity_of f64 f32 es))
        (λ h. (ground (arith, h), ih.0 (ground (arith, h))), λ h. ground (arith, h.0, ih.1 h.1))

  reason-none :
      (r : HostRecord f64 f32)
      → (reason_of f64 f32 r ≡ none) ↔ (
          (leb 2 (length (distinct_sources f64 f32 r)) ≡ false)
          × (is_critical (max_severity f64 f32 r) ≡ false))
  unfolding reason_of
  reason-none r = (λ h. ground (arith, h), λ h. ground (arith, h))

  sources-Lane :
      (es : List Event)
      → (leb 2 (length (collect_sources f64 f32 [] es)) ≡ false) ↔ ((s : LaneSource) × Lane s es)
  unfolding collect_sources contains_source
  sources-Lane [] = (λ h. (xdp, tt), λ h. refl)
  sources-Lane (e ∷ es) = (
    λ h. (e.source, (refl, (one-Lane e.source es).0 h)),
    λ (s, (p, all)). rw p ((one-Lane s es).1 all),
  )

  -- A host is left alone exactly if all its evidence comes from one lane and none of it is critical:
  -- two lanes, or one critical event, are what it takes for a verdict.
  pub reason_of_iff :
      (r : HostRecord f64 f32)
      → (reason_of f64 f32 r ≡ none) ↔ ((s : LaneSource) × Lane s r.evidence × Calm r.evidence)
  unfolding distinct_sources max_severity
  reason_of_iff r =
      let q = reason-none r in
      let lane = sources-Lane r.evidence in
      let quiet = calm r.evidence in
      (
        λ h. ((lane.0 ((q.0 h).0)).0, (lane.0 ((q.0 h).0)).1, quiet.0 ((q.0 h).1)),
        λ (s, one, all). q.1 (lane.1 (s, one), quiet.1 all),
      )
