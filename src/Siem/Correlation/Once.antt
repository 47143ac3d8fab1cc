-- ===== src/Siem/Correlation/Once.antt =====
-- The engine of components/active-siem/crates/siem-correlation/src/lib.rs escalates a host at most
-- once while it tracks it.
use active_spectral_defense.Base.{
  ℕ, suc, ◌+◌, ◌≤◌, ◌≡◌, refl, Bool, true, false, Option, none, some, List, [], ◌∷◌, arith, ite,
  leb, is_some, if◌then◌else◌, Bool-cases, Option-cases, inl, inr,
}
use active_spectral_defense.Float.{Float}
use active_spectral_defense.Map.{size, lookup, remove, IsMap}
use active_spectral_defense.Map.Laws.{lookup-insert, lookup-remove}
use active_spectral_defense.Firewall.Net.{IpAddr, IpAddr-discrete}
use active_spectral_defense.Siem.Correlation.{
  CorrelationEvent, HostRecord, Mpsc, new_record, push, remove_first,
}
use active_spectral_defense.Siem.Correlation.Engine.{
  CorrelationVerdict, CorrelationReason, verdict_of, oldest_host, emit, emit_if, reason_of,
  maybe_emit, sweep_expired, evict, enforce_capacity, entry, handle_event, with_record, received,
}
use active_spectral_defense.Siem.Correlation.Bounds.{
  IsWithin, IsBounded, Engine, with_record-IsWithin, maybe_emit-IsWithin,
}
use active_spectral_defense.Siem.Correlation.Turns.{
  Turn, tick, received_event, turn, run_turns, turn-IsNext, entry-Holds, sweep_expired-keeps,
}

module _ (f64 f32 : Float) where
  abbrev Verdicts : Type 0
  Verdicts = List (CorrelationVerdict f64 f32)

  -- A channel that keeps every verdict that was sent on it, newest first, whether it was taken or
  -- not. What it answers is arbitrary, and all that the engine sees of it.
  abbrev pub recorder :
      (CorrelationVerdict f64 f32 → Verdicts → Bool) → Mpsc (CorrelationVerdict f64 f32)
  recorder answer = record { Ch = Verdicts; try_send = λ v ch. (answer v ch, v ∷ ch) }

  abbrev one_if : IpAddr → IpAddr → ℕ
  one_if host other = ite (IpAddr-discrete host other) 1 0

  -- how many of the verdicts are on the host
  abbrev pub sent : IpAddr → Verdicts → ℕ
  sent host [] = 0
  sent host (v ∷ vs) = one_if v.host host + sent host vs

  -- whether a verdict on the host may still come
  abbrev pub left : Option (HostRecord f64 f32) → ℕ
  left none = 1
  left (some r) = if r.finalized then 0 else 1

  push-finalized :
      (event : CorrelationEvent f64 f32) (most : ℕ) (r r' : HostRecord f64 f32)
      → push f64 f32 event most r ≡ some r'
      → r'.finalized ≡ r.finalized
  unfolding push remove_first
  push-finalized event most r r' h = ground (arith, h)

  module _ (answer : CorrelationVerdict f64 f32 → Verdicts → Bool) where
    abbrev pub Recorded : Type 0
    Recorded = Engine f64 f32 (recorder answer)

    abbrev balance : IpAddr → Recorded → ℕ
    balance host eng = sent host eng.out_tx + left (lookup IpAddr-discrete host eng.state)

    emit-balance :
        (now : ℕ) (host other : IpAddr) (r : HostRecord f64 f32) (reason : CorrelationReason)
        (eng : Recorded)
        → lookup IpAddr-discrete other eng.state ≡ some r
        → r.finalized ≡ false
        → balance host (emit f64 f32 (recorder answer) now other r reason eng) ≤ balance host eng
    unfolding emit verdict_of
    emit-balance now host other r reason eng found fresh =
        let done : HostRecord f64 f32 = record r { finalized = true } in
        let after = lookup-insert IpAddr-discrete other host done eng.state in
        ground (arith, after, found, fresh)

    with_record-balance :
        (host other : IpAddr) (r : HostRecord f64 f32) (eng : Recorded)
        → left (some r) ≡ left (lookup IpAddr-discrete other eng.state)
        → balance host (with_record f64 f32 (recorder answer) other r eng) ≡ balance host eng
    with_record-balance host other r eng same =
        let after = lookup-insert IpAddr-discrete other host r eng.state in
        ground (arith, after, same)

    abbrev Tracked : IpAddr → Recorded → Type 0
    Tracked host eng = is_some (lookup IpAddr-discrete host eng.state) ≡ true

    maybe_emit-balance :
        (now : ℕ) (host other : IpAddr) (eng : Recorded) (r : HostRecord f64 f32)
        → lookup IpAddr-discrete other eng.state ≡ some r
        → r.finalized ≡ false
        → balance host (maybe_emit f64 f32 (recorder answer) now other eng) ≤ balance host eng
    unfolding maybe_emit emit_if
    maybe_emit-balance now host other eng r found fresh =
        elim (Option-cases (reason_of f64 f32 r)) [
          | inl e ↦ rw (found, maybe_emit, e) (omega arith)
          | inr (reason, e) ↦
              rw (found, maybe_emit, e) (emit-balance now host other r reason eng found fresh)
        ]

    enforce_capacity-balance :
        (host : IpAddr) (eng : Recorded)
        → IsMap IpAddr-discrete eng.state
        → Tracked host (enforce_capacity f64 f32 (recorder answer) eng)
        → balance host (enforce_capacity f64 f32 (recorder answer) eng) ≤ balance host eng
    unfolding enforce_capacity evict
    enforce_capacity-balance host eng ok tracked =
        elim (Bool-cases (leb (size eng.state) eng.config.max_tracked_hosts)) [
          | inl e ↦ rw (enforce_capacity, e) (omega arith)
          | inr e ↦ elim (Option-cases (oldest_host f64 f32 eng.state)) [
            | inl f ↦ rw (enforce_capacity, e, f) (omega arith)
            | inr (x, f) ↦
                let removed = lookup-remove IpAddr-discrete x host eng.state ok in
                let still : is_some
                      (lookup IpAddr-discrete host (remove IpAddr-discrete x eng.state))
                    ≡ true =
                  rw (enforce_capacity, e, f) at tracked in
                rw (enforce_capacity, e, f) (ground (arith, removed, still))
          ]
        ]

    sweep_expired-balance :
        (now : ℕ) (host : IpAddr) (eng : Recorded)
        → IsMap IpAddr-discrete eng.state
        → Tracked host (sweep_expired f64 f32 (recorder answer) now eng)
        → balance host (sweep_expired f64 f32 (recorder answer) now eng) ≤ balance host eng
    unfolding sweep_expired
    sweep_expired-balance now host eng ok tracked =
        let kept = sweep_expired-keeps f64 f32 (recorder answer) now host eng ok in
        ground (arith, kept, tracked)

    -- the new record is final exactly if the old one was
    entry-left :
        (event : CorrelationEvent f64 f32) (most : ℕ) (o : Option (HostRecord f64 f32)) (b : Bool)
        (r : HostRecord f64 f32)
        → entry f64 f32 (recorder answer) event most o ≡ some (b, r)
        → (r.finalized ≡ b) × (left (some r) ≡ left o)
    unfolding entry new_record
    entry-left event most none b r h = ground (arith, h)
    entry-left event most (some old) b r h = elim (Option-cases (push f64 f32 event most old)) [
      | inl e ↦ absurd (ground (arith, h, e))
      | inr (r', e) ↦ ground (arith, h, e, push-finalized event most old r' e)
    ]

    finish-balance :
        (now : ℕ) (host other : IpAddr) (final : Bool) (r : HostRecord f64 f32) (most : ℕ)
        (stored : Recorded)
        → IsWithin f64 f32 (recorder answer) most stored
        → lookup IpAddr-discrete other stored.state ≡ some r
        → r.finalized ≡ final
        → let mid =
            if final then stored else maybe_emit f64 f32 (recorder answer) now other stored in
          Tracked host (enforce_capacity f64 f32 (recorder answer) mid)
          → balance host (enforce_capacity f64 f32 (recorder answer) mid) ≤ balance host stored
    finish-balance now host other true r most stored h found final tracked =
        enforce_capacity-balance host stored h.one_record tracked
    finish-balance now host other false r most stored h found final tracked =
        let mid = maybe_emit f64 f32 (recorder answer) now other stored in
        let within = maybe_emit-IsWithin f64 f32 (recorder answer) most now other stored h in
        let first = maybe_emit-balance now host other stored r found final in
        let second = enforce_capacity-balance host mid within.one_record tracked in
        omega (arith, first, second)

    handle_event-balance :
        (now : ℕ) (host : IpAddr) (event : CorrelationEvent f64 f32) (eng eng' : Recorded)
        → IsBounded f64 f32 (recorder answer) eng
        → handle_event f64 f32 (recorder answer) now event eng ≡ some eng'
        → Tracked host eng'
        → balance host eng' ≤ balance host eng
    unfolding handle_event
    handle_event-balance now host event eng eng' h done tracked =
        let (b, r, found, p) =
          entry-Holds f64 f32 (recorder answer) event eng eng.config.max_tracked_hosts h in
        let (final, same) =
          entry-left event eng.config.max_evidence_per_host
            (lookup IpAddr-discrete event.host eng.state) b r found in
        let stored =
          with_record f64 f32 (recorder answer) event.host r
            (received f64 f32 (recorder answer) eng) in
        let within =
          with_record-IsWithin f64 f32 (recorder answer) eng.config.max_tracked_hosts event.host r
            eng h p in
        let after = lookup-insert IpAddr-discrete event.host event.host r eng.state in
        let here : lookup IpAddr-discrete event.host stored.state ≡ some r =
          ground (arith, after) in
        let mid =
          if b then stored else maybe_emit f64 f32 (recorder answer) now event.host stored in
        let e : some (enforce_capacity f64 f32 (recorder answer) mid) ≡ some eng' =
          rw (handle_event, found) at done in
        let path : eng' ≡ enforce_capacity f64 f32 (recorder answer) mid = ground (arith, e) in
        let tracked' : Tracked host (enforce_capacity f64 f32 (recorder answer) mid) =
          rw path at tracked in
        let last =
          finish-balance now host event.host b r (suc eng.config.max_tracked_hosts) stored within
            here final tracked' in
        let first =
          with_record-balance host event.host r (received f64 f32 (recorder answer) eng) same in
        rw path (omega (arith, last, first))

    turn-balance :
        (t : Turn f64 f32 (recorder answer)) (host : IpAddr) (eng eng' : Recorded)
        → IsBounded f64 f32 (recorder answer) eng
        → turn f64 f32 (recorder answer) t eng ≡ some eng'
        → Tracked host eng'
        → balance host eng' ≤ balance host eng
    unfolding turn
    turn-balance (tick now) host eng eng' h e tracked =
        let path : eng' ≡ sweep_expired f64 f32 (recorder answer) now eng = ground (arith, e) in
        let tracked' : Tracked host (sweep_expired f64 f32 (recorder answer) now eng) =
          rw path at tracked in
        rw path (sweep_expired-balance now host eng h.one_record tracked')
    turn-balance (received_event now event) host eng eng' h e tracked =
        handle_event-balance now host event eng eng' h e tracked

    -- the host is tracked after each of these turns
    unfoldable pub StaysTracked : IpAddr → List (Turn f64 f32 (recorder answer)) → Recorded → Type 0
    StaysTracked host [] eng = Unit
    StaysTracked host (t ∷ ts) eng = elim (turn f64 f32 (recorder answer) t eng) [
      | none ↦ ⊥
      | some eng' ↦ Tracked host eng' × StaysTracked host ts eng'
    ]

    run_turns-balance :
        (ts : List (Turn f64 f32 (recorder answer))) (host : IpAddr) (eng : Recorded)
        → IsBounded f64 f32 (recorder answer) eng
        → StaysTracked host ts eng
        → (eng' : Recorded) × (run_turns f64 f32 (recorder answer) ts eng ≡ some eng')
          × (balance host eng' ≤ balance host eng)
    unfolding run_turns StaysTracked
    run_turns-balance [] host eng h stays = (eng, refl, omega arith)
    run_turns-balance (t ∷ ts) host eng h stays =
        let (mid, first, (same, b)) = turn-IsNext f64 f32 (recorder answer) t eng h in
        let stays' : Tracked host mid × StaysTracked host ts mid =
          rw (StaysTracked, first) at stays in
        let step = turn-balance t host eng mid h first stays'.0 in
        let (eng', rest, more) = run_turns-balance ts host mid b stays'.1 in
        (eng', rw (first, run_turns) rest, omega (arith, step, more))

    -- In an engine within its limits, over any turns after each of which a host is tracked, whether
    -- it was so before them or not, the engine does not panic and sends no more than one verdict on
    -- the host, and none if one was decided before. This holds whatever the channel to containment
    -- answers.
    pub run_turns-once :
        (ts : List (Turn f64 f32 (recorder answer))) (host : IpAddr) (eng : Recorded)
        → IsBounded f64 f32 (recorder answer) eng
        → StaysTracked host ts eng
        → (eng' : Recorded) × (run_turns f64 f32 (recorder answer) ts eng ≡ some eng')
          × (sent host eng'.out_tx
              ≤ sent host eng.out_tx + left (lookup IpAddr-discrete host eng.state))
    run_turns-once ts host eng h stays =
        let (eng', e, b) = run_turns-balance ts host eng h stays in (eng', e, omega (arith, b))
