-- ===== src/Siem/Response/Rate.antt =====
-- How often components/active-siem/crates/siem-response/src/lib.rs acts by itself.
use active_spectral_defense.Base.{
  ℕ, ◌+◌, ◌-◌, ◌%◌, ◌^◌, ◌≤◌, ◌<◌, ◌≡◌, refl, Bool, false, String, List, [], ◌∷◌, ◌++◌, length,
  length-append, filter, leb, ltb, All, arith, ◌⊎◌, String-discrete, Bool-cases, inl, inr,
}
use active_spectral_defense.Map.{contains_key}
use active_spectral_defense.Siem.Response.{
  Alert, ResponsePolicy, Outcome, actioned, handle, perform, rate_limited, forget, note_action,
  contains, rank,
}

abbrev pub is_actioned : Outcome → ℕ
is_actioned actioned = 1
is_actioned _ = 0

module _ {A : Type 0} (execute : Alert → String → A → Bool × A) where
  -- how many of these alerts, each with its time and its target, are acted upon
  pub taken : List (ℕ × Alert × String) → ResponsePolicy → A → ℕ
  taken [] p a = 0
  taken ((now, alert, target) ∷ later) p a =
      let (outcome, p', a') = handle execute now alert target p a in
      is_actioned outcome + taken later p' a'

-- the calls come between `start` and the end of the window that begins there
abbrev pub Within : ℕ → ℕ → List (ℕ × Alert × String) → Type 0
Within start window =
    All (λ (call : ℕ × Alert × String). (start ≤ call.0) × (call.0 < start + window))

-- `k` actions were taken, all since `start`
record IsRecent (start k most window : ℕ) (p : ResponsePolicy) : Type 0 where
  since : All (λ t. start ≤ t) p.recent_actions
  number : length p.recent_actions ≡ k
  same_most : p.max_actions_per_window ≡ most
  same_window : p.window ≡ window

filter-recent :
    (start now window : ℕ) (ts : List ℕ)
    → start ≤ now
    → now < start + window
    → All (λ t. start ≤ t) ts
    → filter (λ t. ltb (now - t) window) ts ≡ ts
filter-recent start now window [] lo hi h = refl
filter-recent start now window (t ∷ ts) lo hi h =
    ground (arith, h.0, filter-recent start now window ts lo hi h.1)

All-push :
    (start now : ℕ) (ts : List ℕ)
    → start ≤ now
    → All (λ t. start ≤ t) ts
    → All (λ t. start ≤ t) (ts ++ now ∷ [])
All-push start now [] lo h = (lo, tt)
All-push start now (t ∷ ts) lo h = (h.0, All-push start now ts lo h.1)

module _ {A : Type 0} (execute : Alert → String → A → Bool × A) where
  -- one call: it takes an action only below the limit, and counts it
  pub handle-shape :
      (now : ℕ) (alert : Alert) (target : String) (p : ResponsePolicy) (a : A)
      → let r = handle execute now alert target p a in
        let q = forget now p in
        ((is_actioned r.0 ≡ 1)
          × (leb p.max_actions_per_window (length q.recent_actions % 2 ^ 32) ≡ false)
          × (r.1 ≡ note_action now target q))
        ⊎ ((is_actioned r.0 ≡ 0) × ((r.1 ≡ p) ⊎ (r.1 ≡ q)))
  unfolding handle perform rate_limited
  handle-shape now alert target p a =
      elim (Bool-cases (ltb (rank alert.severity) (rank p.min_severity))) [
        | inl e ↦ rw (handle, e) (inr (refl, inl refl))
        | inr e1 ↦ elim (Bool-cases (contains p.allowlist target)) [
          | inl e ↦ rw (handle, e1, e) (inr (refl, inl refl))
          | inr e2 ↦ elim (Bool-cases (contains_key String-discrete target p.active_blocks)) [
            | inl e ↦ rw (handle, e1, e2, e) (inr (refl, inl refl))
            | inr e3 ↦ elim (Bool-cases (rate_limited now p).0) [
              | inl e ↦ rw (handle, e1, e2, e3, e) (inr (refl, inr refl))
              | inr e4 ↦ elim (Bool-cases (execute alert target a).0) [
                | inl e ↦ rw (handle, e1, e2, e3, e4, perform, e) (inl (refl, refl, refl))
                | inr e ↦ rw (handle, e1, e2, e3, e4, perform, e) (inr (refl, inr refl))
              ]
            ]
          ]
        ]
      ]

  forget-IsRecent :
      (start k most window now : ℕ) (p : ResponsePolicy)
      → start ≤ now
      → now < start + window
      → IsRecent start k most window p
      → IsRecent start k most window (forget now p)
  unfolding forget
  forget-IsRecent start k most window now p lo hi h =
      let f : filter (λ t. ltb (now - t) p.window) p.recent_actions ≡ p.recent_actions =
        rw h.same_window (filter-recent start now window p.recent_actions lo hi h.since) in
      record {
        since = rw f h.since;
        number = rw f h.number;
        same_most = h.same_most;
        same_window = h.same_window;
      }

  note_action-IsRecent :
      (start k most window now : ℕ) (target : String) (p : ResponsePolicy)
      → start ≤ now
      → IsRecent start k most window p
      → IsRecent start (k + 1) most window (note_action now target p)
  unfolding note_action
  note_action-IsRecent start k most window now target p lo h = record {
    since = All-push start now p.recent_actions lo h.since;
    number =
        let n = length-append p.recent_actions (now ∷ []) in
        let m = h.number in omega (arith, n, m);
    same_most = h.same_most;
    same_window = h.same_window;
  }

  handle-IsRecent :
      (start k most window now : ℕ) (alert : Alert) (target : String) (p : ResponsePolicy) (a : A)
      → most < 2 ^ 32
      → k ≤ most
      → start ≤ now
      → now < start + window
      → IsRecent start k most window p
      → let r = handle execute now alert target p a in
        (k + is_actioned r.0 ≤ most) × IsRecent start (k + is_actioned r.0) most window r.1
  handle-IsRecent start k most window now alert target p a small fits lo hi h =
      let q = forget-IsRecent start k most window now p lo hi h in
      let z : k + 0 ≡ k = omega arith in
      elim (handle-shape now alert target p a) [
        | inl (one, room, e) ↦
            let n = q.number in
            let m = h.same_most in
            rw (one, e)
              (
                ground (arith, room, n, m),
                note_action-IsRecent start k most window now target (forget now p) lo q,
              )
        | inr (none_taken, inl e) ↦ rw (none_taken, e, z) (fits, h)
        | inr (none_taken, inr e) ↦ rw (none_taken, e, z) (fits, q)
      ]

  taken-le :
      (start k most window : ℕ) (calls : List (ℕ × Alert × String)) (p : ResponsePolicy) (a : A)
      → most < 2 ^ 32
      → k ≤ most
      → Within start window calls
      → IsRecent start k most window p
      → k + taken execute calls p a ≤ most
  unfolding taken
  taken-le start k most window [] p a small fits w h = omega (arith, fits)
  taken-le start k most window ((now, alert, target) ∷ later) p a small fits w h =
      let r = handle execute now alert target p a in
      let (fits', h') =
        handle-IsRecent start k most window now alert target p a small fits w.0.0 w.0.1 h in
      let ih = taken-le start (k + is_actioned r.0) most window later r.1 r.2 small fits' w.1 h' in
      omega (arith, ih)

  -- Of any alerts handled within one window of time, beginning with a policy that has no recent
  -- actions and a 32-bit `max_actions_per_window`, no more than that number are acted upon,
  -- whatever the executor answers.
  pub taken-bounded :
      (start : ℕ) (calls : List (ℕ × Alert × String)) (p : ResponsePolicy) (a : A)
      → p.max_actions_per_window < 2 ^ 32
      → p.recent_actions ≡ []
      → Within start p.window calls
      → taken execute calls p a ≤ p.max_actions_per_window
  taken-bounded start calls p a small fresh w =
      let h : IsRecent start 0 p.max_actions_per_window p.window p = record {
        since = rw fresh tt;
        number = rw fresh refl;
        same_most = refl;
        same_window = refl;
      } in
      let bound =
        taken-le start 0 p.max_actions_per_window p.window calls p a small (omega arith) w h in
      omega (arith, bound)
