-- ===== src/Siem/Response/Blocked.antt =====
-- How long components/active-siem/crates/siem-response/src/lib.rs leaves a target alone.
use active_spectral_defense.Base.{
  ℕ, ◌+◌, ◌-◌, ◌≤◌, ◌<◌, ◌≡◌, refl, Bool, true, String, some, List, [], ◌∷◌, ite, All, arith,
  String-discrete, inl, inr, ltb,
}
use active_spectral_defense.Map.{lookup, contains_key, IsMap}
use active_spectral_defense.Map.Laws.{
  lookup-insert, lookup-retain, insert-IsMap, retain-IsMap, contains_key-is_some,
}
use active_spectral_defense.Siem.Response.{
  Alert, ResponsePolicy, actioned, handle, note_action, forget, expire_blocks,
}
use active_spectral_defense.Siem.Response.Rate.{is_actioned, handle-shape}

-- what the server does with the policy
pub data Call : Type 0 where
  handles : ℕ → Alert → String → Call
  expires : ℕ → Call

-- the expiries come between `start` and the end of a block that begins there
abbrev pub InTime : ℕ → ℕ → Call → Type 0
InTime start duration (handles now alert target) = Unit
InTime start duration (expires now) = (start ≤ now) × (now < start + duration)

-- the number, if the targets are the same
abbrev only : String → String → ℕ → ℕ
only other target n = ite (String-discrete other target) n 0

-- the target was blocked at `since`, for the duration
record IsBlocked (target : String) (since duration : ℕ) (p : ResponsePolicy) : Type 0 where
  is_map : IsMap String-discrete p.active_blocks
  found : lookup String-discrete target p.active_blocks ≡ some since
  lasts : p.block_duration ≡ duration

module _ {A : Type 0} (execute : Alert → String → A → Bool × A) where
  -- how often the target is acted upon in these calls
  pub acted_on : String → List Call → ResponsePolicy → A → ℕ
  acted_on target [] p a = 0
  acted_on target (handles now alert other ∷ cs) p a =
      let (outcome, p', a') = handle execute now alert other p a in
      only other target (is_actioned outcome) + acted_on target cs p' a'
  acted_on target (expires now ∷ cs) p a = acted_on target cs (expire_blocks now p) a

  refused :
      (now : ℕ) (alert : Alert) (target : String) (p : ResponsePolicy) (a : A)
      → contains_key String-discrete target p.active_blocks ≡ true
      → is_actioned (handle execute now alert target p a).0 ≡ 0
  unfolding handle
  refused now alert target p a h = ground (arith, h)

  -- another target's action leaves the block
  note_action-IsBlocked :
      (now since duration : ℕ) (other target : String) (p : ResponsePolicy)
      → only other target 1 ≡ 0
      → IsBlocked target since duration p
      → IsBlocked target since duration (note_action now other (forget now p))
  unfolding note_action forget
  note_action-IsBlocked now since duration other target p apart h = record {
    is_map = insert-IsMap String-discrete other now p.active_blocks h.is_map;
    found =
        let found = lookup-insert String-discrete other target now p.active_blocks in
        ground (arith, found, h.found, apart);
    lasts = h.lasts;
  }

  forget-IsBlocked :
      (now since duration : ℕ) (target : String) (p : ResponsePolicy)
      → IsBlocked target since duration p
      → IsBlocked target since duration (forget now p)
  unfolding forget
  forget-IsBlocked now since duration target p h = record {
    is_map = h.is_map;
    found = h.found;
    lasts = h.lasts;
  }

  ite-zero : (other target : String) → only other target 0 ≡ 0
  ite-zero other target = ground arith

  -- one call, on the blocked target or on another
  handle-IsBlocked :
      (now since duration : ℕ) (alert : Alert) (other target : String) (p : ResponsePolicy) (a : A)
      → IsBlocked target since duration p
      → let r = handle execute now alert other p a in
        (only other target (is_actioned r.0) ≡ 0) × IsBlocked target since duration r.1
  handle-IsBlocked now since duration alert other target p a h =
      elim (handle-shape execute now alert other p a) [
        | inr (zero_taken, inl e) ↦ rw (zero_taken, e) (ite-zero other target, h)
        | inr (zero_taken, inr e) ↦
            rw (zero_taken, e)
              (ite-zero other target, forget-IsBlocked now since duration target p h)
        | inl (one, room, e) ↦
            let apart : only other target 1 ≡ 0 =
              apart_actioned now since duration alert other target p a h one in
            rw (one, e) (apart, note_action-IsBlocked now since duration other target p apart h)
      ]
    where
      apart_actioned :
          (now since duration : ℕ) (alert : Alert) (other target : String) (p : ResponsePolicy)
          (a : A)
          → IsBlocked target since duration p
          → is_actioned (handle execute now alert other p a).0 ≡ 1
          → only other target 1 ≡ 0
      apart_actioned now since duration alert other target p a h one =
          let key = contains_key-is_some String-discrete other p.active_blocks in
          let none_taken = refused now alert other p a in
          ground (arith, key, h.found, one, none_taken)

  expire_blocks-IsBlocked :
      (now since duration : ℕ) (target : String) (p : ResponsePolicy)
      → since ≤ now
      → now < since + duration
      → IsBlocked target since duration p
      → IsBlocked target since duration (expire_blocks now p)
  unfolding expire_blocks
  expire_blocks-IsBlocked now since duration target p lo hi h = record {
    is_map = retain-IsMap String-discrete _ p.active_blocks h.is_map;
    found =
        let kept =
          lookup-retain String-discrete (λ (key : String) (t : ℕ). ltb (now - t) p.block_duration)
            target p.active_blocks h.is_map in
        ground (arith, kept, h.found, h.lasts, lo, hi);
    lasts = h.lasts;
  }

  blocked-zero :
      (since duration : ℕ) (target : String) (cs : List Call) (p : ResponsePolicy) (a : A)
      → All (InTime since duration) cs
      → IsBlocked target since duration p
      → acted_on target cs p a ≡ 0
  unfolding acted_on
  blocked-zero since duration target [] p a w h = refl
  blocked-zero since duration target (handles now alert other ∷ cs) p a w h =
      let r = handle execute now alert other p a in
      let (zero_taken, h') = handle-IsBlocked now since duration alert other target p a h in
      let later = blocked-zero since duration target cs r.1 r.2 w.1 h' in
      omega (arith, zero_taken, later)
  blocked-zero since duration target (expires now ∷ cs) p a w h =
      blocked-zero since duration target cs (expire_blocks now p) a w.1
        (expire_blocks-IsBlocked now since duration target p w.0.0 w.0.1 h)

  -- the block that an action leaves
  actioned-IsBlocked :
      (now : ℕ) (alert : Alert) (target : String) (p : ResponsePolicy) (a : A)
      → IsMap String-discrete p.active_blocks
      → (handle execute now alert target p a).0 ≡ actioned
      → IsBlocked target now p.block_duration (handle execute now alert target p a).1
  unfolding note_action forget
  actioned-IsBlocked now alert target p a ok acted =
      elim (handle-shape execute now alert target p a) [
        | inr (zero_taken, rest) ↦ absurd (ground (arith, acted, zero_taken))
        | inl (one, room, e) ↦ rw e (record {
          is_map = insert-IsMap String-discrete target now p.active_blocks ok;
          found =
              let found = lookup-insert String-discrete target target now p.active_blocks in
              ground (arith, found);
          lasts = refl;
        })
      ]

  -- If a target is acted upon at `now`, then in no sequence of further calls, alerts of any target
  -- at any time and expiries of blocks before the block duration has passed since `now`, is it
  -- acted upon again. The policy has one entry for a blocked target before the action.
  pub handle-duplicate :
      (now : ℕ) (alert : Alert) (target : String) (p : ResponsePolicy) (a b : A) (cs : List Call)
      → IsMap String-discrete p.active_blocks
      → (handle execute now alert target p a).0 ≡ actioned
      → All (InTime now p.block_duration) cs
      → acted_on target cs (handle execute now alert target p a).1 b ≡ 0
  handle-duplicate now alert target p a b cs ok acted w =
      blocked-zero now p.block_duration target cs (handle execute now alert target p a).1 b w
        (actioned-IsBlocked now alert target p a ok acted)
