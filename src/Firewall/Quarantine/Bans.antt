-- ===== src/Firewall/Quarantine/Bans.antt =====
-- Who is banned, and until when, in components/firewall-perimeter/src/quarantine.rs.
use active_spectral_defense.Base.{
  ℕ, ◌+◌, ◌≤◌, ◌<◌, ◌≡◌, refl, ◌∙◌, Bool, true, false, Option, none, some, List, [], ◌∷◌, ◌&&◌,
  ◌||◌, ltb, is_some, if◌then◌else◌, ite, arith, Bool-cases, Option-cases, inl, inr,
}
use active_spectral_defense.Map.{size, lookup, insert, remove, retain, IsMap}
use active_spectral_defense.Map.Laws.{
  contains_key-is_some, lookup-insert, lookup-remove, lookup-retain,
}
use active_spectral_defense.Firewall.Net.{IpAddr, IpAddr-discrete}
use active_spectral_defense.Firewall.Conntrack.{u64}
use active_spectral_defense.Firewall.Quarantine.{
  Quarantine, SyncJob, ban_job, enqueue_sync, later_expiry, enter, ban, instant_end, is_active,
  manual_unban, expired_at, enqueue_unbans, sweep_expired,
}

pub enqueue-table : (job : SyncJob) (q : Quarantine) → (enqueue_sync job q).table ≡ q.table
unfolding enqueue_sync
enqueue-table job q = elim (Option-cases q.os_sync) [ inl e ↦ rw e refl | inr (tx, e) ↦ rw e refl ]

pub enqueue-max :
    (job : SyncJob) (q : Quarantine) → (enqueue_sync job q).max_entries ≡ q.max_entries
unfolding enqueue_sync
enqueue-max job q = elim (Option-cases q.os_sync) [ inl e ↦ rw e refl | inr (tx, e) ↦ rw e refl ]

pub unbans-table : (ips : List IpAddr) (q : Quarantine) → (enqueue_unbans ips q).table ≡ q.table
unfolding enqueue_unbans
unbans-table [] q = refl
unbans-table (ip ∷ ips) q = unbans-table ips _ ∙ enqueue-table _ q

pub unbans-max :
    (ips : List IpAddr) (q : Quarantine) → (enqueue_unbans ips q).max_entries ≡ q.max_entries
unfolding enqueue_unbans
unbans-max [] q = refl
unbans-max (ip ∷ ips) q = unbans-max ips _ ∙ enqueue-max _ q

active_until : ℕ → Option ℕ → Bool
active_until now none = false
active_until now (some expiry) = ltb now expiry

is_active-lookup :
    (now : ℕ) (ip : IpAddr) (q : Quarantine)
    → is_active now ip q ≡ active_until now (lookup IpAddr-discrete ip q.table)
unfolding is_active active_until
is_active-lookup now ip q = refl

-- whether a ban of the address is recorded
unfoldable pub admits : IpAddr → Quarantine → Bool
admits ip q = is_some (lookup IpAddr-discrete ip q.table) || ltb (size q.table) q.max_entries

pub enter-result :
    (now duration : ℕ) (ip : IpAddr) (q : Quarantine) → (enter now ip duration q).0 ≡ admits ip q
unfolding enter admits
enter-result now duration ip q =
    let e = contains_key-is_some IpAddr-discrete ip q.table in rw e (ground arith)

-- the quarantine with the ban, before its job is enqueued
abbrev pub banned : (now duration : ℕ) (ip : IpAddr) (q : Quarantine) → Quarantine
banned now duration ip q = record q {
  table =
      insert IpAddr-discrete ip (later_expiry (now + duration) (lookup IpAddr-discrete ip q.table))
        q.table;
  bans_total = u64 (q.bans_total + 1);
}

pub enter-branches :
    (now duration : ℕ) (ip : IpAddr) (q : Quarantine)
    → (enter now ip duration q).1 ≡ (
        if admits ip q
        then enqueue_sync (ban_job ip duration) (banned now duration ip q)
        else record q { capacity_rejections = u64 (q.capacity_rejections + 1) })
unfolding enter admits
enter-branches now duration ip q =
    let e = contains_key-is_some IpAddr-discrete ip q.table in rw e (ground arith)

pub enter-table :
    (now duration : ℕ) (ip : IpAddr) (q : Quarantine)
    → (enter now ip duration q).1.table
      ≡ (if admits ip q then (banned now duration ip q).table else q.table)
enter-table now duration ip q =
    let e = enter-branches now duration ip q in
    elim (Bool-cases (admits ip q)) [
      | inl h ↦ rw (e, h) (enqueue-table _ _)
      | inr h ↦ rw (e, h) refl
    ]

is_active-enter :
    (now t duration : ℕ) (ip j : IpAddr) (q : Quarantine)
    → is_active t j (enter now ip duration q).1 ≡ (
        is_active t j q
        || (admits ip q && (ite (IpAddr-discrete ip j) true false && ltb t (now + duration))))
unfolding later_expiry is_active
is_active-enter now t duration ip j q =
    let old = lookup IpAddr-discrete ip q.table in
    let new = later_expiry (now + duration) old in
    rw (enter-table now duration ip q, is_active)
      (ground (arith, lookup-insert IpAddr-discrete ip j new q.table))

-- If the end of a ban is a time that an `Instant` can hold, `ban` returns, and says whether the ban
-- was recorded: it is for an address that has an entry, or while the table has room. After it, at
-- every time `t`, an address is quarantined if it was so without it, or if the ban was recorded for
-- it and `t` is before its end: a ban never shortens one, and touches no other address.
pub is_active-ban :
    (now t duration : ℕ) (ip j : IpAddr) (q : Quarantine)
    → now + duration < instant_end
    → (q' : Quarantine) × (ban now ip duration q ≡ some (admits ip q, q'))
      × (is_active t j q' ≡ (
          is_active t j q
          || (admits ip q && (ite (IpAddr-discrete ip j) true false && ltb t (now + duration)))))
unfolding ban
is_active-ban now t duration ip j q fits =
    let r = enter now ip duration q in
    let in_time : ltb (now + duration) instant_end ≡ true = ground (arith, fits) in
    (
      r.1,
      rw (in_time, ← (enter-result now duration ip q)) refl,
      is_active-enter now t duration ip j q,
    )

pub sweep-table :
    (now : ℕ) (q : Quarantine)
    → (sweep_expired now q).table ≡ retain (λ ip expiry. ltb now expiry) q.table
unfolding sweep_expired
sweep-table now q = unbans-table (expired_at now q.table) _

-- In a table with one entry for an address, a sweep changes nobody's quarantine from its time on,
-- and leaves an entry for exactly the addresses quarantined at its time.
pub is_active-sweep :
    (now t : ℕ) (j : IpAddr) (q : Quarantine)
    → IsMap IpAddr-discrete q.table
    → now ≤ t
    → (is_active t j (sweep_expired now q) ≡ is_active t j q)
      × (is_some (lookup IpAddr-discrete j (sweep_expired now q).table) ≡ is_active now j q)
unfolding is_active
is_active-sweep now t j q ok late =
    let e = lookup-retain IpAddr-discrete (λ ip expiry. ltb now expiry) j q.table ok in
    (
      rw (sweep-table now q, is_active) (ground (arith, e)),
      rw (sweep-table now q, is_active) (ground (arith, e)),
    )

pub unban-table :
    (ip : IpAddr) (q : Quarantine) → (manual_unban ip q).1.table ≡ remove IpAddr-discrete ip q.table
unfolding manual_unban
unban-table ip q = elim (Bool-cases (is_some (lookup IpAddr-discrete ip q.table))) [
  | inl e ↦ rw e (enqueue-table _ _)
  | inr e ↦ rw e refl
]

-- In a table with one entry for an address, after `manual_unban` the address is quarantined at no
-- time, every other address as before.
pub is_active-manual_unban :
    (t : ℕ) (ip j : IpAddr) (q : Quarantine)
    → IsMap IpAddr-discrete q.table
    → is_active t j (manual_unban ip q).1 ≡ ite (IpAddr-discrete ip j) false (is_active t j q)
unfolding is_active
is_active-manual_unban t ip j q ok =
    let e = lookup-remove IpAddr-discrete ip j q.table ok in
    rw (unban-table ip q, is_active) (ground (arith, e))
