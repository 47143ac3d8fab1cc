-- ===== src/Firewall/Quarantine.antt =====
-- components/firewall-perimeter/src/quarantine.rs: bans with an expiry, and the jobs for the host's
-- firewall (`SyncJob` of sync_worker.rs). `Instant::now()` is the argument `now`, in nanoseconds. An
-- `Instant` of Linux has 63 bits for its seconds; `Instant + Duration` panics where they overflow.
pub mod Bans
pub mod Bounds
use active_spectral_defense.Base.{
  ℕ, ◌+◌, ◌*◌, ◌%◌, ◌^◌, Bool, true, false, Option, none, some, List, [], ◌∷◌, ◌&&◌, not, leb, ltb,
  is_some, if◌then◌else◌,
}
use active_spectral_defense.Map.{Map, size, lookup, contains_key, insert, remove, retain}
use active_spectral_defense.Firewall.Net.{IpAddr, IpAddr-discrete}
use active_spectral_defense.Firewall.Conntrack.{u64}
use active_spectral_defense.Firewall.Chan.{Chan, TrySend, full, try_send}

pub data SyncJob : Type 0 where
  ban_job : IpAddr → ℕ → SyncJob
  unban_job : IpAddr → SyncJob

pub record Quarantine : Type 0 where
  pub table : Map IpAddr ℕ
  pub max_entries : ℕ
  pub bans_total : ℕ
  pub capacity_rejections : ℕ
  pub sync_dropped : ℕ
  pub os_sync : Option (Chan SyncJob)

-- `new` and `with_os_sync`
unfoldable pub create : ℕ → Option (Chan SyncJob) → Quarantine
create max_entries os_sync = record {
  table = [];
  max_entries = max_entries;
  bans_total = 0;
  capacity_rejections = 0;
  sync_dropped = 0;
  os_sync = os_sync;
}

abbrev is_full : TrySend SyncJob → Bool
is_full (full _) = true
is_full _ = false

unfoldable pub enqueue_sync : SyncJob → Quarantine → Quarantine
enqueue_sync job q = elim q.os_sync [
  | none ↦ q
  | some tx ↦
      let (outcome, tx') = try_send job tx in
      record q {
        os_sync = some tx';
        sync_dropped = if is_full outcome then u64 (q.sync_dropped + 1) else q.sync_dropped;
      }
]

-- `and_modify(...).or_insert(new_expiry)`
unfoldable pub later_expiry : ℕ → Option ℕ → ℕ
later_expiry new_expiry none = new_expiry
later_expiry new_expiry (some expiry) = if ltb expiry new_expiry then new_expiry else expiry

-- the first time that an `Instant` does not hold
abbrev pub instant_end : ℕ
instant_end = 2 ^ 63 * 1_000_000_000

-- `ban`, once the expiry is computed
unfoldable pub enter : ℕ → IpAddr → ℕ → Quarantine → Bool × Quarantine
enter now ip duration q =
    if not (contains_key IpAddr-discrete ip q.table) && leb q.max_entries (size q.table)
    then (false, record q { capacity_rejections = u64 (q.capacity_rejections + 1) })
    else (
      true,
      enqueue_sync (ban_job ip duration) (record q {
        table =
            insert IpAddr-discrete ip
              (later_expiry (now + duration) (lookup IpAddr-discrete ip q.table)) q.table;
        bans_total = u64 (q.bans_total + 1);
      }),
    )

-- `none` where `Instant::now() + duration` panics, before anything is changed
unfoldable pub ban : ℕ → IpAddr → ℕ → Quarantine → Option (Bool × Quarantine)
unfolding enter
ban now ip duration q =
    if ltb (now + duration) instant_end then some (enter now ip duration q) else none

unfoldable pub is_active : ℕ → IpAddr → Quarantine → Bool
is_active now ip q = elim (lookup IpAddr-discrete ip q.table) [
  | none ↦ false
  | some expiry ↦ ltb now expiry
]

unfoldable pub manual_unban : IpAddr → Quarantine → Bool × Quarantine
manual_unban ip q =
    let was_present = is_some (lookup IpAddr-discrete ip q.table) in
    let q' = record q { table = remove IpAddr-discrete ip q.table } in
    (was_present, if was_present then enqueue_sync (unban_job ip) q' else q')

-- the addresses that the sweep finds expired
unfoldable pub expired_at : ℕ → Map IpAddr ℕ → List IpAddr
expired_at now [] = []
expired_at now ((ip, expiry) ∷ m) =
    let rest = expired_at now m in if ltb now expiry then rest else ip ∷ rest

unfoldable pub enqueue_unbans : List IpAddr → Quarantine → Quarantine
enqueue_unbans [] q = q
enqueue_unbans (ip ∷ ips) q = enqueue_unbans ips (enqueue_sync (unban_job ip) q)

unfoldable pub sweep_expired : ℕ → Quarantine → Quarantine
sweep_expired now q =
    enqueue_unbans (expired_at now q.table)
      (record q { table = retain (λ ip expiry. ltb now expiry) q.table })
