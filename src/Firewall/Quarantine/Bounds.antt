-- ===== src/Firewall/Quarantine/Bounds.antt =====
-- The table of components/firewall-perimeter/src/quarantine.rs stays within its capacity, and does
-- not depend on the host's firewall.
use active_spectral_defense.Base.{
  ℕ, ◌+◌, ◌≤◌, ◌≡◌, refl, ◌∙◌, sym, Bool, true, Option, none, some, List, [], ◌∷◌, ltb, is_some,
  if◌then◌else◌, arith, Bool-cases, inl, inr,
}
use active_spectral_defense.Map.{Map, size, lookup, IsMap}
use active_spectral_defense.Map.Laws.{
  size-insert, insert-IsMap, remove-IsMap, size-remove, retain-IsMap, size-retain,
}
use active_spectral_defense.Firewall.Net.{IpAddr, IpAddr-discrete}
use active_spectral_defense.Firewall.Chan.{Chan}
use active_spectral_defense.Firewall.Quarantine.{
  Quarantine, SyncJob, create, later_expiry, enter, ban, instant_end, manual_unban, expired_at,
  sweep_expired,
}
use active_spectral_defense.Firewall.Quarantine.Bans.{
  admits, enqueue-max, unbans-max, enter-result, enter-branches, enter-table, sweep-table,
  unban-table,
}

-- one entry for an address, and no more entries than allowed
pub record IsValid (q : Quarantine) : Type 0 where
  pub one_entry : IsMap IpAddr-discrete q.table
  pub bounded : size q.table ≤ q.max_entries

sweep-max : (now : ℕ) (q : Quarantine) → (sweep_expired now q).max_entries ≡ q.max_entries
unfolding sweep_expired
sweep-max now q = unbans-max (expired_at now q.table) _

enter-max :
    (now duration : ℕ) (ip : IpAddr) (q : Quarantine)
    → (enter now ip duration q).1.max_entries ≡ q.max_entries
enter-max now duration ip q =
    let e = enter-branches now duration ip q in
    elim (Bool-cases (admits ip q)) [ inl h ↦ rw (e, h) (enqueue-max _ _) | inr h ↦ rw (e, h) refl ]

unban-max : (ip : IpAddr) (q : Quarantine) → (manual_unban ip q).1.max_entries ≡ q.max_entries
unfolding manual_unban
unban-max ip q = elim (Bool-cases (is_some (lookup IpAddr-discrete ip q.table))) [
  | inl e ↦ rw e (enqueue-max _ _)
  | inr e ↦ rw e refl
]

admitted-bound :
    {n : ℕ} (ip : IpAddr) (q : Quarantine)
    → admits ip q ≡ true
    → size q.table ≤ q.max_entries
    → n ≡ (if is_some (lookup IpAddr-discrete ip q.table) then size q.table else size q.table + 1)
    → n ≤ q.max_entries
unfolding admits
admitted-bound ip q e b s = ground (arith, e, b, s)

pub enter-IsValid :
    (now duration : ℕ) (ip : IpAddr) (q : Quarantine)
    → IsValid q
    → IsValid (enter now ip duration q).1
enter-IsValid now duration ip q h = record {
  one_entry =
      let i =
        insert-IsMap IpAddr-discrete ip
          (later_expiry (now + duration) (lookup IpAddr-discrete ip q.table)) q.table h.one_entry in
      elim (Bool-cases (admits ip q)) [
        | inl e ↦ rw (enter-table now duration ip q, e) i
        | inr e ↦ rw (enter-table now duration ip q, e) h.one_entry
      ];
  bounded =
      let b = h.bounded in
      let s =
        size-insert IpAddr-discrete ip
          (later_expiry (now + duration) (lookup IpAddr-discrete ip q.table)) q.table in
      let m = enter-max now duration ip q in
      elim (Bool-cases (admits ip q)) [
        | inl e ↦ rw (enter-table now duration ip q, m, e) (admitted-bound ip q e b s)
        | inr e ↦ rw (enter-table now duration ip q, m, e) b
      ];
}

-- what the administrator, the packet loop and the maintenance tick do with the table; a ban that
-- panics leaves it as it is
pub data Op : Type 0 where
  op_ban : ℕ → IpAddr → ℕ → Op
  op_unban : IpAddr → Op
  op_sweep : ℕ → Op

unfoldable pub apply : Op → Quarantine → Quarantine
apply (op_ban now ip duration) q = elim (ban now ip duration q) [
  | none ↦ q
  | some (recorded, after) ↦ after
]
apply (op_unban ip) q = (manual_unban ip q).1
apply (op_sweep now) q = sweep_expired now q

unfoldable pub run : List Op → Quarantine → Quarantine
unfolding apply
run [] q = q
run (op ∷ ops) q = run ops (apply op q)

apply-IsValid : (op : Op) (q : Quarantine) → IsValid q → IsValid (apply op q)
unfolding apply ban
apply-IsValid (op_ban now ip duration) q h = elim (Bool-cases (ltb (now + duration) instant_end)) [
  | inl e ↦ rw (apply, ban, e) (enter-IsValid now duration ip q h)
  | inr e ↦ rw (apply, ban, e) h
]
apply-IsValid (op_unban ip) q h = record {
  one_entry = rw (unban-table ip q) (remove-IsMap IpAddr-discrete ip q.table h.one_entry);
  bounded =
      let s = size-remove IpAddr-discrete ip q.table in
      let b = h.bounded in rw (unban-table ip q, unban-max ip q) (omega (arith, s, b));
}
apply-IsValid (op_sweep now) q h = record {
  one_entry = rw (sweep-table now q) (retain-IsMap IpAddr-discrete _ q.table h.one_entry);
  bounded =
      let s = size-retain (λ (ip : IpAddr) (expiry : ℕ). ltb now expiry) q.table in
      let b = h.bounded in rw (sweep-table now q, sweep-max now q) (omega (arith, s, b));
}

steps-IsValid : (ops : List Op) (q : Quarantine) → IsValid q → IsValid (run ops q)
unfolding run
steps-IsValid [] q h = h
steps-IsValid (op ∷ ops) q h = steps-IsValid ops (apply op q) (apply-IsValid op q h)

-- Whatever bans, unbans and sweeps follow `Quarantine::new` or `with_os_sync`, an address has at
-- most one entry and the table no more entries than its capacity.
pub run-IsValid :
    (ops : List Op) (max_entries : ℕ) (os_sync : Option (Chan SyncJob))
    → IsValid (run ops (create max_entries os_sync))
unfolding create
run-IsValid ops max_entries os_sync =
    steps-IsValid ops _ (record { one_entry = tt; bounded = omega arith })

-- the same quarantine without a sync worker
abbrev pub unsynced : Quarantine → Quarantine
unsynced q = record q { os_sync = none }

-- what is seen of a ban: whether it panics, its answer and the table
abbrev pub seen : Option (Bool × Quarantine) → Option (Bool × Map IpAddr ℕ)
seen none = none
seen (some (recorded, q)) = some (recorded, q.table)

-- Bans, unbans and sweeps return the same and leave the same table whether a sync worker is
-- configured or not, and whatever the state of its queue: full, disconnected or free.
pub ban-unsynced :
    (now duration : ℕ) (ip : IpAddr) (q : Quarantine)
    → (seen (ban now ip duration q) ≡ seen (ban now ip duration (unsynced q)))
      × ((manual_unban ip q).0 ≡ (manual_unban ip (unsynced q)).0)
      × ((manual_unban ip q).1.table ≡ (manual_unban ip (unsynced q)).1.table)
      × ((sweep_expired now q).table ≡ (sweep_expired now (unsynced q)).table)
unfolding admits ban manual_unban
ban-unsynced now duration ip q =
    let answer : (enter now ip duration q).0 ≡ (enter now ip duration (unsynced q)).0 =
      enter-result now duration ip q ∙ sym (enter-result now duration ip (unsynced q)) in
    let table : (enter now ip duration q).1.table ≡ (enter now ip duration (unsynced q)).1.table =
      enter-table now duration ip q ∙ sym (enter-table now duration ip (unsynced q)) in
    (
      elim (Bool-cases (ltb (now + duration) instant_end)) [
        | inl e ↦ rw (e, answer, table) refl
        | inr e ↦ rw e refl
      ],
      refl,
      unban-table ip q ∙ sym (unban-table ip (unsynced q)),
      sweep-table now q ∙ sym (sweep-table now (unsynced q)),
    )
