-- ===== src/Examples/Tables.antt =====
-- The theorems on the packet parser, the connection table, the counters and the quarantine.
use active_spectral_defense.Base.{
  ℕ, ◌^◌, ◌+◌, ◌-◌, ◌<◌, ◌≡◌, refl, true, false, none, some, List, [], ◌∷◌, arith, min, ite, ltb,
  ◌*◌, ◌&&◌, ◌||◌, ℕ_discrete,
}
use active_spectral_defense.Map.{lookup}
use active_spectral_defense.Firewall.Net.{IpAddr-discrete}
use active_spectral_defense.Firewall.Config.{default_conntrack}
use active_spectral_defense.Firewall.Conntrack
use active_spectral_defense.Firewall.Quarantine
use active_spectral_defense.Firewall.Conntrack.{
  FlowKey, FlowEntry, ConnTrack, lookup_or_admit, record_new, LookupResult, established, empty,
  touch, timeout_of, TcpState, closed, from_secs, advance,
}
use active_spectral_defense.Firewall.Conntrack.Flows.{reply-established, Inv, record_new-Inv}
use active_spectral_defense.Firewall.Conntrack.Expiry.{advance_handshake}
use active_spectral_defense.Firewall.Threshold
use active_spectral_defense.Firewall.Threshold.{ThresholdTracker, Count}
use active_spectral_defense.Firewall.Threshold.Counting.{fired, fired-div, count_of, sweep-forgets}
use active_spectral_defense.Firewall.RateLimit
use active_spectral_defense.Firewall.RateLimit.Burst.{allowed, allowed-burst}
use active_spectral_defense.Firewall.LogGate
use active_spectral_defense.Firewall.LogGate.Budget.{checks, checks-budget, check-drops_count}
use active_spectral_defense.Firewall.Chan.{Chan, bounded, drain}
use active_spectral_defense.Firewall.Chan.Fifo.{
  Op, op_send, op_recv, op_try_send, run, start, IsFifo, bounded-IsFifo, drain-disconnected,
}
use active_spectral_defense.Firewall.Quarantine.{
  Quarantine, SyncJob, create, ban, is_active, manual_unban,
}
use active_spectral_defense.Firewall.Quarantine.Bans.{admits, is_active-ban}
use active_spectral_defense.Firewall.Quarantine.Bounds
use active_spectral_defense.Firewall.Quarantine.Bounds.{run-IsValid, ban-unsynced}
use active_spectral_defense.Examples.Data.{
  request, reply, client, server, syn_ack_flags, ack_flags, nat_float, nat_float-IsExact,
}

abbrev no_flows : ConnTrack
no_flows = empty default_conntrack

no_flows-Inv : Inv no_flows
no_flows-Inv = record { is_map = tt; bounded = omega arith }

abbrev one_flow : ConnTrack
one_flow = record_new 5 request no_flows

reply-established_example :
    ((lookup_or_admit 9 reply (record_new 5 request no_flows)).0 ≡ established)
    × ((lookup_or_admit 9 request (record_new 5 request no_flows)).0 ≡ established)
reply-established_example =
    reply-established 5 9 request reply no_flows
      (record { proto = refl; src = refl; src_port = refl; dst = refl; dst_port = refl })

record_new-Inv_example : Inv (record_new 7 request (lookup_or_admit 6 request no_flows).1)
unfolding lookup_or_admit lookup
record_new-Inv_example = record_new-Inv 6 7 request no_flows no_flows-Inv refl

advance_handshake_example :
    advance (some ack_flags) (advance (some syn_ack_flags) TcpState.fin_wait) ≡ TcpState.established
advance_handshake_example =
    advance_handshake syn_ack_flags ack_flags TcpState.fin_wait (refl, refl, refl, refl)
      (refl, refl, refl)

abbrev rule_key : Threshold.Key
rule_key = (0, client)

fired-div_example :
    (rest : ℕ) × (rest < 2) × (3 ≡ fired rule_key 2 60 (5 ∷ 6 ∷ 7 ∷ []) Threshold.new * 2 + rest)
unfolding Threshold.new lookup
fired-div_example =
    fired-div 5 2 60 rule_key (5 ∷ 6 ∷ 7 ∷ []) Threshold.new (omega arith)
      ((omega arith, omega arith), ((omega arith, omega arith), ((omega arith, omega arith), tt)))
      refl

abbrev counted_once : ThresholdTracker
counted_once = record { counts = (rule_key, record { count = 1; start = 0 }) ∷ [] }

sweep-forgets_example :
    count_of rule_key
      (Threshold.sweep 400 300 (Threshold.record_and_check 400 rule_key 5 900 counted_once).1)
    ≡ none
unfolding lookup Threshold.Key-discrete ℕ_discrete
sweep-forgets_example =
    sweep-forgets 400 5 900 300 rule_key counted_once (record { count = 1; start = 0 }) (refl, tt)
      refl (omega arith) (omega arith) (omega arith)

allowed-burst_example : allowed nat_float 7 (client, 0) 3 5 (RateLimit.new nat_float) ≡ min 5 3
unfolding RateLimit.new lookup
allowed-burst_example =
    allowed-burst nat_float nat_float-IsExact 7 (client, 0) 3 5 (RateLimit.new nat_float)
      (omega arith) (omega arith) refl

checks-budget_example :
    let (emitted, g) = checks (7 ∷ 8 ∷ 9 ∷ []) (LogGate.new 2 7) in
    (emitted ≡ min 3 2) × ((LogGate.take_suppressed_count g).0 ≡ 1)
unfolding LogGate.new
checks-budget_example =
    checks-budget 2 7 (7 ∷ 8 ∷ 9 ∷ []) (omega arith) (omega arith, (omega arith, (omega arith, tt)))
      (omega arith)

check-drops_count_example :
    let g = (checks (7 ∷ 8 ∷ 9 ∷ []) (LogGate.new 2 7)).1 in
    ((LogGate.take_suppressed_count g).0 ≡ 3 - 2)
    × ((LogGate.take_suppressed_count (LogGate.check 2_000_000_000 g).1).0 ≡ 0)
    × (LogGate.check 2_000_000_000 (record g { suppressed_this_window = 6 })
        ≡ LogGate.check 2_000_000_000 g)
check-drops_count_example =
    check-drops_count 2 7 2_000_000_000 6 (7 ∷ 8 ∷ 9 ∷ []) (omega arith)
      (omega arith, (omega arith, (omega arith, tt))) (omega arith) (omega arith)

abbrev two_slots : Chan ℕ
two_slots = record { queue = []; max_capacity = 2; sender_count = 1; receiver_alive = 1 }

abbrev traffic : List (Op ℕ)
traffic = op_send 1 ∷ op_try_send 2 ∷ op_send 3 ∷ op_recv ∷ op_send 3 ∷ []

bounded-IsFifo_example : IsFifo 2 (run traffic (start two_slots))
unfolding bounded
bounded-IsFifo_example = bounded-IsFifo 2 two_slots traffic refl

drain-disconnected_example :
    drain 3 (record two_slots { queue = 4 ∷ 5 ∷ []; sender_count = 0 }) ≡ (4 ∷ 5 ∷ [], true)
drain-disconnected_example =
    drain-disconnected (record two_slots { queue = 4 ∷ 5 ∷ []; sender_count = 0 }) refl

abbrev two_jobs : Chan SyncJob
two_jobs = record { queue = []; max_capacity = 2; sender_count = 1; receiver_alive = 1 }

abbrev quiet : Quarantine
quiet = record {
  table = (client, 50) ∷ [];
  max_entries = 1;
  bans_total = 1;
  capacity_rejections = 0;
  sync_dropped = 0;
  os_sync = some two_jobs;
}

is_active-ban_example :
    (q : Quarantine) × (ban 20 client 5 quiet ≡ some (admits client quiet, q))
    × (is_active 30 client q ≡ (
        is_active 30 client quiet
        || (admits client quiet
            && (ite (IpAddr-discrete client client) true false && ltb 30 (20 + 5)))))
is_active-ban_example = is_active-ban 20 30 5 client client quiet (omega arith)

-- a ban of more seconds than an `Instant` holds
ban_panics : ban 0 client (from_secs (2 ^ 63)) quiet ≡ none
unfolding ban
ban_panics = refl

run-IsValid_example : Bounds.IsValid (
    Bounds.run
      (Bounds.op_ban 1 client 5 ∷ Bounds.op_ban 2 server 5 ∷ Bounds.op_sweep 6 ∷ [])
      (create 1 (some two_jobs)))
run-IsValid_example =
    run-IsValid (Bounds.op_ban 1 client 5 ∷ Bounds.op_ban 2 server 5 ∷ Bounds.op_sweep 6 ∷ []) 1
      (some two_jobs)

ban-unsynced_example :
    (Bounds.seen (ban 20 server 5 quiet) ≡ Bounds.seen (ban 20 server 5 (Bounds.unsynced quiet)))
    × ((manual_unban server quiet).0 ≡ (manual_unban server (Bounds.unsynced quiet)).0)
    × ((manual_unban server quiet).1.table ≡ (manual_unban server (Bounds.unsynced quiet)).1.table)
    × ((Quarantine.sweep_expired 20 quiet).table
        ≡ (Quarantine.sweep_expired 20 (Bounds.unsynced quiet)).table)
ban-unsynced_example = ban-unsynced 20 5 server quiet
