-- ===== src/Examples/Escalation.antt =====
-- The theorems on the correlation engine.
use active_spectral_defense.Base.{
  ◌≡◌, ◌≤◌, ◌↔◌, refl, true, false, none, some, List, [], ◌∷◌, arith, ℕ_discrete,
}
use active_spectral_defense.Map.{lookup, insert, retain}
use active_spectral_defense.Firewall.Net.{IpAddr-discrete}
use active_spectral_defense.Siem.Correlation.{
  FlowKey, tcp, LaneSource, Mpsc, CorrelationEvent, xdp_event, clam_av_event, new_record, push,
  remove_first, distinct_sources, collect_sources, contains_source, max_severity, max_severity_of,
  max_of,
}
use active_spectral_defense.Siem.Correlation.Engine.{
  CorrelationVerdict, CorrelationEngine, default_config, reason_of, empty_engine, handle_event,
  entry, maybe_emit, emit_if, emit, enforce_capacity, sweep_expired,
}
use active_spectral_defense.Siem.Correlation.Evidence.{Lane, Calm, reason_of_iff}
use active_spectral_defense.Siem.Correlation.Bounds.{IsBounded}
use active_spectral_defense.Siem.Correlation.Turns.{
  Turn, turn, tick, received_event, run_turns, run_turns-IsBounded,
}
use active_spectral_defense.Siem.Correlation.Once.{sent, recorder, StaysTracked, run_turns-once}
use active_spectral_defense.Examples.Data.{nat_float, client, server}

abbrev Event : Type 0
Event = CorrelationEvent nat_float nat_float

-- a channel that takes every verdict, and keeps them
abbrev out : Mpsc (CorrelationVerdict nat_float nat_float)
out = recorder nat_float nat_float (λ v ch. true)

abbrev flow : FlowKey
flow = record { src_ip = client; dst_ip = server; src_port = 40000; dst_port = 443; protocol = tcp }

abbrev scanned : Event
scanned = clam_av_event nat_float nat_float 5 client "a.exe" "Eicar" true

abbrev blocked : Event
blocked = xdp_event nat_float nat_float 6 client flow "port scan" false

reason_of_iff_example :
    (reason_of nat_float nat_float (new_record nat_float nat_float scanned) ≡ none) ↔ (
      (s : LaneSource) × Lane nat_float nat_float s (scanned ∷ [])
      × Calm nat_float nat_float (scanned ∷ []))
unfolding new_record
reason_of_iff_example = reason_of_iff nat_float nat_float (new_record nat_float nat_float scanned)

abbrev turns : List (Turn nat_float nat_float out)
turns = received_event 5 scanned ∷ received_event 6 blocked ∷ tick 9 ∷ []

run_turns-IsBounded_example :
    (eng : CorrelationEngine nat_float nat_float out) × (run_turns nat_float nat_float out turns
        (empty_engine nat_float nat_float out default_config [])
      ≡ some eng)
    × (eng.config ≡ default_config)
    × IsBounded nat_float nat_float out eng
run_turns-IsBounded_example = run_turns-IsBounded nat_float nat_float out turns default_config []

-- two events that suffice, and a third
abbrev tracked_turns : List (Turn nat_float nat_float out)
tracked_turns =
    received_event 5 scanned ∷ received_event 6 blocked ∷ tick 7 ∷ received_event 8 scanned ∷ []

unseen : IsBounded nat_float nat_float out (empty_engine nat_float nat_float out default_config [])
unfolding empty_engine
unseen = record { one_record = tt; hosts = omega arith; records = tt }

client-StaysTracked :
    StaysTracked nat_float nat_float
      (λ v ch. true)
      client
      tracked_turns
      (empty_engine nat_float nat_float out default_config [])
unfolding StaysTracked empty_engine lookup insert turn handle_event entry maybe_emit emit_if emit
    enforce_capacity new_record push remove_first reason_of distinct_sources collect_sources
    contains_source max_severity max_severity_of max_of sweep_expired retain xdp_event clam_av_event
    IpAddr-discrete ℕ_discrete
client-StaysTracked = (refl, (refl, (refl, (refl, tt))))

run_turns-once_example :
    (eng : CorrelationEngine nat_float nat_float out) × (run_turns nat_float nat_float out
        tracked_turns
        (empty_engine nat_float nat_float out default_config [])
      ≡ some eng)
    × (sent nat_float nat_float client eng.out_tx ≤ 1)
unfolding empty_engine lookup
run_turns-once_example =
    run_turns-once nat_float nat_float (λ v ch. true) tracked_turns client
      (empty_engine nat_float nat_float out default_config []) unseen client-StaysTracked
