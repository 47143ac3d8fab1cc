-- ===== src/Examples/Loop.antt =====
-- The theorems on the packet loop.
use active_spectral_defense.Base.{
  inl, ℕ, ◌≡◌, refl, false, some, none, List, [], ◌∷◌, arith, ℕ_discrete,
}
use active_spectral_defense.Map.{lookup}
use active_spectral_defense.Firewall.Net.{IpAddr-discrete, contains_ip}
use active_spectral_defense.Firewall.Packet.{parse}
use active_spectral_defense.Firewall.Config.{default_conntrack}
use active_spectral_defense.Firewall.Conntrack.{empty}
use active_spectral_defense.Firewall.Quarantine.{is_active}
use active_spectral_defense.Firewall.LogGate
use active_spectral_defense.Firewall.Engine.{new, is_trusted}
use active_spectral_defense.Firewall.Nfqueue.{Worker, Metrics, Msg, process, nfq_drop}
use active_spectral_defense.Firewall.Nfqueue.Verdicts.{process-unparsed, process-quarantined}
use active_spectral_defense.Examples.Data.{lib, request, client, nat_float, from_address}
use active_spectral_defense.Examples.Policy.{engine}

abbrev no_metrics : Metrics
no_metrics = record {
  accepted = 0;
  dropped = 0;
  rejected = 0;
  conntrack_established_hits = 0;
  conntrack_table_full = 0;
  parse_failures = 0;
  fragment_drops = 0;
  logs_suppressed = 0;
  quarantine_blocks = 0;
  quarantine_bans = 0;
}

abbrev worker : Worker ℕ nat_float
worker = record {
  engine = engine;
  conntrack = empty default_conntrack;
  quarantine = record {
    table = (client, 50) ∷ [];
    max_entries = 4;
    bans_total = 1;
    capacity_rejections = 0;
    sync_dropped = 0;
    os_sync = none;
  };
  log_gate = LogGate.new 100 0;
  metrics = no_metrics;
  rejecter = false;
}

abbrev message : List ℕ → Msg
message payload = record { payload = payload; indev = 2; outdev = 0 }

process-unparsed_example :
    (w' : Worker ℕ nat_float) × (process nat_float from_address lib 60 (message (2 ∷ [])) worker
      ≡ some (nfq_drop, [], w'))
    × (w'.engine ≡ engine)
    × (w'.conntrack ≡ worker.conntrack)
    × (w'.quarantine ≡ worker.quarantine)
process-unparsed_example =
    process-unparsed nat_float from_address lib 60 (message (2 ∷ [])) worker (inl (omega arith))

process-quarantined_example :
    (w' : Worker ℕ nat_float) × (process nat_float from_address lib 40 (message (1 ∷ [])) worker
      ≡ some (nfq_drop, [], w'))
    × (w'.engine ≡ engine)
    × (w'.conntrack ≡ worker.conntrack)
    × (w'.quarantine ≡ worker.quarantine)
unfolding parse is_active lookup IpAddr-discrete ℕ_discrete is_trusted contains_ip new
process-quarantined_example =
    process-quarantined nat_float from_address lib 40 (message (1 ∷ []))
      (record request { payload_len = 0 }) worker refl refl refl
