-- ===== src/Firewall/Nfqueue.antt =====
-- components/firewall-perimeter/src/nfqueue.rs: what a worker does with one packet of its queue. The
-- kernel queue, the raw socket of `Rejecter` and the ingestion lanes are outside: the model returns
-- the verdict posted and the effects on the other two. All reads of the clock for one packet give
-- `now`, and the worker's shared state is one record: packets are processed one at a time. The
-- result is `none` where the worker would panic.
pub mod Safety
pub mod Verdicts
use active_spectral_defense.Base.{
  ℕ, ◌+◌, Bool, true, false, Option, none, some, List, [], ◌∷◌, ◌++◌, ◌&&◌, not, ◌==◌,
  if◌then◌else◌,
}
use active_spectral_defense.Float.{Float}
use active_spectral_defense.Firewall.Net.{IpAddr}
use active_spectral_defense.Firewall.Packet.{
  Etherparse, ParsedPacket, parse, parsed, unclassifiable_fragment, malformed,
}
use active_spectral_defense.Firewall.Conntrack
use active_spectral_defense.Firewall.Conntrack.{
  ConnTrack, LookupResult, lookup_or_admit, record_new, from_secs, u64,
}
use active_spectral_defense.Firewall.Quarantine.{Quarantine, is_active, ban}
use active_spectral_defense.Firewall.LogGate.{LogGate, GateResult, emit, suppress, check}
use active_spectral_defense.Firewall.Engine.{
  Engine, Decision, Verdict, accept, drop, reject, is_trusted, evaluate,
}

-- the counters of metrics.rs that the loop writes
pub record Metrics : Type 0 where
  pub accepted : ℕ
  pub dropped : ℕ
  pub rejected : ℕ
  pub conntrack_established_hits : ℕ
  pub conntrack_table_full : ℕ
  pub parse_failures : ℕ
  pub fragment_drops : ℕ
  pub logs_suppressed : ℕ
  pub quarantine_blocks : ℕ
  pub quarantine_bans : ℕ

pub data NfqVerdict : Type 0 where
  nfq_accept nfq_drop : NfqVerdict

pub data Direction : Type 0 where
  ingress egress : Direction

-- `Rejecter::reject`, and `IngestionPipeline::submit` of an accepted packet
pub data Effect : Type 0 where
  send_reject : ParsedPacket → List ℕ → Effect
  submit : ParsedPacket → List ℕ → ℕ → Direction → Effect

-- `nfqueue::Msg`, as far as the loop reads it
pub record Msg : Type 0 where
  pub payload : List ℕ
  pub indev : ℕ
  pub outdev : ℕ

pub record Worker (IpNet : Type 0) (fl : Float) : Type 0 where
  pub engine : Engine IpNet fl
  pub conntrack : ConnTrack
  pub quarantine : Quarantine
  pub log_gate : LogGate
  pub metrics : Metrics
  -- whether the raw socket could be opened
  pub rejecter : Bool

unfoldable pub count_verdict : Verdict → Metrics → Metrics
count_verdict accept m = record m { accepted = u64 (m.accepted + 1) }
count_verdict drop m = record m { dropped = u64 (m.dropped + 1) }
count_verdict reject m = record m { rejected = u64 (m.rejected + 1) }

-- the metrics after a ban, if it was recorded
abbrev pub count_ban : Bool → Metrics → Metrics
count_ban true m = record m { quarantine_bans = u64 (m.quarantine_bans + 1) }
count_ban false m = m

unfoldable pub direction_of : Msg → ℕ × Direction
direction_of msg = if msg.indev == 0 then (msg.outdev, egress) else (msg.indev, ingress)

unfoldable pub nfq_verdict : Verdict → NfqVerdict
nfq_verdict accept = nfq_accept
nfq_verdict drop = nfq_drop
nfq_verdict reject = nfq_drop

abbrev pub submitted : Verdict → ParsedPacket → Msg → List Effect
submitted accept pkt msg =
    let (ifindex, direction) = direction_of msg in submit pkt msg.payload ifindex direction ∷ []
submitted _ pkt msg = []

module _ {IpNet : Type 0} {fl : Float} where
  -- a log line that the gate may suppress
  unfoldable pub gated_log : ℕ → Worker IpNet fl → Worker IpNet fl
  gated_log now w =
      let (result, gate) = check now w.log_gate in
      let w' = record w { log_gate = gate } in
      elim result [
        | emit ↦ w'
        | suppress ↦ record w' {
          metrics = record w.metrics { logs_suppressed = u64 (w.metrics.logs_suppressed + 1) };
        }
      ]

  -- the arm for a source in quarantine
  unfoldable pub block : ℕ → Worker IpNet fl → Verdict × Worker IpNet fl
  unfolding gated_log
  block now w = (
    drop,
    gated_log now (record w {
      metrics = record w.metrics { quarantine_blocks = u64 (w.metrics.quarantine_blocks + 1) };
    }),
  )

  -- the match on the decision's verdict
  unfoldable pub act_on :
      ℕ → ParsedPacket → List ℕ → Verdict → Worker IpNet fl → List Effect × Worker IpNet fl
  act_on now pkt raw accept w = ([], record w { conntrack = record_new now pkt w.conntrack })
  act_on now pkt raw reject w = (if w.rejecter then send_reject pkt raw ∷ [] else [], w)
  act_on now pkt raw drop w = ([], w)

  unfoldable pub auto_block : ℕ → IpAddr → Option ℕ → Worker IpNet fl → Option (Worker IpNet fl)
  auto_block now src none w = some w
  auto_block now src (some secs) w = elim (ban now src (from_secs secs) w.quarantine) [
    | none ↦ none
    | some (recorded, q) ↦
        some (record w { quarantine = q; metrics = count_ban recorded w.metrics })
  ]

  -- what follows `evaluate` for a new flow
  unfoldable pub follow :
      ℕ
      → ParsedPacket
      → List ℕ
      → Decision
      → Worker IpNet fl
      → Option (Verdict × List Effect × Worker IpNet fl)
  unfolding auto_block
  follow now pkt raw decision w =
      let logged = if decision.log then gated_log now w else w in
      let (effects, acted) = act_on now pkt raw decision.verdict logged in
      elim (auto_block now pkt.src_ip decision.auto_block_secs acted) [
        | none ↦ none
        | some blocked ↦ some (decision.verdict, effects, blocked)
      ]

  -- from the verdict to the end of the loop's body
  unfoldable pub post :
      Msg
      → ParsedPacket
      → Verdict × List Effect × Worker IpNet fl
      → NfqVerdict × List Effect × Worker IpNet fl
  unfolding nfq_verdict
  post msg pkt (verdict, effects, w) = (
    nfq_verdict verdict,
    effects ++ submitted verdict pkt msg,
    record w { metrics = count_verdict verdict w.metrics },
  )

module _ {IpNet : Type 0} (fl : Float) (net_contains : IpNet → IpAddr → Bool) where
  unfoldable pub decide_new :
      ℕ → ParsedPacket → List ℕ → Worker IpNet fl → Option (Verdict × List Effect × Worker IpNet fl)
  decide_new now pkt raw w = elim (evaluate fl net_contains now pkt w.engine) [
    | none ↦ none
    | some (decision, engine) ↦ follow now pkt raw decision (record w { engine = engine })
  ]

  -- the match on the answer of the connection table
  unfoldable pub track :
      ℕ
      → ParsedPacket
      → List ℕ
      → LookupResult
      → Worker IpNet fl
      → Option (Verdict × List Effect × Worker IpNet fl)
  track now pkt raw LookupResult.established w = some (
    accept,
    [],
    record w {
      metrics = record w.metrics {
        conntrack_established_hits = u64 (w.metrics.conntrack_established_hits + 1);
      };
    },
  )
  track now pkt raw LookupResult.table_full w = some (
    drop,
    [],
    record w {
      metrics = record w.metrics {
        conntrack_table_full = u64 (w.metrics.conntrack_table_full + 1);
      };
    },
  )
  track now pkt raw LookupResult.new w = decide_new now pkt raw w

  unfoldable pub decide :
      ℕ → ParsedPacket → List ℕ → Worker IpNet fl → Option (Verdict × List Effect × Worker IpNet fl)
  decide now pkt raw w =
      let blocked = block now w in
      let (answer, ct) = lookup_or_admit now pkt w.conntrack in
      if not (is_trusted fl w.engine pkt.src_ip) && is_active now pkt.src_ip w.quarantine
      then some (blocked.0, [], blocked.1)
      else track now pkt raw answer (record w { conntrack = ct })

  unfoldable pub process :
      Etherparse → ℕ → Msg → Worker IpNet fl → Option (NfqVerdict × List Effect × Worker IpNet fl)
  process lib now msg w = elim (parse lib msg.payload) [
    | parsed pkt ↦ elim (decide now pkt msg.payload w) [
      | none ↦ none
      | some r ↦ some (post msg pkt r)
    ]
    | unclassifiable_fragment ↦ some (
      nfq_drop,
      [],
      gated_log now (record w {
        metrics = record w.metrics { fragment_drops = u64 (w.metrics.fragment_drops + 1) };
      }),
    )
    | malformed ↦ some (
      nfq_drop,
      [],
      record w {
        metrics = record w.metrics { parse_failures = u64 (w.metrics.parse_failures + 1) };
      },
    )
  ]
