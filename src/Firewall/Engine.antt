-- ===== src/Firewall/Engine.antt =====
-- components/firewall-perimeter/src/engine.rs: the policy engine. `IpNet` and its `contains` of the
-- ipnet crate, and floating point, are parameters. `evaluate` returns `none` where an index out of
-- range would panic.
pub mod Indexing
pub mod Order
pub mod Linear
pub mod Decisions
pub mod Blocks
pub use Indexing.{Index}
unfoldable pub use Indexing.{
  proto_num, PortKey, PortKey-discrete, or_default, push_exact, push_wildcard, exact_key,
  index_rule, insert_sorted, sort_unstable, rule_key, index_rules, collect_aliases,
}
use active_spectral_defense.Base.{
  ℕ, zero, suc, ◌+◌, Bool, true, false, String, Option, none, some, List, [], ◌∷◌, ◌++◌, ◌&&◌, leb,
  ◌==◌, if◌then◌else◌, ℕ_discrete, String-discrete, any, get_elem?,
}
use active_spectral_defense.Map.{Map, lookup, insert}
use active_spectral_defense.Float.{Float}
use active_spectral_defense.Firewall.Net.{IpAddr, contains_ip}
use active_spectral_defense.Firewall.Packet.{L4Proto, ParsedPacket}
use active_spectral_defense.Firewall.Config.{
  Protocol, tcp, udp, icmp, any_protocol, Action, Direction, PortRange, contains, NetworkMatch,
  cidr, alias, Alias, Rule, Config,
}
use active_spectral_defense.Firewall.RateLimit
use active_spectral_defense.Firewall.RateLimit.{RateLimiter}
use active_spectral_defense.Firewall.Threshold
use active_spectral_defense.Firewall.Threshold.{ThresholdTracker}
use active_spectral_defense.Firewall.Conntrack.{from_secs}

pub data Verdict : Type 0 where
  accept drop reject : Verdict

-- the texts of `rule_name`
pub data RuleName : Type 0 where
  trusted_bypass default_policy : RuleName
  named : String → RuleName
  rate_limit_exceeded : String → RuleName

pub record Decision : Type 0 where
  pub verdict : Verdict
  pub rule_name : RuleName
  pub log : Bool
  pub auto_block_secs : Option ℕ

abbrev pub trusted_decision : Decision
trusted_decision = record {
  verdict = accept;
  rule_name = trusted_bypass;
  log = false;
  auto_block_secs = none;
}

unfoldable pub verdict_of : Action → Verdict
verdict_of Action.accept = accept
verdict_of Action.drop = drop
verdict_of Action.reject = reject

unfoldable pub pkt_proto_num : L4Proto → ℕ
pkt_proto_num L4Proto.tcp = 6
pkt_proto_num L4Proto.udp = 17
pkt_proto_num L4Proto.icmp = 1
pkt_proto_num (L4Proto.other n) = n

unfoldable pub proto_matches : Protocol → L4Proto → Bool
proto_matches any_protocol _ = true
proto_matches tcp L4Proto.tcp = true
proto_matches udp L4Proto.udp = true
proto_matches icmp L4Proto.icmp = true
proto_matches _ _ = false

unfoldable pub direction_matches : Direction → ParsedPacket → Bool
direction_matches d pkt = true

pub record Engine (IpNet : Type 0) (fl : Float) : Type 0 where
  pub rules : List (Rule IpNet)
  pub aliases : Map String (List IpNet)
  pub index : Index
  pub default_policy : Action
  pub trusted : List IpAddr
  pub rate_limiter : RateLimiter fl
  pub threshold_tracker : ThresholdTracker

module _ {IpNet : Type 0} (fl : Float) where
  unfoldable pub new : Config IpNet → Engine IpNet fl
  unfolding index_rules collect_aliases
  new cfg = record {
    rules = cfg.rules;
    aliases = collect_aliases cfg.aliases [];
    index = index_rules 0 cfg.rules (record { exact_port_index = []; wildcard_rules = [] });
    default_policy = cfg.default_policy;
    trusted = cfg.trusted;
    rate_limiter = RateLimit.new fl;
    threshold_tracker = Threshold.new;
  }

  unfoldable pub is_trusted : Engine IpNet fl → IpAddr → Bool
  is_trusted eng ip = contains_ip eng.trusted ip

  unfoldable pub gate_auto_block :
      ℕ → ℕ → Rule IpNet → IpAddr → Engine IpNet fl → Option ℕ × Engine IpNet fl
  gate_auto_block now idx rule src eng = elim rule.auto_block_secs [
    | none ↦ (none, eng)
    | some secs ↦
        let (reached, tracker) =
          Threshold.record_and_check now (idx, src) rule.auto_block_threshold
            (from_secs rule.auto_block_window_secs) eng.threshold_tracker in
        (if reached then some secs else none, record eng { threshold_tracker = tracker })
  ]

  -- `rate_limiter.allow` where the rule has a limit
  unfoldable pub within_rate :
      ℕ → ℕ → Rule IpNet → IpAddr → Engine IpNet fl → Bool × Engine IpNet fl
  within_rate now idx rule src eng = elim rule.rate_limit_pps [
    | none ↦ (true, eng)
    | some rate ↦
        let (ok, limiter) = RateLimit.allow fl now (src, idx) rate eng.rate_limiter in
        (ok, record eng { rate_limiter = limiter })
  ]

  -- a rule that matched and whose rate limit did not drop the packet
  unfoldable pub act :
      Verdict → ℕ → ℕ → Rule IpNet → IpAddr → Engine IpNet fl → Decision × Engine IpNet fl
  act accept now idx rule src eng = (
    record {
      verdict = accept;
      rule_name = named rule.name;
      log = rule.log;
      auto_block_secs = none;
    },
    eng,
  )
  act verdict now idx rule src eng =
      let (secs, eng') = gate_auto_block now idx rule src eng in
      (
        record {
          verdict = verdict;
          rule_name = named rule.name;
          log = rule.log;
          auto_block_secs = secs;
        },
        eng',
      )

  -- the body of the loop for a rule that matches: it always returns
  unfoldable pub apply_rule :
      ℕ → ℕ → Rule IpNet → ParsedPacket → Engine IpNet fl → Decision × Engine IpNet fl
  unfolding act
  apply_rule now idx rule pkt eng =
      let (ok, eng') = within_rate now idx rule pkt.src_ip eng in
      if ok
      then act (verdict_of rule.action) now idx rule pkt.src_ip eng'
      else (let (secs, eng'') = gate_auto_block now idx rule pkt.src_ip eng' in
          (
            record {
              verdict = drop;
              rule_name = rate_limit_exceeded rule.name;
              log = true;
              auto_block_secs = secs;
            },
            eng'',
          ))

  unfoldable pub default_decision : Engine IpNet fl → Decision
  default_decision eng = record {
    verdict = verdict_of eng.default_policy;
    rule_name = default_policy;
    log = true;
    auto_block_secs = none;
  }

  unfoldable pub periodic_maintenance : ℕ → Engine IpNet fl → Engine IpNet fl
  periodic_maintenance now eng = record eng {
    rate_limiter = RateLimit.sweep fl now (from_secs 300) eng.rate_limiter;
    threshold_tracker = Threshold.sweep now (from_secs 300) eng.threshold_tracker;
  }

  module _ (net_contains : IpNet → IpAddr → Bool) where
    unfoldable pub network_matches : Engine IpNet fl → NetworkMatch IpNet → IpAddr → Bool
    network_matches eng (cidr net) ip = net_contains net ip
    network_matches eng (alias name) ip = elim (lookup String-discrete name eng.aliases) [
      | none ↦ false
      | some cidrs ↦ any (λ net. net_contains net ip) cidrs
    ]

    unfoldable pub rule_matches : Engine IpNet fl → Rule IpNet → ParsedPacket → Bool
    rule_matches eng rule pkt =
        proto_matches rule.protocol pkt.proto
        && (network_matches eng rule.src pkt.src_ip
            && (network_matches eng rule.dst pkt.dst_ip
                && (contains rule.src_port pkt.src_port
                    && (contains rule.dst_port pkt.dst_port
                        && direction_matches rule.direction pkt))))

    -- the loop over the candidates
    unfoldable pub scan :
        ℕ → ParsedPacket → Engine IpNet fl → List ℕ → Option (Decision × Engine IpNet fl)
    scan now pkt eng [] = some (default_decision eng, eng)
    scan now pkt eng (idx ∷ rest) =
        let later = scan now pkt eng rest in
        elim (get_elem? eng.rules idx) [
          | none ↦ none
          | some rule ↦
              if rule_matches eng rule pkt then some (apply_rule now idx rule pkt eng) else later
        ]

    unfoldable pub candidates : ParsedPacket → Engine IpNet fl → List ℕ
    candidates pkt eng = sort_unstable (
        or_default (
          lookup PortKey-discrete (pkt_proto_num pkt.proto, pkt.dst_port)
            eng.index.exact_port_index)
        ++ eng.index.wildcard_rules)

    unfoldable pub evaluate :
        ℕ → ParsedPacket → Engine IpNet fl → Option (Decision × Engine IpNet fl)
    evaluate now pkt eng =
        if is_trusted eng pkt.src_ip
        then some (trusted_decision, eng)
        else scan now pkt eng (candidates pkt eng)
