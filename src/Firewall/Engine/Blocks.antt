-- ===== src/Firewall/Engine/Blocks.antt =====
-- The bans that components/firewall-perimeter/src/engine.rs decides are those of its rules.
use active_spectral_defense.Base.{
  ℕ, suc, ◌+◌, ◌<◌, Bool, true, false, Option, none, some, List, [], ◌∷◌, All, Bool-cases,
  Option-cases, inl, inr, if◌then◌else◌,
}
use active_spectral_defense.Float.{Float}
use active_spectral_defense.Firewall.Net.{IpAddr}
use active_spectral_defense.Firewall.Packet.{ParsedPacket}
use active_spectral_defense.Firewall.Config.{Rule}
use active_spectral_defense.Firewall.Conntrack.{from_secs}
use active_spectral_defense.Firewall.Quarantine.{instant_end}
use active_spectral_defense.Firewall.Engine.{
  Engine, Verdict, accept, drop, reject, verdict_of, is_trusted, default_decision, apply_rule,
  rule_matches, act, gate_auto_block, within_rate,
}
use active_spectral_defense.Firewall.Engine.Linear.{linear, evaluate_linear}

-- a ban at this time, if there is one, has an end that an `Instant` can hold
abbrev pub Ends : ℕ → Option ℕ → Type 0
Ends now none = Unit
Ends now (some secs) = now + from_secs secs < instant_end

-- and so has a ban by any of the engine's rules
abbrev pub AllEnd : {IpNet : Type 0} → ℕ → List (Rule IpNet) → Type 0
AllEnd now = All (λ r. Ends now r.auto_block_secs)

module _ {IpNet : Type 0} (fl : Float) (now idx : ℕ) (rule : Rule IpNet) (src : IpAddr)
    (ends : Ends now rule.auto_block_secs) where
  if-Ends :
      (reached : Bool) (secs : ℕ)
      → Ends now (some secs)
      → Ends now (if reached then some secs else none)
  if-Ends true secs h = h
  if-Ends false secs h = tt

  gate_auto_block-Ends :
      (eng : Engine IpNet fl) → Ends now (gate_auto_block fl now idx rule src eng).0
  unfolding gate_auto_block
  gate_auto_block-Ends eng = elim (Option-cases rule.auto_block_secs) [
    | inl e ↦ rw (e, gate_auto_block) tt
    | inr (secs, e) ↦
        let short : Ends now (some secs) = rw e at ends in
        rw (e, gate_auto_block) (if-Ends _ secs short)
  ]

  act-Ends :
      (v : Verdict) (eng : Engine IpNet fl)
      → Ends now (act fl v now idx rule src eng).0.auto_block_secs
  unfolding act
  act-Ends accept eng = tt
  act-Ends drop eng = gate_auto_block-Ends eng
  act-Ends reject eng = gate_auto_block-Ends eng

module _ {IpNet : Type 0} (fl : Float) (net_contains : IpNet → IpAddr → Bool) (now : ℕ)
    (pkt : ParsedPacket) where
  apply_rule-Ends :
      (idx : ℕ) (rule : Rule IpNet) (eng : Engine IpNet fl)
      → Ends now rule.auto_block_secs
      → Ends now (apply_rule fl now idx rule pkt eng).0.auto_block_secs
  unfolding apply_rule
  apply_rule-Ends idx rule eng ends =
      let mid = within_rate fl now idx rule pkt.src_ip eng in
      elim (Bool-cases mid.0) [
        | inl e ↦ rw e (act-Ends fl now idx rule pkt.src_ip ends (verdict_of rule.action) mid.1)
        | inr e ↦ rw e (gate_auto_block-Ends fl now idx rule pkt.src_ip ends mid.1)
      ]

  linear-Ends :
      (i : ℕ) (rs : List (Rule IpNet)) (eng : Engine IpNet fl)
      → AllEnd now rs
      → Ends now (linear fl net_contains now pkt eng i rs).0.auto_block_secs
  unfolding linear default_decision
  linear-Ends i [] eng h = tt
  linear-Ends i (r ∷ rs) eng h = elim (Bool-cases (rule_matches fl net_contains eng r pkt)) [
    | inl e ↦ rw e (apply_rule-Ends i r eng h.0)
    | inr e ↦ rw e (linear-Ends (suc i) rs eng h.1)
  ]

  pub evaluate_linear-Ends :
      (eng : Engine IpNet fl)
      → AllEnd now eng.rules
      → Ends now (evaluate_linear fl net_contains now pkt eng).0.auto_block_secs
  unfolding evaluate_linear
  evaluate_linear-Ends eng h = elim (Bool-cases (is_trusted fl eng pkt.src_ip)) [
    | inl e ↦ rw e tt
    | inr e ↦ rw e (linear-Ends 0 eng.rules eng h)
  ]
