-- ===== src/Firewall/Engine/Decisions.antt =====
-- What every decision of components/firewall-perimeter/src/engine.rs satisfies, whichever rule
-- took it.
use active_spectral_defense.Base.{
  ℕ, suc, ◌≡◌, refl, sym, ap, ◌∙◌, Bool, true, false, some, List, [], ◌∷◌, Bool-cases, Option-cases,
  inl, inr, arith, ◌&&◌, is_some,
}
use active_spectral_defense.Float.{Float}
use active_spectral_defense.Firewall.Net.{IpAddr}
use active_spectral_defense.Firewall.Packet.{ParsedPacket}
use active_spectral_defense.Firewall.Config.{Rule}
use active_spectral_defense.Firewall.Engine.{
  Engine, Decision, index_rules, Verdict, accept, drop, reject, verdict_of, is_trusted,
  default_decision, apply_rule, rule_matches, evaluate, act, gate_auto_block, within_rate,
}
use active_spectral_defense.Firewall.Engine.Linear.{
  IsIndexed, linear, evaluate_linear, evaluate-linear,
}

abbrev pub is_accept : Verdict → Bool
is_accept accept = true
is_accept drop = false
is_accept reject = false

-- a decision does not both accept and ban
unfoldable pub HasNoBan : Decision → Type 0
HasNoBan d = (is_accept d.verdict && is_some d.auto_block_secs) ≡ false

module _ {IpNet : Type 0} {fl : Float} where
  -- the rules and what is read-only with them
  pub record IsKept (eng eng' : Engine IpNet fl) : Type 0 where
    same_rules : eng'.rules ≡ eng.rules
    same_index : eng'.index ≡ eng.index
    same_aliases : eng'.aliases ≡ eng.aliases
    same_trusted : eng'.trusted ≡ eng.trusted

  kept : (eng : Engine IpNet fl) → IsKept eng eng
  kept eng = record {
    same_rules = refl;
    same_index = refl;
    same_aliases = refl;
    same_trusted = refl;
  }

  IsKept-trans : (a b c : Engine IpNet fl) → IsKept a b → IsKept b c → IsKept a c
  IsKept-trans a b c p q = record {
    same_rules = q.same_rules ∙ p.same_rules;
    same_index = q.same_index ∙ p.same_index;
    same_aliases = q.same_aliases ∙ p.same_aliases;
    same_trusted = q.same_trusted ∙ p.same_trusted;
  }

  pub kept-IsIndexed : (a b : Engine IpNet fl) → IsKept a b → IsIndexed a → IsIndexed b
  kept-IsIndexed a b p ix =
      p.same_index
      ∙ (ix
          ∙ ap (λ rs. index_rules 0 rs (record { exact_port_index = []; wildcard_rules = [] }))
              (sym p.same_rules))

module _ {IpNet : Type 0} (fl : Float) (now idx : ℕ) (rule : Rule IpNet) (src : IpAddr) where
  gate_auto_block-IsKept :
      (eng : Engine IpNet fl) → IsKept eng (gate_auto_block fl now idx rule src eng).1
  unfolding gate_auto_block
  gate_auto_block-IsKept eng = elim (Option-cases rule.auto_block_secs) [
    | inl e ↦
        rw e (record {
          same_rules = refl;
          same_index = refl;
          same_aliases = refl;
          same_trusted = refl;
        })
    | inr (s, e) ↦
        rw e (record {
          same_rules = refl;
          same_index = refl;
          same_aliases = refl;
          same_trusted = refl;
        })
  ]

  within_rate-IsKept : (eng : Engine IpNet fl) → IsKept eng (within_rate fl now idx rule src eng).1
  unfolding within_rate
  within_rate-IsKept eng = elim (Option-cases rule.rate_limit_pps) [
    | inl e ↦
        rw e (record {
          same_rules = refl;
          same_index = refl;
          same_aliases = refl;
          same_trusted = refl;
        })
    | inr (s, e) ↦
        rw e (record {
          same_rules = refl;
          same_index = refl;
          same_aliases = refl;
          same_trusted = refl;
        })
  ]

  act-IsKept : (v : Verdict) (eng : Engine IpNet fl) → IsKept eng (act fl v now idx rule src eng).1
  unfolding act
  act-IsKept accept eng = kept eng
  act-IsKept drop eng = gate_auto_block-IsKept eng
  act-IsKept reject eng = gate_auto_block-IsKept eng

  act-HasNoBan : (v : Verdict) (eng : Engine IpNet fl) → HasNoBan (act fl v now idx rule src eng).0
  unfolding act HasNoBan
  act-HasNoBan accept eng = refl
  act-HasNoBan drop eng = refl
  act-HasNoBan reject eng = refl

-- what a decision and the engine after it satisfy
unfoldable pub IsSound :
    {IpNet : Type 0} {fl : Float} → Engine IpNet fl → Decision × Engine IpNet fl → Type 0
IsSound eng (d, eng') = IsKept eng eng' × HasNoBan d

module _ {IpNet : Type 0} (fl : Float) (net_contains : IpNet → IpAddr → Bool) (now : ℕ)
    (pkt : ParsedPacket) where
  apply_rule-IsSound :
      (idx : ℕ) (rule : Rule IpNet) (eng : Engine IpNet fl)
      → IsSound eng (apply_rule fl now idx rule pkt eng)
  unfolding IsSound HasNoBan apply_rule
  apply_rule-IsSound idx rule eng =
      let mid = within_rate fl now idx rule pkt.src_ip eng in
      let first = within_rate-IsKept fl now idx rule pkt.src_ip eng in
      elim (Bool-cases mid.0) [
        | inl e ↦ rw e (
          IsKept-trans eng mid.1 _ first
              (act-IsKept fl now idx rule pkt.src_ip (verdict_of rule.action) mid.1),
          act-HasNoBan fl now idx rule pkt.src_ip (verdict_of rule.action) mid.1,
        )
        | inr e ↦ rw e (
          IsKept-trans eng mid.1 _ first (gate_auto_block-IsKept fl now idx rule pkt.src_ip mid.1),
          refl,
        )
      ]

  linear-IsSound :
      (i : ℕ) (rs : List (Rule IpNet)) (eng : Engine IpNet fl)
      → IsSound eng (linear fl net_contains now pkt eng i rs)
  unfolding IsSound linear HasNoBan default_decision
  linear-IsSound i [] eng = (kept eng, ground arith)
  linear-IsSound i (r ∷ rs) eng = elim (Bool-cases (rule_matches fl net_contains eng r pkt)) [
    | inl e ↦ rw e (apply_rule-IsSound i r eng)
    | inr e ↦ rw e (linear-IsSound (suc i) rs eng)
  ]

  evaluate_linear-IsSound :
      (eng : Engine IpNet fl) → IsSound eng (evaluate_linear fl net_contains now pkt eng)
  unfolding IsSound evaluate_linear HasNoBan
  evaluate_linear-IsSound eng = elim (Bool-cases (is_trusted fl eng pkt.src_ip)) [
    | inl e ↦ rw e (kept eng, refl)
    | inr e ↦ rw e (linear-IsSound 0 eng.rules eng)
  ]

  -- With the indexes of `Engine::new`, `evaluate` returns a decision; the engine after it keeps its
  -- rules, indexes, aliases and trusted sources, and is indexed again; and an accepted packet
  -- carries no ban.
  pub evaluate-IsSound :
      (eng : Engine IpNet fl)
      → IsIndexed eng
      → (r : Decision × Engine IpNet fl) × (evaluate fl net_contains now pkt eng ≡ some r)
        × IsSound eng r
        × IsIndexed r.1
  unfolding IsSound
  evaluate-IsSound eng ix =
      let r = evaluate_linear fl net_contains now pkt eng in
      let sound = evaluate_linear-IsSound eng in
      (r, evaluate-linear fl net_contains now pkt eng ix, sound, kept-IsIndexed eng r.1 sound.0 ix)
