-- ===== src/Firewall/Engine/Linear.antt =====
-- The indexed evaluation of components/firewall-perimeter/src/engine.rs against a plain walk over
-- the rules: first match wins, and the index changes nothing but the cost.
use active_spectral_defense.Base.{
  ℕ, suc, ◌+◌, ◌≡◌, refl, ap, ◌∙◌, Bool, true, false, ◌||◌, ◌&&◌, some, List, [], ◌∷◌, ◌++◌, arith,
  Bool-cases, inl, inr, get_elem?, if◌then◌else◌,
}
use active_spectral_defense.Float.{Float}
use active_spectral_defense.Firewall.Net.{IpAddr}
use active_spectral_defense.Firewall.Packet.{ParsedPacket, L4Proto}
use active_spectral_defense.Firewall.Config.{Rule, Protocol, PortRange, contains}
use active_spectral_defense.Firewall.Engine.{
  Engine, Decision, PortKey, Index, exact_key, proto_num, pkt_proto_num, proto_matches, is_trusted,
  trusted_decision, index_rules, default_decision, apply_rule, rule_matches, scan, candidates,
  sort_unstable, evaluate,
}
use active_spectral_defense.Firewall.Engine.Order.{
  bucket_of, indices, is_candidate, is_key, is_none, candidates-indices,
}

module _ {IpNet : Type 0} (fl : Float) (net_contains : IpNet → IpAddr → Bool) where
  -- The rules from the `i`-th on, one after another: the first that matches decides.
  unfoldable pub linear :
      ℕ → ParsedPacket → Engine IpNet fl → ℕ → List (Rule IpNet) → Decision × Engine IpNet fl
  linear now pkt eng i [] = (default_decision fl eng, eng)
  linear now pkt eng i (r ∷ rs) =
      let later = linear now pkt eng (suc i) rs in
      if rule_matches fl net_contains eng r pkt then apply_rule fl now i r pkt eng else later

  unfoldable pub evaluate_linear : ℕ → ParsedPacket → Engine IpNet fl → Decision × Engine IpNet fl
  unfolding linear
  evaluate_linear now pkt eng =
      if is_trusted fl eng pkt.src_ip
      then (trusted_decision, eng)
      else linear now pkt eng 0 eng.rules

-- the indexes are those that `Engine::new` builds of the rules
abbrev pub IsIndexed : {IpNet : Type 0} {fl : Float} → Engine IpNet fl → Type 0
IsIndexed eng =
    eng.index ≡ index_rules 0 eng.rules (record { exact_port_index = []; wildcard_rules = [] })

abbrev key_of : ParsedPacket → PortKey
key_of pkt = (pkt_proto_num pkt.proto, pkt.dst_port)

-- what the index does not offer cannot match
exact_key-mismatch :
    (p : Protocol) (ports : PortRange) (q : L4Proto) (port : ℕ)
    → (is_key (pkt_proto_num q, port) (exact_key (proto_num p) ports)
        || is_none (exact_key (proto_num p) ports))
      ≡ false
    → (proto_matches p q && contains ports port) ≡ false
unfolding exact_key proto_num pkt_proto_num proto_matches contains
exact_key-mismatch p ports q port h = ground arith

if-some {ℓ} :
    {A : Type ℓ} (b : Bool) (x y : A) → (if b then some x else some y) ≡ some (if b then x else y)
if-some true x y = refl
if-some false x y = refl

module _ {IpNet : Type 0} (fl : Float) (net_contains : IpNet → IpAddr → Bool) where
  not_candidate :
      (eng : Engine IpNet fl) (r : Rule IpNet) (pkt : ParsedPacket)
      → is_candidate (key_of pkt) r ≡ false
      → rule_matches fl net_contains eng r pkt ≡ false
  unfolding rule_matches
  not_candidate eng r pkt h =
      ground (arith, exact_key-mismatch r.protocol r.dst_port pkt.proto pkt.dst_port h)

  -- `rs` are the rules from the `i`-th on
  abbrev IsSuffix : Engine IpNet fl → ℕ → List (Rule IpNet) → Type 0
  IsSuffix eng i rs = (k : ℕ) → get_elem? eng.rules (i + k) ≡ get_elem? rs k

  scan-cons :
      (now : ℕ) (pkt : ParsedPacket) (eng : Engine IpNet fl) (i : ℕ) (rest : List ℕ)
      (r : Rule IpNet)
      → get_elem? eng.rules i ≡ some r
      → scan fl net_contains now pkt eng (i ∷ rest) ≡ (
          if rule_matches fl net_contains eng r pkt
          then some (apply_rule fl now i r pkt eng)
          else scan fl net_contains now pkt eng rest)
  unfolding scan
  scan-cons now pkt eng i rest r e = rw (e, scan) refl

  scan-indices :
      (now : ℕ) (pkt : ParsedPacket) (eng : Engine IpNet fl) (i : ℕ) (rs : List (Rule IpNet))
      → IsSuffix eng i rs
      → scan fl net_contains now pkt eng (indices (is_candidate (key_of pkt)) i rs)
        ≡ some (linear fl net_contains now pkt eng i rs)
  unfolding linear
  scan-indices now pkt eng i [] suffix = unfold scan in refl
  scan-indices now pkt eng i (r ∷ rs) suffix =
      let shift : IsSuffix eng (suc i) rs =
        λ k. let e : suc i + k ≡ i + suc k = omega arith in rw e (suffix (suc k)) in
      let ih = scan-indices now pkt eng (suc i) rs shift in
      let start : i + 0 ≡ i = omega arith in
      let here : get_elem? eng.rules i ≡ some r = rw start at (suffix 0) in
      elim (Bool-cases (is_candidate (key_of pkt) r)) [
        | inl e ↦
            rw
              (
                e,
                scan-cons now pkt eng i (indices (is_candidate (key_of pkt)) (suc i) rs) r here,
                ih,
              )
              (if-some (rule_matches fl net_contains eng r pkt) _ _)
        | inr e ↦ rw (e, not_candidate eng r pkt e) ih
      ]

  candidates-IsIndexed :
      (pkt : ParsedPacket) (eng : Engine IpNet fl)
      → IsIndexed eng
      → candidates fl net_contains pkt eng ≡ indices (is_candidate (key_of pkt)) 0 eng.rules
  unfolding candidates
  candidates-IsIndexed pkt eng ix =
      ap (λ (x : Index). sort_unstable (bucket_of (key_of pkt) x ++ x.wildcard_rules)) ix
      ∙ candidates-indices (key_of pkt) eng.rules

  -- With the indexes of `Engine::new`, `evaluate` does not panic, and its decision and its effects
  -- are those of the plain walk over all rules in which the first match decides.
  pub evaluate-linear :
      (now : ℕ) (pkt : ParsedPacket) (eng : Engine IpNet fl)
      → IsIndexed eng
      → evaluate fl net_contains now pkt eng ≡ some (evaluate_linear fl net_contains now pkt eng)
  unfolding evaluate_linear evaluate
  evaluate-linear now pkt eng ix =
      let whole : IsSuffix eng 0 eng.rules = λ k. let e : 0 + k ≡ k = omega arith in rw e in
      rw (candidates-IsIndexed pkt eng ix, scan-indices now pkt eng 0 eng.rules whole)
        (if-some (is_trusted fl eng pkt.src_ip) _ _)
