-- ===== src/Firewall/Engine/Indexing.antt =====
-- components/firewall-perimeter/src/engine.rs: the indexes over the rules and the table of aliases,
-- which `Engine::new` builds once, and the sort of a packet's candidates.
use active_spectral_defense.Base.{
  ℕ, suc, String, Option, none, some, List, [], ◌∷◌, ◌++◌, leb, ◌==◌, if◌then◌else◌, ℕ_discrete,
  String-discrete,
}
use active_spectral_defense.Map.{Map, lookup, insert}
use active_spectral_defense.Firewall.Config.{
  Protocol, tcp, udp, icmp, any_protocol, PortRange, Alias, Rule,
}

unfoldable pub proto_num : Protocol → Option ℕ
proto_num tcp = some 6
proto_num udp = some 17
proto_num icmp = some 1
proto_num any_protocol = none

-- the key of the exact-port index: protocol and port
abbrev pub PortKey : Type 0
PortKey = ℕ × ℕ

unfoldable pub PortKey-discrete : Discrete PortKey
PortKey-discrete = hlevel ℕ_discrete

-- the two indexes over the rules
pub record Index : Type 0 where
  pub exact_port_index : Map PortKey (List ℕ)
  pub wildcard_rules : List ℕ

abbrev pub or_default : Option (List ℕ) → List ℕ
or_default none = []
or_default (some l) = l

-- `entry(key).or_default().push(idx)`
unfoldable pub push_exact : PortKey → ℕ → Index → Index
push_exact key idx ix =
    let bucket = or_default (lookup PortKey-discrete key ix.exact_port_index) in
    record ix {
      exact_port_index = insert PortKey-discrete key (bucket ++ idx ∷ []) ix.exact_port_index;
    }

unfoldable pub push_wildcard : ℕ → Index → Index
push_wildcard idx ix = record ix { wildcard_rules = ix.wildcard_rules ++ idx ∷ [] }

-- the index key of a rule that has a protocol and a single destination port
unfoldable pub exact_key : Option ℕ → PortRange → Option PortKey
exact_key none ports = none
exact_key (some proto) ports = if ports.lo == ports.hi then some (proto, ports.lo) else none

unfoldable pub index_rule : Option PortKey → ℕ → Index → Index
unfolding push_exact push_wildcard
index_rule (some key) idx ix = push_exact key idx ix
index_rule none idx ix = push_wildcard idx ix

-- `sort_unstable` on indexes
unfoldable pub insert_sorted : ℕ → List ℕ → List ℕ
insert_sorted x [] = x ∷ []
insert_sorted x (y ∷ ys) = if leb x y then x ∷ y ∷ ys else y ∷ insert_sorted x ys

unfoldable pub sort_unstable : List ℕ → List ℕ
unfolding insert_sorted
sort_unstable [] = []
sort_unstable (x ∷ xs) = insert_sorted x (sort_unstable xs)

module _ {IpNet : Type 0} where
  abbrev pub rule_key : Rule IpNet → Option PortKey
  rule_key r = exact_key (proto_num r.protocol) r.dst_port

  -- the loop over `rules.iter().enumerate()`
  unfoldable pub index_rules : ℕ → List (Rule IpNet) → Index → Index
  index_rules idx [] ix = ix
  index_rules idx (r ∷ rs) ix = index_rules (suc idx) rs (index_rule (rule_key r) idx ix)

  -- collecting the aliases into a `HashMap`
  unfoldable pub collect_aliases :
      List (Alias IpNet) → Map String (List IpNet) → Map String (List IpNet)
  collect_aliases [] m = m
  collect_aliases (a ∷ as') m = collect_aliases as' (insert String-discrete a.name a.cidrs m)
