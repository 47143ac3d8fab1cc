-- ===== src/Firewall/Config.antt =====
-- components/firewall-perimeter/src/config.rs: the policy file after it was read, and its
-- validation. `IpNet` of the ipnet crate is the parameter of that name.
pub mod Valid
use active_spectral_defense.Base.{
  ℕ, Bool, true, false, String, Option, none, some, List, [], ◌∷◌, ◌||◌, ◌&&◌, leb, ltb, any, ite,
  String-discrete, if◌then◌else◌, map,
}
use active_spectral_defense.Firewall.Net.{IpAddr}

pub data Protocol : Type 0 where
  tcp udp icmp any_protocol : Protocol

pub data Action : Type 0 where
  accept drop reject : Action

pub data Direction : Type 0 where
  inbound outbound any_direction : Direction

-- An inclusive port range.
pub record PortRange : Type 0 where
  pub lo : ℕ
  pub hi : ℕ

unfoldable pub contains : PortRange → ℕ → Bool
contains r port = leb r.lo port && leb port r.hi

pub data NetworkMatch (IpNet : Type 0) : Type 0 where
  cidr : IpNet → NetworkMatch IpNet
  alias : String → NetworkMatch IpNet

pub record Alias (IpNet : Type 0) : Type 0 where
  pub name : String
  pub cidrs : List IpNet

pub record Rule (IpNet : Type 0) : Type 0 where
  pub name : String
  pub protocol : Protocol
  pub direction : Direction
  pub src : NetworkMatch IpNet
  pub dst : NetworkMatch IpNet
  pub src_port : PortRange
  pub dst_port : PortRange
  pub action : Action
  pub rate_limit_pps : Option ℕ
  pub auto_block_secs : Option ℕ
  pub auto_block_threshold : ℕ
  pub auto_block_window_secs : ℕ
  pub log : Bool

pub record ConntrackConfig : Type 0 where
  pub tcp_established_timeout_secs : ℕ
  pub tcp_transitory_timeout_secs : ℕ
  pub udp_timeout_secs : ℕ
  pub max_entries : ℕ

abbrev pub default_conntrack : ConntrackConfig
default_conntrack = record {
  tcp_established_timeout_secs = 3600;
  tcp_transitory_timeout_secs = 60;
  udp_timeout_secs = 30;
  max_entries = 250_000;
}

pub record Config (IpNet : Type 0) : Type 0 where
  pub queue_num : ℕ
  pub queue_workers : ℕ
  pub default_policy : Action
  pub conntrack : ConntrackConfig
  pub rules : List (Rule IpNet)
  pub aliases : List (Alias IpNet)
  pub trusted : List IpAddr
  pub log_max_per_sec : ℕ
  pub metrics_listen : Option String
  pub metrics_auth_token : Option String
  pub quarantine_max_entries : ℕ
  pub sync_to_os_firewall : Bool

-- what `validate` bails out with
pub data ConfigError : Type 0 where
  invalid_port_range : String → ConfigError
  duplicate_alias : String → ConfigError
  undefined_alias : String → String → ConfigError

pub data Checked : Type 0 where
  ok : Checked
  bail : ConfigError → Checked

-- one `for` loop after another: the first `bail!` ends the function
infixl 10 ◌>>◌
abbrev pub ◌>>◌ : Checked → Checked → Checked
ok >> next = next
bail e >> next = bail e

-- membership in a `HashSet<&str>`
unfoldable pub contains_name : List String → String → Bool
contains_name [] n = false
contains_name (m ∷ ms) n = ite (String-discrete m n) true (contains_name ms n)

module _ {IpNet : Type 0} where
  unfoldable pub check_ports : List (Rule IpNet) → Checked
  check_ports [] = ok
  check_ports (r ∷ rs) =
      (if ltb r.src_port.hi r.src_port.lo || ltb r.dst_port.hi r.dst_port.lo
        then bail (invalid_port_range r.name)
        else ok)
      >> check_ports rs

  unfoldable pub check_duplicates : List String → List (Alias IpNet) → Checked
  unfolding contains_name
  check_duplicates seen [] = ok
  check_duplicates seen (a ∷ as') =
      (if contains_name seen a.name then bail (duplicate_alias a.name) else ok)
      >> check_duplicates (a.name ∷ seen) as'

  abbrev pub alias_names : List (Alias IpNet) → List String
  alias_names = map (λ a. a.name)

  unfoldable pub check_reference : List String → String → NetworkMatch IpNet → Checked
  unfolding contains_name
  check_reference names rule (cidr net) = ok
  check_reference names rule (alias n) =
      if contains_name names n then ok else bail (undefined_alias rule n)

  unfoldable pub check_references : List String → List (Rule IpNet) → Checked
  unfolding check_reference
  check_references names [] = ok
  check_references names (r ∷ rs) =
      check_reference names r.name r.src
      >> check_reference names r.name r.dst
      >> check_references names rs

  unfoldable pub validate : Config IpNet → Checked
  unfolding check_ports check_duplicates check_references
  validate cfg =
      check_ports cfg.rules
      >> check_duplicates [] cfg.aliases
      >> check_references (alias_names cfg.aliases) cfg.rules
