-- ===== src/Firewall/Conntrack.antt =====
-- components/firewall-perimeter/src/conntrack.rs: the connection table. `Instant::now()` is the
-- argument `now`, in nanoseconds; `duration_since` stops at 0, as `-` does. A `u64` counter wraps.
pub mod Flows
pub mod Expiry
use active_spectral_defense.Base.{
  ℕ, ◌+◌, ◌-◌, ◌*◌, ◌%◌, ◌^◌, Bool, true, false, Option, none, some, List, [], ◌∷◌, ◌||◌, ◌&&◌, not,
  leb, ltb, ◌==◌, if◌then◌else◌, ℕ_discrete,
}
use active_spectral_defense.Map.{Map, size, lookup, insert, retain}
use active_spectral_defense.Firewall.Net.{IpAddr, IpAddr-discrete, endpoint_le}
use active_spectral_defense.Firewall.Packet.{L4Proto, tcp, udp, icmp, other, TcpFlags, ParsedPacket}
use active_spectral_defense.Firewall.Config.{ConntrackConfig}

pub data TcpState : Type 0 where
  syn_sent syn_ack_seen established fin_wait closed : TcpState

pub record FlowKey : Type 0 where
  pub proto : ℕ
  pub ip_lo : IpAddr
  pub port_lo : ℕ
  pub ip_hi : IpAddr
  pub port_hi : ℕ

unfoldable pub FlowKey-discrete : Discrete FlowKey
unfolding IpAddr-discrete
FlowKey-discrete = hlevel (ℕ_discrete, IpAddr-discrete)

-- `FlowKey::new`
unfoldable pub flow_key : IpAddr → ℕ → IpAddr → ℕ → ℕ → FlowKey
flow_key a_ip a_port b_ip b_port proto =
    if endpoint_le a_ip a_port b_ip b_port
    then record { proto = proto; ip_lo = a_ip; port_lo = a_port; ip_hi = b_ip; port_hi = b_port }
    else record { proto = proto; ip_lo = b_ip; port_lo = b_port; ip_hi = a_ip; port_hi = a_port }

pub record FlowEntry : Type 0 where
  pub state : TcpState
  pub last_seen : ℕ
  pub packets : ℕ
  pub bytes : ℕ

pub record ConnTrack : Type 0 where
  pub table : Map FlowKey FlowEntry
  pub cfg : ConntrackConfig

pub data LookupResult : Type 0 where
  new established table_full : LookupResult

unfoldable pub proto_num : L4Proto → ℕ
proto_num tcp = 6
proto_num udp = 17
proto_num icmp = 1
proto_num (other n) = n

abbrev pub empty : ConntrackConfig → ConnTrack
empty cfg = record { table = []; cfg = cfg }

unfoldable pub packet_key : ParsedPacket → FlowKey
unfolding proto_num
packet_key pkt = flow_key pkt.src_ip pkt.src_port pkt.dst_ip pkt.dst_port (proto_num pkt.proto)

abbrev pub u64 : ℕ → ℕ
u64 n = n % 2 ^ 64

abbrev pub is_syn_ack_seen : TcpState → Bool
is_syn_ack_seen syn_ack_seen = true
is_syn_ack_seen _ = false

-- the state after one more packet with these flags
unfoldable pub advance : Option TcpFlags → TcpState → TcpState
advance none s = s
advance (some flags) s =
    if flags.rst || flags.fin
    then fin_wait
    else if flags.syn && flags.ack
    then syn_ack_seen
    else if is_syn_ack_seen s
    then TcpState.established
    else s

unfoldable pub touch : ℕ → ParsedPacket → FlowEntry → FlowEntry
unfolding advance
touch now pkt entry = record {
  state = advance pkt.tcp_flags entry.state;
  last_seen = now;
  packets = u64 (entry.packets + 1);
  bytes = u64 (entry.bytes + pkt.payload_len);
}

unfoldable pub lookup_or_admit : ℕ → ParsedPacket → ConnTrack → LookupResult × ConnTrack
unfolding touch
lookup_or_admit now pkt ct = elim (lookup FlowKey-discrete (packet_key pkt) ct.table) [
  | some entry ↦ (
    established,
    record ct { table = insert FlowKey-discrete (packet_key pkt) (touch now pkt entry) ct.table },
  )
  | none ↦ (if leb ct.cfg.max_entries (size ct.table) then table_full else new, ct)
]

unfoldable pub initial_state : Option TcpFlags → TcpState
initial_state none = TcpState.established
initial_state (some f) = if f.syn && not f.ack then syn_sent else TcpState.established

-- the entry that `record_new` writes
unfoldable pub new_entry : ℕ → ParsedPacket → FlowEntry
unfolding initial_state
new_entry now pkt = record {
  state = initial_state pkt.tcp_flags;
  last_seen = now;
  packets = 1;
  bytes = pkt.payload_len;
}

unfoldable pub record_new : ℕ → ParsedPacket → ConnTrack → ConnTrack
unfolding new_entry
record_new now pkt ct = record ct {
  table = insert FlowKey-discrete (packet_key pkt) (new_entry now pkt) ct.table;
}

-- `Duration::from_secs`
abbrev pub from_secs : ℕ → ℕ
from_secs s = s * 1_000_000_000

abbrev is_established : TcpState → Bool
is_established TcpState.established = true
is_established _ = false

unfoldable pub timeout_of : ConntrackConfig → FlowKey → FlowEntry → ℕ
timeout_of cfg key entry =
    if key.proto == 6
    then (if is_established entry.state
        then from_secs cfg.tcp_established_timeout_secs
        else from_secs cfg.tcp_transitory_timeout_secs)
    else from_secs cfg.udp_timeout_secs

unfoldable pub sweep_expired : ℕ → ConnTrack → ConnTrack
unfolding timeout_of
sweep_expired now ct = record ct {
  table = retain (λ key entry. ltb (now - entry.last_seen) (timeout_of ct.cfg key entry)) ct.table;
}
