-- ===== src/Examples/Data.antt =====
-- A policy, packets and stand-ins for the outside of the model.
use active_spectral_defense.Base.{
  ℕ, ◌-◌, ◌+◌, ◌*◌, ◌/◌, refl, Bool, true, false, Option, none, some, List, [], ◌∷◌, leb, ltb, ◌==◌,
  min, max, arith, if◌then◌else◌, decimal,
}
use active_spectral_defense.Float.{Float, IsExact}
use active_spectral_defense.Firewall.Net.{IpAddr, v4, v6}
use active_spectral_defense.Firewall.Packet.{
  L4Proto, TcpFlags, ParsedPacket, Etherparse, IpHeader, version4, tcp_header, PacketHeaders,
}
use active_spectral_defense.Firewall.Config.{
  Protocol, Action, Direction, PortRange, cidr, alias, Rule, Config, default_conntrack,
}

-- whole numbers in place of floating point
abbrev total : List ℕ → ℕ
total [] = 0
total (x ∷ xs) = x + total xs

abbrev pub nat_float : Float
nat_float = record {
  F = ℕ;
  of_ℕ = λ n. n;
  as_secs = λ n. n / 1_000_000_000;
  add = λ a b. a + b;
  sub = λ a b. a - b;
  mul = λ a b. a * b;
  div = λ a b. a / b;
  fmin = λ a b. min a b;
  fmax = λ a b. max a b;
  eq = λ a b. a == b;
  ge = λ a b. leb b a;
  lt = λ a b. ltb a b;
  sum = total;
  clamp = λ x low high. min (max x low) high;
  round = λ x. x;
  fixed = λ n x. decimal x;
}

pub nat_float-IsExact : IsExact nat_float
nat_float-IsExact = record {
  as_secs_zero = refl;
  mul_zero = λ n h. omega arith;
  add_zero = λ n h. omega arith;
  sub_one = λ n h k. refl;
  fmin_exact = λ m n h k. refl;
  fmax_exact = λ m n h k. refl;
  ge_exact = λ m n h k. refl;
}

-- a network is its lowest address; it holds every IPv4 address from there on
abbrev pub from_address : ℕ → IpAddr → Bool
from_address n (v4 a) = leb n a
from_address n (v6 a) = false

abbrev pub client : IpAddr
client = v4 10

abbrev pub server : IpAddr
server = v4 20

abbrev pub syn_flags : TcpFlags
syn_flags = record { syn = true; ack = false; fin = false; rst = false }

abbrev pub syn_ack_flags : TcpFlags
syn_ack_flags = record { syn = true; ack = true; fin = false; rst = false }

abbrev pub ack_flags : TcpFlags
ack_flags = record { syn = false; ack = true; fin = false; rst = false }

abbrev pub request : ParsedPacket
request = record {
  src_ip = client;
  dst_ip = server;
  proto = L4Proto.tcp;
  src_port = 40000;
  dst_port = 443;
  tcp_flags = some syn_flags;
  payload_len = 12;
}

abbrev pub reply : ParsedPacket
reply = record {
  src_ip = server;
  dst_ip = client;
  proto = L4Proto.tcp;
  src_port = 443;
  dst_port = 40000;
  tcp_flags = some syn_ack_flags;
  payload_len = 0;
}

-- parses `1` as the request and `2` as a later fragment, and nothing else
abbrev pub lib : Etherparse
lib = record { from_slice = slice; from_ip_slice = packet }
  where
    slice : List ℕ → Option IpHeader
    slice [] = none
    slice (x ∷ rest) =
        if x == 2
        then some (version4 (record { source = 10; destination = 20; fragments_offset = 7 }))
        else none

    packet : List ℕ → Option PacketHeaders
    packet [] = none
    packet (x ∷ rest) =
        if x == 1
        then some (record {
          ip = some (version4 (record { source = 10; destination = 20; fragments_offset = 0 }));
          transport = some (tcp_header 40000 443 syn_flags);
          payload = rest;
        })
        else none

abbrev pub all_ports : PortRange
all_ports = record { lo = 0; hi = 65535 }

abbrev pub allow_https : Rule ℕ
allow_https = record {
  name = "allow https";
  protocol = Protocol.tcp;
  direction = Direction.inbound;
  src = cidr 0;
  dst = alias "servers";
  src_port = all_ports;
  dst_port = record { lo = 443; hi = 443 };
  action = Action.accept;
  rate_limit_pps = some 100;
  auto_block_secs = none;
  auto_block_threshold = 1;
  auto_block_window_secs = 60;
  log = false;
}

abbrev pub drop_rest : Rule ℕ
drop_rest = record {
  name = "drop rest";
  protocol = Protocol.any_protocol;
  direction = Direction.any_direction;
  src = cidr 0;
  dst = cidr 0;
  src_port = all_ports;
  dst_port = all_ports;
  action = Action.drop;
  rate_limit_pps = none;
  auto_block_secs = some 600;
  auto_block_threshold = 3;
  auto_block_window_secs = 60;
  log = true;
}

abbrev pub policy : Config ℕ
policy = record {
  queue_num = 0;
  queue_workers = 1;
  default_policy = Action.drop;
  conntrack = default_conntrack;
  rules = allow_https ∷ drop_rest ∷ [];
  aliases = record { name = "servers"; cidrs = 15 ∷ [] } ∷ [];
  trusted = v4 99 ∷ [];
  log_max_per_sec = 100;
  metrics_listen = none;
  metrics_auth_token = none;
  quarantine_max_entries = 4;
  sync_to_os_firewall = false;
}
