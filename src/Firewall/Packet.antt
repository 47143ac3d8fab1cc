-- ===== src/Firewall/Packet.antt =====
-- components/firewall-perimeter/src/packet.rs: classification of a raw IP packet.
-- The header parser of the etherparse crate is the parameter `Etherparse`: of its results the model
-- has the fields that packet.rs reads.
use active_spectral_defense.Base.{
  ℕ, Bool, Option, none, some, List, ◌≡◌, ◌↔◌, arith, ◌==◌, if◌then◌else◌, length, is_some, true,
  false, ◌<◌, ◌⊎◌, inl, inr, refl, Bool-cases, Option-cases,
}
use active_spectral_defense.Firewall.Net.{IpAddr, v4, v6}

pub data L4Proto : Type 0 where
  tcp udp icmp : L4Proto
  other : ℕ → L4Proto

pub record TcpFlags : Type 0 where
  pub syn : Bool
  pub ack : Bool
  pub fin : Bool
  pub rst : Bool

pub record ParsedPacket : Type 0 where
  pub src_ip : IpAddr
  pub dst_ip : IpAddr
  pub proto : L4Proto
  pub src_port : ℕ
  pub dst_port : ℕ
  pub tcp_flags : Option TcpFlags
  pub payload_len : ℕ

pub data ParseOutcome : Type 0 where
  parsed : ParsedPacket → ParseOutcome
  unclassifiable_fragment malformed : ParseOutcome

-- what `IpHeader`, `TransportHeader` and `PacketHeaders` of etherparse show to packet.rs
pub record Ipv4Header : Type 0 where
  pub source : ℕ
  pub destination : ℕ
  pub fragments_offset : ℕ

pub record Ipv6Header : Type 0 where
  pub source : ℕ
  pub destination : ℕ
  -- the offset in the fragment extension header, if there is one
  pub fragment : Option ℕ

pub data IpHeader : Type 0 where
  version4 : Ipv4Header → IpHeader
  version6 : Ipv6Header → IpHeader

pub data TransportHeader : Type 0 where
  tcp_header : ℕ → ℕ → TcpFlags → TransportHeader
  udp_header : ℕ → ℕ → TransportHeader
  icmpv4_header icmpv6_header : TransportHeader

pub record PacketHeaders : Type 0 where
  pub ip : Option IpHeader
  pub transport : Option TransportHeader
  pub payload : List ℕ

pub record Etherparse : Type 0 where
  -- `IpHeader::from_slice(raw).ok()`, its first part
  pub from_slice : List ℕ → Option IpHeader
  -- `PacketHeaders::from_ip_slice(raw).ok()`
  pub from_ip_slice : List ℕ → Option PacketHeaders

unfoldable pub fragment_offset : IpHeader → ℕ
fragment_offset (version4 h) = h.fragments_offset
fragment_offset (version6 h) = elim h.fragment [ none ↦ 0 | some offset ↦ offset ]

unfoldable pub check_fragmentation : Etherparse → List ℕ → Option ParseOutcome
unfolding fragment_offset
check_fragmentation lib raw = elim (lib.from_slice raw) [
  | none ↦ none
  | some header ↦ if fragment_offset header == 0 then none else some unclassifiable_fragment
]

unfoldable pub addresses : IpHeader → IpAddr × IpAddr
addresses (version4 h) = (v4 h.source, v4 h.destination)
addresses (version6 h) = (v6 h.source, v6 h.destination)

unfoldable pub classify : Option TransportHeader → L4Proto × ℕ × ℕ × Option TcpFlags
classify (some (tcp_header src dst flags)) = (tcp, src, dst, some flags)
classify (some (udp_header src dst)) = (udp, src, dst, none)
classify (some icmpv4_header) = (icmp, 0, 0, none)
classify (some icmpv6_header) = (icmp, 0, 0, none)
classify none = (other 0, 0, 0, none)

unfoldable pub assemble : PacketHeaders → IpHeader → ParsedPacket
unfolding addresses classify
assemble headers header =
    let (src, dst) = addresses header in
    let (proto, src_port, dst_port, flags) = classify headers.transport in
    record {
      src_ip = src;
      dst_ip = dst;
      proto = proto;
      src_port = src_port;
      dst_port = dst_port;
      tcp_flags = flags;
      payload_len = length headers.payload;
    }

unfoldable pub parse_headers : Option PacketHeaders → ParseOutcome
unfolding assemble
parse_headers none = malformed
parse_headers (some headers) = elim headers.ip [
  | none ↦ malformed
  | some header ↦ parsed (assemble headers header)
]

unfoldable pub parse : Etherparse → List ℕ → ParseOutcome
unfolding check_fragmentation parse_headers
parse lib raw = elim (check_fragmentation lib raw) [
  | some outcome ↦ outcome
  | none ↦ parse_headers (lib.from_ip_slice raw)
]

abbrev offset_of : Option IpHeader → ℕ
offset_of none = 0
offset_of (some header) = fragment_offset header

abbrev pub other_number : L4Proto → ℕ
other_number (other n) = n
other_number _ = 0

-- What a packet that comes out as parsed satisfies.
pub record IsClassified (lib : Etherparse) (raw : List ℕ) (p : ParsedPacket) : Type 0 where
  pub first_fragment : offset_of (lib.from_slice raw) ≡ 0
  pub flags_of_tcp : (is_some p.tcp_flags ≡ true) ↔ (p.proto ≡ tcp)
  pub other_is_zero : other_number p.proto ≡ 0

-- A packet that parses is no later fragment of a datagram, has flags exactly if it is TCP, and has
-- no protocol number of its own where it is neither TCP, UDP nor ICMP.
pub parse-IsClassified :
    (lib : Etherparse) (raw : List ℕ) (p : ParsedPacket)
    → parse lib raw ≡ parsed p
    → IsClassified lib raw p
unfolding parse
parse-IsClassified lib raw p h = record {
  first_fragment = ground arith;
  flags_of_tcp = ground arith;
  other_is_zero = ground arith;
}

-- a header of a fragment that is not the first of its datagram
abbrev pub IsLaterFragment : Option IpHeader → Type 0
IsLaterFragment none = ⊥
IsLaterFragment (some (version4 h)) = 0 < h.fragments_offset
IsLaterFragment (some (version6 h)) = (offset : ℕ) × (h.fragment ≡ some offset) × (0 < offset)

-- no headers, or no IP header among them
abbrev pub HasNoIp : Option PacketHeaders → Type 0
HasNoIp none = Unit
HasNoIp (some headers) = headers.ip ≡ none

abbrev pub IsUnreadable : Etherparse → List ℕ → Type 0
IsUnreadable lib raw = IsLaterFragment (lib.from_slice raw) ⊎ HasNoIp (lib.from_ip_slice raw)

fragment-IsLaterFragment : (o : Option IpHeader) → IsLaterFragment o → (offset_of o == 0) ≡ false
unfolding fragment_offset
fragment-IsLaterFragment none h = absurd h
fragment-IsLaterFragment (some (version4 x)) h = ground (arith, h)
fragment-IsLaterFragment (some (version6 x)) (k, e, pos) = ground (arith, e, pos)

parse_headers-HasNoIp : (o : Option PacketHeaders) → HasNoIp o → parse_headers o ≡ malformed
unfolding parse_headers
parse_headers-HasNoIp none h = refl
parse_headers-HasNoIp (some headers) h = rw (h, parse_headers) refl

check-cases :
    (lib : Etherparse) (raw : List ℕ)
    → check_fragmentation lib raw
      ≡ (if offset_of (lib.from_slice raw) == 0 then none else some unclassifiable_fragment)
unfolding check_fragmentation
check-cases lib raw = elim (Option-cases (lib.from_slice raw)) [
  | inl e ↦ rw (e, check_fragmentation) refl
  | inr (header, e) ↦ rw (e, check_fragmentation) refl
]

-- such a packet is not parsed
pub parse-IsUnreadable :
    (lib : Etherparse) (raw : List ℕ)
    → IsUnreadable lib raw
    → (parse lib raw ≡ malformed) ⊎ (parse lib raw ≡ unclassifiable_fragment)
unfolding parse
parse-IsUnreadable lib raw (inl later) =
    let e = fragment-IsLaterFragment (lib.from_slice raw) later in
    let c : check_fragmentation lib raw ≡ some unclassifiable_fragment =
      rw e at (check-cases lib raw) in
    inr (rw (parse, c) refl)
parse-IsUnreadable lib raw (inr no_ip) =
    let h = parse_headers-HasNoIp (lib.from_ip_slice raw) no_ip in
    elim (Bool-cases (offset_of (lib.from_slice raw) == 0)) [
      | inl e ↦
          let c : check_fragmentation lib raw ≡ none = rw e at (check-cases lib raw) in
          inl (rw (parse, c, h) refl)
      | inr e ↦
          let c : check_fragmentation lib raw ≡ some unclassifiable_fragment =
            rw e at (check-cases lib raw) in
          inr (rw (parse, c) refl)
    ]
