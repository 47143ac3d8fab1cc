-- ===== src/Firewall/Conntrack/Flows.antt =====
-- Both directions of a connection are one flow, and the table stays within its bound
-- (components/firewall-perimeter/src/conntrack.rs).
use active_spectral_defense.Base.{
  ℕ, ◌≤◌, ◌≡◌, some, ◌⊎◌, inl, inr, ite, arith, Option-cases, leb, if◌then◌else◌, is_some,
}
use active_spectral_defense.Map.{size, lookup, IsMap}
use active_spectral_defense.Map.Laws.{lookup-insert, size-insert, insert-IsMap}
use active_spectral_defense.Firewall.Net.{IpAddr, v4, v6, endpoint_le}
use active_spectral_defense.Firewall.Packet.{ParsedPacket}
use active_spectral_defense.Firewall.Conntrack.{
  FlowKey, FlowKey-discrete, FlowEntry, flow_key, packet_key, ConnTrack, new, established,
  table_full, touch, lookup_or_admit, record_new, new_entry, proto_num,
}

-- The key does not depend on the direction.
pub flow_key_comm : (a b : IpAddr) (p q n : ℕ) → flow_key a p b q n ≡ flow_key b q a p n
unfolding flow_key endpoint_le
flow_key_comm (v4 a) (v4 b) p q n = ground arith
flow_key_comm (v4 a) (v6 b) p q n = ground arith
flow_key_comm (v6 a) (v4 b) p q n = ground arith
flow_key_comm (v6 a) (v6 b) p q n = ground arith

abbrev pub SameEnds : IpAddr → ℕ → IpAddr → ℕ → IpAddr → ℕ → IpAddr → ℕ → Type 0
SameEnds a p b q c r d s = (a ≡ c) × (p ≡ r) × (b ≡ d) × (q ≡ s)

-- Two keys are equal only for one protocol and the same two ends, in one order or the other.
pub flow_key_injective :
    (a b c d : IpAddr) (p q r s m n : ℕ)
    → flow_key a p b q m ≡ flow_key c r d s n
    → (m ≡ n) × (SameEnds a p b q c r d s ⊎ SameEnds a p b q d s c r)
unfolding flow_key
flow_key_injective a b c d p q r s m n h = ground arith

-- `r` is a packet of the other direction of the connection of `p`.
pub record IsReply (p r : ParsedPacket) : Type 0 where
  pub proto : r.proto ≡ p.proto
  pub src : r.src_ip ≡ p.dst_ip
  pub src_port : r.src_port ≡ p.dst_port
  pub dst : r.dst_ip ≡ p.src_ip
  pub dst_port : r.dst_port ≡ p.src_port

packet_key-reply : (p r : ParsedPacket) → IsReply p r → packet_key r ≡ packet_key p
unfolding packet_key
packet_key-reply p r h =
    ground (arith, flow_key_comm p.src_ip p.dst_ip p.src_port p.dst_port (proto_num p.proto))

lookup-record_new :
    (now : ℕ) (pkt : ParsedPacket) (ct : ConnTrack) (k : FlowKey)
    → lookup FlowKey-discrete k (record_new now pkt ct).table
      ≡ ite
          (FlowKey-discrete (packet_key pkt) k)
          (some (new_entry now pkt))
          (lookup FlowKey-discrete k ct.table)
unfolding record_new
lookup-record_new now pkt ct k =
    lookup-insert FlowKey-discrete (packet_key pkt) k (new_entry now pkt) ct.table

pub found_is_established :
    (now : ℕ) (pkt : ParsedPacket) (ct : ConnTrack) (e : FlowEntry)
    → lookup FlowKey-discrete (packet_key pkt) ct.table ≡ some e
    → (lookup_or_admit now pkt ct).0 ≡ established
unfolding lookup_or_admit
found_is_established now pkt ct e h = ground arith

-- After a new flow was recorded, a packet of either direction of it takes the fast path, also when
-- the table is full.
pub reply-established :
    (now later : ℕ) (pkt reply : ParsedPacket) (ct : ConnTrack)
    → IsReply pkt reply
    → ((lookup_or_admit later reply (record_new now pkt ct)).0 ≡ established)
      × ((lookup_or_admit later pkt (record_new now pkt ct)).0 ≡ established)
unfolding lookup_or_admit
reply-established now later pkt reply ct h =
    let e = packet_key-reply pkt reply h in
    let k = lookup-record_new now pkt ct (packet_key pkt) in
    (ground (arith, e, k, lookup-record_new now pkt ct (packet_key reply)), ground (arith, k))

-- A lookup answers `established` exactly for a flow in the table; for any other packet it answers
-- `table_full` exactly when the table has reached its limit; and it changes nothing where the
-- flow is not in the table.
pub lookup_or_admit-exact :
    (now : ℕ) (pkt : ParsedPacket) (ct : ConnTrack)
    → let found = is_some (lookup FlowKey-discrete (packet_key pkt) ct.table) in
      let (answer, after) = lookup_or_admit now pkt ct in
      (answer ≡ (
        if found
        then established
        else if leb ct.cfg.max_entries (size ct.table)
        then table_full
        else new))
      × ((if found then ct else after) ≡ ct)
unfolding lookup_or_admit
lookup_or_admit-exact now pkt ct = ground arith

-- The table has one entry for a flow, and no more entries than the configured limit.
pub record Inv (ct : ConnTrack) : Type 0 where
  pub is_map : IsMap FlowKey-discrete ct.table
  pub bounded : size ct.table ≤ ct.cfg.max_entries

pub lookup_or_admit-Inv :
    (now : ℕ) (pkt : ParsedPacket) (ct : ConnTrack) → Inv ct → Inv (lookup_or_admit now pkt ct).1
unfolding lookup_or_admit
lookup_or_admit-Inv now pkt ct v =
    elim (Option-cases (lookup FlowKey-discrete (packet_key pkt) ct.table)) [
      | inl miss ↦ rw (miss, lookup_or_admit) v
      | inr (entry, hit) ↦
          let k = packet_key pkt in
          let e = touch now pkt entry in
          rw (hit, lookup_or_admit)
            (record {
              is_map = insert-IsMap FlowKey-discrete k e ct.table v.is_map;
              bounded = ground (arith, size-insert FlowKey-discrete k e ct.table);
            })
    ]

-- If the table is within its limit and has one entry for a flow, and the lookup of a packet
-- answers `new`, then recording the packet's flow after that lookup keeps both.
pub record_new-Inv :
    (now later : ℕ) (pkt : ParsedPacket) (ct : ConnTrack)
    → Inv ct
    → (lookup_or_admit now pkt ct).0 ≡ new
    → Inv (record_new later pkt (lookup_or_admit now pkt ct).1)
unfolding lookup_or_admit record_new
record_new-Inv now later pkt ct v h =
    elim (Option-cases (lookup FlowKey-discrete (packet_key pkt) ct.table)) [
      | inl miss ↦
          let k = packet_key pkt in
          let e = new_entry later pkt in
          rw (miss, lookup_or_admit)
            (record {
              is_map = insert-IsMap FlowKey-discrete k e ct.table v.is_map;
              bounded = ground (arith, size-insert FlowKey-discrete k e ct.table);
            })
      | inr (entry, hit) ↦ absurd (ground arith)
    ]
