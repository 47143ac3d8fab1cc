-- ===== src/Firewall/Conntrack/Expiry.antt =====
-- The life of one entry of the connection table (components/firewall-perimeter/src/conntrack.rs):
-- its TCP state, and how long a sweep keeps it.
use active_spectral_defense.Base.{
  ℕ, ◌*◌, ◌+◌, ◌-◌, ◌≤◌, ◌<◌, ◌≡◌, ◌≢◌, refl, Bool, true, false, Option, some, arith, ltb, List, [],
  ◌∷◌,
}
use active_spectral_defense.Map.{lookup, keep}
use active_spectral_defense.Map.Laws.{lookup-insert, lookup-retain, retain-IsMap, size-retain}
use active_spectral_defense.Firewall.Packet.{ParsedPacket, TcpFlags, L4Proto, tcp}
use active_spectral_defense.Firewall.Config.{ConntrackConfig}
use active_spectral_defense.Firewall.Conntrack.{
  FlowKey, FlowKey-discrete, FlowEntry, TcpState, closed, packet_key, ConnTrack, established,
  lookup_or_admit, touch, sweep_expired, timeout_of, advance, initial_state,
}
use active_spectral_defense.Firewall.Conntrack.Flows.{
  Inv, lookup_or_admit-Inv, found_is_established,
}

-- what a sweep keeps
abbrev pub is_fresh : ConntrackConfig → ℕ → FlowKey → FlowEntry → Bool
is_fresh cfg now key entry = ltb (now - entry.last_seen) (timeout_of cfg key entry)

-- In a table within its limit that has one entry for a flow, a sweep removes exactly the entries
-- that have been idle for the timeout of their protocol and state, changes no other entry, and
-- keeps both.
pub sweep-exact :
    (now : ℕ) (ct : ConnTrack)
    → Inv ct
    → ((k : FlowKey)
        → lookup FlowKey-discrete k (sweep_expired now ct).table
          ≡ keep (is_fresh ct.cfg now k) (lookup FlowKey-discrete k ct.table))
      × Inv (sweep_expired now ct)
unfolding sweep_expired
sweep-exact now ct v = (
  λ k. lookup-retain FlowKey-discrete (is_fresh ct.cfg now) k ct.table v.is_map,
  record {
    is_map = retain-IsMap FlowKey-discrete (is_fresh ct.cfg now) ct.table v.is_map;
    bounded = omega (arith, v.bounded, size-retain (is_fresh ct.cfg now) ct.table);
  },
)

lookup-touched :
    (now : ℕ) (pkt : ParsedPacket) (ct : ConnTrack) (e : FlowEntry)
    → lookup FlowKey-discrete (packet_key pkt) ct.table ≡ some e
    → lookup FlowKey-discrete (packet_key pkt) (lookup_or_admit now pkt ct).1.table
      ≡ some (touch now pkt e)
unfolding lookup_or_admit
lookup-touched now pkt ct e h = ground (
  arith,
  lookup-insert FlowKey-discrete (packet_key pkt) (packet_key pkt) (touch now pkt e) ct.table,
)

cfg-lookup_or_admit :
    (now : ℕ) (pkt : ParsedPacket) (ct : ConnTrack) → (lookup_or_admit now pkt ct).1.cfg ≡ ct.cfg
unfolding lookup_or_admit
cfg-lookup_or_admit now pkt ct = ground arith

last_seen-touch : (now : ℕ) (pkt : ParsedPacket) (e : FlowEntry) → (touch now pkt e).last_seen ≡ now
unfolding touch
last_seen-touch now pkt e = refl

-- In a table within its limit that has one entry for a flow, a flow that was found at `now` is
-- found again after a sweep at `later`, if less time has passed than the timeout that its entry
-- has after the packet at `now`.
pub found-survives_sweep :
    (now later last : ℕ) (pkt : ParsedPacket) (ct : ConnTrack) (e : FlowEntry)
    → Inv ct
    → lookup FlowKey-discrete (packet_key pkt) ct.table ≡ some e
    → now ≤ later
    → later < now + timeout_of ct.cfg (packet_key pkt) (touch now pkt e)
    → (lookup_or_admit last pkt (sweep_expired later (lookup_or_admit now pkt ct).1)).0
      ≡ established
found-survives_sweep now later last pkt ct e v hit after within =
    let ct' = (lookup_or_admit now pkt ct).1 in
    let swept = (sweep-exact later ct' (lookup_or_admit-Inv now pkt ct v)).0 (packet_key pkt) in
    found_is_established last pkt (sweep_expired later ct') (touch now pkt e) (
      ground (
        arith,
        swept,
        lookup-touched now pkt ct e hit,
        cfg-lookup_or_admit now pkt ct,
        last_seen-touch now pkt e,
      ))

-- How long the policy lets a flow be idle: by its protocol, and for TCP by its state.
abbrev pub idle_limit : ConntrackConfig → L4Proto → TcpState → ℕ
idle_limit cfg tcp TcpState.established = cfg.tcp_established_timeout_secs * 1_000_000_000
idle_limit cfg tcp s = cfg.tcp_transitory_timeout_secs * 1_000_000_000
idle_limit cfg _ s = cfg.udp_timeout_secs * 1_000_000_000

-- The states of an entry that `first` opened, after the packets of `later`, newest first.
pub states : Option TcpFlags → List (Option TcpFlags) → TcpState
states first [] = initial_state first
states first (f ∷ later) = advance f (states first later)

-- No sequence of packets brings an entry into the reserved state `closed`.
pub states-ne-closed :
    (first : Option TcpFlags) (later : List (Option TcpFlags)) → states first later ≢ closed
unfolding states advance initial_state
states-ne-closed first [] = ground arith
states-ne-closed first (f ∷ later) = ground (arith, states-ne-closed first later)

abbrev pub IsSynAck : TcpFlags → Type 0
IsSynAck f = (f.rst ≡ false) × (f.fin ≡ false) × (f.syn ≡ true) × (f.ack ≡ true)

abbrev pub IsPlain : TcpFlags → Type 0
IsPlain f = (f.rst ≡ false) × (f.fin ≡ false) × (f.syn ≡ false)

-- A SYN-ACK and then a packet without SYN, FIN and RST bring an entry to `established` from every
-- state, from `fin_wait` too.
pub advance_handshake :
    (f g : TcpFlags) (s : TcpState)
    → IsSynAck f
    → IsPlain g
    → advance (some g) (advance (some f) s) ≡ TcpState.established
unfolding advance
advance_handshake f g s hf hg = ground arith
