-- ===== src/Firewall/Nfqueue/Verdicts.antt =====
-- What verdict each packet gets from components/firewall-perimeter/src/nfqueue.rs, and who sees it.
use active_spectral_defense.Base.{
  ℕ, ◌+◌, ◌≡◌, refl, Bool, true, false, Option, none, some, List, [], ◌∷◌, inl, inr,
}
use active_spectral_defense.Float.{Float}
use active_spectral_defense.Firewall.Net.{IpAddr}
use active_spectral_defense.Firewall.Packet.{
  Etherparse, ParsedPacket, IsUnreadable, parse-IsUnreadable, parse, parsed,
}
use active_spectral_defense.Firewall.Conntrack.{u64}
use active_spectral_defense.Firewall.Quarantine.{is_active}
use active_spectral_defense.Firewall.Engine.{Verdict, drop, is_trusted}
use active_spectral_defense.Firewall.Nfqueue.{
  NfqVerdict, nfq_accept, nfq_drop, Effect, send_reject, submit, Msg, Worker, gated_log,
  count_verdict, block, post, decide, process,
}
use active_spectral_defense.Firewall.Nfqueue.Safety.{gated_log-kept}

-- how many packets go to the ingestion pipeline
abbrev pub submits : List Effect → ℕ
submits [] = 0
submits (submit _ _ _ _ ∷ es) = 1 + submits es
submits (send_reject _ _ ∷ es) = submits es

abbrev pub one_if_accept : NfqVerdict → ℕ
one_if_accept nfq_accept = 1
one_if_accept nfq_drop = 0

abbrev has_reply : List Effect → Bool
has_reply [] = false
has_reply (send_reject _ _ ∷ es) = true
has_reply (submit _ _ _ _ ∷ es) = has_reply es

module _ {IpNet : Type 0} {fl : Float} where
  -- what a decision does is not a submission
  IsQuiet : Option (Verdict × List Effect × Worker IpNet fl) → Type 0
  IsQuiet none = Unit
  IsQuiet (some (v, es, w)) = submits es ≡ 0

  -- the loop submits exactly what it accepts
  IsExact : Option (NfqVerdict × List Effect × Worker IpNet fl) → Type 0
  IsExact none = Unit
  IsExact (some (v, es, w)) = submits es ≡ one_if_accept v

module _ {IpNet : Type 0} (fl : Float) (net_contains : IpNet → IpAddr → Bool) where
  -- A packet that is a later fragment, or whose headers etherparse does not read, or without an IP
  -- header among them, is dropped without any effect outside, and the engine, the connections and
  -- the quarantine stay as they are.
  pub process-unparsed :
      (lib : Etherparse) (now : ℕ) (msg : Msg) (w : Worker IpNet fl)
      → IsUnreadable lib msg.payload
      → (w' : Worker IpNet fl) × (process fl net_contains lib now msg w ≡ some (nfq_drop, [], w'))
        × (w'.engine ≡ w.engine)
        × (w'.conntrack ≡ w.conntrack)
        × (w'.quarantine ≡ w.quarantine)
  unfolding process
  process-unparsed lib now msg w unreadable = elim (parse-IsUnreadable lib msg.payload unreadable) [
    | inl e ↦ rw (e, process) (_, refl, refl, refl, refl)
    | inr e ↦
        let counted = record w {
          metrics = record w.metrics { fragment_drops = u64 (w.metrics.fragment_drops + 1) };
        } in
        let (a, b, c) = gated_log-kept now counted in
        rw (e, process) (gated_log now counted, refl, a, b, c)
  ]

  -- A packet of a source in quarantine, unless it is trusted, is dropped without any effect
  -- outside, whatever the rules and the established connections say, and the engine, the
  -- connections and the quarantine stay as they are.
  pub process-quarantined :
      (lib : Etherparse) (now : ℕ) (msg : Msg) (pkt : ParsedPacket) (w : Worker IpNet fl)
      → parse lib msg.payload ≡ parsed pkt
      → is_trusted fl w.engine pkt.src_ip ≡ false
      → is_active now pkt.src_ip w.quarantine ≡ true
      → (w' : Worker IpNet fl) × (process fl net_contains lib now msg w ≡ some (nfq_drop, [], w'))
        × (w'.engine ≡ w.engine)
        × (w'.conntrack ≡ w.conntrack)
        × (w'.quarantine ≡ w.quarantine)
  unfolding process decide block post
  process-quarantined lib now msg pkt w e untrusted active =
      let counted = record w {
        metrics = record w.metrics { quarantine_blocks = u64 (w.metrics.quarantine_blocks + 1) };
      } in
      let (a, b, c) = gated_log-kept now counted in
      let logged = gated_log now counted in
      rw (e, process, untrusted, active, decide)
        (record logged { metrics = count_verdict drop logged.metrics }, refl, a, b, c)
