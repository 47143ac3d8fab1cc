-- ===== src/Firewall/Nfqueue/Safety.antt =====
-- What the packet loop of components/firewall-perimeter/src/nfqueue.rs guarantees for every packet.
use active_spectral_defense.Base.{
  ℕ, ◌+◌, true, ltb, ◌≡◌, refl, Bool, Option, none, some, List, ◌&&◌, not, if◌then◌else◌,
  Bool-cases, inl, inr, arith,
}
use active_spectral_defense.Float.{Float}
use active_spectral_defense.Firewall.Net.{IpAddr}
use active_spectral_defense.Firewall.Packet.{
  Etherparse, ParsedPacket, ParseOutcome, parse, parsed, unclassifiable_fragment, malformed,
}
use active_spectral_defense.Firewall.Conntrack.{
  LookupResult, lookup_or_admit, record_new, from_secs,
}
use active_spectral_defense.Firewall.Conntrack.Flows.{Inv, lookup_or_admit-Inv, record_new-Inv}
use active_spectral_defense.Firewall.Quarantine.{enter, ban, instant_end, is_active}
use active_spectral_defense.Firewall.Quarantine.Bounds.{IsValid, enter-IsValid}
use active_spectral_defense.Firewall.Engine.{Decision, Verdict, accept, drop, reject, is_trusted}
use active_spectral_defense.Firewall.Engine.Linear.{IsIndexed, evaluate_linear, evaluate-linear}
use active_spectral_defense.Firewall.Engine.Blocks.{Ends, AllEnd, evaluate_linear-Ends}
use active_spectral_defense.Firewall.Engine.Decisions.{evaluate-IsSound, IsSound}
use active_spectral_defense.Firewall.Nfqueue.{
  Effect, Msg, Worker, gated_log, count_ban, block, act_on, auto_block, follow, post, decide_new,
  track, decide, process,
}

-- the engine indexes its rules, and both tables are within their bounds
pub record IsSane {IpNet : Type 0} {fl : Float} (w : Worker IpNet fl) : Type 0 where
  pub indexed : IsIndexed w.engine
  pub tracked : Inv w.conntrack
  pub banned : IsValid w.quarantine

module _ {IpNet : Type 0} {fl : Float} where
  pub gated_log-kept :
      (now : ℕ) (w : Worker IpNet fl)
      → ((gated_log now w).engine ≡ w.engine)
        × ((gated_log now w).conntrack ≡ w.conntrack)
        × ((gated_log now w).quarantine ≡ w.quarantine)
  unfolding gated_log
  gated_log-kept now w = ground arith

  same-IsSane :
      (w w' : Worker IpNet fl)
      → IsSane w
      → w'.engine ≡ w.engine
      → w'.conntrack ≡ w.conntrack
      → w'.quarantine ≡ w.quarantine
      → IsSane w'
  same-IsSane w w' h e c q = record {
    indexed = rw e h.indexed;
    tracked = rw c h.tracked;
    banned = rw q h.banned;
  }

  gated_log-IsSane : (now : ℕ) (w : Worker IpNet fl) → IsSane w → IsSane (gated_log now w)
  gated_log-IsSane now w h =
      let (e, c, q) = gated_log-kept now w in same-IsSane w (gated_log now w) h e c q

  auto_block-IsSane :
      (now : ℕ) (src : IpAddr) (secs : Option ℕ) (w : Worker IpNet fl)
      → IsSane w
      → Ends now secs
      → (w' : Worker IpNet fl) × (auto_block now src secs w ≡ some w') × IsSane w'
  unfolding auto_block ban
  auto_block-IsSane now src none w h ends = (w, refl, h)
  auto_block-IsSane now src (some secs) w h ends =
      let in_time : ltb (now + from_secs secs) instant_end ≡ true = ground (arith, ends) in
      let r = enter now src (from_secs secs) w.quarantine in
      (
        record w { quarantine = r.1; metrics = count_ban r.0 w.metrics },
        rw (in_time, auto_block, ban) refl,
        record {
          indexed = h.indexed;
          tracked = h.tracked;
          banned = enter-IsValid now (from_secs secs) src w.quarantine h.banned;
        },
      )

  act_on-IsSane :
      (now : ℕ) (pkt : ParsedPacket) (raw : List ℕ) (v : Verdict) (w : Worker IpNet fl)
      → IsSane w
      → Inv (record_new now pkt w.conntrack)
      → IsSane (act_on now pkt raw v w).1
  unfolding act_on
  act_on-IsSane now pkt raw accept w h room = record {
    indexed = h.indexed;
    tracked = room;
    banned = h.banned;
  }
  act_on-IsSane now pkt raw drop w h room = h
  act_on-IsSane now pkt raw reject w h room = h

-- the worker did not panic and is sane
unfoldable pub IsDone :
    {IpNet : Type 0} {fl : Float} {V : Type 0} → Option (V × List Effect × Worker IpNet fl) → Type 0
IsDone none = ⊥
IsDone (some (v, es, w)) = IsSane w

module _ {IpNet : Type 0} {fl : Float} where
  follow-IsDone :
      (now : ℕ) (pkt : ParsedPacket) (raw : List ℕ) (d : Decision) (w : Worker IpNet fl)
      → IsSane w
      → Inv (record_new now pkt w.conntrack)
      → Ends now d.auto_block_secs
      → IsDone (follow now pkt raw d w)
  unfolding follow IsDone
  follow-IsDone now pkt raw d w h room ends =
      let logged = if d.log then gated_log now w else w in
      let sane : IsSane logged × Inv (record_new now pkt logged.conntrack) =
        elim (Bool-cases d.log) [
          | inl e ↦ rw e (gated_log-IsSane now w h, rw (gated_log-kept now w).1 room)
          | inr e ↦ rw e (h, room)
        ] in
      let acted = (act_on now pkt raw d.verdict logged).1 in
      let (after, e, done) =
        auto_block-IsSane now pkt.src_ip d.auto_block_secs acted
          (act_on-IsSane now pkt raw d.verdict logged sane.0 sane.1) ends in
      rw (e, follow) done

module _ {IpNet : Type 0} (fl : Float) (net_contains : IpNet → IpAddr → Bool) where
  decide_new-IsDone :
      (now : ℕ) (pkt : ParsedPacket) (raw : List ℕ) (w : Worker IpNet fl)
      → IsSane w
      → AllEnd now w.engine.rules
      → Inv (record_new now pkt w.conntrack)
      → IsDone (decide_new fl net_contains now pkt raw w)
  unfolding decide_new IsDone IsSound
  decide_new-IsDone now pkt raw w h ends room =
      let (r, e, sound, ix) = evaluate-IsSound fl net_contains now pkt w.engine h.indexed in
      let h' : IsSane (record w { engine = r.1 }) = record {
        indexed = ix;
        tracked = h.tracked;
        banned = h.banned;
      } in
      let found = evaluate-linear fl net_contains now pkt w.engine h.indexed in
      let path : r ≡ evaluate_linear fl net_contains now pkt w.engine = ground (arith, e, found) in
      let short : Ends now r.0.auto_block_secs =
        rw path (evaluate_linear-Ends fl net_contains now pkt w.engine ends) in
      rw (e, decide_new) (follow-IsDone now pkt raw r.0 (record w { engine = r.1 }) h' room short)

  track-IsDone :
      (now : ℕ) (pkt : ParsedPacket) (raw : List ℕ) (answer : LookupResult) (w : Worker IpNet fl)
      → IsSane w
      → AllEnd now w.engine.rules
      → (answer ≡ LookupResult.new → Inv (record_new now pkt w.conntrack))
      → IsDone (track fl net_contains now pkt raw answer w)
  unfolding track IsDone
  track-IsDone now pkt raw LookupResult.established w h ends room = same-IsSane w _ h refl refl refl
  track-IsDone now pkt raw LookupResult.table_full w h ends room = same-IsSane w _ h refl refl refl
  track-IsDone now pkt raw LookupResult.new w h ends room =
      decide_new-IsDone now pkt raw w h ends (room refl)

  block-IsSane : (now : ℕ) (w : Worker IpNet fl) → IsSane w → IsSane (block now w).1
  unfolding block
  block-IsSane now w h = gated_log-IsSane now _ (same-IsSane w _ h refl refl refl)

  decide-IsDone :
      (now : ℕ) (pkt : ParsedPacket) (raw : List ℕ) (w : Worker IpNet fl)
      → IsSane w
      → AllEnd now w.engine.rules
      → IsDone (decide fl net_contains now pkt raw w)
  unfolding decide IsDone
  decide-IsDone now pkt raw w h ends =
      let r = lookup_or_admit now pkt w.conntrack in
      let h' : IsSane (record w { conntrack = r.1 }) = record {
        indexed = h.indexed;
        tracked = lookup_or_admit-Inv now pkt w.conntrack h.tracked;
        banned = h.banned;
      } in
      let room = record_new-Inv now now pkt w.conntrack h.tracked in
      elim (Bool-cases
        (not (is_trusted fl w.engine pkt.src_ip) && is_active now pkt.src_ip w.quarantine)) [
          | inl e ↦ rw (e, decide) (block-IsSane now w h)
          | inr e ↦
              rw (e, decide)
                (track-IsDone now pkt raw r.0 (record w { conntrack = r.1 }) h' ends room)
        ]

  post-IsDone :
      (msg : Msg) (pkt : ParsedPacket) (o : Option (Verdict × List Effect × Worker IpNet fl))
      → IsDone o
      → IsDone (elim o [ none ↦ none | some r ↦ some (post msg pkt r) ])
  unfolding IsDone post
  post-IsDone msg pkt none h = elim h [ ]
  post-IsDone msg pkt (some (v, es, w)) h = same-IsSane w _ h refl refl refl

  pub process-IsDone :
      (lib : Etherparse) (now : ℕ) (msg : Msg) (w : Worker IpNet fl)
      → IsSane w
      → AllEnd now w.engine.rules
      → IsDone (process fl net_contains lib now msg w)
  unfolding process IsDone
  process-IsDone lib now msg w h ends = go (parse lib msg.payload) refl
    where
      go :
          (o : ParseOutcome)
          → parse lib msg.payload ≡ o
          → IsDone (process fl net_contains lib now msg w)
      go (parsed pkt) e =
          rw (e, process) (post-IsDone msg pkt _ (decide-IsDone now pkt msg.payload w h ends))
      go unclassifiable_fragment e =
          rw (e, process) (gated_log-IsSane now _ (same-IsSane w _ h refl refl refl))
      go malformed e = rw (e, process) (same-IsSane w _ h refl refl refl)
