-- ===== src/Siem/Correlation.antt =====
-- components/active-siem/crates/siem-correlation/src/lib.rs: the events of the three lanes and the
-- record that the engine keeps of a host. The floating-point types `f64` and `f32` are parameters,
-- and so is the channel of tokio, of which the crate uses `try_send`. A literal such as 0.6 is the
-- quotient 6 / 10, which is rounded to the same number.
pub mod Engine
pub mod Evidence
pub mod Hosts
pub mod Bounds
pub mod Turns
pub mod Once
use active_spectral_defense.Base.{
  ℕ, ◌+◌, ◌%◌, ◌^◌, Bool, true, false, String, Option, none, some, List, [], ◌∷◌, ◌++◌, ◌||◌,
  length, leb, map, if◌then◌else◌,
}
use active_spectral_defense.Float.{Float}
use active_spectral_defense.Firewall.Net.{IpAddr}

pub data Protocol : Type 0 where
  tcp udp icmp : Protocol
  other : ℕ → Protocol

pub record FlowKey : Type 0 where
  pub src_ip : IpAddr
  pub dst_ip : IpAddr
  pub src_port : ℕ
  pub dst_port : ℕ
  pub protocol : Protocol

pub data Severity : Type 0 where
  low medium high critical : Severity

pub data LaneSource : Type 0 where
  xdp clam_av spectral : LaneSource

-- the derived `Ord`, as a number
unfoldable pub rank : Severity → ℕ
rank low = 0
rank medium = 1
rank high = 2
rank critical = 3

unfoldable pub max_of : Severity → Severity → Severity
unfolding rank
max_of a b = if leb (rank a) (rank b) then b else a

unfoldable pub same_source : LaneSource → LaneSource → Bool
same_source xdp xdp = true
same_source clam_av clam_av = true
same_source spectral spectral = true
same_source _ _ = false

unfoldable pub contains_source : List LaneSource → LaneSource → Bool
unfolding same_source
contains_source [] s = false
contains_source (x ∷ xs) s = same_source x s || contains_source xs s

pub record CorrelationMetrics : Type 0 where
  pub events_received : ℕ
  pub verdicts_emitted : ℕ
  pub verdicts_dropped : ℕ
  pub hosts_evicted_ttl : ℕ
  pub hosts_evicted_capacity : ℕ
  pub xdp_dropped : ℕ
  pub clamav_dropped : ℕ
  pub spectral_dropped : ℕ

abbrev pub u64_add : ℕ → ℕ → ℕ
u64_add n k = (n + k) % 2 ^ 64

-- `tokio::sync::mpsc`: a channel's state, and `try_send`, which says whether it took the item
pub record Mpsc (T : Type 0) : Type 1 where
  pub Ch : Type 0
  pub try_send : T → Ch → Bool × Ch

module _ (f64 f32 : Float) where
  pub data LaneDetail : Type 0 where
    xdp_detail : FlowKey → String → Bool → LaneDetail
    clam_av_detail : String → String → Bool → LaneDetail
    spectral_detail : FlowKey → f64.F → f64.F → LaneDetail

  pub record CorrelationEvent : Type 0 where
    pub host : IpAddr
    pub source : LaneSource
    pub severity : Severity
    pub confidence : f32.F
    pub observed_at : ℕ
    pub detail : LaneDetail

  pub record HostRecord : Type 0 where
    pub evidence : List CorrelationEvent
    pub first_seen : ℕ
    pub last_seen : ℕ
    pub finalized : Bool

  -- the event of `XdpSender::submit`
  unfoldable pub xdp_event : ℕ → IpAddr → FlowKey → String → Bool → CorrelationEvent
  xdp_event now host flow reason human_approved = record {
    host = host;
    source = xdp;
    severity = if human_approved then critical else high;
    confidence = if human_approved then f32.of_ℕ 1 else f32.div (f32.of_ℕ 6) (f32.of_ℕ 10);
    observed_at = now;
    detail = xdp_detail flow reason human_approved;
  }

  -- the event of `ClamAvSender::submit`
  unfoldable pub clam_av_event : ℕ → IpAddr → String → String → Bool → CorrelationEvent
  clam_av_event now host file_name signature quarantined = record {
    host = host;
    source = clam_av;
    severity = if quarantined then high else medium;
    confidence = f32.of_ℕ 1;
    observed_at = now;
    detail = clam_av_detail file_name signature quarantined;
  }

  unfoldable pub spectral_severity : f64.F → Severity
  spectral_severity score =
      if f64.ge score (f64.div (f64.of_ℕ 9) (f64.of_ℕ 10))
      then critical
      else if f64.ge score (f64.div (f64.of_ℕ 7) (f64.of_ℕ 10))
      then high
      else if f64.ge score (f64.div (f64.of_ℕ 4) (f64.of_ℕ 10))
      then medium
      else low

  -- `f64::clamp(0.0, 1.0)`
  unfoldable pub clamp : f64.F → f64.F
  clamp x =
      if f64.lt x (f64.of_ℕ 0) then f64.of_ℕ 0 else if f64.lt (f64.of_ℕ 1) x then f64.of_ℕ 1 else x

  -- the event of `SpectralSender::submit`; `as_f32` is the cast
  unfoldable pub spectral_event :
      (f64.F → f32.F) → ℕ → IpAddr → FlowKey → f64.F → f64.F → CorrelationEvent
  unfolding spectral_severity clamp
  spectral_event as_f32 now host flow anomaly_score fiedler_shift = record {
    host = host;
    source = spectral;
    severity = spectral_severity anomaly_score;
    confidence = as_f32 (clamp anomaly_score);
    observed_at = now;
    detail = spectral_detail flow anomaly_score fiedler_shift;
  }

  unfoldable pub count_dropped : LaneSource → CorrelationMetrics → CorrelationMetrics
  count_dropped xdp m = record m { xdp_dropped = u64_add m.xdp_dropped 1 }
  count_dropped clam_av m = record m { clamav_dropped = u64_add m.clamav_dropped 1 }
  count_dropped spectral m = record m { spectral_dropped = u64_add m.spectral_dropped 1 }

  -- the end of each `submit`
  unfoldable pub submit :
      (tx : Mpsc CorrelationEvent)
      → CorrelationEvent
      → tx.Ch × CorrelationMetrics
      → tx.Ch × CorrelationMetrics
  submit tx event (ch, m) =
      let (sent, ch') = tx.try_send event ch in
      (ch', if sent then m else count_dropped event.source m)

  -- `HostRecord::new`
  unfoldable pub new_record : CorrelationEvent → HostRecord
  new_record event = record {
    evidence = event ∷ [];
    first_seen = event.observed_at;
    last_seen = event.observed_at;
    finalized = false;
  }

  -- `remove(0)`, which panics on an empty vector
  unfoldable pub remove_first : List CorrelationEvent → Option (List CorrelationEvent)
  remove_first [] = none
  remove_first (e ∷ es) = some es

  -- `HostRecord::push`
  unfoldable pub push : CorrelationEvent → ℕ → HostRecord → Option HostRecord
  unfolding remove_first
  push event max_evidence r =
      elim (if leb max_evidence (length r.evidence)
        then remove_first r.evidence
        else some r.evidence) [
          | none ↦ none
          | some es ↦ some (record r { last_seen = event.observed_at; evidence = es ++ event ∷ [] })
        ]

  -- the loop of `distinct_sources`, from the sources found so far
  unfoldable pub collect_sources : List LaneSource → List CorrelationEvent → List LaneSource
  collect_sources found [] = found
  collect_sources found (e ∷ es) =
      collect_sources (if contains_source found e.source then found else found ++ e.source ∷ []) es

  unfoldable pub distinct_sources : HostRecord → List LaneSource
  distinct_sources r = collect_sources [] r.evidence

  unfoldable pub max_severity_of : List CorrelationEvent → Severity
  max_severity_of [] = low
  max_severity_of (e ∷ es) = max_of e.severity (max_severity_of es)

  unfoldable pub max_severity : HostRecord → Severity
  max_severity r = max_severity_of r.evidence

  unfoldable pub mean_confidence : HostRecord → f32.F
  mean_confidence r = elim r.evidence [
    | [] ↦ f32.of_ℕ 0
    | _ ↦ f32.div (f32.sum (map (λ e. e.confidence) r.evidence)) (f32.of_ℕ (length r.evidence))
  ]
