-- ===== src/Lib.antt =====
-- Verification of active-spectral-defense: the perimeter firewall, the correlation
-- engine, automated response, the review of containment and the signatures of the malware scanner.
--
-- The program. components/firewall-perimeter takes packets from a kernel queue and decides on each
-- of them. nfqueue.rs is the loop: it parses the packet (packet.rs), drops it if its source is in
-- quarantine (quarantine.rs), lets it pass if it belongs to a known connection (conntrack.rs), and
-- otherwise asks the policy engine (engine.rs), which counts matches towards a ban (threshold.rs)
-- and limits rates (rate_limit.rs). Log lines pass a gate (log_gate.rs). Bans go to the host's
-- firewall over a bounded channel (chan.rs). The policy is read and validated by config.rs.
-- components/active-siem/crates/siem-correlation/src/lib.rs joins the events of three detection
-- lanes by host, and sends a verdict to containment when the evidence suffices. The crate
-- siem-response beside it decides which alerts are acted upon without a human. The crate
-- review-queue holds the classifier's predictions until they are decided, by thresholds, by a human
-- or by a timeout, and lets containment through only if the audit graph, which it keeps in the
-- crate ontology-engine, has the decision.
-- components/rust-clam/crates/sig-engine searches files for byte patterns with wildcards and gaps
-- (hexsig.rs), which an automaton over their longest literals finds candidates for, and for known
-- hashes (hashdb.rs); engine.rs scans a buffer for both.
--
-- The files. Base has the shared names, tests on numbers and list functions; Map is Rust's hash
-- maps as association lists, with their laws in Map/Laws; Float is floating point as a parameter.
-- Firewall has one child for each source file, under its name: its state as a record, one function
-- for each operation, with the helpers that its branches need. Engine/Indexing is a part of
-- Engine; the other children of these hold proofs:
--   Engine/Order, Engine/Linear, Engine/Decisions, Engine/Blocks: the rule indexes, what evaluation
--   decides, and which bans;
--   Conntrack/Flows, Conntrack/Expiry: keys, the table's bound, sweeps and TCP states;
--   Threshold/Counting, RateLimit/Burst, LogGate/Budget: how many events each lets through;
--   Chan/Fifo: order and bounds of the channel;
--   Quarantine/Bans, Quarantine/Bounds: who is banned until when, and the table's capacity;
--   Nfqueue/Safety, Nfqueue/Verdicts: the loop's invariant, and the verdict on each packet;
--   Config/Valid, Packet: what validation accepts, and what a parsed packet satisfies.
-- Siem/Correlation is the crate of that name: the lanes' events and a host's record; its child
-- Engine has the operations of the engine. Their proofs:
--   Correlation/Evidence: when evidence suffices for a verdict;
--   Correlation/Hosts, Correlation/Bounds, Correlation/Turns: a host's record, the bounds that each
--   operation keeps, and the turns of the engine's loop, which Turns models;
--   Correlation/Once: how often a host is escalated.
-- Siem/Response is the crate siem-response; its children Guards, Rate and Blocked say when it acts,
-- how often, and how long it leaves a target alone.
-- Siem/Ontology is the crate ontology-engine: its data, and the children Store (links and indexes)
-- and Engine (the operations). Its proofs:
--   Ontology/Indexes, Ontology/Consistent: the invariant of the graph, its parts, and that each
--   call keeps it (Links, Ends, Cases, Preserved, Steps);
--   Ontology/Traversal: what a traversal returns.
-- Siem/Review is the crate review-queue: types.rs and trigger.rs in Review, schema.rs and
-- engine_bridge.rs in Review/Audit, containment.rs in Review/Containment, and queue.rs in
-- Review/Queue with its children Sweep and Views. Its proofs:
--   Audit/Roundtrip, Audit/Recorded, Audit/Effect, Audit/Growth: decisions as instances, and what
--   recording does;
--   Queue/Sound, Queue/Kept, Queue/Swept, Queue/Runs: that items and audit graph agree;
--   Queue/Closed, Queue/Unreviewed: resolved items, and those resolved without a human;
--   Queue/Stuck, Queue/Collision: flows that never get an item, and identifiers that collide;
--   Containment/Gate: what containment needs.
-- Scanner has one child for each source file of sig-engine: HexSig (with its parser in HexSig/Parse),
-- HashDb and Engine (with the loading of files in Engine/Loading). Their proofs:
--   HexSig/Occurrence, HexSig/Formed, HexSig/Written: what a match is, what the parser accepts, and
--   that it reads back what is written;
--   HashDb/Slices: hash fields that cannot be sliced;
--   Engine/Justified: what a detection says.
-- Examples applies every theorem to concrete input.
--
-- The model. Time is a number of nanoseconds that each operation is given; the difference of two
-- instants stops at 0, as Rust's does; the end of a ban is an Instant of Linux, whose seconds have 63
-- bits, and a ban beyond it panics. Atomic counters wrap at 2^64. An operation on a shared table
-- is one step, and the loop's packets are processed one after another: races between two workers
-- that both test the size of a table and then insert are outside the model. The header parser of
-- etherparse, the networks of ipnet, the channel of tokio, the executor of a response, the
-- automaton and the digests of a scan, and floating point are parameters, as are the tables of
-- Unicode behind trim and to_lowercase, of which review assumes that they leave texts of lower-case
-- ASCII letters and underscores alone. The laws assumed of floating point are those of
-- Float.IsExact, on whole numbers below 2^53. A length of the scanner's buffers is a usize of 64
-- bits. Nothing needs fuel but Chan.drain, which is given one turn more than
-- there are items queued. The timer of the correlation engine, whose construction panics for an
-- interval of 0, is outside: its ticks are turns of the loop.
--
-- Not modelled: the kernel queue, raw sockets, the host's firewall, the HTTP endpoint and the
-- ingestion lanes of the perimeter, of which the loop's effects are kept; reading the policy file;
-- the files and the command line of the review queue; and the other components of the repository.
mod Base
mod Examples
pub mod Firewall
pub mod Float
pub mod Map
pub mod Scanner
pub mod Siem
