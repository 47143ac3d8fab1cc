-- ===== src/Examples/Signatures.antt =====
-- The theorems on the malware scanner's signatures, at concrete patterns and buffers.
use active_spectral_defense.Base.{
  ◌≡◌, refl, none, some, List, [], ◌∷◌, All, ◌++◌, arith, ℕ_discrete,
}
use active_spectral_defense.Map.{lookup}
use active_spectral_defense.Scanner.HexSig.{
  Bytes, ok, byte, wildcard, Segment, unbounded, bounded, HexSignature, gap_bounds, verify,
  matches_at, longest_literal_run,
}
use active_spectral_defense.Scanner.HexSig.Written.{written, parse_segment-written}
use active_spectral_defense.Scanner.HexSig.Parse.{parse, parse_segment}
use active_spectral_defense.Scanner.HexSig.Occurrence.{IsShort, Occurs}
use active_spectral_defense.Scanner.HexSig.Formed.{parse-verify-Occurs}
use active_spectral_defense.Scanner.HashDb.{
  HashDb, panicked, split_colon, add_fields, continues, size_of, Bytes-discrete, lookup_md5,
  lookup_sha1, lookup_sha256, len,
}
use active_spectral_defense.Scanner.HashDb
use active_spectral_defense.Scanner.HashDb.Slices.{add_fields-panicked}
use active_spectral_defense.Scanner.Engine.{
  Crates, SignatureEngine, Detection, hash_md5, hex_signature, scan_buffer,
}
use active_spectral_defense.Scanner.Engine.Loading.{load_ndb, new, IsFormed, load_ndb-IsFormed}
use active_spectral_defense.Scanner.Engine.Justified.{IsJustified, scan_buffer-IsJustified}

-- `4d5a??*{1-3}9000aa`
abbrev pattern : Bytes
pattern =
    b'4' ∷ b'd' ∷ b'5' ∷ b'a' ∷ b'?' ∷ b'?' ∷ b'*' ∷ b'{' ∷ b'1' ∷ b'-' ∷ b'3' ∷ b'}' ∷ b'9' ∷ b'0'
    ∷ b'0' ∷ b'0' ∷ b'a' ∷ b'a' ∷ []

abbrev mz : Bytes
mz = b'm' ∷ b'z' ∷ []

abbrev head : Segment
head = byte 77 ∷ byte 90 ∷ wildcard ∷ []

abbrev sig : HexSignature
sig = record {
  name = mz;
  segments = head ∷ (byte 144 ∷ byte 0 ∷ byte 170 ∷ []) ∷ [];
  gaps = bounded 1 3 ∷ [];
  anchor_segment = 1;
  anchor_offset = 0;
  anchor_literal = 144 ∷ 0 ∷ 170 ∷ [];
}

abbrev buf : Bytes
buf = 0 ∷ 77 ∷ 90 ∷ 17 ∷ 34 ∷ 144 ∷ 0 ∷ 170 ∷ []

is_parsed : parse 7 mz pattern ≡ ok sig
unfolding parse longest_literal_run
is_parsed = refl

is_found : verify sig buf 5 ≡ some 1
unfolding verify matches_at
is_found = refl

sig-IsShort : IsShort sig.segments sig.gaps
unfolding gap_bounds
sig-IsShort = ((omega arith, (omega arith, tt)), (omega arith, tt))

sig-Occurs : Occurs buf 1 sig.segments sig.gaps
sig-Occurs =
    parse-verify-Occurs 7 mz pattern sig buf 5 1 is_parsed sig-IsShort (omega arith) is_found

head_read_back : parse_segment 7 (written head) ≡ ok head
head_read_back = parse_segment-written 7 head (omega arith, (omega arith, tt))

-- `aéa`, in UTF-8
e_acute_panics :
    add_fields 3 (97 ∷ 195 ∷ 169 ∷ 97 ∷ []) (b'*' ∷ []) (b'x' ∷ []) HashDb.new ≡ panicked
unfolding continues size_of
e_acute_panics =
    add_fields-panicked 3 [] 97 195 169 (97 ∷ []) (b'*' ∷ []) (b'x' ∷ []) none HashDb.new tt refl
      refl refl refl

-- digests, and an automaton that finds a candidate at 5 and a useless one at 2
abbrev crates : Crates
crates = record {
  find_overlapping = λ lits text. (0, 5) ∷ (0, 2) ∷ [];
  md5 = λ text. 1 ∷ 2 ∷ [];
  sha1 = λ text. 3 ∷ [];
  sha256 = λ text. 4 ∷ [];
}

abbrev signatures : SignatureEngine
signatures = record {
  hex_sigs = sig ∷ [];
  hash_db = record {
    md5 = (1 ∷ 2 ∷ [], record { name = b'm' ∷ []; expected_size = some 8 }) ∷ [];
    sha1 = (3 ∷ [], record { name = b's' ∷ []; expected_size = some 9 }) ∷ [];
    sha256 = [];
  };
}

abbrev detections : List Detection
detections =
    record { name = b'm' ∷ []; kind = hash_md5; offset = none }
    ∷ record { name = mz; kind = hex_signature; offset = some 1 }
    ∷ []

is_scanned : scan_buffer crates signatures buf ≡ some detections
unfolding scan_buffer len verify matches_at lookup_md5 lookup Bytes-discrete ℕ_discrete lookup_sha1
    lookup_sha256
is_scanned = refl

detections-IsJustified : All (IsJustified crates signatures buf) detections
unfolding gap_bounds
detections-IsJustified =
    scan_buffer-IsJustified crates signatures buf detections ((refl, sig-IsShort), tt) (omega arith)
      is_scanned

-- `aabb*cc*{0-0}dd`, and a buffer that has it: the loop stops at the first `cc`
abbrev greedy : HexSignature
greedy = record {
  name = b'g' ∷ [];
  segments = (byte 170 ∷ byte 187 ∷ []) ∷ (byte 204 ∷ []) ∷ (byte 221 ∷ []) ∷ [];
  gaps = unbounded ∷ bounded 0 0 ∷ [];
  anchor_segment = 0;
  anchor_offset = 0;
  anchor_literal = 170 ∷ 187 ∷ [];
}

is_missed : verify greedy (170 ∷ 187 ∷ 204 ∷ 0 ∷ 204 ∷ 221 ∷ []) 0 ≡ none
unfolding verify matches_at
is_missed = refl

-- a comment, and the pattern under its name
abbrev file : Bytes
file = b'#' ∷ b'x' ∷ 13 ∷ 10 ∷ mz ++ b':' ∷ pattern ++ 10 ∷ []

is_loaded : load_ndb (λ text. text) file new ≡ ok (record new { hex_sigs = sig ∷ [] })
unfolding load_ndb split_colon parse longest_literal_run
is_loaded = refl

loaded-IsFormed : All IsFormed (sig ∷ []) × (HashDb.new ≡ HashDb.new)
loaded-IsFormed =
    load_ndb-IsFormed (λ text. text) file new (record new { hex_sigs = sig ∷ [] }) tt is_loaded
