-- ===== src/Scanner/Engine.antt =====
-- components/rust-clam/crates/sig-engine/src/engine.rs: a buffer is scanned for all signatures. The
-- automaton of aho-corasick, which is a function of the engine's patterns, and the digests are
-- parameters.
pub mod Justified
pub mod Loading
use active_spectral_defense.Base.{
  ℕ, Bool, true, false, String, Option, none, some, List, [], ◌∷◌, ◌++◌, length, get_elem?, map,
  ◌==◌, if◌then◌else◌,
}
use active_spectral_defense.Scanner.HexSig.{Bytes, HexSignature, verify}
use active_spectral_defense.Scanner.HashDb.{
  HashDb, HashHit, lookup_md5, lookup_sha1, lookup_sha256, len,
}

pub data MatchKindResult : Type 0 where
  hex_signature hash_md5 hash_sha1 hash_sha256 : MatchKindResult

pub record Detection : Type 0 where
  pub name : Bytes
  pub kind : MatchKindResult
  pub offset : Option ℕ

pub record SignatureEngineBuilder : Type 0 where
  pub hex_sigs : List HexSignature
  pub hash_db : HashDb

pub record SignatureEngine : Type 0 where
  pub hex_sigs : List HexSignature
  pub hash_db : HashDb

-- the literals that the automaton is built of
unfoldable pub literals : List HexSignature → List Bytes
literals [] = []
literals (s ∷ ss) = s.anchor_literal ∷ literals ss

-- a hit of the hash database, if there is one
unfoldable pub hash_detection : MatchKindResult → Option HashHit → List Detection
hash_detection kind none = []
hash_detection kind (some h) = record { name = h.name; kind = kind; offset = none } ∷ []

-- a candidate, confirmed or not
unfoldable pub confirmed : HexSignature → Bytes → ℕ → List Detection
confirmed sig buf start = elim (verify sig buf start) [
  | none ↦ []
  | some first ↦ record { name = sig.name; kind = hex_signature; offset = some first } ∷ []
]

-- the loop over the automaton's matches, each a pattern's index and a position; `none` where the
-- index is out of range, where the code panics
unfoldable pub hex_detections : List HexSignature → Bytes → List (ℕ × ℕ) → Option (List Detection)
unfolding confirmed
hex_detections sigs buf [] = some []
hex_detections sigs buf ((idx, start) ∷ ms) =
    let rest = hex_detections sigs buf ms in
    elim (get_elem? sigs idx) [
      | none ↦ none
      | some sig ↦ elim rest [ none ↦ none | some ds ↦ some (confirmed sig buf start ++ ds) ]
    ]

-- The crates that the scan uses: the overlapping matches of a list of patterns, and the digests.
pub record Crates : Type 0 where
  pub find_overlapping : List Bytes → Bytes → List (ℕ × ℕ)
  pub md5 : Bytes → Bytes
  pub sha1 : Bytes → Bytes
  pub sha256 : Bytes → Bytes

module _ (crates : Crates) where
  unfoldable pub hash_detections : HashDb → Bytes → List Detection
  unfolding hash_detection
  hash_detections db buf =
      hash_detection hash_md5 (lookup_md5 (crates.md5 buf) (length buf) db)
      ++ (hash_detection hash_sha1 (lookup_sha1 (crates.sha1 buf) (length buf) db)
          ++ hash_detection hash_sha256 (lookup_sha256 (crates.sha256 buf) (length buf) db))

  -- the matches, where there are patterns at all
  unfoldable pub candidates : List HexSignature → Bytes → List (ℕ × ℕ)
  unfolding literals
  candidates [] buf = []
  candidates (s ∷ ss) buf = crates.find_overlapping (literals (s ∷ ss)) buf

  unfoldable pub scan_buffer : SignatureEngine → Bytes → Option (List Detection)
  unfolding hash_detections hex_detections candidates
  scan_buffer e buf =
      let hashes = if len e.hash_db == 0 then [] else hash_detections e.hash_db buf in
      elim (hex_detections e.hex_sigs buf (candidates e.hex_sigs buf)) [
        | none ↦ none
        | some ds ↦ some (hashes ++ ds)
      ]
