-- ===== src/Scanner/Engine/Loading.antt =====
-- components/rust-clam/crates/sig-engine/src/engine.rs, `SignatureEngineBuilder`: the lines of the
-- signature files. The table of Unicode behind `trim` is a parameter.
use active_spectral_defense.Base.{
  ℕ, ◌+◌, ◌≤◌, ◌<◌, ◌≡◌, refl, Bool, true, false, none, some, List, [], ◌∷◌, ◌++◌, length, ◌==◌,
  if◌then◌else◌, arith, All, Bool-cases, Option-cases, inl, inr,
}
use active_spectral_defense.Scanner.HexSig.{
  Bytes, HexSignature, Result, ok, err, ◌>>=◌, bad_hex_sig, expected_pattern,
}
use active_spectral_defense.Scanner.HexSig.Parse.{parse}
use active_spectral_defense.Scanner.HexSig.Formed.{Result-cases, parse-lengths}
use active_spectral_defense.Scanner.HashDb.{
  HashDb, Added, added, bad_hash_sig, panicked, add_line, split_colon,
}
use active_spectral_defense.Scanner.HashDb
use active_spectral_defense.Scanner.Engine.{SignatureEngineBuilder, SignatureEngine}

abbrev pub new : SignatureEngineBuilder
new = record { hex_sigs = []; hash_db = HashDb.new }

-- `strip_suffix('\r')`, or the text as it is
unfoldable pub strip_return : Bytes → Bytes
strip_return [] = []
strip_return (b ∷ []) = if b == 13 then [] else b ∷ []
strip_return (b ∷ c ∷ bs) = b ∷ strip_return (c ∷ bs)

-- `str::lines`, with what is read of the line
unfoldable pub lines_from : Bytes → Bytes → List Bytes
unfolding strip_return
lines_from [] [] = []
lines_from (a ∷ seen) [] = (a ∷ seen) ∷ []
lines_from seen (b ∷ bs) = elim (b == 10) [
  | true ↦ strip_return seen ∷ lines_from [] bs
  | false ↦ lines_from (seen ++ b ∷ []) bs
]

-- an empty line or a comment
unfoldable pub is_skipped : Bytes → Bool
is_skipped [] = true
is_skipped (b ∷ bs) = b == b'#'

unfoldable pub ndb_line : ℕ → Bytes → Result HexSignature
ndb_line line text = elim (split_colon [] text) [
  | none ↦ err (bad_hex_sig line expected_pattern)
  | some parts ↦ parse line parts.0 parts.1
]

-- `line_no + 1` on every branch: the loop over the lines
unfoldable pub ndb_lines :
    (Bytes → Bytes) → ℕ → List Bytes → List HexSignature → Result (List HexSignature)
unfolding is_skipped ndb_line
ndb_lines trim i [] sigs = ok sigs
ndb_lines trim i (raw ∷ raws) sigs = elim (is_skipped (trim raw)) [
  | true ↦ ndb_lines trim (i + 1) raws sigs
  | false ↦ elim (ndb_line (i + 1) (trim raw)) [
    | err e ↦ err e
    | ok sig ↦ ndb_lines trim (i + 1) raws (sigs ++ sig ∷ [])
  ]
]

unfoldable pub load_ndb :
    (Bytes → Bytes) → Bytes → SignatureEngineBuilder → Result SignatureEngineBuilder
unfolding lines_from ndb_lines
load_ndb trim text b = do
  sigs ← ndb_lines trim 0 (lines_from [] text) b.hex_sigs
  ok (record b { hex_sigs = sigs })

-- the loop over the lines
unfoldable pub hdb_lines : (Bytes → Bytes) → ℕ → List Bytes → HashDb → Added
unfolding is_skipped
hdb_lines trim i [] db = added db
hdb_lines trim i (raw ∷ raws) db = elim (is_skipped (trim raw)) [
  | true ↦ hdb_lines trim (i + 1) raws db
  | false ↦ elim (add_line (i + 1) (trim raw) db) [
    | added after ↦ hdb_lines trim (i + 1) raws after
    | bad_hash_sig line reason ↦ bad_hash_sig line reason
    | panicked ↦ panicked
  ]
]

-- what `load_hdb` does; the builder is gone if it fails
pub data Loaded : Type 0 where
  loaded : SignatureEngineBuilder → Loaded
  -- the line and the reason
  bad_line : ℕ → HashDb.Reason → Loaded
  load_panicked : Loaded

unfoldable pub load_hdb : (Bytes → Bytes) → Bytes → SignatureEngineBuilder → Loaded
unfolding lines_from hdb_lines
load_hdb trim text b = elim (hdb_lines trim 0 (lines_from [] text) b.hash_db) [
  | added db ↦ loaded (record b { hash_db = db })
  | bad_hash_sig line reason ↦ bad_line line reason
  | panicked ↦ load_panicked
]

abbrev pub build : SignatureEngineBuilder → SignatureEngine
build b = record { hex_sigs = b.hex_sigs; hash_db = b.hash_db }

-- what `parse` sees to
abbrev pub IsFormed : HexSignature → Type 0
IsFormed sig =
    (length sig.segments ≡ length sig.gaps + 1)
    × (sig.anchor_segment < length sig.segments)
    × (2 ≤ length sig.anchor_literal)

All-snoc :
    (xs : List HexSignature) (x : HexSignature)
    → All IsFormed xs
    → IsFormed x
    → All IsFormed (xs ++ x ∷ [])
All-snoc [] x h k = (k, tt)
All-snoc (y ∷ ys) x h k = (h.0, All-snoc ys x h.1 k)

ndb_line-IsFormed :
    (line : ℕ) (text : Bytes) (sig : HexSignature) → ndb_line line text ≡ ok sig → IsFormed sig
unfolding ndb_line
ndb_line-IsFormed line text sig h = elim (Option-cases (split_colon [] text)) [
  | inl miss ↦ absurd (ground (arith, h, miss))
  | inr (parts, hit) ↦
      let parsed : parse line parts.0 parts.1 ≡ ok sig = rw (ndb_line, hit) at h in
      parse-lengths line parts.0 parts.1 sig parsed
]

ndb_lines-IsFormed :
    (trim : Bytes → Bytes) (i : ℕ) (raws : List Bytes) (sigs found : List HexSignature)
    → All IsFormed sigs
    → ndb_lines trim i raws sigs ≡ ok found
    → All IsFormed found
unfolding ndb_lines
ndb_lines-IsFormed trim i [] sigs found h e =
    let path : found ≡ sigs = ground (arith, e) in rw path h
ndb_lines-IsFormed trim i (raw ∷ raws) sigs found h e = elim (Bool-cases (is_skipped (trim raw))) [
  | inl skip ↦ ndb_lines-IsFormed trim (i + 1) raws sigs found h (ground (arith, e, skip))
  | inr keep ↦ elim (Result-cases (ndb_line (i + 1) (trim raw))) [
    | inr (x, bad) ↦ absurd (ground (arith, e, keep, bad))
    | inl (sig, good) ↦
        ndb_lines-IsFormed trim (i + 1) raws (sigs ++ sig ∷ []) found
          (All-snoc sigs sig h (ndb_line-IsFormed (i + 1) (trim raw) sig good))
          (ground (arith, e, keep, good))
  ]
]

-- Loading a file of byte patterns, if it succeeds, leaves the hash database as it is, and every
-- signature of the builder has one segment more than gaps, its anchor in one of them, and a
-- literal of two bytes at least, if this held of the signatures before.
pub load_ndb-IsFormed :
    (trim : Bytes → Bytes) (text : Bytes) (b after : SignatureEngineBuilder)
    → All IsFormed b.hex_sigs
    → load_ndb trim text b ≡ ok after
    → All IsFormed after.hex_sigs × (after.hash_db ≡ b.hash_db)
unfolding load_ndb
load_ndb-IsFormed trim text b after h e =
    elim (Result-cases (ndb_lines trim 0 (lines_from [] text) b.hex_sigs)) [
      | inr (x, bad) ↦ absurd (ground (arith, e, bad))
      | inl (sigs, good) ↦
          let path : after ≡ record b { hex_sigs = sigs } = ground (arith, e, good) in
          let formed = ndb_lines-IsFormed trim 0 (lines_from [] text) b.hex_sigs sigs h good in
          rw path (formed, refl)
    ]
