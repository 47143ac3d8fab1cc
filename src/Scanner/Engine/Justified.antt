-- ===== src/Scanner/Engine/Justified.antt =====
-- Every detection of components/rust-clam/crates/sig-engine/src/engine.rs has its reason.
use active_spectral_defense.Base.{
  ℕ, zero, suc, ◌+◌, ◌-◌, ◌^◌, ◌<◌, ◌≡◌, refl, Option, none, some, List, [], ◌∷◌, ◌++◌, length,
  get_elem?, ◌==◌, arith, All, Option-cases, Bool-cases, inl, inr,
}
use active_spectral_defense.Scanner.HexSig.{Bytes, HexSignature, verify}
use active_spectral_defense.Scanner.HexSig.Occurrence.{IsShort, Occurs, verify-Occurs}
use active_spectral_defense.Scanner.HashDb.{
  HashDb, HashHit, lookup_md5, lookup_sha1, lookup_sha256, len,
}
use active_spectral_defense.Scanner.Engine.{
  MatchKindResult, hex_signature, hash_md5, hash_sha1, hash_sha256, Detection, SignatureEngine,
  hash_detection, confirmed, hex_detections, Crates, hash_detections, candidates, scan_buffer,
}

-- the signature is as `parse` makes them, and short
abbrev pub IsSearchable : HexSignature → Type 0
IsSearchable sig = (length sig.segments ≡ length sig.gaps + 1) × IsShort sig.segments sig.gaps

module _ (crates : Crates) where
  -- the hash of the kind is in the database under the name
  abbrev pub hash_hit : HashDb → Bytes → MatchKindResult → Option HashHit
  hash_hit db buf hash_md5 = lookup_md5 (crates.md5 buf) (length buf) db
  hash_hit db buf hash_sha1 = lookup_sha1 (crates.sha1 buf) (length buf) db
  hash_hit db buf hash_sha256 = lookup_sha256 (crates.sha256 buf) (length buf) db
  hash_hit db buf hex_signature = none

  -- why a detection of the kind, with its name and its offset, is right
  abbrev pub JustifiedBy : SignatureEngine → Bytes → MatchKindResult → Bytes → Option ℕ → Type 0
  JustifiedBy e buf hex_signature name offset =
      (idx : ℕ) × (sig : HexSignature) × (get_elem? e.hex_sigs idx ≡ some sig)
      × (name ≡ sig.name)
      × ((first : ℕ) × (offset ≡ some first) × Occurs buf first sig.segments sig.gaps)
  JustifiedBy e buf kind name offset =
      (h : HashHit) × (hash_hit e.hash_db buf kind ≡ some h) × (name ≡ h.name)

  abbrev pub IsJustified : SignatureEngine → Bytes → Detection → Type 0
  IsJustified e buf d = JustifiedBy e buf d.kind d.name d.offset

  All-append :
      (e : SignatureEngine) (buf : Bytes) (xs ys : List Detection)
      → All (IsJustified e buf) xs
      → All (IsJustified e buf) ys
      → All (IsJustified e buf) (xs ++ ys)
  All-append e buf [] ys h k = k
  All-append e buf (x ∷ xs) ys h k = (h.0, All-append e buf xs ys h.1 k)

  hash_detection-IsJustified :
      (e : SignatureEngine) (buf : Bytes) (kind : MatchKindResult) (o : Option HashHit)
      → ((h : HashHit) → o ≡ some h → JustifiedBy e buf kind h.name none)
      → All (IsJustified e buf) (hash_detection kind o)
  unfolding hash_detection
  hash_detection-IsJustified e buf kind none why = tt
  hash_detection-IsJustified e buf kind (some h) why = (why h refl, tt)

  hashes-IsJustified :
      (e : SignatureEngine) (buf : Bytes)
      → All (IsJustified e buf) (hash_detections crates e.hash_db buf)
  unfolding hash_detections
  hashes-IsJustified e buf =
      All-append e buf _ _ (hash_detection-IsJustified e buf hash_md5 _ (λ h hit. (h, hit, refl))) (
        All-append e buf _ _
          (hash_detection-IsJustified e buf hash_sha1 _ (λ h hit. (h, hit, refl)))
          (hash_detection-IsJustified e buf hash_sha256 _ (λ h hit. (h, hit, refl))))

  at-IsSearchable :
      (idx : ℕ) (sigs : List HexSignature) (sig : HexSignature)
      → All IsSearchable sigs
      → get_elem? sigs idx ≡ some sig
      → IsSearchable sig
  at-IsSearchable idx [] sig h e = absurd (ground (arith, e))
  at-IsSearchable zero (s ∷ sigs) sig h e = let path : sig ≡ s = ground (arith, e) in rw path h.0
  at-IsSearchable (suc idx) (s ∷ sigs) sig h e = at-IsSearchable idx sigs sig h.1 e

  confirmed-IsJustified :
      (e : SignatureEngine) (buf : Bytes) (idx start : ℕ) (sig : HexSignature)
      → get_elem? e.hex_sigs idx ≡ some sig
      → IsSearchable sig
      → length buf < 2 ^ 64 - 1
      → All (IsJustified e buf) (confirmed sig buf start)
  unfolding confirmed
  confirmed-IsJustified e buf idx start sig at h fits = elim (Option-cases (verify sig buf start)) [
    | inl miss ↦ rw (miss, confirmed) tt
    | inr (first, hit) ↦
        let found = verify-Occurs sig buf start first h.0 h.1 fits hit in
        rw (hit, confirmed) ((idx, sig, at, refl, (first, refl, found)), tt)
  ]

  hex-IsJustified :
      (e : SignatureEngine) (buf : Bytes) (ms : List (ℕ × ℕ)) (ds : List Detection)
      → All IsSearchable e.hex_sigs
      → length buf < 2 ^ 64 - 1
      → hex_detections e.hex_sigs buf ms ≡ some ds
      → All (IsJustified e buf) ds
  unfolding hex_detections
  hex-IsJustified e buf [] ds h fits found =
      let path : ds ≡ [] = ground (arith, found) in rw path tt
  hex-IsJustified e buf ((idx, start) ∷ ms) ds h fits found =
      elim (Option-cases (get_elem? e.hex_sigs idx)) [
        | inl miss ↦ absurd (ground (arith, found, miss))
        | inr (sig, at) ↦ elim (Option-cases (hex_detections e.hex_sigs buf ms)) [
          | inl miss ↦ absurd (ground (arith, found, at, miss))
          | inr (rest, more) ↦
              let path : ds ≡ confirmed sig buf start ++ rest = ground (arith, found, at, more) in
              let one =
                confirmed-IsJustified e buf idx start sig at
                  (at-IsSearchable idx e.hex_sigs sig h at) fits in
              let others = hex-IsJustified e buf ms rest h fits more in
              rw path (All-append e buf (confirmed sig buf start) rest one others)
        ]
      ]

  -- Whatever the automaton and the digests return, every detection that a scan reports is right: a
  -- hash's name stands in the database under the digest of the buffer, for its length, and a
  -- byte pattern of the engine occurs as a whole at the offset reported. The patterns have a gap
  -- between any two segments, their segments and least gaps are shorter than half the range of
  -- `usize`, and the buffer's length is below the end of that range.
  pub scan_buffer-IsJustified :
      (e : SignatureEngine) (buf : Bytes) (ds : List Detection)
      → All IsSearchable e.hex_sigs
      → length buf < 2 ^ 64 - 1
      → scan_buffer crates e buf ≡ some ds
      → All (IsJustified e buf) ds
  unfolding scan_buffer
  scan_buffer-IsJustified e buf ds h fits found =
      let ms = candidates crates e.hex_sigs buf in
      elim (Option-cases (hex_detections e.hex_sigs buf ms)) [
        | inl miss ↦ absurd (ground (arith, found, miss))
        | inr (rest, more) ↦
            let others = hex-IsJustified e buf ms rest h fits more in
            elim (Bool-cases (len e.hash_db == 0)) [
              | inl empty ↦
                  let path : ds ≡ rest = ground (arith, found, more, empty) in rw path others
              | inr full ↦
                  let path : ds ≡ hash_detections crates e.hash_db buf ++ rest =
                    ground (arith, found, more, full) in
                  rw path (
                    All-append e buf (hash_detections crates e.hash_db buf) rest
                      (hashes-IsJustified e buf) others)
            ]
      ]
