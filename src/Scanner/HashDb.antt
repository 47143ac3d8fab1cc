-- ===== src/Scanner/HashDb.antt =====
-- components/rust-clam/crates/sig-engine/src/hashdb.rs: signatures by a file's hash. A text is the
-- list of its bytes in UTF-8.
pub mod Slices
use active_spectral_defense.Base.{
  ℕ, ◌+◌, ◌%◌, Bool, true, false, Option, none, some, List, [], ◌∷◌, ◌++◌, ◌&&◌, ◌||◌, length, leb,
  ltb, ◌==◌, if◌then◌else◌, ℕ_discrete,
}
use active_spectral_defense.Map.{Map, size, lookup, insert, keep}
use active_spectral_defense.Scanner.HexSig.{Bytes}
use active_spectral_defense.Scanner.HexSig.Parse.{hex_nibble, hex_pair, parse_usize}

unfoldable pub Bytes-discrete : Discrete Bytes
Bytes-discrete = hlevel ℕ_discrete

pub record HashHit : Type 0 where
  pub name : Bytes
  pub expected_size : Option ℕ

pub record HashDb : Type 0 where
  pub md5 : Map Bytes HashHit
  pub sha1 : Map Bytes HashHit
  pub sha256 : Map Bytes HashHit

abbrev pub new : HashDb
new = record { md5 = []; sha1 = []; sha256 = [] }

pub data Reason : Type 0 where
  missing_size missing_name invalid_size invalid_hex unsupported_length : Reason

-- what `add_line` does; a slice that cuts a character in two panics
pub data Added : Type 0 where
  added : HashDb → Added
  -- the line and the reason
  bad_hash_sig : ℕ → Reason → Added
  panicked : Added

pub data Decoded : Type 0 where
  decoded : Bytes → Decoded
  not_hex : Decoded
  cut : Decoded

-- a byte that continues a character
unfoldable pub continues : ℕ → Bool
continues b = leb 128 b && ltb b 192

-- whether the text cannot be sliced here
unfoldable pub no_boundary : Bytes → Bool
unfolding continues
no_boundary [] = false
no_boundary (b ∷ bs) = continues b

-- `u8::from_str_radix(.., 16)` of two bytes, which takes a sign
unfoldable pub from_str_radix : ℕ → ℕ → Option ℕ
from_str_radix a b = if a == b'+' then hex_nibble b else hex_pair a b

-- the rest of the bytes, behind one
unfoldable pub and_byte : Option ℕ → Decoded → Decoded
and_byte none rest = not_hex
and_byte (some v) (decoded vs) = decoded (v ∷ vs)
and_byte (some v) not_hex = not_hex
and_byte (some v) cut = cut

-- the loop over pairs, with the slice `&s[i..i + 2]`
unfoldable pub decode_pairs : Bytes → Decoded
unfolding no_boundary from_str_radix and_byte
decode_pairs [] = decoded []
decode_pairs (a ∷ []) = not_hex
decode_pairs (a ∷ b ∷ bs) =
    let rest = decode_pairs bs in
    if continues a || no_boundary bs then cut else and_byte (from_str_radix a b) rest

unfoldable pub hex_decode : Bytes → Decoded
unfolding decode_pairs
hex_decode s = if length s % 2 == 0 then decode_pairs s else not_hex

-- `split_once(':')`
unfoldable pub split_colon : Bytes → Bytes → Option (Bytes × Bytes)
split_colon seen [] = none
split_colon seen (b ∷ bs) = elim (b == b':') [
  | true ↦ some (seen, bs)
  | false ↦ split_colon (seen ++ b ∷ []) bs
]

-- the size field, `none` where it is no number
unfoldable pub size_of : Bytes → Option (Option ℕ)
size_of field =
    let number = elim (parse_usize field) as (λ x. Option (Option ℕ)) [
      | none ↦ none
      | some n ↦ some (some n)
    ] in
    elim field [
      | [] ↦ number
      | b ∷ [] ↦ if b == b'*' then some none else number
      | b ∷ c ∷ bs ↦ number
    ]

-- the `match` on the length of the hash
unfoldable pub add_hash : ℕ → Bytes → HashHit → HashDb → Added
add_hash line raw hit db =
    if length raw == 16
    then added (record db { md5 = insert Bytes-discrete raw hit db.md5 })
    else if length raw == 20
    then added (record db { sha1 = insert Bytes-discrete raw hit db.sha1 })
    else if length raw == 32
    then added (record db { sha256 = insert Bytes-discrete raw hit db.sha256 })
    else bad_hash_sig line unsupported_length

unfoldable pub add_fields : ℕ → Bytes → Bytes → Bytes → HashDb → Added
unfolding size_of hex_decode add_hash
add_fields line hash_hex size_field name db = elim (size_of size_field) [
  | none ↦ bad_hash_sig line invalid_size
  | some expected_size ↦ elim (hex_decode hash_hex) [
    | cut ↦ panicked
    | not_hex ↦ bad_hash_sig line invalid_hex
    | decoded raw ↦ add_hash line raw (record { name = name; expected_size = expected_size }) db
  ]
]

-- `splitn(3, ':')` and the fields
unfoldable pub add_line : ℕ → Bytes → HashDb → Added
unfolding split_colon add_fields
add_line line text db = elim (split_colon [] text) [
  | none ↦ bad_hash_sig line missing_size
  | some first ↦ elim (split_colon [] first.1) [
    | none ↦ bad_hash_sig line missing_name
    | some second ↦ add_fields line first.0 second.0 second.1 db
  ]
]

unfoldable pub size_matches : ℕ → HashHit → Bool
size_matches size hit = elim hit.expected_size [ none ↦ true | some s ↦ s == size ]

unfoldable pub lookup_md5 : Bytes → ℕ → HashDb → Option HashHit
unfolding size_matches
lookup_md5 digest size db = keep (size_matches size) (lookup Bytes-discrete digest db.md5)

unfoldable pub lookup_sha1 : Bytes → ℕ → HashDb → Option HashHit
unfolding size_matches
lookup_sha1 digest size db = keep (size_matches size) (lookup Bytes-discrete digest db.sha1)

unfoldable pub lookup_sha256 : Bytes → ℕ → HashDb → Option HashHit
unfolding size_matches
lookup_sha256 digest size db = keep (size_matches size) (lookup Bytes-discrete digest db.sha256)

unfoldable pub len : HashDb → ℕ
len db = size db.md5 + size db.sha1 + size db.sha256
