-- ===== src/Scanner/HashDb/Slices.antt =====
-- Hash fields that components/rust-clam/crates/sig-engine/src/hashdb.rs cannot slice.
use active_spectral_defense.Base.{
  ℕ, ◌%◌, ◌≡◌, refl, true, false, Option, some, [], ◌∷◌, ◌++◌, length, length-append, arith,
}
use active_spectral_defense.Scanner.HexSig.{Bytes}
use active_spectral_defense.Scanner.HashDb.{
  HashDb, panicked, cut, continues, no_boundary, from_str_radix, and_byte, decode_pairs, hex_decode,
  size_of, add_fields,
}

-- pairs of hex digits, one after another
abbrev pub IsHex : Bytes → Type 0
IsHex [] = Unit
IsHex (a ∷ []) = ⊥
IsHex (a ∷ b ∷ bs) = (continues a ≡ false) × ((v : ℕ) × (from_str_radix a b ≡ some v)) × IsHex bs

head_digit :
    (bs : Bytes) (a b c : ℕ) (rest : Bytes)
    → IsHex bs
    → continues a ≡ false
    → no_boundary (bs ++ a ∷ b ∷ c ∷ rest) ≡ false
unfolding no_boundary
head_digit [] a b c rest h n = n
head_digit (x ∷ []) a b c rest h n = absurd h
head_digit (x ∷ y ∷ bs) a b c rest h n = h.0

decode_pairs-cut :
    (bs : Bytes) (a b c : ℕ) (rest : Bytes)
    → IsHex bs
    → continues a ≡ false
    → continues c ≡ true
    → decode_pairs (bs ++ a ∷ b ∷ c ∷ rest) ≡ cut
unfolding decode_pairs no_boundary
decode_pairs-cut [] a b c rest h n k = ground (arith, n, k)
decode_pairs-cut (x ∷ []) a b c rest h n k = absurd h
decode_pairs-cut (x ∷ y ∷ bs) a b c rest h n k =
    let (v, digit) = h.1 in
    let after = decode_pairs-cut bs a b c rest h.2 n k in
    let clear = head_digit bs a b c rest h.2 n in
    rw (decode_pairs, h.0, clear, digit, after, and_byte) refl

length_even : (bs : Bytes) → IsHex bs → length bs % 2 ≡ 0
length_even [] h = refl
length_even (a ∷ []) h = absurd h
length_even (a ∷ b ∷ bs) h = omega (arith, length_even bs h.2)

-- A hash field of even length in which, behind any number of pairs of hex digits, a pair starts
-- with the first byte of a character and is followed by a byte that continues one, makes
-- `add_fields` panic, whatever the name, if the size field is well-formed.
pub add_fields-panicked :
    (line : ℕ) (bs : Bytes) (a b c : ℕ) (rest size_field name : Bytes) (expected_size : Option ℕ)
    (db : HashDb)
    → IsHex bs
    → continues a ≡ false
    → continues c ≡ true
    → length rest % 2 ≡ 1
    → size_of size_field ≡ some expected_size
    → add_fields line (bs ++ a ∷ b ∷ c ∷ rest) size_field name db ≡ panicked
unfolding add_fields hex_decode
add_fields-panicked line bs a b c rest size_field name expected_size db h n k odd sized =
    let total = length-append bs (a ∷ b ∷ c ∷ rest) in
    let even : length (bs ++ a ∷ b ∷ c ∷ rest) % 2 ≡ 0 =
      omega (arith, total, odd, length_even bs h) in
    rw (sized, add_fields, hex_decode, even, decode_pairs-cut bs a b c rest h n k) refl
