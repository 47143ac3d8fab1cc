-- ===== src/Scanner/HexSig/Written.antt =====
-- Segments of components/rust-clam/crates/sig-engine/src/hexsig.rs, written and parsed again.
use active_spectral_defense.Base.{
  ℕ, ◌+◌, ◌-◌, ◌*◌, ◌/◌, ◌%◌, ◌<◌, ◌≡◌, refl, false, some, [], ◌∷◌, length, ltb, ◌==◌,
  if◌then◌else◌, arith,
}
use active_spectral_defense.Scanner.HexSig.{Bytes, ok, byte, wildcard, Segment}
use active_spectral_defense.Scanner.HexSig.Parse.{
  hex_nibble, hex_pair, hex_token, tokens_of, parse_segment,
}

-- a digit, a token and a segment as they are written
unfoldable hex_digit : ℕ → ℕ
hex_digit n = if ltb n 10 then n + b'0' else n + b'a' - 10

unfoldable pub written : Segment → Bytes
unfolding hex_digit
written [] = []
written (byte b ∷ ts) = hex_digit (b / 16) ∷ hex_digit (b % 16) ∷ written ts
written (wildcard ∷ ts) = b'?' ∷ b'?' ∷ written ts

-- the bytes of a segment are bytes
abbrev pub AllBytes : Segment → Type 0
AllBytes [] = Unit
AllBytes (byte b ∷ ts) = (b < 256) × AllBytes ts
AllBytes (wildcard ∷ ts) = AllBytes ts

hex_nibble-hex_digit : (n : ℕ) → n < 16 → hex_nibble (hex_digit n) ≡ some n
unfolding hex_nibble hex_digit
hex_nibble-hex_digit n h = ground (arith, h)

hex_digit_ne : (n : ℕ) → (hex_digit n == b'?') ≡ false
unfolding hex_digit
hex_digit_ne n = ground arith

length-written : (seg : Segment) → length (written seg) % 2 ≡ 0
unfolding written
length-written [] = refl
length-written (byte b ∷ ts) = omega (arith, length-written ts)
length-written (wildcard ∷ ts) = omega (arith, length-written ts)

hex_token-byte :
    (line b : ℕ) → b < 256 → hex_token line (hex_digit (b / 16)) (hex_digit (b % 16)) ≡ ok (byte b)
unfolding hex_token hex_pair
hex_token-byte line b h =
    let hi = hex_nibble-hex_digit (b / 16) (omega (arith, h)) in
    let lo = hex_nibble-hex_digit (b % 16) (omega arith) in
    let sum : b / 16 * 16 + b % 16 ≡ b = omega arith in
    rw (hex_token, hex_digit_ne (b / 16), hex_pair, hi, lo, sum) refl

tokens_of-written :
    (line : ℕ) (seg : Segment) → AllBytes seg → tokens_of line (written seg) ≡ ok seg
unfolding tokens_of written hex_token
tokens_of-written line [] h = refl
tokens_of-written line (byte b ∷ ts) h =
    rw (tokens_of, hex_token-byte line b h.0, tokens_of-written line ts h.1) refl
tokens_of-written line (wildcard ∷ ts) h = rw (tokens_of, tokens_of-written line ts h) refl

-- Writing a segment, with `??` for a wildcard and two lower-case digits for a byte, and parsing
-- what was written gives the segment again, if its bytes are below 256.
pub parse_segment-written :
    (line : ℕ) (seg : Segment) → AllBytes seg → parse_segment line (written seg) ≡ ok seg
unfolding parse_segment
parse_segment-written line seg h = rw (length-written seg, tokens_of-written line seg h) refl
