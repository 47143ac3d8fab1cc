-- ===== src/Base/Text.antt =====
-- Texts as keys.
use Prim.Native.Nat.{ℕ, zero, suc, ◌+◌, ◌/◌, ◌%◌}
use Prim.Native.Char.{code}
use Prim.Native.String.{String, ◌++◌, slice}
use mathlib.Core.Path.{◌≡◌}
use mathlib.Core.Bool.{Bool, true, false, false≢true, ◌&&◌, ◌||◌}
use mathlib.Core.Path.{refl}
use mathlib.Core.Option.{Option, none, some}
use native.Mathlib.Omega.{arith}
use text.Mathlib.TextLemmas.{nil-append, cons-append}
use active_spectral_defense.Base.Tests.{ltb, leb, ◌==◌, if◌then◌else◌}
use text.Mathlib.Text
use text.Mathlib.TextEquality.{eq_iff}

-- A decision from a test that is right both ways.
decide_by {ℓ} : {P : Type ℓ} (b : Bool) → (b ≡ true → P) → (P → b ≡ true) → Dec P
decide_by true f g = yes (f (λ i. true))
decide_by false f g = no (λ p. false≢true (g p))

unfoldable pub String-discrete : Discrete String
unfolding decide_by
String-discrete s t = decide_by (Text.◌==◌ s t) (eq_iff s t).0 (eq_iff s t).1

-- `s.strip_prefix(p)`
unfoldable pub strip_prefix : String → String → Option String
strip_prefix String.[] s = some s
strip_prefix (String.◌∷◌ c p) String.[] = none
strip_prefix (String.◌∷◌ c p) (String.◌∷◌ d s) =
    let rest = strip_prefix p s in if code c == code d then rest else none

pub strip_prefix-append : (p s : String) → strip_prefix p (p ++ s) ≡ some s
unfolding strip_prefix
strip_prefix-append String.[] s = rw (nil-append s) refl
strip_prefix-append (String.◌∷◌ c p) s =
    rw (cons-append c p s) (ground (arith, strip_prefix-append p s))

-- a digit below 10
unfoldable pub digit : ℕ → String
digit n = slice "0123456789" n (n + 1)

unfoldable pub decimal_on : ℕ → ℕ → String
unfolding digit
decimal_on zero n = digit n
decimal_on (suc fuel) n =
    let rest = decimal_on fuel (n / 10) in if ltb n 10 then digit n else rest ++ digit (n % 10)

-- `n.to_string()`; a number has no more digits than itself
unfoldable pub decimal : ℕ → String
unfolding decimal_on
decimal n = decimal_on n n

-- `str::trim` and `str::to_lowercase`, which follow the tables of Unicode
pub record Unicode : Type 0 where
  pub trim : String → String
  pub to_lowercase : String → String

-- only the letters `a` to `z` and `_`
unfoldable pub plain : String → Bool
plain String.[] = true
plain (String.◌∷◌ c s) = ((leb b'a' (code c) && leb (code c) b'z') || (code c == b'_')) && plain s

-- Neither changes a text of such letters.
pub record IsUnicode (unicode : Unicode) : Type 0 where
  pub trim_plain : (s : String) → plain s ≡ true → unicode.trim s ≡ s
  pub to_lowercase_plain : (s : String) → plain s ≡ true → unicode.to_lowercase s ≡ s
