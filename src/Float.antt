-- ===== src/Float.antt =====
-- Floating point (`f64`, `f32`) as a parameter: the operations that the program calls, and, as
-- named hypotheses, what IEEE 754 says of them on the whole numbers that both sides can hold.
use active_spectral_defense.Base.{ℕ, ◌-◌, ◌^◌, ◌≤◌, ◌<◌, ◌≡◌, Bool, leb, min, max, List, String}

pub record Float : Type 1 where
  pub F : Type 0
  -- an integer `as f64`
  pub of_ℕ : ℕ → F
  -- `Duration::as_secs_f64`, of nanoseconds
  pub as_secs : ℕ → F
  pub add : F → F → F
  pub sub : F → F → F
  pub mul : F → F → F
  pub div : F → F → F
  pub fmin : F → F → F
  pub fmax : F → F → F
  -- `a == b`
  pub eq : F → F → Bool
  -- `a >= b`
  pub ge : F → F → Bool
  -- `a < b`
  pub lt : F → F → Bool
  -- `iter().sum()`
  pub sum : List F → F
  -- `x.clamp(low, high)`
  pub clamp : F → F → F → F
  -- `x.round() as i64`, where `x` is at least 0
  pub round : F → ℕ
  -- `format!("{:.n}", x)`
  pub fixed : ℕ → F → String

-- The largest range in which an `f64` holds every whole number.
abbrev pub exact_limit : ℕ
exact_limit = 2 ^ 53

-- Whole numbers below the limit are computed with exactly.
pub record IsExact (fl : Float) : Type 0 where
  pub as_secs_zero : fl.as_secs 0 ≡ fl.of_ℕ 0
  pub mul_zero : (n : ℕ) → n < exact_limit → fl.mul (fl.of_ℕ 0) (fl.of_ℕ n) ≡ fl.of_ℕ 0
  pub add_zero : (n : ℕ) → n < exact_limit → fl.add (fl.of_ℕ n) (fl.of_ℕ 0) ≡ fl.of_ℕ n
  pub sub_one : (n : ℕ) → 1 ≤ n → n < exact_limit → fl.sub (fl.of_ℕ n) (fl.of_ℕ 1) ≡ fl.of_ℕ (n - 1)
  pub fmin_exact :
      (m n : ℕ)
      → m < exact_limit
      → n < exact_limit
      → fl.fmin (fl.of_ℕ m) (fl.of_ℕ n) ≡ fl.of_ℕ (min m n)
  pub fmax_exact :
      (m n : ℕ)
      → m < exact_limit
      → n < exact_limit
      → fl.fmax (fl.of_ℕ m) (fl.of_ℕ n) ≡ fl.of_ℕ (max m n)
  pub ge_exact :
      (m n : ℕ) → m < exact_limit → n < exact_limit → fl.ge (fl.of_ℕ m) (fl.of_ℕ n) ≡ leb n m
