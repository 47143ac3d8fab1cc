-- ===== src/Map.antt =====
-- Rust's `HashMap` and `DashMap` (std and dashmap) as association lists with one entry for a key.
-- Their iteration order is not modelled: no property depends on the order of entries.
pub mod Laws
use active_spectral_defense.Base.{
  ℕ, Bool, true, false, Option, none, some, List, [], ◌∷◌, ite, length, if◌then◌else◌, ◌≡◌,
}

abbrev pub Map {ℓ} : Type ℓ → Type ℓ → Type ℓ
Map K V = List (K × V)

-- `Option::filter` on what a lookup found
abbrev pub keep {ℓ} : {V : Type ℓ} → (V → Bool) → Option V → Option V
keep p none = none
keep p (some v) = if p v then some v else none

-- the test of two keys
abbrev pub matches {ℓ} : {K : Type ℓ} → Discrete K → K → K → Bool
matches dec k j = ite (dec k j) true false

module _ {ℓ} {K V : Type ℓ} where
  -- `map.len()`
  abbrev pub size : Map K V → ℕ
  size m = length m

  -- `map.retain(|k, v| p(k, v))`
  unfoldable pub retain : (K → V → Bool) → Map K V → Map K V
  retain p [] = []
  retain p ((k, v) ∷ m) =
      let rest = retain p m in elim (p k v) [ true ↦ (k, v) ∷ rest | false ↦ rest ]

module _ {ℓ} {K V : Type ℓ} (dec : Discrete K) where
  -- `map.get(&k)`
  unfoldable pub lookup : K → Map K V → Option V
  lookup k [] = none
  lookup k ((j, v) ∷ m) = ite (dec j k) (some v) (lookup k m)

  -- `map.contains_key(&k)`
  unfoldable pub contains_key : K → Map K V → Bool
  unfolding lookup
  contains_key k m = elim (lookup k m) [ none ↦ false | some _ ↦ true ]

  -- `map.insert(k, v)`
  unfoldable pub insert : K → V → Map K V → Map K V
  insert k v [] = (k, v) ∷ []
  insert k v ((j, w) ∷ m) = ite (dec j k) ((k, v) ∷ m) ((j, w) ∷ insert k v m)

  -- `map.remove(&k)`
  unfoldable pub remove : K → Map K V → Map K V
  remove k [] = []
  remove k ((j, w) ∷ m) = ite (dec j k) m ((j, w) ∷ remove k m)

  -- no key has two entries
  abbrev pub IsMap : Map K V → Type ℓ
  IsMap [] = Unit
  IsMap ((k, v) ∷ m) = (lookup k m ≡ none) × IsMap m
