-- ===== src/Map/Laws.antt =====
-- What the map operations return, and that each keeps one entry for a key.
use active_spectral_defense.Base.{
  ◌+◌, ◌≤◌, ◌≡◌, refl, Bool, none, some, [], ◌∷◌, ite, arith, if◌then◌else◌, is_some, not, ◌||◌,
  ◌&&◌,
}
use active_spectral_defense.Map.{
  Map, size, retain, keep, matches, lookup, contains_key, insert, remove, IsMap,
}

module _ {ℓ} {K V : Type ℓ} (dec : Discrete K) where
  pub contains_key-is_some : (k : K) (m : Map K V) → contains_key dec k m ≡ is_some (lookup dec k m)
  unfolding contains_key
  contains_key-is_some k m = ground arith

  pub lookup-insert :
      (k j : K) (v : V) (m : Map K V)
      → lookup dec j (insert dec k v m) ≡ ite (dec k j) (some v) (lookup dec j m)
  unfolding lookup insert
  lookup-insert k j v [] = refl
  lookup-insert k j v ((i, w) ∷ m) = ground (arith, lookup-insert k j v m)

  pub size-insert :
      (k : K) (v : V) (m : Map K V)
      → size (insert dec k v m) ≡ (if is_some (lookup dec k m) then size m else size m + 1)
  unfolding lookup insert
  size-insert k v [] = omega arith
  size-insert k v ((i, w) ∷ m) = ground (arith, size-insert k v m)

  pub insert-IsMap : (k : K) (v : V) (m : Map K V) → IsMap dec m → IsMap dec (insert dec k v m)
  unfolding lookup insert
  insert-IsMap k v [] h = (refl, tt)
  insert-IsMap k v ((i, w) ∷ m) h = ground (arith, insert-IsMap k v m h.1, lookup-insert k i v m)

  pub lookup-remove :
      (k j : K) (m : Map K V)
      → IsMap dec m
      → lookup dec j (remove dec k m) ≡ ite (dec k j) none (lookup dec j m)
  unfolding lookup remove
  lookup-remove k j [] h = ground arith
  lookup-remove k j ((i, w) ∷ m) h = ground (arith, lookup-remove k j m h.1)

  pub remove-IsMap : (k : K) (m : Map K V) → IsMap dec m → IsMap dec (remove dec k m)
  unfolding lookup remove
  remove-IsMap k [] h = tt
  remove-IsMap k ((i, w) ∷ m) h = ground (arith, remove-IsMap k m h.1, lookup-remove k i m h.1)

  pub size-remove :
      (k : K) (m : Map K V)
      → size (remove dec k m) + (if is_some (lookup dec k m) then 1 else 0) ≡ size m
  unfolding lookup remove
  size-remove k [] = omega arith
  size-remove k ((i, w) ∷ m) = ground (arith, size-remove k m)

  pub lookup-retain :
      (p : K → V → Bool) (k : K) (m : Map K V)
      → IsMap dec m
      → lookup dec k (retain p m) ≡ keep (p k) (lookup dec k m)
  unfolding lookup retain
  lookup-retain p k [] h = refl
  lookup-retain p k ((i, w) ∷ m) h = ground (arith, lookup-retain p k m h.1)

  pub retain-IsMap : (p : K → V → Bool) (m : Map K V) → IsMap dec m → IsMap dec (retain p m)
  unfolding lookup retain
  retain-IsMap p [] h = tt
  retain-IsMap p ((i, w) ∷ m) h = ground (arith, retain-IsMap p m h.1, lookup-retain p i m h.1)

module _ {ℓ} {K V : Type ℓ} where
  pub size-retain : (p : K → V → Bool) (m : Map K V) → size (retain p m) ≤ size m
  unfolding retain
  size-retain p [] = omega arith
  size-retain p ((i, w) ∷ m) = ground (arith, size-retain p m)

module _ {K V : Type 0} (dec : Discrete K) where
  pub contains_key-insert :
      (k j : K) (v : V) (m : Map K V)
      → contains_key dec j (insert dec k v m) ≡ (matches dec k j || contains_key dec j m)
  unfolding contains_key
  contains_key-insert k j v m = ground (arith, lookup-insert dec k j v m)

  pub contains_key-remove :
      (k j : K) (m : Map K V)
      → IsMap dec m
      → contains_key dec j (remove dec k m) ≡ (not (matches dec k j) && contains_key dec j m)
  unfolding contains_key
  contains_key-remove k j m h = ground (arith, lookup-remove dec k j m h)
