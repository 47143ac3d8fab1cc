-- ===== src/Siem/Ontology/Consistent/Ends.antt =====
-- The ends of links and the fit of instances in
-- components/active-siem/crates/ontology-engine/src/engine.rs, when the tables around them change.
use active_spectral_defense.Base.{
  ◌≡◌, refl, true, false, String, Option, none, some, ◌||◌, not, arith, String-discrete,
  Option-cases, inl, inr,
}
use active_spectral_defense.Float.{Float}
use active_spectral_defense.Map.{Map, lookup, contains_key, insert, remove, IsMap}
use active_spectral_defense.Map.Laws.{lookup-insert, lookup-remove}
use active_spectral_defense.Siem.Ontology.{same, LinkInstance, LinkType, ObjectInstance, ObjectType}
use active_spectral_defense.Siem.Ontology.Store.{touches, Store}
use active_spectral_defense.Siem.Ontology.Engine.{link_error}
use active_spectral_defense.Siem.Ontology.Consistent.{is_a, well_typed, is_valid}

module _ (f64 : Float) where
  pub is_valid-grow :
      (id name : String) (t : ObjectType) (types : Map String ObjectType)
      (o : Option (ObjectInstance f64))
      → contains_key String-discrete name types ≡ false
      → is_valid f64 id types o ≡ true
      → is_valid f64 id (insert String-discrete name t types) o ≡ true
  unfolding is_valid contains_key
  is_valid-grow id name t types none new h = refl
  is_valid-grow id name t types (some i) new h =
      ground (arith, lookup-insert String-discrete name i.object_type t types, new, h)

  pub well_typed-grow :
      (l : LinkInstance) (t : LinkType) (types : Map String LinkType)
      (instances : Map String (ObjectInstance f64))
      → contains_key String-discrete t.name types ≡ false
      → well_typed f64 l types instances ≡ true
      → well_typed f64 l (insert String-discrete t.name t types) instances ≡ true
  unfolding well_typed contains_key
  well_typed-grow l t types instances new h =
      ground (arith, lookup-insert String-discrete t.name l.link_type t types, new, h)

  -- what is put under an identifier is of the type of what stood there, if anything did
  pub is_a-insert :
      (ty id j : String) (i : ObjectInstance f64) (instances : Map String (ObjectInstance f64))
      → (not (contains_key String-discrete id instances) || is_a f64 i.object_type id instances)
        ≡ true
      → is_a f64 ty j instances ≡ true
      → is_a f64 ty j (insert String-discrete id i instances) ≡ true
  unfolding is_a contains_key
  is_a-insert ty id j i instances new h =
      ground (arith, lookup-insert String-discrete id j i instances, new, h)

  pub is_a-remove :
      (ty id j : String) (instances : Map String (ObjectInstance f64))
      → IsMap String-discrete instances
      → same j id ≡ false
      → is_a f64 ty j instances ≡ true
      → is_a f64 ty j (remove String-discrete id instances) ≡ true
  unfolding is_a
  is_a-remove ty id j instances ok other h =
      ground (arith, lookup-remove String-discrete id j instances ok, other, h)

  pub well_typed-ends :
      (l : LinkInstance) (types : Map String LinkType)
      (before after : Map String (ObjectInstance f64))
      → ((ty : String)
          → is_a f64 ty l.source_id before ≡ true
          → is_a f64 ty l.source_id after ≡ true)
      → ((ty : String)
          → is_a f64 ty l.target_id before ≡ true
          → is_a f64 ty l.target_id after ≡ true)
      → well_typed f64 l types before ≡ true
      → well_typed f64 l types after ≡ true
  unfolding well_typed
  well_typed-ends l types before after source target h =
      elim (Option-cases (lookup String-discrete l.link_type types)) [
        | inl miss ↦ absurd (ground (arith, miss, h))
        | inr (t, hit) ↦ ground (arith, hit, h, source t.source_type, target t.target_type)
      ]

  pub link_error-well_typed :
      (t : LinkType) (l : LinkInstance) (types : Map String LinkType) (s : Store f64)
      → lookup String-discrete l.link_type types ≡ some t
      → link_error f64 t l s ≡ none
      → well_typed f64 l types s.instances ≡ true
  unfolding link_error well_typed is_a
  link_error-well_typed t l types s hit good = ground (arith, hit, good)

  pub well_typed-remove :
      (id : String) (l : LinkInstance) (types : Map String LinkType)
      (instances : Map String (ObjectInstance f64))
      → IsMap String-discrete instances
      → touches f64 id l ≡ false
      → well_typed f64 l types instances ≡ true
      → well_typed f64 l types (remove String-discrete id instances) ≡ true
  unfolding touches
  well_typed-remove id l types instances ok apart h =
      let source : same l.source_id id ≡ false = ground (arith, apart) in
      let target : same l.target_id id ≡ false = ground (arith, apart) in
      well_typed-ends l types instances (remove String-discrete id instances)
        (λ ty. is_a-remove ty id l.source_id instances ok source)
        (λ ty. is_a-remove ty id l.target_id instances ok target) h
