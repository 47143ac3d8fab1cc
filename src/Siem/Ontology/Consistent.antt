-- ===== src/Siem/Ontology/Consistent.antt =====
-- The invariant of the graph of components/active-siem/crates/ontology-engine/src/engine.rs: the
-- indexes hold the links and nothing else, and no link dangles.
pub mod Links
pub mod Ends
pub mod Cases
pub mod Preserved
pub mod Steps
use active_spectral_defense.Base.{
  ◌≡◌, refl, Bool, true, false, String, Option, none, some, [], ◌||◌, ◌&&◌, not, arith,
  String-discrete,
}
use active_spectral_defense.Float.{Float}
use active_spectral_defense.Map.{Map, lookup, contains_key, IsMap}
use active_spectral_defense.Siem.Ontology.{
  same, LinkInstance, LinkInstance-discrete, LinkType, ObjectInstance, ObjectType,
}
use active_spectral_defense.Siem.Ontology.Store.{source_key, target_key, Index, Set, Store}
use active_spectral_defense.Siem.Ontology.Engine.{OntologyEngine, validate_properties, no_issues}
use active_spectral_defense.Siem.Ontology.Indexes.{IsIndex, holds}

abbrev pub has : LinkInstance → Set LinkInstance → Bool
has l links = contains_key LinkInstance-discrete l links

module _ (f64 : Float) where
  -- the links are a set, and an index agrees with it on every link
  pub record IsIndexed (s : Store f64) : Type 0 where
    pub links_map : IsMap LinkInstance-discrete s.links
    pub forward : IsIndex s.forward_index
    pub backward : IsIndex s.backward_index
    pub forward_exact :
        (l : LinkInstance) → holds (source_key l) l.target_id s.forward_index ≡ has l s.links
    pub backward_exact :
        (l : LinkInstance) → holds (target_key l) l.source_id s.backward_index ≡ has l s.links

  -- the instance exists and is of the type
  unfoldable pub is_a : String → String → Map String (ObjectInstance f64) → Bool
  is_a object_type id instances = elim (lookup String-discrete id instances) [
    | none ↦ false
    | some i ↦ same i.object_type object_type
  ]

  -- both ends of a link exist and are of the types that its link type declares
  unfoldable pub well_typed :
      LinkInstance → Map String LinkType → Map String (ObjectInstance f64) → Bool
  unfolding is_a
  well_typed l link_types instances = elim (lookup String-discrete l.link_type link_types) [
    | none ↦ false
    | some t ↦ is_a t.source_type l.source_id instances && is_a t.target_type l.target_id instances
  ]

  -- an instance stands under its own identifier and fits the schema of its type
  unfoldable pub is_valid : String → Map String ObjectType → Option (ObjectInstance f64) → Bool
  is_valid id object_types none = true
  is_valid id object_types (some i) =
      same i.id id && elim (lookup String-discrete i.object_type object_types) [
        | none ↦ false
        | some schema ↦ no_issues f64 (validate_properties f64 schema i.properties)
      ]

  pub record IsConsistent (e : OntologyEngine f64) : Type 0 where
    pub instances_map : IsMap String-discrete e.store.instances
    pub indexed : IsIndexed e.store
    pub typed :
        (l : LinkInstance)
        → (not (has l e.store.links) || well_typed l e.link_types e.store.instances) ≡ true
    pub valid :
        (id : String)
        → is_valid id e.object_types (lookup String-discrete id e.store.instances) ≡ true
