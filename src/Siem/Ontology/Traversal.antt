-- ===== src/Siem/Ontology/Traversal.antt =====
-- What `traverse` of components/active-siem/crates/ontology-engine/src/engine.rs returns, in terms
-- of the links alone.
use active_spectral_defense.Base.{
  ◌≡◌, refl, Bool, true, String, some, List, [], ◌∷◌, ◌||◌, ◌&&◌, not, arith, any, String-discrete,
  Option-cases, inl, inr,
}
use active_spectral_defense.Float.{Float}
use active_spectral_defense.Map.{Map, lookup, contains_key}
use active_spectral_defense.Siem.Ontology.{
  same, LinkInstance, link, ObjectInstance, Direction, outgoing, incoming,
}
use active_spectral_defense.Siem.Ontology.Store.{Set, elements}
use active_spectral_defense.Siem.Ontology.Engine.{OntologyEngine, index_of, fetch, traverse}
use active_spectral_defense.Siem.Ontology.Indexes.{holds, members}
use active_spectral_defense.Siem.Ontology.Consistent.{IsConsistent, has, is_a, well_typed, is_valid}

module _ (f64 : Float) where
  -- an instance with the identifier is among those returned
  abbrev pub returned : String → List (ObjectInstance f64) → Bool
  returned id is = any (λ i. same i.id id) is

  -- every instance stands under its own identifier
  abbrev pub Named : Map String (ObjectInstance f64) → Type 0
  Named instances =
      (id : String) (i : ObjectInstance f64)
      → lookup String-discrete id instances ≡ some i
      → i.id ≡ id

  fetch-returned :
      (id : String) (instances : Map String (ObjectInstance f64)) (ids : Set String)
      → Named instances
      → returned id (fetch f64 instances (elements ids))
        ≡ (contains_key String-discrete id ids && contains_key String-discrete id instances)
  unfolding elements fetch contains_key lookup
  fetch-returned id instances [] named = refl
  fetch-returned id instances ((j, u) ∷ ids) named =
      elim (Option-cases (lookup String-discrete j instances)) [
        | inl miss ↦ ground (arith, miss, fetch-returned id instances ids named)
        | inr (i, hit) ↦ ground (arith, hit, fetch-returned id instances ids named, named j i hit)
      ]

  -- the link between two instances, from the side of the first
  abbrev pub edge : Direction → String → String → String → LinkInstance
  edge outgoing link_type node other = link link_type node other
  edge incoming link_type node other = link link_type other node

  consistent-Named : (e : OntologyEngine f64) → IsConsistent f64 e → Named e.store.instances
  unfolding is_valid
  consistent-Named e h id i hit = ground (arith, h.valid id, hit)

  pub traverse-index :
      (node_id link_type : String) (d : Direction) (e : OntologyEngine f64)
      → traverse f64 node_id link_type d e
        ≡ fetch f64 e.store.instances
            (elements (members (node_id, link_type) (index_of f64 d e.store)))
  unfolding traverse fetch elements
  traverse-index node_id link_type d e = ground arith

  pub index-holds :
      (node_id link_type other : String) (d : Direction) (e : OntologyEngine f64)
      → IsConsistent f64 e
      → holds (node_id, link_type) other (index_of f64 d e.store)
        ≡ has (edge d link_type node_id other) e.store.links
  index-holds node_id link_type other outgoing e h =
      h.indexed.forward_exact (link link_type node_id other)
  index-holds node_id link_type other incoming e h =
      h.indexed.backward_exact (link link_type other node_id)

  pub linked-exists :
      (node_id link_type other : String) (d : Direction) (e : OntologyEngine f64)
      → IsConsistent f64 e
      → (not (has (edge d link_type node_id other) e.store.links)
          || contains_key String-discrete other e.store.instances)
        ≡ true
  unfolding well_typed is_a contains_key
  linked-exists node_id link_type other outgoing e h =
      ground (arith, h.typed (link link_type node_id other))
  linked-exists node_id link_type other incoming e h =
      ground (arith, h.typed (link link_type other node_id))

  -- On a consistent engine, `traverse` finds an instance exactly if the link between it and the
  -- node, in the direction asked for, exists.
  pub traverse-returned :
      (node_id link_type other : String) (d : Direction) (e : OntologyEngine f64)
      → IsConsistent f64 e
      → returned other (traverse f64 node_id link_type d e)
        ≡ has (edge d link_type node_id other) e.store.links
  unfolding holds
  traverse-returned node_id link_type other d e h =
      let ids = members (node_id, link_type) (index_of f64 d e.store) in
      let found = fetch-returned other e.store.instances ids (consistent-Named e h) in
      rw (traverse-index node_id link_type d e) (
        ground (
          arith,
          found,
          index-holds node_id link_type other d e h,
          linked-exists node_id link_type other d e h,
        ))
