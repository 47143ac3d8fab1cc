-- ===== src/Siem/Ontology/Consistent/Preserved.antt =====
-- Each call of components/active-siem/crates/ontology-engine/src/engine.rs keeps its graph consistent.
use active_spectral_defense.Base.{
  ◌≡◌, true, String, some, ◌||◌, not, arith, String-discrete, Bool-cases, inl, inr,
}
use active_spectral_defense.Float.{Float}
use active_spectral_defense.Map.{Map, contains_key, insert, remove}
use active_spectral_defense.Map.Laws.{lookup-insert, lookup-remove, insert-IsMap, remove-IsMap}
use active_spectral_defense.Siem.Ontology.{
  same, LinkInstance, LinkType, ObjectInstance, ObjectType, PropertyValue,
}
use active_spectral_defense.Siem.Ontology.Store.{Store}
use active_spectral_defense.Siem.Ontology.Engine.{
  OntologyEngine, register_object_type, register_link_type, with_instances, create_object_instance,
  merge, update_object_properties, delete_object_instance, create_link, delete_link,
}
use active_spectral_defense.Siem.Ontology.Consistent.{IsIndexed, IsConsistent, is_a, is_valid}
use active_spectral_defense.Siem.Ontology.Consistent.Links.{
  insert_link-has, insert_link-IsIndexed, remove_link-has, remove_link-IsIndexed,
  touching-IsIndexed, remove_links_touching-has, remove_link-instances, touching-instances,
  insert_link-instances,
}
use active_spectral_defense.Siem.Ontology.Consistent.Ends.{
  is_valid-grow, well_typed-grow, is_a-insert, well_typed-ends, well_typed-remove,
}
use active_spectral_defense.Siem.Ontology.Consistent.Cases.{
  register_object_type-cases, register_link_type-cases, create_object_instance-cases,
  with_properties, update_object_properties-cases, create_link-cases, delete_link-cases,
}

module _ (f64 : Float) where
  pub register_object_type-IsConsistent :
      (t : ObjectType) (e : OntologyEngine f64)
      → IsConsistent f64 e
      → IsConsistent f64 (register_object_type f64 t e).1
  register_object_type-IsConsistent t e h = elim (register_object_type-cases f64 t e) [
    | inl same ↦ rw same h
    | inr (fresh, changed) ↦ rw changed (record {
      instances_map = h.instances_map;
      indexed = h.indexed;
      typed = h.typed;
      valid = λ id. is_valid-grow f64 id t.name t e.object_types _ fresh (h.valid id);
    })
  ]

  pub register_link_type-IsConsistent :
      (t : LinkType) (e : OntologyEngine f64)
      → IsConsistent f64 e
      → IsConsistent f64 (register_link_type f64 t e).1
  register_link_type-IsConsistent t e h = elim (register_link_type-cases f64 t e) [
    | inl same ↦ rw same h
    | inr (fresh, changed) ↦ rw changed (record {
      instances_map = h.instances_map;
      indexed = h.indexed;
      typed = λ l.
          ground (arith, h.typed l, well_typed-grow f64 l t e.link_types e.store.instances fresh);
      valid = h.valid;
    })
  ]

  -- the graph with other instances
  instances-IsIndexed :
      (instances : Map String (ObjectInstance f64)) (s : Store f64)
      → IsIndexed f64 s
      → IsIndexed f64 (record s { instances = instances })
  instances-IsIndexed instances s h = record {
    links_map = h.links_map;
    forward = h.forward;
    backward = h.backward;
    forward_exact = h.forward_exact;
    backward_exact = h.backward_exact;
  }

  -- an instance is put under an identifier where there was none, or one of its type
  pub insert-IsConsistent :
      (id : String) (i : ObjectInstance f64) (e : OntologyEngine f64)
      → is_valid f64 id e.object_types (some i) ≡ true
      → (not (contains_key String-discrete id e.store.instances)
          || is_a f64 i.object_type id e.store.instances)
        ≡ true
      → IsConsistent f64 e
      → IsConsistent f64 (with_instances f64 (insert String-discrete id i e.store.instances) e)
  insert-IsConsistent id i e fits free h =
      let after = insert String-discrete id i e.store.instances in
      record {
        instances_map = insert-IsMap String-discrete id i e.store.instances h.instances_map;
        indexed = instances-IsIndexed after e.store h.indexed;
        typed = λ l.
            let source =
              λ (ty : String). is_a-insert f64 ty id l.source_id i e.store.instances free in
            let target =
              λ (ty : String). is_a-insert f64 ty id l.target_id i e.store.instances free in
            let kept = well_typed-ends f64 l e.link_types e.store.instances after source target in
            ground (arith, h.typed l, kept);
        valid = λ j.
            ground (arith, lookup-insert String-discrete id j i e.store.instances, h.valid j, fits);
      }

  pub create_object_instance-IsConsistent :
      (i : ObjectInstance f64) (e : OntologyEngine f64)
      → IsConsistent f64 e
      → IsConsistent f64 (create_object_instance f64 i e).1
  create_object_instance-IsConsistent i e h = elim (create_object_instance-cases f64 i e) [
    | inl same ↦ rw same h
    | inr (fresh, fits, changed) ↦
        rw changed (insert-IsConsistent i.id i e fits (ground (arith, fresh)) h)
  ]

  pub update_object_properties-IsConsistent :
      (id : String) (updates : Map String (PropertyValue f64)) (e : OntologyEngine f64)
      → IsConsistent f64 e
      → IsConsistent f64 (update_object_properties f64 id updates e).1
  unfolding is_valid is_a
  update_object_properties-IsConsistent id updates e h =
      elim (update_object_properties-cases f64 id updates e) [
        | inl same ↦ rw same h
        | inr (old, found, fits, changed) ↦
            let i = with_properties f64 (merge f64 updates old.properties) old in
            let own = h.valid id in
            let fits' : is_valid f64 id e.object_types (some i) ≡ true =
              ground (arith, own, found, fits) in
            let typed : is_a f64 i.object_type id e.store.instances ≡ true =
              ground (arith, found) in
            rw changed (insert-IsConsistent id i e fits' (ground (arith, typed)) h)
      ]

  pub delete_object_instance-IsConsistent :
      (id : String) (e : OntologyEngine f64)
      → IsConsistent f64 e
      → IsConsistent f64 (delete_object_instance f64 id e).1
  unfolding delete_object_instance is_valid
  delete_object_instance-IsConsistent id e h =
      elim (Bool-cases (contains_key String-discrete id e.store.instances)) [
        | inr miss ↦ rw (miss, delete_object_instance) h
        | inl found ↦
            let after = remove String-discrete id e.store.instances in
            let s : Store f64 = record e.store { instances = after } in
            let indexed = instances-IsIndexed after e.store h.indexed in
            rw (found, delete_object_instance)
              (record {
                instances_map =
                    rw (touching-instances f64 id s)
                      (remove-IsMap String-discrete id e.store.instances h.instances_map);
                indexed = touching-IsIndexed f64 id s indexed;
                typed = λ l.
                    rw (touching-instances f64 id s, remove_links_touching-has f64 id l s indexed)
                      (ground (
                        arith,
                        h.typed l,
                        well_typed-remove f64 id l e.link_types e.store.instances h.instances_map,
                      ));
                valid = λ j. rw (touching-instances f64 id s) (
                    ground (
                      arith,
                      lookup-remove String-discrete id j e.store.instances h.instances_map,
                      h.valid j,
                    ));
              })
      ]

  pub create_link-IsConsistent :
      (l : LinkInstance) (e : OntologyEngine f64)
      → IsConsistent f64 e
      → IsConsistent f64 (create_link f64 l e).1
  create_link-IsConsistent l e h = elim (create_link-cases f64 l e) [
    | inl same ↦ rw same h
    | inr (ok, changed) ↦
        let kept = insert_link-instances f64 l e.store in
        rw changed (record {
          instances_map = rw kept h.instances_map;
          indexed = insert_link-IsIndexed f64 l e.store h.indexed;
          typed = λ m. rw (kept, insert_link-has f64 l m e.store) (ground (arith, ok, h.typed m));
          valid = rw kept h.valid;
        })
  ]

  pub delete_link-IsConsistent :
      (l : LinkInstance) (e : OntologyEngine f64)
      → IsConsistent f64 e
      → IsConsistent f64 (delete_link f64 l e).1
  delete_link-IsConsistent l e h =
      let same = remove_link-instances f64 l e.store in
      rw (delete_link-cases f64 l e) (record {
        instances_map = rw same h.instances_map;
        indexed = remove_link-IsIndexed f64 l e.store h.indexed;
        typed =
            λ m. rw (same, remove_link-has f64 l m e.store h.indexed) (ground (arith, h.typed m));
        valid = rw same h.valid;
      })
