-- ===== src/Siem/Ontology/Consistent/Cases.antt =====
-- What the calls of components/active-siem/crates/ontology-engine/src/engine.rs change, if anything.
use active_spectral_defense.Base.{
  ◌≡◌, refl, true, false, String, some, arith, String-discrete, Option-cases, Bool-cases, inl, inr,
  ◌⊎◌,
}
use active_spectral_defense.Float.{Float}
use active_spectral_defense.Map.{Map, lookup, contains_key, insert}
use active_spectral_defense.Siem.Ontology.{
  LinkInstance, LinkType, ObjectInstance, ObjectType, PropertyValue,
}
use active_spectral_defense.Siem.Ontology.Store.{insert_link, remove_link}
use active_spectral_defense.Siem.Ontology.Engine.{
  OntologyEngine, new, register_object_type, register_link_type, validate_properties, no_issues,
  with_instances, create_object_instance, merge, changes_key, update_with, update_object_properties,
  link_error, create_link, delete_link,
}
use active_spectral_defense.Siem.Ontology.Consistent.{well_typed, is_valid}
use active_spectral_defense.Siem.Ontology.Consistent.Ends.{link_error-well_typed}

module _ (f64 : Float) where
  pub register_object_type-cases :
      (t : ObjectType) (e : OntologyEngine f64)
      → ((register_object_type f64 t e).1 ≡ e)
        ⊎ ((contains_key String-discrete t.name e.object_types ≡ false)
            × ((register_object_type f64 t e).1
                ≡ record e { object_types = insert String-discrete t.name t e.object_types }))
  unfolding register_object_type
  register_object_type-cases t e = ground arith

  pub register_link_type-cases :
      (t : LinkType) (e : OntologyEngine f64)
      → ((register_link_type f64 t e).1 ≡ e)
        ⊎ ((contains_key String-discrete t.name e.link_types ≡ false)
            × ((register_link_type f64 t e).1
                ≡ record e { link_types = insert String-discrete t.name t e.link_types }))
  unfolding register_link_type
  register_link_type-cases t e = ground arith

  pub create_object_instance-cases :
      (i : ObjectInstance f64) (e : OntologyEngine f64)
      → ((create_object_instance f64 i e).1 ≡ e)
        ⊎ ((contains_key String-discrete i.id e.store.instances ≡ false)
            × (is_valid f64 i.id e.object_types (some i) ≡ true)
            × ((create_object_instance f64 i e).1
                ≡ with_instances f64 (insert String-discrete i.id i e.store.instances) e))
  unfolding create_object_instance is_valid
  create_object_instance-cases i e = ground arith

  pub create_link-cases :
      (l : LinkInstance) (e : OntologyEngine f64)
      → ((create_link f64 l e).1 ≡ e)
        ⊎ ((well_typed f64 l e.link_types e.store.instances ≡ true)
            × ((create_link f64 l e).1 ≡ record e { store = (insert_link f64 l e.store).1 }))
  unfolding create_link
  create_link-cases l e = elim (Option-cases (lookup String-discrete l.link_type e.link_types)) [
    | inl miss ↦ inl (rw (miss, create_link) refl)
    | inr (t, hit) ↦ elim (Option-cases (link_error f64 t l e.store)) [
      | inr (error, bad) ↦ inl (rw (hit, bad, create_link) refl)
      | inl good ↦
          let ok = link_error-well_typed f64 t l e.link_types e.store hit good in
          elim (Bool-cases (insert_link f64 l e.store).0) [
            | inl fresh ↦ inr (ok, rw (hit, good, fresh, create_link) refl)
            | inr old ↦ inl (rw (hit, good, old, create_link) refl)
          ]
    ]
  ]

  pub delete_link-cases :
      (l : LinkInstance) (e : OntologyEngine f64)
      → (delete_link f64 l e).1 ≡ record e { store = (remove_link f64 l e.store).1 }
  unfolding delete_link remove_link
  delete_link-cases l e = ground arith

  abbrev pub with_properties :
      Map String (PropertyValue f64) → ObjectInstance f64 → ObjectInstance f64
  with_properties properties i = record i { properties = properties }

  pub update_object_properties-cases :
      (id : String) (new : Map String (PropertyValue f64)) (e : OntologyEngine f64)
      → ((update_object_properties f64 id new e).1 ≡ e)
        ⊎ ((old : ObjectInstance f64) × (lookup String-discrete id e.store.instances ≡ some old)
            × (is_valid f64 old.id e.object_types
                  (some (with_properties (merge f64 new old.properties) old))
                ≡ true)
            × ((update_object_properties f64 id new e).1
                ≡ with_instances f64
                    (insert String-discrete id
                      (with_properties (merge f64 new old.properties) old)
                      e.store.instances)
                    e))
  unfolding update_object_properties update_with is_valid
  update_object_properties-cases id new e =
      elim (Option-cases (lookup String-discrete id e.store.instances)) [
        | inl miss ↦ inl (rw (miss, update_object_properties) refl)
        | inr (old, found) ↦
            elim (Option-cases (lookup String-discrete old.object_type e.object_types)) [
              | inl miss ↦ inl (rw (found, miss, update_object_properties) refl)
              | inr (schema, hit) ↦
                  elim (Bool-cases (changes_key f64 schema.primary_key new old.properties)) [
                    | inl bad ↦
                        inl (rw (found, hit, bad, update_object_properties, update_with) refl)
                    | inr kept ↦
                        let merged = merge f64 new old.properties in
                        elim (Bool-cases (no_issues f64 (validate_properties f64 schema merged))) [
                          | inr bad ↦ inl (
                              rw (found, hit, kept, bad, update_object_properties, update_with)
                                refl)
                          | inl good ↦ inr (
                            old,
                            found,
                            ground (arith, hit, good),
                            rw (found, hit, kept, good, update_object_properties, update_with) refl,
                          )
                        ]
                  ]
            ]
      ]
