-- ===== src/Siem/Ontology/Engine.antt =====
-- components/active-siem/crates/ontology-engine/src/engine.rs, the engine: the schema registry and
-- the operations on instances and links. Each runs under the store's lock, and returns its result
-- with the engine it leaves; the log lines are left out.
use active_spectral_defense.Base.{
  ℕ, Bool, true, false, String, Option, none, some, List, [], ◌∷◌, ◌++◌, ◌&&◌, not, length, ite,
  if◌then◌else◌, String-discrete,
}
use active_spectral_defense.Float.{Float}
use active_spectral_defense.Map.{Map, size, lookup, contains_key, insert, remove}
use active_spectral_defense.Siem.Ontology.{
  Result, ok, err, same, is_empty, PropertyType, PropertyType-discrete, type_text, ObjectType,
  LinkType, LinkInstance, Direction, outgoing, incoming, ValidationIssue, missing_property,
  type_mismatch, unknown_property, OntologyError, object_type_not_registered,
  link_type_not_registered, object_type_already_registered, link_type_already_registered,
  empty_primary_key, duplicate_instance, instance_not_found, link_source_type_mismatch,
  link_target_type_mismatch, duplicate_link, schema_validation, immutable_primary_key,
  PropertyValue, type_of, value_eq, ObjectInstance,
}
use active_spectral_defense.Siem.Ontology.Store.{
  elements, IndexKey-discrete, Index, Store, empty_store, insert_link, remove_link,
  remove_links_touching,
}

module _ (f64 : Float) where
  pub record OntologyEngine : Type 0 where
    pub object_types : Map String ObjectType
    pub link_types : Map String LinkType
    pub store : Store f64

  abbrev pub new : OntologyEngine
  new = record { object_types = []; link_types = []; store = empty_store f64 }

  abbrev pub Outcome : Type 0
  Outcome = Result OntologyError Unit × OntologyEngine

  unfoldable pub register_object_type : ObjectType → OntologyEngine → Outcome
  unfolding is_empty
  register_object_type t e =
      if is_empty t.primary_key
      then (err (empty_primary_key t.name), e)
      else if contains_key String-discrete t.name e.object_types
      then (err (object_type_already_registered t.name), e)
      else (ok tt, record e { object_types = insert String-discrete t.name t e.object_types })

  unfoldable pub register_link_type : LinkType → OntologyEngine → Outcome
  register_link_type t e =
      if not (contains_key String-discrete t.source_type e.object_types)
      then (err (object_type_not_registered t.source_type), e)
      else if not (contains_key String-discrete t.target_type e.object_types)
      then (err (object_type_not_registered t.target_type), e)
      else if contains_key String-discrete t.name e.link_types
      then (err (link_type_already_registered t.name), e)
      else (ok tt, record e { link_types = insert String-discrete t.name t e.link_types })

  unfoldable pub get_object_type : String → OntologyEngine → Option ObjectType
  get_object_type name e = lookup String-discrete name e.object_types

  unfoldable pub get_link_type : String → OntologyEngine → Option LinkType
  get_link_type name e = lookup String-discrete name e.link_types

  -- the issue with a declared property, if any
  unfoldable pub declared_issues :
      String → PropertyType → Option (PropertyValue f64) → List ValidationIssue
  declared_issues name expected none = missing_property name ∷ []
  declared_issues name expected (some value) =
      if ite (PropertyType-discrete (type_of f64 value) expected) true false
      then []
      else type_mismatch name (type_text expected) (type_text (type_of f64 value)) ∷ []

  -- the first loop of `validate_properties`
  unfoldable pub check_declared :
      Map String PropertyType → Map String (PropertyValue f64) → List ValidationIssue
  unfolding declared_issues
  check_declared [] properties = []
  check_declared ((name, expected) ∷ schemas) properties =
      declared_issues name expected (lookup String-discrete name properties)
      ++ check_declared schemas properties

  -- its second loop
  unfoldable pub check_known :
      Map String PropertyType → Map String (PropertyValue f64) → List ValidationIssue
  check_known schemas [] = []
  check_known schemas ((name, _) ∷ properties) =
      let rest = check_known schemas properties in
      if contains_key String-discrete name schemas then rest else unknown_property name ∷ rest

  unfoldable pub validate_properties :
      ObjectType → Map String (PropertyValue f64) → List ValidationIssue
  unfolding check_declared check_known
  validate_properties schema properties =
      check_declared schema.property_schemas properties
      ++ check_known schema.property_schemas properties

  -- `issues.is_empty()`
  abbrev pub no_issues : List ValidationIssue → Bool
  no_issues [] = true
  no_issues (_ ∷ _) = false

  abbrev pub with_instances : Map String (ObjectInstance f64) → OntologyEngine → OntologyEngine
  with_instances instances e = record e { store = record e.store { instances = instances } }

  unfoldable pub create_object_instance : ObjectInstance f64 → OntologyEngine → Outcome
  unfolding validate_properties
  create_object_instance i e = elim (lookup String-discrete i.object_type e.object_types) [
    | none ↦ (err (object_type_not_registered i.object_type), e)
    | some schema ↦
        let issues = validate_properties schema i.properties in
        if not (no_issues issues)
        then (err (schema_validation i.id (length issues) issues), e)
        else if contains_key String-discrete i.id e.store.instances
        then (err (duplicate_instance i.id), e)
        else (ok tt, with_instances (insert String-discrete i.id i e.store.instances) e)
  ]

  -- `current_pk != Some(pk_update)`, for an update of the primary key
  unfoldable pub changes_key :
      String → Map String (PropertyValue f64) → Map String (PropertyValue f64) → Bool
  changes_key key updates properties = elim (lookup String-discrete key updates) [
    | none ↦ false
    | some update ↦ elim (lookup String-discrete key properties) [
      | none ↦ true
      | some current ↦ not (value_eq f64 current update)
    ]
  ]

  -- the loop that inserts the updates
  unfoldable pub merge :
      Map String (PropertyValue f64)
      → Map String (PropertyValue f64)
      → Map String (PropertyValue f64)
  merge [] properties = properties
  merge ((k, v) ∷ updates) properties = merge updates (insert String-discrete k v properties)

  -- what follows once the instance and its schema are found
  unfoldable pub update_with :
      ObjectType
      → ObjectInstance f64
      → String
      → Map String (PropertyValue f64)
      → OntologyEngine
      → Outcome
  unfolding validate_properties changes_key merge
  update_with schema existing id updates e =
      let merged = merge updates existing.properties in
      let issues = validate_properties schema merged in
      if changes_key schema.primary_key updates existing.properties
      then (err (immutable_primary_key id schema.primary_key), e)
      else if not (no_issues issues)
      then (err (schema_validation id (length issues) issues), e)
      else (
        ok tt,
        with_instances
            (insert String-discrete id (record existing { properties = merged }) e.store.instances)
            e,
      )

  unfoldable pub update_object_properties :
      String → Map String (PropertyValue f64) → OntologyEngine → Outcome
  unfolding update_with
  update_object_properties id updates e = elim (lookup String-discrete id e.store.instances) [
    | none ↦ (err (instance_not_found id), e)
    | some existing ↦ elim (lookup String-discrete existing.object_type e.object_types) [
      | none ↦ (err (object_type_not_registered existing.object_type), e)
      | some schema ↦ update_with schema existing id updates e
    ]
  ]

  unfoldable pub get_object_instance : String → OntologyEngine → Option (ObjectInstance f64)
  get_object_instance id e = lookup String-discrete id e.store.instances

  -- `.values()`
  unfoldable pub values : Map String (ObjectInstance f64) → List (ObjectInstance f64)
  values [] = []
  values ((_, i) ∷ m) = i ∷ values m

  unfoldable pub select :
      (ObjectInstance f64 → Bool) → List (ObjectInstance f64) → List (ObjectInstance f64)
  select p [] = []
  select p (i ∷ is) = let rest = select p is in if p i then i ∷ rest else rest

  unfoldable pub list_instances_by_type : String → OntologyEngine → List (ObjectInstance f64)
  unfolding values select
  list_instances_by_type object_type e =
      select (λ i. same i.object_type object_type) (values e.store.instances)

  -- `i.properties.get(property) == Some(value)`
  unfoldable pub has_value : String → PropertyValue f64 → ObjectInstance f64 → Bool
  has_value property value i = elim (lookup String-discrete property i.properties) [
    | none ↦ false
    | some v ↦ value_eq f64 v value
  ]

  unfoldable pub find_by_property :
      String → String → PropertyValue f64 → OntologyEngine → List (ObjectInstance f64)
  unfolding values select has_value
  find_by_property object_type property value e =
      select (λ i. same i.object_type object_type && has_value property value i)
        (values e.store.instances)

  unfoldable pub delete_object_instance :
      String → OntologyEngine → Result OntologyError ℕ × OntologyEngine
  unfolding remove_links_touching
  delete_object_instance id e =
      let s = record e.store { instances = remove String-discrete id e.store.instances } in
      let removed = remove_links_touching f64 id s in
      if contains_key String-discrete id e.store.instances
      then (ok (length removed.0), record e { store = removed.1 })
      else (err (instance_not_found id), e)

  -- what follows once the link type is found: the checks of the two ends
  unfoldable pub link_error : LinkType → LinkInstance → Store f64 → Option OntologyError
  link_error schema l s = elim (lookup String-discrete l.source_id s.instances) [
    | none ↦ some (instance_not_found l.source_id)
    | some source ↦
        if not (same source.object_type schema.source_type)
        then some (
            link_source_type_mismatch l.link_type schema.source_type source.object_type l.source_id)
        else elim (lookup String-discrete l.target_id s.instances) [
          | none ↦ some (instance_not_found l.target_id)
          | some target ↦
              if not (same target.object_type schema.target_type)
              then some (
                  link_target_type_mismatch l.link_type schema.target_type target.object_type
                    l.target_id)
              else none
        ]
  ]

  unfoldable pub create_link : LinkInstance → OntologyEngine → Outcome
  unfolding link_error insert_link
  create_link l e = elim (lookup String-discrete l.link_type e.link_types) [
    | none ↦ (err (link_type_not_registered l.link_type), e)
    | some schema ↦ elim (link_error schema l e.store) [
      | some error ↦ (err error, e)
      | none ↦
          let inserted = insert_link f64 l e.store in
          if not inserted.0
          then (err (duplicate_link l.link_type l.source_id l.target_id), e)
          else (ok tt, record e { store = inserted.1 })
    ]
  ]

  unfoldable pub delete_link : LinkInstance → OntologyEngine → Outcome
  unfolding remove_link
  delete_link l e =
      let removed = remove_link f64 l e.store in
      if not removed.0
      then (err (duplicate_link l.link_type l.source_id l.target_id), e)
      else (ok tt, record e { store = removed.1 })

  abbrev pub index_of : Direction → Store f64 → Index
  index_of outgoing s = s.forward_index
  index_of incoming s = s.backward_index

  -- `filter_map(|id| store.instances.get(id).cloned())`
  unfoldable pub fetch : Map String (ObjectInstance f64) → List String → List (ObjectInstance f64)
  fetch instances [] = []
  fetch instances (id ∷ ids) =
      let rest = fetch instances ids in
      elim (lookup String-discrete id instances) [ none ↦ rest | some i ↦ i ∷ rest ]

  unfoldable pub traverse : String → String → Direction → OntologyEngine → List (ObjectInstance f64)
  unfolding fetch elements
  traverse node_id link_type direction e =
      elim (lookup IndexKey-discrete (node_id, link_type) (index_of direction e.store)) [
        | none ↦ []
        | some ids ↦ fetch e.store.instances (elements ids)
      ]

  unfoldable pub traverse_link : String → String → OntologyEngine → List (ObjectInstance f64)
  unfolding traverse
  traverse_link source_id link_type_name e = traverse source_id link_type_name outgoing e

  unfoldable pub instance_count : OntologyEngine → ℕ
  instance_count e = size e.store.instances

  unfoldable pub link_count : OntologyEngine → ℕ
  link_count e = size e.store.links
