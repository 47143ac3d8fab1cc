-- ===== src/Siem/Ontology/Consistent/Steps.antt =====
-- Sequences of calls of components/active-siem/crates/ontology-engine/src/engine.rs keep its graph
-- consistent.
use active_spectral_defense.Base.{String, List, [], ◌∷◌, refl}
use active_spectral_defense.Float.{Float}
use active_spectral_defense.Map.{Map, lookup, contains_key}
use active_spectral_defense.Siem.Ontology.Indexes.{holds}
use active_spectral_defense.Siem.Ontology.{
  LinkInstance, LinkType, ObjectInstance, ObjectType, PropertyValue,
}
use active_spectral_defense.Siem.Ontology.Engine.{
  OntologyEngine, new, register_object_type, register_link_type, create_object_instance,
  update_object_properties, delete_object_instance, create_link, delete_link,
}
use active_spectral_defense.Siem.Ontology.Consistent.{IsConsistent, is_valid}
use active_spectral_defense.Siem.Ontology.Consistent.Preserved.{
  register_object_type-IsConsistent, register_link_type-IsConsistent,
  create_object_instance-IsConsistent, update_object_properties-IsConsistent,
  delete_object_instance-IsConsistent, create_link-IsConsistent, delete_link-IsConsistent,
}

module _ (f64 : Float) where
  -- a call that changes the engine
  pub data Call : Type 0 where
    registers_object_type : ObjectType → Call
    registers_link_type : LinkType → Call
    creates : ObjectInstance f64 → Call
    updates : String → Map String (PropertyValue f64) → Call
    deletes : String → Call
    links unlinks : LinkInstance → Call

  unfoldable pub step : Call → OntologyEngine f64 → OntologyEngine f64
  step (registers_object_type t) e = (register_object_type f64 t e).1
  step (registers_link_type t) e = (register_link_type f64 t e).1
  step (creates i) e = (create_object_instance f64 i e).1
  step (updates id properties) e = (update_object_properties f64 id properties e).1
  step (deletes id) e = (delete_object_instance f64 id e).1
  step (links l) e = (create_link f64 l e).1
  step (unlinks l) e = (delete_link f64 l e).1

  unfoldable pub run : List Call → OntologyEngine f64 → OntologyEngine f64
  unfolding step
  run [] e = e
  run (c ∷ cs) e = run cs (step c e)

  pub new-IsConsistent : IsConsistent f64 (new f64)
  unfolding lookup contains_key holds is_valid
  new-IsConsistent = record {
    instances_map = tt;
    indexed = record {
      links_map = tt;
      forward = record { is_map = tt; sets = λ key. tt };
      backward = record { is_map = tt; sets = λ key. tt };
      forward_exact = λ l. refl;
      backward_exact = λ l. refl;
    };
    typed = λ l. refl;
    valid = λ id. refl;
  }

  step-IsConsistent :
      (c : Call) (e : OntologyEngine f64) → IsConsistent f64 e → IsConsistent f64 (step c e)
  unfolding step
  step-IsConsistent (registers_object_type t) e h = register_object_type-IsConsistent f64 t e h
  step-IsConsistent (registers_link_type t) e h = register_link_type-IsConsistent f64 t e h
  step-IsConsistent (creates i) e h = create_object_instance-IsConsistent f64 i e h
  step-IsConsistent (updates id properties) e h =
      update_object_properties-IsConsistent f64 id properties e h
  step-IsConsistent (deletes id) e h = delete_object_instance-IsConsistent f64 id e h
  step-IsConsistent (links l) e h = create_link-IsConsistent f64 l e h
  step-IsConsistent (unlinks l) e h = delete_link-IsConsistent f64 l e h

  -- Every call keeps the graph consistent, so any sequence of calls on a consistent engine leaves
  -- a consistent one: each index holds the links that exist and no other, both ends of a link
  -- exist and are of the types that its link type declares, and every instance stands under its
  -- own identifier and fits the schema of its type.
  pub run-IsConsistent :
      (cs : List Call) (e : OntologyEngine f64) → IsConsistent f64 e → IsConsistent f64 (run cs e)
  unfolding run
  run-IsConsistent [] e h = h
  run-IsConsistent (c ∷ cs) e h = run-IsConsistent cs (step c e) (step-IsConsistent c e h)
