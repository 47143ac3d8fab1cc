-- ===== src/Siem/Ontology/Indexes.antt =====
-- The adjacency indexes of components/active-siem/crates/ontology-engine/src/engine.rs: what an
-- index holds after its two updates.
use active_spectral_defense.Base.{
  ◌≡◌, Bool, String, ◌||◌, ◌&&◌, not, arith, String-discrete, Option-cases, inl, inr,
}
use active_spectral_defense.Map.{lookup, contains_key, insert, remove, matches, IsMap}
use active_spectral_defense.Map.Laws.{
  lookup-insert, insert-IsMap, remove-IsMap, contains_key-insert, contains_key-remove,
}
use active_spectral_defense.Siem.Ontology.Store.{
  Set, IndexKey, IndexKey-discrete, Index, or_default, add_to, take_from,
}

abbrev pub members : IndexKey → Index → Set String
members key index = or_default (lookup IndexKey-discrete key index)

-- whether the set of the key has the node
unfoldable pub holds : IndexKey → String → Index → Bool
holds key id index = contains_key String-discrete id (members key index)

-- one entry for a key, in the index and in each of its sets
pub record IsIndex (index : Index) : Type 0 where
  pub is_map : IsMap IndexKey-discrete index
  pub sets : (key : IndexKey) → IsMap String-discrete (members key index)

pub holds-add_to :
    (key k : IndexKey) (id j : String) (index : Index)
    → holds k j (add_to key id index)
      ≡ ((matches IndexKey-discrete key k && matches String-discrete id j) || holds k j index)
unfolding holds add_to
holds-add_to key k id j index = ground (
  arith,
  lookup-insert IndexKey-discrete key k (insert String-discrete id tt (members key index)) index,
  contains_key-insert String-discrete id j tt (members key index),
)

pub add_to-IsIndex :
    (key : IndexKey) (id : String) (index : Index) → IsIndex index → IsIndex (add_to key id index)
unfolding add_to
add_to-IsIndex key id index h =
    let set = insert String-discrete id tt (members key index) in
    record {
      is_map = insert-IsMap IndexKey-discrete key set index h.is_map;
      sets = λ k. ground (
        arith,
        lookup-insert IndexKey-discrete key k set index,
        h.sets k,
        insert-IsMap String-discrete id tt (members key index) (h.sets key),
      );
    }

pub holds-take_from :
    (key k : IndexKey) (id j : String) (index : Index)
    → IsIndex index
    → holds k j (take_from key id index)
      ≡ (not (matches IndexKey-discrete key k && matches String-discrete id j) && holds k j index)
unfolding holds take_from contains_key
holds-take_from key k id j index h = elim (Option-cases (lookup IndexKey-discrete key index)) [
  | inl miss ↦ rw (miss, take_from) (ground (arith, miss))
  | inr (set, hit) ↦
      rw (hit, take_from)
        (ground (
          arith,
          hit,
          lookup-insert IndexKey-discrete key k (remove String-discrete id set) index,
          contains_key-remove String-discrete id j (members key index) (h.sets key),
        ))
]

pub take_from-IsIndex :
    (key : IndexKey) (id : String) (index : Index)
    → IsIndex index
    → IsIndex (take_from key id index)
unfolding take_from
take_from-IsIndex key id index h = elim (Option-cases (lookup IndexKey-discrete key index)) [
  | inl miss ↦ rw (miss, take_from) h
  | inr (set, hit) ↦
      let own : IsMap String-discrete set = rw hit at (h.sets key) in
      let set' = remove String-discrete id set in
      rw (hit, take_from)
        (record {
          is_map = insert-IsMap IndexKey-discrete key set' index h.is_map;
          sets = λ k. ground (
            arith,
            lookup-insert IndexKey-discrete key k set' index,
            h.sets k,
            remove-IsMap String-discrete id set own,
          );
        })
]
