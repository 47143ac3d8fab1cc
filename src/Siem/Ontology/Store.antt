-- ===== src/Siem/Ontology/Store.antt =====
-- components/active-siem/crates/ontology-engine/src/engine.rs, the store: the links and their two
-- indexes. A `HashSet<K>` is a `HashMap<K, ()>`.
use active_spectral_defense.Base.{
  Bool, true, false, String, none, some, List, [], ◌∷◌, ◌||◌, if◌then◌else◌, String-discrete,
  Option,
}
use active_spectral_defense.Float.{Float}
use active_spectral_defense.Map.{Map, lookup, contains_key, insert, remove}
use active_spectral_defense.Siem.Ontology.{
  ObjectInstance, LinkInstance, LinkInstance-discrete, same,
}

abbrev pub Set : Type 0 → Type 0
Set K = Map K Unit

-- `.iter()` of a set
unfoldable pub elements : {K : Type 0} → Set K → List K
elements [] = []
elements ((k, _) ∷ m) = k ∷ elements m

-- a node and a link type
abbrev pub IndexKey : Type 0
IndexKey = String × String

unfoldable pub IndexKey-discrete : Discrete IndexKey
IndexKey-discrete = hlevel String-discrete

abbrev pub Index : Type 0
Index = Map IndexKey (Set String)

abbrev pub or_default : Option (Set String) → Set String
or_default none = []
or_default (some set) = set

-- `index.entry(key).or_default().insert(id)`
unfoldable pub add_to : IndexKey → String → Index → Index
add_to key id index =
    insert IndexKey-discrete key
      (insert String-discrete id tt (or_default (lookup IndexKey-discrete key index))) index

-- `if let Some(set) = index.get_mut(&key) { set.remove(&id); }`
unfoldable pub take_from : IndexKey → String → Index → Index
take_from key id index = elim (lookup IndexKey-discrete key index) [
  | none ↦ index
  | some set ↦ insert IndexKey-discrete key (remove String-discrete id set) index
]

abbrev pub source_key : LinkInstance → IndexKey
source_key l = (l.source_id, l.link_type)

abbrev pub target_key : LinkInstance → IndexKey
target_key l = (l.target_id, l.link_type)

module _ (f64 : Float) where
  pub record Store : Type 0 where
    pub instances : Map String (ObjectInstance f64)
    pub links : Set LinkInstance
    pub forward_index : Index
    pub backward_index : Index

  abbrev pub empty_store : Store
  empty_store = record { instances = []; links = []; forward_index = []; backward_index = [] }

  unfoldable pub insert_link : LinkInstance → Store → Bool × Store
  insert_link l s = if contains_key LinkInstance-discrete l s.links then (false, s) else (
    true,
    record s {
      links = insert LinkInstance-discrete l tt s.links;
      forward_index = add_to (source_key l) l.target_id s.forward_index;
      backward_index = add_to (target_key l) l.source_id s.backward_index;
    },
  )

  unfoldable pub remove_link : LinkInstance → Store → Bool × Store
  remove_link l s =
      if contains_key LinkInstance-discrete l s.links
      then (
        true,
        record s {
          links = remove LinkInstance-discrete l s.links;
          forward_index = take_from (source_key l) l.target_id s.forward_index;
          backward_index = take_from (target_key l) l.source_id s.backward_index;
        },
      )
      else (false, s)

  unfoldable pub touches : String → LinkInstance → Bool
  touches id l = same l.source_id id || same l.target_id id

  -- the loop over `to_remove`
  unfoldable pub remove_links : List LinkInstance → Store → Store
  unfolding remove_link
  remove_links [] s = s
  remove_links (l ∷ ls) s = remove_links ls (remove_link l s).1

  unfoldable pub links_touching : String → List LinkInstance → List LinkInstance
  unfolding touches
  links_touching id [] = []
  links_touching id (l ∷ ls) =
      let rest = links_touching id ls in if touches id l then l ∷ rest else rest

  -- the links removed, and the store without them
  unfoldable pub remove_links_touching : String → Store → List LinkInstance × Store
  unfolding remove_links links_touching elements
  remove_links_touching id s =
      let to_remove = links_touching id (elements s.links) in (to_remove, remove_links to_remove s)
