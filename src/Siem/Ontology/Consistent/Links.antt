-- ===== src/Siem/Ontology/Consistent/Links.antt =====
-- The indexes under the updates of the links in
-- components/active-siem/crates/ontology-engine/src/engine.rs.
use active_spectral_defense.Base.{
  ◌≡◌, refl, Bool, String, List, [], ◌∷◌, ◌||◌, ◌&&◌, not, arith, String-discrete, Bool-cases, inl,
  inr, ◌∙◌, any,
}
use active_spectral_defense.Float.{Float}
use active_spectral_defense.Map.{lookup, contains_key, matches}
use active_spectral_defense.Map.Laws.{
  insert-IsMap, remove-IsMap, contains_key-insert, contains_key-remove,
}
use active_spectral_defense.Siem.Ontology.{LinkInstance, LinkInstance-discrete}
use active_spectral_defense.Siem.Ontology.Store.{
  source_key, target_key, Set, elements, IndexKey-discrete, Store, insert_link, remove_link,
  remove_links, links_touching, touches, remove_links_touching,
}
use active_spectral_defense.Siem.Ontology.Indexes.{
  holds-add_to, add_to-IsIndex, holds-take_from, take_from-IsIndex,
}
use active_spectral_defense.Siem.Ontology.Consistent.{IsIndexed, has}

abbrev same_link : LinkInstance → LinkInstance → Bool
same_link l m = matches LinkInstance-discrete l m

link_path : (l m : LinkInstance) → source_key l ≡ source_key m → l.target_id ≡ m.target_id → l ≡ m
link_path l m e f = ground (arith, e, f)

-- a link is its source key and its target
by_source :
    (l m : LinkInstance)
    → (matches IndexKey-discrete (source_key l) (source_key m)
        && matches String-discrete l.target_id m.target_id)
      ≡ same_link l m
by_source l m = ground arith

by_target :
    (l m : LinkInstance)
    → (matches IndexKey-discrete (target_key l) (target_key m)
        && matches String-discrete l.source_id m.source_id)
      ≡ same_link l m
by_target l m = ground arith

module _ (f64 : Float) where
  pub insert_link-has :
      (l m : LinkInstance) (s : Store f64)
      → has m (insert_link f64 l s).1.links ≡ (same_link l m || has m s.links)
  unfolding insert_link
  insert_link-has l m s = elim (Bool-cases (has l s.links)) [
    | inl e ↦ rw (e, insert_link) (ground (arith, e))
    | inr e ↦ rw (e, insert_link) (contains_key-insert LinkInstance-discrete l m tt s.links)
  ]

  pub insert_link-IsIndexed :
      (l : LinkInstance) (s : Store f64) → IsIndexed f64 s → IsIndexed f64 (insert_link f64 l s).1
  unfolding insert_link
  insert_link-IsIndexed l s h = elim (Bool-cases (has l s.links)) [
    | inl e ↦ rw (e, insert_link) h
    | inr e ↦
        rw (e, insert_link)
          (record {
            links_map = insert-IsMap LinkInstance-discrete l tt s.links h.links_map;
            forward = add_to-IsIndex (source_key l) l.target_id s.forward_index h.forward;
            backward = add_to-IsIndex (target_key l) l.source_id s.backward_index h.backward;
            forward_exact = λ m.
                rw
                  (
                    holds-add_to (source_key l) (source_key m) l.target_id m.target_id
                        s.forward_index,
                    by_source l m,
                    h.forward_exact m,
                    contains_key-insert LinkInstance-discrete l m tt s.links,
                  )
                  refl;
            backward_exact = λ m.
                rw
                  (
                    holds-add_to (target_key l) (target_key m) l.source_id m.source_id
                        s.backward_index,
                    by_target l m,
                    h.backward_exact m,
                    contains_key-insert LinkInstance-discrete l m tt s.links,
                  )
                  refl;
          })
  ]

  pub remove_link-has :
      (l m : LinkInstance) (s : Store f64)
      → IsIndexed f64 s
      → has m (remove_link f64 l s).1.links ≡ (not (same_link l m) && has m s.links)
  unfolding remove_link
  remove_link-has l m s h = elim (Bool-cases (has l s.links)) [
    | inl e ↦
        rw (e, remove_link) (contains_key-remove LinkInstance-discrete l m s.links h.links_map)
    | inr e ↦ rw (e, remove_link) (ground (arith, e))
  ]

  pub remove_link-IsIndexed :
      (l : LinkInstance) (s : Store f64) → IsIndexed f64 s → IsIndexed f64 (remove_link f64 l s).1
  unfolding remove_link
  remove_link-IsIndexed l s h = elim (Bool-cases (has l s.links)) [
    | inr e ↦ rw (e, remove_link) h
    | inl e ↦
        rw (e, remove_link)
          (record {
            links_map = remove-IsMap LinkInstance-discrete l s.links h.links_map;
            forward = take_from-IsIndex (source_key l) l.target_id s.forward_index h.forward;
            backward = take_from-IsIndex (target_key l) l.source_id s.backward_index h.backward;
            forward_exact = λ m.
                rw
                  (
                    holds-take_from (source_key l) (source_key m) l.target_id m.target_id
                        s.forward_index h.forward,
                    by_source l m,
                    h.forward_exact m,
                    contains_key-remove LinkInstance-discrete l m s.links h.links_map,
                  )
                  refl;
            backward_exact = λ m.
                rw
                  (
                    holds-take_from (target_key l) (target_key m) l.source_id m.source_id
                        s.backward_index h.backward,
                    by_target l m,
                    h.backward_exact m,
                    contains_key-remove LinkInstance-discrete l m s.links h.links_map,
                  )
                  refl;
          })
  ]

  pub remove_links-IsIndexed :
      (ls : List LinkInstance) (s : Store f64)
      → IsIndexed f64 s
      → IsIndexed f64 (remove_links f64 ls s)
  unfolding remove_links
  remove_links-IsIndexed [] s h = h
  remove_links-IsIndexed (l ∷ ls) s h = remove_links-IsIndexed ls _ (remove_link-IsIndexed l s h)

  abbrev listed : LinkInstance → List LinkInstance → Bool
  listed m ls = any (λ l. same_link l m) ls

  pub remove_links-has :
      (ls : List LinkInstance) (m : LinkInstance) (s : Store f64)
      → IsIndexed f64 s
      → has m (remove_links f64 ls s).links ≡ (not (listed m ls) && has m s.links)
  unfolding remove_links
  remove_links-has [] m s h = refl
  remove_links-has (l ∷ ls) m s h =
      rw
        (
          remove_links-has ls m (remove_link f64 l s).1 (remove_link-IsIndexed l s h),
          remove_link-has l m s h,
        )
        (ground arith)

  elements-listed :
      (m : LinkInstance) (links : Set LinkInstance) → listed m (elements links) ≡ has m links
  unfolding elements contains_key lookup
  elements-listed m [] = refl
  elements-listed m ((l, u) ∷ links) = ground (arith, elements-listed m links)

  links_touching-listed :
      (id : String) (m : LinkInstance) (ls : List LinkInstance)
      → listed m (links_touching f64 id ls) ≡ (touches f64 id m && listed m ls)
  unfolding links_touching touches
  links_touching-listed id m [] = ground arith
  links_touching-listed id m (l ∷ ls) = ground (arith, links_touching-listed id m ls)

  pub remove_links_touching-has :
      (id : String) (m : LinkInstance) (s : Store f64)
      → IsIndexed f64 s
      → has m (remove_links_touching f64 id s).1.links ≡ (not (touches f64 id m) && has m s.links)
  unfolding remove_links_touching
  remove_links_touching-has id m s h =
      rw
        (
          remove_links-has (links_touching f64 id (elements s.links)) m s h,
          links_touching-listed id m (elements s.links),
          elements-listed m s.links,
        )
        (ground arith)

  pub remove_link-instances :
      (l : LinkInstance) (s : Store f64) → (remove_link f64 l s).1.instances ≡ s.instances
  unfolding remove_link
  remove_link-instances l s = ground arith

  pub remove_links-instances :
      (ls : List LinkInstance) (s : Store f64) → (remove_links f64 ls s).instances ≡ s.instances
  unfolding remove_links
  remove_links-instances [] s = refl
  remove_links-instances (l ∷ ls) s =
      remove_links-instances ls (remove_link f64 l s).1 ∙ remove_link-instances l s

  pub touching-IsIndexed :
      (id : String) (s : Store f64)
      → IsIndexed f64 s
      → IsIndexed f64 (remove_links_touching f64 id s).1
  unfolding remove_links_touching
  touching-IsIndexed id s h = remove_links-IsIndexed (links_touching f64 id (elements s.links)) s h

  pub touching-instances :
      (id : String) (s : Store f64) → (remove_links_touching f64 id s).1.instances ≡ s.instances
  unfolding remove_links_touching
  touching-instances id s = remove_links-instances (links_touching f64 id (elements s.links)) s

  pub insert_link-instances :
      (l : LinkInstance) (s : Store f64) → (insert_link f64 l s).1.instances ≡ s.instances
  unfolding insert_link
  insert_link-instances l s = ground arith
