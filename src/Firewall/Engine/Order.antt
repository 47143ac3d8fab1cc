-- ===== src/Firewall/Engine/Order.antt =====
-- The candidates of a packet (components/firewall-perimeter/src/engine.rs, `Engine::new` and the
-- first half of `evaluate`) are the indexes of the rules that it could match, in the order of the
-- rules.
use mathlib.Core.List.{append-nil, append_assoc}
use active_spectral_defense.Base.{
  ℕ, suc, ◌<◌, ◌≡◌, refl, ap, ◌∙◌, sym, Bool, true, false, ◌||◌, ◌&&◌, Option, none, some, List, [],
  ◌∷◌, ◌++◌, All, ite, arith, Bool-cases, inl, inr, if_pos, if_neg,
}
use active_spectral_defense.Map.{lookup}
use active_spectral_defense.Map.Laws.{lookup-insert}
use active_spectral_defense.Firewall.Config.{Rule}
use active_spectral_defense.Firewall.Engine.{
  PortKey, PortKey-discrete, Index, or_default, index_rule, rule_key, index_rules, insert_sorted,
  sort_unstable,
}

abbrev pub one_if : Bool → ℕ → List ℕ
one_if true i = i ∷ []
one_if false i = []

abbrev pub is_key : PortKey → Option PortKey → Bool
is_key key none = false
is_key key (some k) = ite (PortKey-discrete k key) true false

abbrev pub is_none : Option PortKey → Bool
is_none none = true
is_none (some _) = false

abbrev pub bucket_of : PortKey → Index → List ℕ
bucket_of key ix = or_default (lookup PortKey-discrete key ix.exact_port_index)

bucket-index_rule :
    (key : PortKey) (k : Option PortKey) (i : ℕ) (ix : Index)
    → bucket_of key (index_rule k i ix) ≡ bucket_of key ix ++ one_if (is_key key k) i
unfolding index_rule
bucket-index_rule key none i ix = sym (append-nil _)
bucket-index_rule key (some k) i ix =
    rw (lookup-insert PortKey-discrete k key (bucket_of k ix ++ i ∷ []) ix.exact_port_index)
      (elim (PortKey-discrete k key) [
        | yes same ↦ rw (if_pos _ same, if_pos _ same, same) refl
        | no other ↦ rw (if_neg _ other, if_neg _ other) (sym (append-nil _))
      ])

wildcard-index_rule :
    (k : Option PortKey) (i : ℕ) (ix : Index)
    → (index_rule k i ix).wildcard_rules ≡ ix.wildcard_rules ++ one_if (is_none k) i
unfolding index_rule
wildcard-index_rule none i ix = refl
wildcard-index_rule (some k) i ix = sym (append-nil _)

module _ {IpNet : Type 0} where
  -- the indexes, from `i` on, of the rules that pass a test
  abbrev pub indices : (Rule IpNet → Bool) → ℕ → List (Rule IpNet) → List ℕ
  indices p i [] = []
  indices p i (r ∷ rs) = one_if (p r) i ++ indices p (suc i) rs

  abbrev pub has_key : PortKey → Rule IpNet → Bool
  has_key key r = is_key key (rule_key r)

  abbrev pub is_wildcard : Rule IpNet → Bool
  is_wildcard r = is_none (rule_key r)

  bucket-index_rules :
      (key : PortKey) (i : ℕ) (rs : List (Rule IpNet)) (ix : Index)
      → bucket_of key (index_rules i rs ix) ≡ bucket_of key ix ++ indices (has_key key) i rs
  unfolding index_rules
  bucket-index_rules key i [] ix = sym (append-nil _)
  bucket-index_rules key i (r ∷ rs) ix =
      bucket-index_rules key (suc i) rs (index_rule (rule_key r) i ix)
      ∙ rw (bucket-index_rule key (rule_key r) i ix) (
          append_assoc (bucket_of key ix) (one_if (is_key key (rule_key r)) i)
            (indices (has_key key) (suc i) rs))

  wildcard-index_rules :
      (i : ℕ) (rs : List (Rule IpNet)) (ix : Index)
      → (index_rules i rs ix).wildcard_rules ≡ ix.wildcard_rules ++ indices is_wildcard i rs
  unfolding index_rules
  wildcard-index_rules i [] ix = sym (append-nil _)
  wildcard-index_rules i (r ∷ rs) ix =
      wildcard-index_rules (suc i) rs (index_rule (rule_key r) i ix)
      ∙ rw (wildcard-index_rule (rule_key r) i ix) (
          append_assoc ix.wildcard_rules (one_if (is_none (rule_key r)) i)
            (indices is_wildcard (suc i) rs))

-- inserting a list into a sorted one
insert_all : List ℕ → List ℕ → List ℕ
insert_all [] ys = ys
insert_all (x ∷ xs) ys = insert_sorted x (insert_all xs ys)

sort-append : (xs ys : List ℕ) → sort_unstable (xs ++ ys) ≡ insert_all xs (sort_unstable ys)
unfolding sort_unstable insert_all
sort-append [] ys = refl
sort-append (x ∷ xs) ys = ap (insert_sorted x) (sort-append xs ys)

abbrev Above : ℕ → List ℕ → Type 0
Above i = All (λ x. i < x)

insert_sorted-Above : (i : ℕ) (ys : List ℕ) → Above i ys → insert_sorted i ys ≡ i ∷ ys
unfolding insert_sorted
insert_sorted-Above i [] h = refl
insert_sorted-Above i (y ∷ ys) h = ground (arith, h.0)

insert_all-Above :
    (i : ℕ) (xs ys : List ℕ) → Above i xs → insert_all xs (i ∷ ys) ≡ i ∷ insert_all xs ys
unfolding insert_all insert_sorted
insert_all-Above i [] ys h = refl
insert_all-Above i (x ∷ xs) ys h = ground (arith, h.0, insert_all-Above i xs ys h.1)

module _ {IpNet : Type 0} where
  indices-Above :
      (p : Rule IpNet → Bool) (i j : ℕ) (rs : List (Rule IpNet)) → i < j → Above i (indices p j rs)
  indices-Above p i j [] h = tt
  indices-Above p i j (r ∷ rs) h = elim (Bool-cases (p r)) [
    | inl e ↦ rw e (h, indices-Above p i (suc j) rs (omega arith))
    | inr e ↦ rw e (indices-Above p i (suc j) rs (omega arith))
  ]

  sort-indices :
      (p : Rule IpNet → Bool) (i : ℕ) (rs : List (Rule IpNet))
      → sort_unstable (indices p i rs) ≡ indices p i rs
  unfolding sort_unstable
  sort-indices p i [] = refl
  sort-indices p i (r ∷ rs) = elim (Bool-cases (p r)) [
    | inl e ↦
        rw (e, sort-indices p (suc i) rs)
          (insert_sorted-Above i _ (indices-Above p i (suc i) rs (omega arith)))
    | inr e ↦ rw e (sort-indices p (suc i) rs)
  ]

  -- the two tests never both hold
  abbrev Disjoint : (p q : Rule IpNet → Bool) → Type 0
  Disjoint p q = (r : Rule IpNet) → (p r && q r) ≡ false

  insert_all-indices :
      (p q : Rule IpNet → Bool) (i : ℕ) (rs : List (Rule IpNet))
      → Disjoint p q
      → insert_all (indices p i rs) (indices q i rs) ≡ indices (λ r. p r || q r) i rs
  unfolding insert_all
  insert_all-indices p q i [] d = refl
  insert_all-indices p q i (r ∷ rs) d =
      let ih = insert_all-indices p q (suc i) rs d in
      elim (Bool-cases (p r)) [
        | inl e ↦
            let e' : q r ≡ false = ground (arith, d r) in
            rw (e, e', ih)
              (insert_sorted-Above i _ (indices-Above (λ x. p x || q x) i (suc i) rs (omega arith)))
        | inr e ↦ elim (Bool-cases (q r)) [
          | inl e' ↦
              rw (e, e')
                (insert_all-Above i (indices p (suc i) rs) (indices q (suc i) rs)
                    (indices-Above p i (suc i) rs (omega arith))
                  ∙ ap (◌∷◌ i) ih)
          | inr e' ↦ rw (e, e') ih
        ]
      ]

  -- a rule that the index offers for the key
  abbrev pub is_candidate : PortKey → Rule IpNet → Bool
  is_candidate key r = has_key key r || is_wildcard r

  key-wildcard-Disjoint : (key : PortKey) → Disjoint (has_key key) is_wildcard
  key-wildcard-Disjoint key r = go (rule_key r)
    where
      go : (k : Option PortKey) → (is_key key k && is_none k) ≡ false
      go none = refl
      go (some k) = ground arith

  pub candidates-indices :
      (key : PortKey) (rs : List (Rule IpNet))
      → let ix = index_rules 0 rs (record { exact_port_index = []; wildcard_rules = [] }) in
        sort_unstable (bucket_of key ix ++ ix.wildcard_rules) ≡ indices (is_candidate key) 0 rs
  unfolding lookup
  candidates-indices key rs =
      let empty : Index = record { exact_port_index = []; wildcard_rules = [] } in
      rw (bucket-index_rules key 0 rs empty, wildcard-index_rules 0 rs empty)
        (sort-append (indices (has_key key) 0 rs) (indices is_wildcard 0 rs)
          ∙ rw (sort-indices is_wildcard 0 rs)
              (insert_all-indices (has_key key) is_wildcard 0 rs (key-wildcard-Disjoint key)))
