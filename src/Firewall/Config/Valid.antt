-- ===== src/Firewall/Config/Valid.antt =====
-- What `Config::validate` of components/firewall-perimeter/src/config.rs accepts.
use active_spectral_defense.Base.{
  ◌≤◌, ◌≡◌, ◌↔◌, refl, true, false, String, List, [], ◌∷◌, All, arith,
}
use active_spectral_defense.Firewall.Config.{
  Rule, Alias, Config, NetworkMatch, cidr, alias, ok, contains_name, check_ports, check_duplicates,
  check_reference, check_references, alias_names, validate,
}

abbrev pub HasPorts : {IpNet : Type 0} → Rule IpNet → Type 0
HasPorts r = (r.src_port.lo ≤ r.src_port.hi) × (r.dst_port.lo ≤ r.dst_port.hi)

-- no name stands in the list twice, nor among those already seen
abbrev pub Fresh : {IpNet : Type 0} → List String → List (Alias IpNet) → Type 0
Fresh seen [] = Unit
Fresh seen (a ∷ as') = (contains_name seen a.name ≡ false) × Fresh (a.name ∷ seen) as'

abbrev pub Refers : {IpNet : Type 0} → List String → NetworkMatch IpNet → Type 0
Refers names (cidr net) = Unit
Refers names (alias n) = contains_name names n ≡ true

abbrev pub HasReferences : {IpNet : Type 0} → List String → Rule IpNet → Type 0
HasReferences names r = Refers names r.src × Refers names r.dst

pub record IsValid {IpNet : Type 0} (cfg : Config IpNet) : Type 0 where
  pub ports : All HasPorts cfg.rules
  pub distinct : Fresh [] cfg.aliases
  pub references : All (HasReferences (alias_names cfg.aliases)) cfg.rules

module _ {IpNet : Type 0} where
  check_ports_iff : (rs : List (Rule IpNet)) → (check_ports rs ≡ ok) ↔ All HasPorts rs
  unfolding check_ports
  check_ports_iff [] = (λ _. tt, λ _. refl)
  check_ports_iff (r ∷ rs) =
      let ih = check_ports_iff rs in (λ h. ground (arith, ih.0), λ h. ground (arith, ih.1 h.1))

  check_duplicates_iff :
      (seen : List String) (as' : List (Alias IpNet))
      → (check_duplicates seen as' ≡ ok) ↔ Fresh seen as'
  unfolding check_duplicates
  check_duplicates_iff seen [] = (λ _. tt, λ _. refl)
  check_duplicates_iff seen (a ∷ as') =
      let ih = check_duplicates_iff (a.name ∷ seen) as' in
      (λ h. ground (arith, ih.0), λ h. ground (arith, ih.1 h.1))

  check_reference_iff :
      (names : List String) (rule : String) (m : NetworkMatch IpNet)
      → (check_reference names rule m ≡ ok) ↔ Refers names m
  unfolding check_reference
  check_reference_iff names rule (cidr net) = (λ _. tt, λ _. refl)
  check_reference_iff names rule (alias n) = (λ h. ground arith, λ h. ground arith)

  check_references_iff :
      (names : List String) (rs : List (Rule IpNet))
      → (check_references names rs ≡ ok) ↔ All (HasReferences names) rs
  unfolding check_references
  check_references_iff names [] = (λ _. tt, λ _. refl)
  check_references_iff names (r ∷ rs) =
      let ih = check_references_iff names rs in
      let s = check_reference_iff names r.name r.src in
      let d = check_reference_iff names r.name r.dst in
      (λ h. ground (arith, ih.0, s.0, d.0), λ h. ground (arith, ih.1 h.1, s.1 h.0.0, d.1 h.0.1))

  -- Validation accepts exactly the configurations whose port ranges are in order, whose alias names
  -- are distinct, and whose rules refer to defined aliases only.
  pub validate_iff : (cfg : Config IpNet) → (validate cfg ≡ ok) ↔ IsValid cfg
  unfolding validate
  validate_iff cfg =
      let p = check_ports_iff cfg.rules in
      let d = check_duplicates_iff [] cfg.aliases in
      let r = check_references_iff (alias_names cfg.aliases) cfg.rules in
      (
        λ h. ground (arith, p.0, d.0, r.0),
        λ h. ground (arith, p.1 h.ports, d.1 h.distinct, r.1 h.references),
      )
