-- ===== src/Siem/Ontology.antt =====
-- components/active-siem/crates/ontology-engine/src/{types,error}.rs: schemas, instances, links and
-- errors. The floating-point type `f64` is a parameter.
pub mod Engine
pub mod Store
pub mod Indexes
pub mod Consistent
pub mod Traversal
use active_spectral_defense.Base.{
  ℕ, ◌≡◌, refl, ◌⊎◌, inl, inr, Bool, true, false, String, Option, none, some, List, [], ◌∷◌, ◌&&◌,
  not, ite, String-discrete, ℤ, ℤ-discrete, if◌then◌else◌,
}
use active_spectral_defense.Float.{Float}
use active_spectral_defense.Map.{Map, contains_key, insert}

-- `Result`
pub data Result (E A : Type 0) : Type 0 where
  ok : A → Result E A
  err : E → Result E A

pub Result-cases :
    {E A : Type 0} (r : Result E A) → ((a : A) × (r ≡ ok a)) ⊎ ((e : E) × (r ≡ err e))
Result-cases (ok a) = inl (a, refl)
Result-cases (err e) = inr (e, refl)

-- `==` on texts
abbrev pub same : String → String → Bool
same s t = ite (String-discrete s t) true false

-- `.is_empty()` of a text
unfoldable pub is_empty : String → Bool
is_empty s = same s ""

pub data PropertyType : Type 0 where
  string integer float boolean : PropertyType

unfoldable pub PropertyType-discrete : Discrete PropertyType
PropertyType-discrete = hlevel

unfoldable pub type_text : PropertyType → String
type_text string = "String"
type_text integer = "Integer"
type_text float = "Float"
type_text boolean = "Boolean"

pub record ObjectType : Type 0 where
  pub name : String
  pub primary_key : String
  pub property_schemas : Map String PropertyType

pub record ObjectTypeBuilder : Type 0 where
  pub name : String
  pub primary_key : Option String
  pub property_schemas : Map String PropertyType

unfoldable pub builder : String → ObjectTypeBuilder
builder name = record { name = name; primary_key = none; property_schemas = [] }

unfoldable pub primary_key : String → ObjectTypeBuilder → ObjectTypeBuilder
primary_key key b = record b { primary_key = some key }

unfoldable pub property : String → PropertyType → ObjectTypeBuilder → ObjectTypeBuilder
property name ty b = record b {
  property_schemas = insert String-discrete name ty b.property_schemas;
}

pub data BuildError : Type 0 where
  primary_key_not_set primary_key_empty : BuildError
  primary_key_not_declared : String → BuildError

unfoldable pub build : ObjectTypeBuilder → Result BuildError ObjectType
unfolding is_empty
build b = elim b.primary_key [
  | none ↦ err primary_key_not_set
  | some key ↦
      if is_empty key
      then err primary_key_empty
      else if not (contains_key String-discrete key b.property_schemas)
      then err (primary_key_not_declared key)
      else ok (record { name = b.name; primary_key = key; property_schemas = b.property_schemas })
]

pub record LinkType : Type 0 where
  pub name : String
  pub source_type : String
  pub target_type : String

pub record LinkInstance : Type 0 where
  pub link_type : String
  pub source_id : String
  pub target_id : String

unfoldable pub LinkInstance-discrete : Discrete LinkInstance
LinkInstance-discrete = hlevel String-discrete

abbrev pub link : String → String → String → LinkInstance
link link_type source_id target_id = record {
  link_type = link_type;
  source_id = source_id;
  target_id = target_id;
}

pub data Direction : Type 0 where
  outgoing incoming : Direction

pub data ValidationIssue : Type 0 where
  missing_property : String → ValidationIssue
  -- the property, the expected type and the found one
  type_mismatch : String → String → String → ValidationIssue
  unknown_property : String → ValidationIssue

pub data OntologyError : Type 0 where
  object_type_not_registered link_type_not_registered : String → OntologyError
  object_type_already_registered link_type_already_registered : String → OntologyError
  empty_primary_key duplicate_instance instance_not_found : String → OntologyError
  -- the link type, the expected type, the actual one and the instance
  link_source_type_mismatch link_target_type_mismatch :
      String → String → String → String → OntologyError
  -- the link type, the source and the target
  duplicate_link : String → String → String → OntologyError
  -- the instance, the number of issues and the issues
  schema_validation : String → ℕ → List ValidationIssue → OntologyError
  object_type_in_use : String → OntologyError
  -- the instance and the property
  immutable_primary_key : String → String → OntologyError

module _ (f64 : Float) where
  pub data PropertyValue : Type 0 where
    string_value : String → PropertyValue
    integer_value : ℤ → PropertyValue
    float_value : f64.F → PropertyValue
    boolean_value : Bool → PropertyValue

  unfoldable pub type_of : PropertyValue → PropertyType
  type_of (string_value _) = string
  type_of (integer_value _) = integer
  type_of (float_value _) = float
  type_of (boolean_value _) = boolean

  same_bool : Bool → Bool → Bool
  same_bool true b = b
  same_bool false b = not b

  -- the derived `PartialEq`
  unfoldable pub value_eq : PropertyValue → PropertyValue → Bool
  unfolding same_bool
  value_eq (string_value s) (string_value t) = same s t
  value_eq (integer_value i) (integer_value j) = ite (ℤ-discrete i j) true false
  value_eq (float_value x) (float_value y) = f64.eq x y
  value_eq (boolean_value a) (boolean_value b) = same_bool a b
  value_eq _ _ = false

  pub record ObjectInstance : Type 0 where
    pub id : String
    pub object_type : String
    pub properties : Map String PropertyValue
