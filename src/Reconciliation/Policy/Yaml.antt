-- ===== src/Reconciliation/Policy/Yaml.antt =====
-- What `yaml.safe_load` returns, and the checks of reconciliation/policy.py on it. The text of a
-- value that is not a text, `str(value)`, is a parameter.
use veri_close.Prelude.{
  String, Bool, true, false, not, ◌&&◌, List, [], ◌∷◌, map, ℤ, Result, ok, err, value_error,
  type_error, ◌>>=◌, ◌>>◌, raise_if, all, contains, is_blank, if◌then◌else◌,
}
use veri_close.Reconciliation.Policy.{Dict}

-- A scalar of another type, such as a float or a date, is kept as its text.
mutual
  pub data Yaml : Type 0 where
    null : Yaml
    bool : Bool → Yaml
    int : ℤ → Yaml
    text : String → Yaml
    scalar : String → Yaml
    list : Items → Yaml
    dict : Fields → Yaml

  pub data Items : Type 0 where
    no_items : Items
    item : Yaml → Items → Items

  -- The keys differ. A key that is not a text is kept as its text.
  pub data Fields : Type 0 where
    no_fields : Fields
    field : String → Yaml → Fields → Fields
    odd_field : String → Yaml → Fields → Fields

unfoldable pub items : Items → List Yaml
items Items.no_items = []
items (Items.item value rest) = value ∷ items rest

-- any(not isinstance(key, str) for key in value)
unfoldable pub has_odd_key : Fields → Bool
has_odd_key Fields.no_fields = false
has_odd_key (Fields.field key value rest) = has_odd_key rest
has_odd_key (Fields.odd_field key value rest) = true

-- the items of a mapping whose keys are texts
unfoldable pub pairs : Fields → Dict Yaml
pairs Fields.no_fields = []
pairs (Fields.field key value rest) = (key, value) ∷ pairs rest
pairs (Fields.odd_field key value rest) = pairs rest

-- _mapping
unfoldable pub mapping : Yaml → String → Result (Dict Yaml)
unfolding has_odd_key pairs
mapping (Yaml.dict fields) name =
    if has_odd_key fields
    then err (type_error "must be a string-keyed mapping")
    else ok (pairs fields)
mapping _ name = err (type_error "must be a string-keyed mapping")

abbrev pub is_int : Yaml → Bool
is_int (Yaml.int z) = true
is_int _ = false

-- the integers among the values
unfoldable pub int_values : Dict Yaml → Dict ℤ
int_values [] = []
int_values ((key, value) ∷ rest) =
    let more = int_values rest in elim value [ Yaml.int z ↦ (key, z) ∷ more | _ ↦ more ]

abbrev pub key_of {ℓ} : {V : Type ℓ} → String × V → String
key_of (key, value) = key

abbrev pub value_of {ℓ} : {V : Type ℓ} → String × V → V
value_of (key, value) = value

-- _int_mapping
unfoldable pub int_mapping : Yaml → String → Result (Dict ℤ)
unfolding mapping all
int_mapping value name = do
  result ← mapping value name
  raise_if (not (all (λ (pair : String × Yaml). is_int (value_of pair)) result))
      (type_error "values must be integers")
  ok (int_values result)

-- _text
unfoldable pub text_of : Yaml → String → Result String
unfolding is_blank
text_of (Yaml.text s) name = if is_blank s then err (value_error "must be non-blank text") else ok s
text_of _ name = err (value_error "must be non-blank text")

abbrev pub keys {ℓ} : {V : Type ℓ} → List (String × V) → List String
keys d = map key_of d

-- the two sets of texts are the same
unfoldable pub same_set : List String → List String → Bool
unfolding all contains
same_set a b = all (λ (x : String). contains x b) a && all (λ (x : String). contains x a) b

-- _require_keys
unfoldable pub require_keys : Dict Yaml → List String → Result (Unit {0})
unfolding same_set
require_keys payload expected =
    raise_if (not (same_set (keys payload) expected)) (value_error "keys invalid")

-- str(value)
unfoldable pub str_of : (Yaml → String) → Yaml → String
str_of show (Yaml.text s) = s
str_of show value = show value
