-- ===== src/Ingestion/Mappings.antt =====
-- core/vericlose/ingestion/mappings.py: mapping profiles, and how they bind to a header. The case
-- folding of a text is an argument.
pub mod Score
use Prim.Native.Nat.{◌/◌}
use veri_close.Prelude.{
  ℕ, zero, suc, ◌+◌, ◌*◌, String, str_append, str_eq, Bool, true, false, not, ◌||◌, Option, none,
  some, List, [], ◌∷◌, map, Result, ok, value_error, ◌>>=◌, ◌>>◌, raise_if, nat_eq, leb, filter,
  first, all, any, length, non_empty, contains, dedup, is_blank, strip_str, if◌then◌else◌,
}
use veri_close.Domain.Enums.{SourceType}
use veri_close.Reconciliation.Policy.{get}

pub data SourceFormat : Type 0 where
  csv xlsx unknown : SourceFormat

-- the keys of SAFE_TRANSFORMS
abbrev pub safe_transforms : List String
safe_transforms =
    "strip" ∷ "upper" ∷ "integer" ∷ "minor_units" ∷ "decimal_minor" ∷ "iso_datetime" ∷ "iso_date"
    ∷ []

pub record MappingProfileRef : Type 0 where
  pub profile_id : String
  pub version : String
  pub source_type : SourceType

unfoldable pub ref_versioned_id : MappingProfileRef → String
ref_versioned_id ref = str_append ref.profile_id (str_append "@" ref.version)

pub record FieldMapping : Type 0 where
  pub canonical_field : String
  pub aliases : List String
  pub required : Bool
  pub transform : String

-- FieldMapping.__post_init__
unfoldable pub field_mapping : FieldMapping → Result FieldMapping
field_mapping f = do
  raise_if (is_blank f.canonical_field) (value_error "canonical_field cannot be blank")
  raise_if (not (non_empty f.aliases) || any is_blank f.aliases)
      (value_error "requires non-blank aliases")
  raise_if (not (nat_eq (length (dedup f.aliases)) (length f.aliases)))
      (value_error "aliases must be unique")
  raise_if (not (contains f.transform safe_transforms)) (value_error "unsafe transform")
  ok f

pub record FileMappingProfile : Type 0 where
  pub ref : MappingProfileRef
  pub supported_formats : List SourceFormat
  pub fields : List FieldMapping
  pub resolved_columns : List (String × String)
  pub is_bound : Bool

abbrev pub is_unknown : SourceFormat → Bool
is_unknown SourceFormat.unknown = true
is_unknown _ = false

abbrev pub field_name : FieldMapping → String
field_name f = f.canonical_field

abbrev pub is_required : FieldMapping → Bool
is_required f = f.required

-- FileMappingProfile.__post_init__
unfoldable pub file_mapping_profile : FileMappingProfile → Result FileMappingProfile
file_mapping_profile p = do
  raise_if (not (non_empty p.fields)) (value_error "profiles require typed field mappings")
  raise_if
      (not (nat_eq (length (dedup (map field_name p.fields))) (length (map field_name p.fields))))
      (value_error "canonical fields must be unique within a profile")
  raise_if (not (any is_required p.fields))
      (value_error "profiles require at least one required field")
  raise_if (not (non_empty p.supported_formats) || any is_unknown p.supported_formats)
      (value_error "mapping profiles require concrete supported formats")
  ok p

-- text.strip().casefold()
abbrev pub folded : (String → String) → String → String
folded casefold text = casefold (strip_str text)

-- normalized.get(key): the last header of a key stands
unfoldable pub header_of : (String → String) → String → List String → Option String
header_of casefold key [] = none
header_of casefold key (h ∷ headers) = elim (header_of casefold key headers) [
  | some later ↦ some later
  | none ↦ if str_eq (folded casefold h) key then some h else none
]

-- the first of the aliases that is a header
unfoldable pub column_of : (String → String) → List String → List String → Option String
column_of casefold headers [] = none
column_of casefold headers (a ∷ aliases) = elim (header_of casefold (folded casefold a) headers) [
  | some h ↦ some h
  | none ↦ column_of casefold headers aliases
]

-- the loop of bind
unfoldable pub resolve_fields :
    (String → String) → List String → List FieldMapping → List (String × String)
resolve_fields casefold headers [] = []
resolve_fields casefold headers (f ∷ fields) = elim (column_of casefold headers f.aliases) [
  | some h ↦ (f.canonical_field, h) ∷ resolve_fields casefold headers fields
  | none ↦ resolve_fields casefold headers fields
]

-- FileMappingProfile.bind
unfoldable pub bind :
    (String → String) → FileMappingProfile → List String → Result FileMappingProfile
bind casefold p headers =
    file_mapping_profile
      (record p { resolved_columns = resolve_fields casefold headers p.fields; is_bound = true })

-- dict(self.resolved_columns).get(field); the fields of a profile differ
unfoldable pub find_field : String → List FieldMapping → Option FieldMapping
find_field name fields = first (λ (f : FieldMapping). str_eq f.canonical_field name) fields

abbrev first_alias : Option FieldMapping → Option String
first_alias none = none
first_alias (some f) = elim f.aliases [ [] ↦ none | a ∷ aliases ↦ some a ]

-- FileMappingProfile.source_column_for
unfoldable pub source_column_for : FileMappingProfile → String → Option String
source_column_for p name =
    if p.is_bound then get p.resolved_columns name else first_alias (find_field name p.fields)

-- FileMappingProfile.transform_for
unfoldable pub transform_for : FileMappingProfile → String → Option String
transform_for p name = elim (find_field name p.fields) [ none ↦ none | some f ↦ some f.transform ]

-- FileMappingProfile.required_fields
unfoldable pub required_fields : FileMappingProfile → List String
required_fields p = map field_name (filter is_required p.fields)

-- field.canonical_field in resolved
unfoldable pub is_resolved : List (String × String) → FieldMapping → Bool
is_resolved resolved f = elim (get resolved f.canonical_field) [ none ↦ false | some h ↦ true ]

-- optional_weight if not optional else optional_weight * optional_matches // len(optional)
unfoldable pub optional_score : ℕ → ℕ → ℕ
optional_score matches zero = 2_000
optional_score matches (suc n) = 2_000 * matches / suc n

-- the score of a profile that is bound
unfoldable pub bound_score : List FieldMapping → List (String × String) → ℕ
bound_score fields resolved =
    let required = filter is_required fields in
    let optional = filter (λ (f : FieldMapping). not f.required) fields in
    let required_score = if non_empty required then 8_000 else 0 in
    let matches = length (filter (is_resolved resolved) optional) in
    let score = required_score + optional_score matches (length optional) in
    if not (all (is_resolved resolved) required)
    then 0
    else if leb score 10_000
    then score
    else 10_000

-- FileMappingProfile.match_score_bps
unfoldable pub match_score_bps : (String → String) → FileMappingProfile → List String → Result ℕ
match_score_bps casefold p headers =
    if not (non_empty headers) || not (non_empty p.fields)
    then ok 0
    else (do bound ← bind casefold p headers; ok (bound_score p.fields bound.resolved_columns))
