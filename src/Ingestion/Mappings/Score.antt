-- ===== src/Ingestion/Mappings/Score.antt =====
-- core/vericlose/ingestion/mappings.py: what the score of a profile says.
use veri_close.Prelude.{
  ℕ, ◌≤◌, ◌≡◌, refl, sym, String, Bool, true, false, List, [], ◌∷◌, ok, arith, filter, all, any,
  non_empty, Result-cases, inl, inr,
}
use veri_close.Ingestion.Mappings.{
  FieldMapping, FileMappingProfile, file_mapping_profile, resolve_fields, bind, is_required,
  is_resolved, bound_score, match_score_bps,
}

any-filter : {A : Type 0} (p : A → Bool) (xs : List A) → non_empty (filter p xs) ≡ any p xs
unfolding filter any
any-filter p [] = refl
any-filter p (x ∷ xs) = ground (arith, any-filter p xs)

bound_score-bounds :
    (fields : List FieldMapping) (resolved : List (String × String)) (n : ℕ)
    → any is_required fields ≡ true
    → bound_score fields resolved ≡ n
    → (n ≤ 10_000)
      × (all (is_resolved resolved) (filter is_required fields) ≡ true → 8_000 ≤ n)
      × (all (is_resolved resolved) (filter is_required fields) ≡ false → n ≡ 0)
unfolding bound_score
bound_score-bounds fields resolved n h e =
    (ground arith, ground (arith, any-filter is_required fields), ground arith)

bind-resolved :
    (casefold : String → String) (p b : FileMappingProfile) (headers : List String)
    → bind casefold p headers ≡ ok b
    → (b.resolved_columns ≡ resolve_fields casefold headers p.fields)
      × (any is_required p.fields ≡ true)
unfolding bind file_mapping_profile
bind-resolved casefold p b headers h = (ground arith, ground arith)

-- The score of a profile that binds to a header is 0 or lies between 8000 and 10000: it is 0 just
-- where a required field has no column in the header.
pub match_score_bps-bounds :
    (casefold : String → String) (p : FileMappingProfile) (headers : List String) (n : ℕ)
    → non_empty headers ≡ true
    → non_empty p.fields ≡ true
    → match_score_bps casefold p headers ≡ ok n
    → (n ≤ 10_000)
      × (all (is_resolved (resolve_fields casefold headers p.fields)) (filter is_required p.fields)
            ≡ true
          → 8_000 ≤ n)
      × (all (is_resolved (resolve_fields casefold headers p.fields)) (filter is_required p.fields)
            ≡ false
          → n ≡ 0)
unfolding match_score_bps
match_score_bps-bounds casefold p headers n some_headers some_fields h =
    elim (Result-cases (bind casefold p headers)) [
      | inr (e, f) ↦ absurd (ground arith)
      | inl (b, bound) ↦
          let (columns, required) = bind-resolved casefold p b headers bound in
          bound_score-bounds p.fields (resolve_fields casefold headers p.fields) n required
            (rw (sym columns) (ground arith))
    ]
