-- ===== src/Ingestion/Normalization/Complete.antt =====
-- core/vericlose/adapters/base.py: what the result of a file says of its rows.
use veri_close.Prelude.{
  ℤ, ◌≡◌, refl, subst, String, true, List, map, ok, arith, filter, length, dedup, Result-cases, inl,
  inr,
}
use veri_close.Domain.Events.{CanonicalEvent}
use veri_close.Ingestion.Contracts.{
  RowDisposition, NormalizationResult, normalization_result, normalized_row_count, is_normalized,
  distinct_numbers, SourceDocument, NormalizationContext,
}
use veri_close.Ingestion.Mappings.{FileMappingProfile, bind}
use veri_close.Ingestion.Validation.{TabularRow, TabularData, read, Adapter, validate}
use veri_close.Ingestion.Normalization.{normalize_rows, normalize}
use veri_close.Ingestion.Normalization.Disposed.{
  Disposed, no_rows, row_normalized, row_quarantined, normalize_rows-Disposed,
}

abbrev pub event_ids : List CanonicalEvent → List String
event_ids = map (λ (e : CanonicalEvent). e.event_id)

abbrev pub row_numbers : List RowDisposition → List ℤ
row_numbers = map (λ (d : RowDisposition). d.row_number)

accepted_result :
    (lower : String → String) (r x : NormalizationResult)
    → normalization_result lower r ≡ ok x
    → (r ≡ x)
      × (distinct_numbers (row_numbers r.row_dispositions) ≡ true)
      × (length (dedup (event_ids r.events)) ≡ length (event_ids r.events))
unfolding normalization_result
accepted_result lower r x h = (ground arith, ground arith, ground arith)

count :
    {Parsed : Type 0} {adapter : Adapter Parsed} {document : SourceDocument}
    {bound : FileMappingProfile} {context : NormalizationContext} {rows : List TabularRow}
    {events : List CanonicalEvent} {ds : List RowDisposition}
    → Disposed adapter document bound context rows events ds
    → (length (filter (λ (d : RowDisposition). is_normalized d.status) ds) ≡ length events)
      × (length ds ≡ length rows)
unfolding filter
count no_rows = (refl, refl)
count (row_normalized row event d b n s i c more) =
    let (e, f) = count more in (rw s (omega arith), omega arith)
count (row_quarantined row d n s i c more) = let (e, f) = count more in (rw s e, omega arith)

-- What the result of a file says of its rows.
pub record IsComplete {Parsed : Type 0} (adapter : Adapter Parsed) (casefold : String → String)
    (document : SourceDocument) (profile : FileMappingProfile) (context : NormalizationContext)
    (table : TabularData) (r : NormalizationResult) : Type 0 where
  pub bound : FileMappingProfile
  pub bind_ok : bind casefold profile table.headers ≡ ok bound
  pub disposed : Disposed adapter document bound context table.rows r.events r.row_dispositions
  pub rows_seen : r.rows_seen ≡ length table.rows
  pub counted : normalized_row_count r ≡ length r.events
  pub distinct_rows : distinct_numbers (row_numbers r.row_dispositions) ≡ true
  pub distinct_events : length (dedup (event_ids r.events)) ≡ length (event_ids r.events)

-- A normalization that returns has one disposition for each row of the file, in order: a row is
-- either NORMALIZED, and its one event is what the adapter builds of it, or QUARANTINED with no
-- event and at least one issue code. The events are those of the normalized rows in order and no
-- others, as many as the count says, and no row number and no event identifier occurs twice.
pub normalize-IsComplete :
    {Parsed : Type 0} (adapter : Adapter Parsed) (casefold lower : String → String)
    (document : SourceDocument) (profile : FileMappingProfile) (context : NormalizationContext)
    (table : TabularData) (r : NormalizationResult)
    → normalize adapter casefold lower document profile context table ≡ ok r
    → IsComplete adapter casefold document profile context table r
unfolding normalize normalized_row_count
normalize-IsComplete adapter casefold lower document profile context table r h =
    elim (Result-cases (bind casefold profile table.headers)) [
      | inr (e, f) ↦ absurd (ground arith)
      | inl (bound, b) ↦
          elim (Result-cases (validate adapter casefold document bound (read table))) [
            | inr (e, f) ↦ absurd (ground arith)
            | inl (checked, v) ↦
                elim (Result-cases
                  (normalize_rows adapter document bound context table.rows checked.issues)) [
                    | inr (e, f) ↦ absurd (ground arith)
                    | inl (rows, went) ↦
                        let built : NormalizationResult = record {
                          adapter_id = adapter.adapter_id;
                          adapter_version = adapter.adapter_version;
                          source_file_id = document.file_id;
                          source_file_sha256 = document.sha256;
                          mapping_profile = bound.ref;
                          rows_seen = length table.rows;
                          events = rows.events;
                          row_dispositions = rows.dispositions;
                          issues = rows.issues;
                        } in
                        let (same, numbers, events) =
                          accepted_result lower built r (ground arith) in
                        let disposed =
                          normalize_rows-Disposed adapter document bound context table.rows
                            checked.issues rows went in
                        subst (IsComplete adapter casefold document profile context table) same
                          (record {
                            bound = bound;
                            bind_ok = b;
                            disposed = disposed;
                            rows_seen = refl;
                            counted = (count disposed).0;
                            distinct_rows = numbers;
                            distinct_events = events;
                          })
                  ]
          ]
    ]
