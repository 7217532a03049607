-- ===== src/Ingestion/Normalization/Disposed.antt =====
-- core/vericlose/adapters/base.py: every row of a file has one disposition.
use veri_close.Prelude.{
  ◌≡◌, refl, subst, true, false, not, List, [], ◌∷◌, ◌++◌, map, ok, Error, arith, non_empty, dedup,
  Result-cases, Bool-cases, inl, inr, ◌&&◌, ◌⊎◌,
}
use veri_close.Domain.Events.{CanonicalEvent}
use veri_close.Ingestion.Contracts.{
  RowDisposition, RowDispositionStatus, row_disposition, is_normalized, SourceDocument,
  ValidationIssue, NormalizationContext,
}
use veri_close.Ingestion.Mappings.{FileMappingProfile}
use veri_close.Ingestion.Validation.{
  RowProblem, TabularRow, RowResult, done, problem, raised, Adapter, problem_issue,
}
use veri_close.Ingestion.Normalization.{
  build_row, issues_of_row, quarantine, accept, Normalized, normalize_rows,
}

-- Rows with the events that they gave and their dispositions, in the order of the file.
pub data Disposed {Parsed : Type 0} (adapter : Adapter Parsed) (document : SourceDocument)
    (bound : FileMappingProfile) (context : NormalizationContext)
    : List TabularRow → List CanonicalEvent → List RowDisposition → Type 0 where
  no_rows : Disposed adapter document bound context [] [] []
  row_normalized :
      (row : TabularRow) (event : CanonicalEvent) (d : RowDisposition) {rows : List TabularRow}
      {events : List CanonicalEvent} {ds : List RowDisposition}
      → build_row adapter document bound context row ≡ done event
      → d.row_number ≡ row.row_number
      → d.status ≡ RowDispositionStatus.normalized
      → d.event_ids ≡ event.event_id ∷ []
      → d.issue_codes ≡ []
      → Disposed adapter document bound context rows events ds
      → Disposed adapter document bound context (row ∷ rows) (event ∷ events) (d ∷ ds)
  row_quarantined :
      (row : TabularRow) (d : RowDisposition) {rows : List TabularRow}
      {events : List CanonicalEvent} {ds : List RowDisposition}
      → d.row_number ≡ row.row_number
      → d.status ≡ RowDispositionStatus.quarantined
      → d.event_ids ≡ []
      → non_empty d.issue_codes ≡ true
      → Disposed adapter document bound context rows events ds
      → Disposed adapter document bound context (row ∷ rows) events (d ∷ ds)

row_disposition-same :
    (d e : RowDisposition)
    → row_disposition d ≡ ok e
    → (d ≡ e) × ((not (is_normalized d.status) && not (non_empty d.issue_codes)) ≡ false)
unfolding row_disposition
row_disposition-same d e h = (ground arith, ground arith)

RowResult-cases :
    {A : Type 0} (r : RowResult A)
    → ((a : A) × (r ≡ done a))
      ⊎ (((p : RowProblem) × (r ≡ problem p)) ⊎ ((e : Error) × (r ≡ raised e)))
RowResult-cases (done a) = inl (a, refl)
RowResult-cases (problem p) = inr (inl (p, refl))
RowResult-cases (raised e) = inr (inr (e, refl))

module _ {Parsed : Type 0} (adapter : Adapter Parsed) (document : SourceDocument)
    (bound : FileMappingProfile) (context : NormalizationContext) where
  quarantined_step :
      (row : TabularRow) (issues : List ValidationIssue) (d : RowDisposition)
      (rows : List TabularRow) (events : List CanonicalEvent) (ds : List RowDisposition)
      → quarantine row issues ≡ ok d
      → Disposed adapter document bound context rows events ds
      → Disposed adapter document bound context (row ∷ rows) events (d ∷ ds)
  unfolding quarantine
  quarantined_step row issues d rows events ds h more =
      let made : RowDisposition = record {
        row_number = row.row_number;
        status = RowDispositionStatus.quarantined;
        event_ids = [];
        issue_codes =
            dedup (map (λ (i : ValidationIssue). i.code) (issues_of_row issues row.row_number));
      } in
      let (same, cites) = row_disposition-same made d h in
      subst
        (λ (x : RowDisposition).
          Disposed adapter document bound context (row ∷ rows) events (x ∷ ds))
        same (row_quarantined row made refl refl refl (ground arith) more)

  normalized_step :
      (row : TabularRow) (event : CanonicalEvent) (d : RowDisposition) (rows : List TabularRow)
      (events : List CanonicalEvent) (ds : List RowDisposition)
      → build_row adapter document bound context row ≡ done event
      → accept row event ≡ ok d
      → Disposed adapter document bound context rows events ds
      → Disposed adapter document bound context (row ∷ rows) (event ∷ events) (d ∷ ds)
  unfolding accept
  normalized_step row event d rows events ds built h more =
      let made : RowDisposition = record {
        row_number = row.row_number;
        status = RowDispositionStatus.normalized;
        event_ids = event.event_id ∷ [];
        issue_codes = [];
      } in
      let (same, cites) = row_disposition-same made d h in
      subst
        (λ (x : RowDisposition).
          Disposed adapter document bound context (row ∷ rows) (event ∷ events) (x ∷ ds))
        same (row_normalized row event made built refl refl refl refl more)

  abbrev pub AreDisposed : List TabularRow → Normalized → Type 0
  AreDisposed rows x = Disposed adapter document bound context rows x.events x.dispositions

  -- a row held back, by the issues known when it is reached
  held_rows :
      (row : TabularRow) (rows : List TabularRow) (issues : List ValidationIssue)
      (d : RowDisposition) (rest x : Normalized)
      → quarantine row issues ≡ ok d
      → record rest { dispositions = d ∷ rest.dispositions } ≡ x
      → AreDisposed rows rest
      → AreDisposed (row ∷ rows) x
  held_rows row rows issues d rest x held now more =
      subst (AreDisposed (row ∷ rows)) now
        (quarantined_step row issues d rows rest.events rest.dispositions held more)

  pub normalize_rows-Disposed :
      (rows : List TabularRow) (issues : List ValidationIssue) (x : Normalized)
      → normalize_rows adapter document bound context rows issues ≡ ok x
      → AreDisposed rows x
  unfolding normalize_rows
  normalize_rows-Disposed [] issues x h =
      let now : record { events = []; dispositions = []; issues = issues } ≡ x = ground arith in
      subst (AreDisposed []) now no_rows
  normalize_rows-Disposed (row ∷ rows) issues x h =
      elim (Bool-cases (non_empty (issues_of_row issues row.row_number))) [
        | inl blocked ↦ elim (Result-cases (quarantine row issues)) [
          | inr (e, f) ↦ absurd (ground arith)
          | inl (d, held) ↦
              elim (Result-cases (normalize_rows adapter document bound context rows issues)) [
                | inr (e, f) ↦ absurd (ground arith)
                | inl (rest, went) ↦
                    held_rows row rows issues d rest x held (ground arith)
                      (normalize_rows-Disposed rows issues rest went)
              ]
        ]
        | inr free ↦ elim (RowResult-cases (build_row adapter document bound context row)) [
          | inr (inr (e, b)) ↦ absurd (ground arith)
          | inr (inl (p, b)) ↦ elim (Result-cases (problem_issue document bound row p)) [
            | inr (e, f) ↦ absurd (ground arith)
            | inl (i, told) ↦
                let issues' = issues ++ i ∷ [] in
                elim (Result-cases (quarantine row issues')) [
                  | inr (e, f) ↦ absurd (ground arith)
                  | inl (d, held) ↦
                      elim (Result-cases
                        (normalize_rows adapter document bound context rows issues')) [
                          | inr (e, f) ↦ absurd (ground arith)
                          | inl (rest, went) ↦
                              held_rows row rows issues' d rest x held (ground arith)
                                (normalize_rows-Disposed rows issues' rest went)
                        ]
                ]
          ]
          | inl (event, b) ↦ elim (Result-cases (accept row event)) [
            | inr (e, f) ↦ absurd (ground arith)
            | inl (d, accepted) ↦
                elim (Result-cases (normalize_rows adapter document bound context rows issues)) [
                  | inr (e, f) ↦ absurd (ground arith)
                  | inl (rest, went) ↦
                      let now : record rest {
                        events = event ∷ rest.events;
                        dispositions = d ∷ rest.dispositions;
                      }
                          ≡ x =
                        ground arith in
                      subst (AreDisposed (row ∷ rows)) now (
                        normalized_step row event d rows rest.events rest.dispositions b accepted
                          (normalize_rows-Disposed rows issues rest went))
                ]
          ]
        ]
      ]
