-- ===== src/Reconciliation/Indexes/Lookup.antt =====
-- The lookups in the indexes of reconciliation/indexes.py against the sorted events.
use veri_close.Prelude.{
  String, str_eq, eq_iff, Bool, true, false, ◌≡◌, refl, sym, Option, none, some, List, [], ◌∷◌,
  ◌++◌, if◌then◌else◌, filter, sort_by, arith, ◌∙◌, non_empty_str, ◌&&◌,
}
use veri_close.Domain.Events.{CanonicalEvent}
use veri_close.Reconciliation.Indexes.{
  Index, get, push, push_reference, CandidateIndexes, add_event, add_events, no_indexes, by_id,
  build,
}
use mathlib.Core.List.{append_assoc, append-nil}

pub get-push :
    (k j : String) (event : CanonicalEvent) (index : Index String)
    → get str_eq k (push str_eq j event index)
      ≡ (if str_eq j k then get str_eq k index ++ event ∷ [] else get str_eq k index)
unfolding get push
get-push k j event [] = ground (arith, eq_iff j k)
get-push k j event ((i, events) ∷ index) =
    ground (arith, eq_iff i j, eq_iff i k, eq_iff j k, get-push k j event index)

-- the reference of an event is `k`, and it is not the empty text
abbrev pub refers : String → Option String → Bool
refers k none = false
refers k (some r) = non_empty_str r && str_eq r k

get-push_reference :
    (k : String) (r : Option String) (event : CanonicalEvent) (index : Index String)
    → get str_eq k (push_reference r event index)
      ≡ (if refers k r then get str_eq k index ++ event ∷ [] else get str_eq k index)
unfolding push_reference
get-push_reference k none event index = refl
get-push_reference k (some r) event index = ground (arith, get-push k r event index)

module _ (field : CanonicalEvent → Option String) (index_of : CandidateIndexes → Index String)
    (indexed : (indexes : CandidateIndexes) (event : CanonicalEvent)
      → index_of (add_event indexes event) ≡ push_reference (field event) event (index_of indexes))
    (k : String) where
  get-add_events :
      (indexes : CandidateIndexes) (events : List CanonicalEvent)
      → get str_eq k (index_of (add_events indexes events))
        ≡ get str_eq k (index_of indexes) ++ filter (λ e. refers k (field e)) events
  unfolding add_events filter
  get-add_events indexes [] = sym (append-nil _)
  get-add_events indexes (event ∷ events) =
      get-add_events (add_event indexes event) events
      ∙ rw indexed (rw get-push_reference (push_last (refers k (field event))))
    where
      push_last :
          (b : Bool)
          → (if b
                then get str_eq k (index_of indexes) ++ event ∷ []
                else get str_eq k (index_of indexes))
              ++ filter (λ e. refers k (field e)) events
            ≡ get str_eq k (index_of indexes)
              ++ (if b
                  then event ∷ filter (λ e. refers k (field e)) events
                  else filter (λ e. refers k (field e)) events)
      push_last true = append_assoc (get str_eq k (index_of indexes)) (event ∷ []) _
      push_last false = refl

get-by_settlement_reference :
    (k : String) (events : List CanonicalEvent)
    → get str_eq k (build events).by_settlement_reference
      ≡ filter (λ e. refers k e.settlement_reference) (sort_by by_id events)
unfolding build filter get
get-by_settlement_reference k events =
    get-add_events (λ e. e.settlement_reference) (λ i. i.by_settlement_reference)
      (λ indexes event. unfold add_event in refl) k no_indexes (sort_by by_id events)

get-by_utr :
    (k : String) (events : List CanonicalEvent)
    → get str_eq k (build events).by_utr ≡ filter (λ e. refers k e.bank_utr) (sort_by by_id events)
unfolding build filter get
get-by_utr k events =
    get-add_events (λ e. e.bank_utr) (λ i. i.by_utr) (λ indexes event. unfold add_event in refl) k
      no_indexes (sort_by by_id events)

get-by_external_reference :
    (k : String) (events : List CanonicalEvent)
    → get str_eq k (build events).by_external_reference
      ≡ filter (λ e. refers k e.external_reference) (sort_by by_id events)
unfolding build filter get
get-by_external_reference k events =
    get-add_events (λ e. e.external_reference) (λ i. i.by_external_reference)
      (λ indexes event. unfold add_event in refl) k no_indexes (sort_by by_id events)

-- Looking a reference up in any of the three reference indexes gives exactly the events that carry
-- it, sorted by their identifiers; the empty text finds nothing.
pub reference_lookups :
    (k : String) (events : List CanonicalEvent)
    → (get str_eq k (build events).by_settlement_reference
        ≡ filter (λ e. refers k e.settlement_reference) (sort_by by_id events))
      × (get str_eq k (build events).by_utr
          ≡ filter (λ e. refers k e.bank_utr) (sort_by by_id events))
      × (get str_eq k (build events).by_external_reference
          ≡ filter (λ e. refers k e.external_reference) (sort_by by_id events))
reference_lookups k events =
    (get-by_settlement_reference k events, get-by_utr k events, get-by_external_reference k events)
