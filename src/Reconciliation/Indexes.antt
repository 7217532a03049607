-- ===== src/Reconciliation/Indexes.antt =====
-- core/vericlose/reconciliation/indexes.py. A defaultdict is an association list in the order in
-- which its keys came.
pub mod Lookup
use veri_close.Prelude.{
  ℕ, String, str_eq, str_leb, nat_eq, Bool, Option, none, some, List, [], ◌∷◌, ◌++◌, if◌then◌else◌,
  sort_by,
}
use veri_close.Domain.Events.{CanonicalEvent, truthy}

abbrev pub Index : Type 0 → Type 0
Index K = List (K × List CanonicalEvent)

-- mapping.get(key, ())
unfoldable pub get : {K : Type 0} → (K → K → Bool) → K → Index K → List CanonicalEvent
get eq k [] = []
get eq k ((j, events) ∷ index) = let rest = get eq k index in if eq j k then events else rest

-- mapping[key].append(event)
unfoldable pub push : {K : Type 0} → (K → K → Bool) → K → CanonicalEvent → Index K → Index K
push eq k event [] = (k, event ∷ []) ∷ []
push eq k event ((j, events) ∷ index) =
    let rest = push eq k event index in
    if eq j k then (j, events ++ event ∷ []) ∷ index else (j, events) ∷ rest

-- `if reference: mapping[reference].append(event)`
unfoldable pub push_reference : Option String → CanonicalEvent → Index String → Index String
unfolding push
push_reference none event index = index
push_reference (some r) event index = if truthy (some r) then push str_eq r event index else index

pub record CandidateIndexes : Type 0 where
  pub by_settlement_reference : Index String
  pub by_utr : Index String
  pub by_external_reference : Index String
  pub by_amount_minor : Index ℕ
  pub by_date : Index ℕ

-- event.value_date or event.event_at.date()
abbrev pub date_of : CanonicalEvent → ℕ
date_of event = elim event.value_date [ some day ↦ day | none ↦ event.event_at.date ]

-- the body of the loop
unfoldable pub add_event : CandidateIndexes → CanonicalEvent → CandidateIndexes
unfolding push_reference push
add_event indexes event = record {
  by_settlement_reference =
      push_reference event.settlement_reference event indexes.by_settlement_reference;
  by_utr = push_reference event.bank_utr event indexes.by_utr;
  by_external_reference =
      push_reference event.external_reference event indexes.by_external_reference;
  by_amount_minor = push nat_eq event.money.amount_minor event indexes.by_amount_minor;
  by_date = push nat_eq (date_of event) event indexes.by_date;
}

unfoldable pub add_events : CandidateIndexes → List CanonicalEvent → CandidateIndexes
unfolding add_event
add_events indexes [] = indexes
add_events indexes (event ∷ events) = add_events (add_event indexes event) events

abbrev pub no_indexes : CandidateIndexes
no_indexes = record {
  by_settlement_reference = [];
  by_utr = [];
  by_external_reference = [];
  by_amount_minor = [];
  by_date = [];
}

-- event.event_id as the sort key
abbrev pub by_id : CanonicalEvent → CanonicalEvent → Bool
by_id a b = str_leb a.event_id b.event_id

-- CandidateIndexes.build
unfoldable pub build : List CanonicalEvent → CandidateIndexes
unfolding add_events sort_by
build events = add_events no_indexes (sort_by by_id events)
