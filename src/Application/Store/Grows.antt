-- ===== src/Application/Store/Grows.antt =====
-- core/vericlose/infrastructure/duckdb/repositories.py: no operation changes or removes a row.
use mathlib.Core.List.{append_assoc}
use veri_close.Prelude.{◌≡◌, ◌∙◌, refl, ap, [], ◌++◌}
use veri_close.Application.Store.{Store}

abbrev pub no_rows : Store
no_rows = record {
  runs = [];
  events = [];
  decisions = [];
  exceptions = [];
  summaries = [];
  reviews = [];
  actions = [];
  receipts = [];
  audit = [];
}

-- the rows of one store before those of another, table by table
abbrev pub on_top : Store → Store → Store
on_top newer s = record {
  runs = newer.runs ++ s.runs;
  events = newer.events ++ s.events;
  decisions = newer.decisions ++ s.decisions;
  exceptions = newer.exceptions ++ s.exceptions;
  summaries = newer.summaries ++ s.summaries;
  reviews = newer.reviews ++ s.reviews;
  actions = newer.actions ++ s.actions;
  receipts = newer.receipts ++ s.receipts;
  audit = newer.audit ++ s.audit;
}

-- Every table has the rows that it had, in their places, and newer ones before them.
abbrev pub Grows : Store → Store → Type 0
Grows s t = (newer : Store) × (t ≡ on_top newer s)

pub Grows-refl : (s : Store) → Grows s s
Grows-refl s = (no_rows, refl)

on_top_assoc : (a b s : Store) → on_top a (on_top b s) ≡ on_top (on_top a b) s
on_top_assoc a b s = rw (append_assoc a.runs b.runs s.runs) (
    rw (append_assoc a.events b.events s.events) (
      rw (append_assoc a.decisions b.decisions s.decisions) (
        rw (append_assoc a.exceptions b.exceptions s.exceptions) (
          rw (append_assoc a.summaries b.summaries s.summaries) (
            rw (append_assoc a.reviews b.reviews s.reviews) (
              rw (append_assoc a.actions b.actions s.actions) (
                rw (append_assoc a.receipts b.receipts s.receipts)
                  (rw (append_assoc a.audit b.audit s.audit) (refl)))))))))

pub Grows-trans : (s t u : Store) → Grows s t → Grows t u → Grows s u
Grows-trans s t u (m, e) (n, f) = (on_top n m, f ∙ ap (on_top n) e ∙ on_top_assoc n m s)
