-- ===== src/Reconciliation/Pipeline/Turns.antt =====
-- The turns of the loop over the settlement references in reconciliation/pipeline.py: what it had
-- made and consumed when it came to a reference.
use veri_close.Prelude.{
  String, true, ◌≡◌, refl, sym, ap, ◌∙◌, inl, inr, some, List, [], ◌∷◌, ◌++◌, ok, arith, contains,
  subst, Option-cases, eq_iff,
}
use mathlib.Core.List.{Memᴰ}
use mathlib.Core.Bool.{false≢true}
use veri_close.Domain.Enums.{SourceType, is_bank}
use veri_close.Domain.Events.{CanonicalEvent}
use veri_close.Reconciliation.Context.{ReconciliationContext}
use veri_close.Reconciliation.Pipeline.{
  Consumed, Matched, add_consumed, consume, event_by_id, match_references,
}
use veri_close.Reconciliation.Pipeline.Rounds.{Rounds, match_references-Rounds}
use veri_close.Reconciliation.Platform.{Platform}
use veri_close.Reconciliation.Proposals.{CaseProposal}
use veri_close.Reconciliation.Rules.Settlement.{analyze_settlement}

-- An event that has been cited is consumed, and what was consumed stays so.
contains-grows :
    (source : SourceType) (id k : String) (before : Consumed)
    → contains k before.bank ≡ true
    → contains k (add_consumed source id before).bank ≡ true
unfolding contains
contains-grows SourceType.bank id k before h = ground arith
contains-grows SourceType.erp id k before h = h
contains-grows SourceType.gateway id k before h = h

consume-keeps :
    (events : List CanonicalEvent) (ids : List String) (before after : Consumed) (k : String)
    → consume events ids before ≡ ok after
    → contains k before.bank ≡ true
    → contains k after.bank ≡ true
unfolding consume
consume-keeps events [] before after k h c = ground arith
consume-keeps events (id ∷ ids) before after k h c = elim (Option-cases (event_by_id events id)) [
  | inl nothing ↦ absurd (ground (arith, nothing))
  | inr (e, found) ↦
      consume-keeps events ids (add_consumed e.source_type id before) after k
        (ground (arith, found)) (contains-grows e.source_type id k before c)
]

some_inj : (a b : CanonicalEvent) → some a ≡ some b → a ≡ b
some_inj a b h = cc

contains-added :
    (source : SourceType) (id k : String) (before : Consumed)
    → k ≡ id
    → is_bank source ≡ true
    → contains k (add_consumed source id before).bank ≡ true
unfolding contains
contains-added SourceType.bank id k before same b = ground (arith, eq_iff k id)
contains-added SourceType.erp id k before same b = absurd (false≢true b)
contains-added SourceType.gateway id k before same b = absurd (false≢true b)

consume-adds :
    (events : List CanonicalEvent) (ids : List String) (before after : Consumed) (k : String)
    (event : CanonicalEvent)
    → consume events ids before ≡ ok after
    → Memᴰ k ids
    → event_by_id events k ≡ some event
    → is_bank event.source_type ≡ true
    → contains k after.bank ≡ true
unfolding consume
consume-adds events [] before after k event h m found bank = elim m [ ]
consume-adds events (id ∷ ids) before after k event h m found bank =
    elim (Option-cases (event_by_id events id)) [
      | inl nothing ↦ absurd (ground (arith, nothing))
      | inr (e, here) ↦
          let rest : consume events ids (add_consumed e.source_type id before) ≡ ok after =
            ground (arith, here) in
          elim m [
            | Memᴰ.tail n ↦ consume-adds events ids _ after k event rest n found bank
            | Memᴰ.head same ↦
                let own : event ≡ e =
                  some_inj event e (sym found ∙ ap (event_by_id events) same ∙ here) in
                consume-keeps events ids _ after k rest (
                  contains-added e.source_type id k before same
                    (subst (λ (x : CanonicalEvent). is_bank x.source_type ≡ true) own bank))
          ]
    ]

-- The first proposal comes before the second in a list.
pub data Before {A : Type 0} (x y : A) : List A → Type 0 where
  here : {z : A} {rest : List A} → x ≡ z → Memᴰ y rest → Before x y (z ∷ rest)
  there : {z : A} {rest : List A} → Before x y rest → Before x y (z ∷ rest)

-- Every bank event that a proposal cites is among the consumed identifiers.
abbrev pub Spent : ReconciliationContext → CaseProposal → List String → Type 0
Spent context p consumed =
    (k : String) (event : CanonicalEvent)
    → Memᴰ k p.event_ids
    → event_by_id context.events k ≡ some event
    → is_bank event.source_type ≡ true
    → contains k consumed ≡ true

-- The turn of the loop that made a proposal: the references before it had been matched, and it is the
-- analysis of the next reference with the bank identifiers that they had left consumed, those of
-- every bank event that their proposals cite among them.
pub record IsTurn (platform : Platform) (context : ReconciliationContext) (references : List String)
    (before : Consumed) (p : CaseProposal) : Type 0 where
  pub earlier : List String
  pub reference : String
  pub later : List String
  pub split : references ≡ earlier ++ reference ∷ later
  pub so_far : Matched
  pub reached : match_references platform context earlier before ≡ ok so_far
  pub analysed : analyze_settlement platform context reference so_far.consumed.bank ≡ ok p
  pub spent : (q : CaseProposal) → Memᴰ q so_far.proposals → Spent context q so_far.consumed.bank

module _ (platform : Platform) (context : ReconciliationContext) where
  Rounds-keeps :
      {references : List String} {before last : Consumed} {proposals : List CaseProposal}
      (k : String)
      → Rounds platform context references before proposals last
      → contains k before.bank ≡ true
      → contains k last.bank ≡ true
  Rounds-keeps k (Rounds.done consumed) c = c
  Rounds-keeps {before = before} k (Rounds.round {after = after} {p = x} h e rounds) c =
      Rounds-keeps k rounds (consume-keeps context.events x.event_ids before after k e c)

  Rounds-Spent :
      {references : List String} {before last : Consumed} {proposals : List CaseProposal}
      (q : CaseProposal)
      → Rounds platform context references before proposals last
      → Memᴰ q proposals
      → Spent context q last.bank
  Rounds-Spent q (Rounds.done consumed) m = elim m [ ]
  Rounds-Spent {before = before} q (Rounds.round {after = after} {p = x} h e rounds)
        (Memᴰ.head same) =
      λ id event cited found bank. Rounds-keeps id rounds (
        consume-adds context.events x.event_ids before after id event e
          (subst (λ (y : CaseProposal). Memᴰ id y.event_ids) same cited) found bank)
  Rounds-Spent q (Rounds.round h e rounds) (Memᴰ.tail m) = Rounds-Spent q rounds m

  first-IsTurn :
      (reference : String) (references : List String) (before : Consumed) (p : CaseProposal)
      → analyze_settlement platform context reference before.bank ≡ ok p
      → IsTurn platform context (reference ∷ references) before p
  unfolding match_references
  first-IsTurn reference references before p h = record {
    earlier = [];
    reference = reference;
    later = references;
    split = refl;
    so_far = record { proposals = []; consumed = before };
    reached = refl;
    analysed = h;
    spent = λ q m. elim m [ ];
  }

  -- a turn among the references that follow another
  later-IsTurn :
      (reference : String) (references : List String) (before after : Consumed) (p x : CaseProposal)
      → analyze_settlement platform context reference before.bank ≡ ok x
      → consume context.events x.event_ids before ≡ ok after
      → (t : IsTurn platform context references after p)
      → (u : IsTurn platform context (reference ∷ references) before p) × (u.so_far.proposals
          ≡ x ∷ t.so_far.proposals)
  unfolding match_references
  later-IsTurn reference references before after p x h e t =
      let so_far : Matched = record {
        proposals = x ∷ t.so_far.proposals;
        consumed = t.so_far.consumed;
      } in
      let reached : match_references platform context (reference ∷ t.earlier) before ≡ ok so_far =
        rw h (rw e (rw t.reached refl)) in
      (
        record {
          earlier = reference ∷ t.earlier;
          reference = t.reference;
          later = t.later;
          split = ap (◌∷◌ reference) t.split;
          so_far = so_far;
          reached = reached;
          analysed = t.analysed;
          spent = λ q m.
              Rounds-Spent q
                (match_references-Rounds platform context (reference ∷ t.earlier) before so_far
                  reached)
                m;
        },
        refl,
      )

  Rounds-IsTurn :
      {references : List String} {before last : Consumed} {proposals : List CaseProposal}
      {p : CaseProposal}
      → Rounds platform context references before proposals last
      → Memᴰ p proposals
      → IsTurn platform context references before p
  Rounds-IsTurn (Rounds.done consumed) m = elim m [ ]
  Rounds-IsTurn {before = before} {p = p}
        (Rounds.round {reference = reference} {references = references} h e rounds)
        (Memᴰ.head same) =
      first-IsTurn reference references before p (h ∙ ap ok (sym same))
  Rounds-IsTurn {before = before} {p = p}
        (Rounds.round {reference = reference} {references = references} {after = after} {p = x} h e
          rounds)
        (Memᴰ.tail m) =
      (later-IsTurn reference references before after p x h e (Rounds-IsTurn rounds m)).0

  Rounds-Before :
      {references : List String} {before last : Consumed} {proposals : List CaseProposal}
      {p q : CaseProposal}
      → Rounds platform context references before proposals last
      → Before p q proposals
      → (t : IsTurn platform context references before q) × Memᴰ p t.so_far.proposals
  Rounds-Before (Rounds.done consumed) b = elim b [ ]
  Rounds-Before {before = before} {p = p} {q = q}
        (Rounds.round {reference = reference} {references = references} {after = after} {p = x} h e
          rounds)
        (Before.here same m) =
      let (u, made) =
        later-IsTurn reference references before after q x h e (Rounds-IsTurn rounds m) in
      (u, subst (Memᴰ p) (sym made) (Memᴰ.head same))
  Rounds-Before {before = before} {p = p} {q = q}
        (Rounds.round {reference = reference} {references = references} {after = after} {p = x} h e
          rounds)
        (Before.there b) =
      let (t, among) = Rounds-Before rounds b in
      let (u, made) = later-IsTurn reference references before after q x h e t in
      (u, subst (Memᴰ p) (sym made) (Memᴰ.tail among))

  pub match_references-IsTurn :
      (references : List String) (before : Consumed) (matched : Matched) (p : CaseProposal)
      → match_references platform context references before ≡ ok matched
      → Memᴰ p matched.proposals
      → IsTurn platform context references before p
  match_references-IsTurn references before matched p h =
      Rounds-IsTurn (match_references-Rounds platform context references before matched h)

  pub match_references-Before :
      (references : List String) (before : Consumed) (matched : Matched) (p q : CaseProposal)
      → match_references platform context references before ≡ ok matched
      → Before p q matched.proposals
      → (t : IsTurn platform context references before q) × Memᴰ p t.so_far.proposals
  match_references-Before references before matched p q h =
      Rounds-Before (match_references-Rounds platform context references before matched h)
