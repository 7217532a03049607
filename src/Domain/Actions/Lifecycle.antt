-- ===== src/Domain/Actions/Lifecycle.antt =====
-- The lifecycle of an action: `transition` of domain/actions.py as a step relation.
use veri_close.Prelude.{
  refl, Bool, subst, false, err, value_error, ◌≡◌, List, [], ◌∷◌, ok, arith, true,
}
use veri_close.Domain.Enums.{ActionState}
use veri_close.Domain.Actions.{ProposedAction, proposed_action, action_step_allowed, transition}

pub data ActionStep (a : ProposedAction) : ProposedAction → Type 0 where
  moved :
      (next_state : ActionState) {b : ProposedAction}
      → transition a next_state ≡ ok b
      → ActionStep a b

proposed_action_same : (a b : ProposedAction) → proposed_action a ≡ ok b → a ≡ b
unfolding proposed_action
proposed_action_same a b h = ground arith

-- A transition that succeeds is legal and changes the state alone.
pub transition_inv :
    (a b : ProposedAction) (s : ActionState)
    → transition a s ≡ ok b
    → (action_step_allowed a.state s ≡ true) × (record a { state = s } ≡ b)
unfolding transition
transition_inv a b s h = ground (arith, proposed_action_same (record a { state = s }) b)

-- The states that an action has been in, the latest first.
pub data History : ProposedAction → List ActionState → Type 0 where
  fresh :
      (a : ProposedAction) → a.state ≡ ActionState.proposed → History a (ActionState.proposed ∷ [])
  step :
      {a b : ProposedAction} {past : List ActionState}
      → History a past
      → ActionStep a b
      → History b (b.state ∷ past)

-- What the past of an action in each state begins with.
abbrev pub Approval : ActionState → List ActionState → Type 0
Approval ActionState.proposed past = past ≡ ActionState.proposed ∷ []
Approval ActionState.rejected past = past ≡ ActionState.rejected ∷ ActionState.proposed ∷ []
Approval ActionState.exported past =
    (older : List ActionState) × (past ≡ ActionState.exported ∷ ActionState.approved ∷ older)
Approval ActionState.failed past =
    (older : List ActionState) × (past ≡ ActionState.failed ∷ ActionState.approved ∷ older)
Approval ActionState.approved past =
    (older : List ActionState) × (past ≡ ActionState.approved ∷ older)
Approval ActionState.cancelled past =
    (older : List ActionState) × (past ≡ ActionState.cancelled ∷ older)

Approval-step :
    (s t : ActionState) (past : List ActionState)
    → action_step_allowed s t ≡ true
    → Approval s past
    → Approval t (t ∷ past)
unfolding action_step_allowed
Approval-step ActionState.proposed ActionState.approved past h p = (past, refl)
Approval-step ActionState.proposed ActionState.rejected past h p = rw p
Approval-step ActionState.proposed ActionState.cancelled past h p = (past, refl)
Approval-step ActionState.approved ActionState.exported past h (older, e) = (older, rw e)
Approval-step ActionState.approved ActionState.failed past h (older, e) = (older, rw e)
Approval-step ActionState.approved ActionState.cancelled past h p = (past, refl)
Approval-step ActionState.failed ActionState.approved past h p = (past, refl)
Approval-step ActionState.failed ActionState.cancelled past h p = (past, refl)
Approval-step s t past h p = cc

legal_step : {a b : ProposedAction} → ActionStep a b → action_step_allowed a.state b.state ≡ true
legal_step {a = a} {b = b} (moved s h) =
    let (legal, e) = transition_inv a b s h in
    subst (λ (x : ProposedAction). action_step_allowed a.state x.state ≡ true) e legal

-- Of an action that was created as PROPOSED and has gone through any successful transitions: if it
-- is EXPORTED or FAILED, the state just before was APPROVED, and if it is REJECTED, it was never
-- anything but PROPOSED before.
pub History-Approval :
    {a : ProposedAction} {past : List ActionState} → History a past → Approval a.state past
History-Approval (fresh a e) = rw e refl
History-Approval (step {a = a} {b = b} {past = past} before s) =
    Approval-step a.state b.state past (legal_step s) (History-Approval before)

abbrev pub is_final : ActionState → Bool
is_final ActionState.rejected = true
is_final ActionState.exported = true
is_final ActionState.cancelled = true
is_final _ = false

-- No transition leaves REJECTED, EXPORTED or CANCELLED: whatever state is asked for, the call raises
-- the error of an invalid transition.
pub final_stays :
    (a : ProposedAction) (s : ActionState)
    → is_final a.state ≡ true
    → transition a s ≡ err (value_error "invalid action transition")
unfolding transition action_step_allowed
final_stays a s h = ground arith
