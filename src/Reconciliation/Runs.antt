-- ===== src/Reconciliation/Runs.antt =====
-- Runs of the kernel at concrete inputs.
use veri_close.Prelude.{◌≡◌, refl, List, [], ◌∷◌, map, Result, ok, ◌>>=◌}
use veri_close.Domain.Enums.{DecisionState}
use veri_close.Domain.Decisions.{ReconciliationDecision}
use veri_close.Reconciliation.Pipeline.{KernelResult}
use veri_close.Reconciliation.Samples.{platform, policy, settled, receipt, run_kernel}

states : Result KernelResult → Result (List DecisionState)
states r = do k ← r; ok (map (λ (d : ReconciliationDecision). d.state) k.decisions)

settled_clears : states (run_kernel platform settled policy) ≡ ok (DecisionState.auto_cleared ∷ [])
unfolding states run_kernel
settled_clears = refl

-- A second receipt of the same amount under another reference makes the group ambiguous.
two_receipts_are_reviewed :
    states (run_kernel platform (receipt "b2" 976 "UTR2" ∷ settled) policy)
    ≡ ok (DecisionState.review_required ∷ [])
unfolding states run_kernel
two_receipts_are_reviewed = refl

-- Under the same reference it is a conflict of identifiers.
same_reference_is_an_exception :
    states (run_kernel platform (receipt "b2" 976 "UTR1" ∷ settled) policy)
    ≡ ok (DecisionState.exception ∷ [])
unfolding states run_kernel
same_reference_is_an_exception = refl

-- A receipt that belongs to no settlement is a case of its own, for review.
stray_receipt_is_reviewed :
    states (run_kernel platform (receipt "b2" 5 "UTR2" ∷ settled) policy)
    ≡ ok (DecisionState.auto_cleared ∷ DecisionState.review_required ∷ [])
unfolding states run_kernel
stray_receipt_is_reviewed = refl
