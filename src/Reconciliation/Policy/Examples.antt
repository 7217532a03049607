-- ===== src/Reconciliation/Policy/Examples.antt =====
-- The theorems on loading at the file config/policies/razorpay_inr_v1.yaml.
use veri_close.Prelude.{String, contains, true, ◌≡◌, refl, ok, contains}
use veri_close.Reconciliation.Clearance.{RequiresStandard}
use veri_close.Reconciliation.Outcomes.{is_ok, result_of, result_of-ok}
use veri_close.Reconciliation.Policy.{
  AccountRolePolicy, ExceptionPolicy, ReconciliationPolicy, exception, role,
}
use veri_close.Reconciliation.Policy.Frozen.{frozen, run_load}
use veri_close.Reconciliation.Policy.Load.{load_policy, role_names}
use veri_close.Reconciliation.Policy.Loaded.{IsLoaded, load_policy-IsLoaded, load_policy-lookups}
use veri_close.Reconciliation.Policy.Yaml.{Yaml}

-- `str` of a value that is not a text; the file has none where it is called
abbrev show : Yaml → String
show value = ""

frozen_loads : is_ok (load_policy show frozen) ≡ true
unfolding run_load
frozen_loads = refl

abbrev frozen_policy : ReconciliationPolicy
frozen_policy = result_of (load_policy show frozen) frozen_loads

frozen_policy-RequiresStandard : RequiresStandard frozen_policy
unfolding run_load contains
frozen_policy-RequiresStandard = (
  refl,
  (
    refl,
    (
      refl,
      (
        refl,
        (refl, (refl, (refl, (refl, (refl, (refl, (refl, (refl, (refl, (refl, (refl, tt))))))))))),
      ),
    ),
  ),
)

load_policy-IsLoaded_example : IsLoaded frozen_policy
load_policy-IsLoaded_example =
    load_policy-IsLoaded show frozen frozen_policy
      (result_of-ok (load_policy show frozen) frozen_loads)

load_policy-lookups_example :
    ((code : String) → (e : ExceptionPolicy) × (exception frozen_policy code ≡ ok e))
    × ((name : String)
        → contains name role_names ≡ true
        → (r : AccountRolePolicy) × (role frozen_policy name ≡ ok r))
load_policy-lookups_example =
    load_policy-lookups show frozen frozen_policy
      (result_of-ok (load_policy show frozen) frozen_loads)
