-- ===== src/Smoke/Config.antt =====
-- src/smoke_harness/config.py: the configuration of a run, from the variables of the environment. `UUID(…)`,
-- `str` of an identifier, `str.lower` and `json.loads` are parameters; `json.loads` gives nothing where it
-- raises, and a key stands once in a dictionary of it.
use eq_site_cms_vk_service.Shared.{
  false, ◌&&◌, true, [], ◌||◌, length, leb, if◌then◌else◌, none, any, some, map, not, ◌∷◌, List,
  Option, String, ◌==◌, ℕ, Bool,
}
use eq_site_cms_vk_service.Text.{Text, codes, text_eq}
use eq_site_cms_vk_service.Text.Json.{Value, text}
use eq_site_cms_vk_service.Db.{Uuid}
use eq_site_cms_vk_service.Smoke.Messenger.{
  ScriptedPlan, success, fail_always, fail_first_then_success,
}

pub data SmokeScenario : Type 0 where
  malformed unknown_user pending_binding blocked_binding soft_deleted_binding : SmokeScenario
  repeated_event concurrent_duplicate delivery_failure partial_retry : SmokeScenario

pub record SmokeHarnessConfig : Type 0 where
  pub scenario : SmokeScenario
  pub run_id : Uuid
  pub target_user_ids : List Uuid
  pub plans : List (Uuid × ScriptedPlan)
  pub event_uuid : Uuid
  pub callback_request_id : Uuid

-- How reading the configuration ends: `KeyError` is no `SmokeHarnessGuardError`.
pub data Guarded (A : Type 0) : Type 0 where
  accepted : A → Guarded A
  rejected : Text → Guarded A
  key_error : Guarded A

infixl 5 ◌>>=◌ ◌>>◌
unfoldable pub ◌>>=◌ : {A B : Type 0} → Guarded A → (A → Guarded B) → Guarded B
accepted a >>= f = f a
rejected e >>= f = rejected e
key_error >>= f = key_error

abbrev pub ◌>>◌ : {A B : Type 0} → Guarded A → Guarded B → Guarded B
m >> n = m >>= λ _. n

abbrev pub reject_if : Bool → String → Guarded Unit
reject_if true message = rejected (codes message)
reject_if false message = accepted tt

-- `try: … except ValueError: raise SmokeHarnessGuardError(message)`
abbrev pub or_reject : {A : Type 0} → Option A → Text → Guarded A
or_reject none message = rejected message
or_reject (some a) message = accepted a

-- `SmokeScenario(value)` and `ScriptedPlan(value)`
unfoldable pub scenario_of : Text → Option SmokeScenario
scenario_of s =
    if text_eq s (codes "malformed")
    then some malformed
    else if text_eq s (codes "unknown-user")
    then some unknown_user
    else if text_eq s (codes "pending-binding")
    then some pending_binding
    else if text_eq s (codes "blocked-binding")
    then some blocked_binding
    else if text_eq s (codes "soft-deleted-binding")
    then some soft_deleted_binding
    else if text_eq s (codes "repeated-event")
    then some repeated_event
    else if text_eq s (codes "concurrent-duplicate")
    then some concurrent_duplicate
    else if text_eq s (codes "delivery-failure")
    then some delivery_failure
    else if text_eq s (codes "partial-retry")
    then some partial_retry
    else none

unfoldable pub plan_of : Value → Option ScriptedPlan
plan_of (text s) =
    if text_eq s (codes "success")
    then some success
    else if text_eq s (codes "fail-always")
    then some fail_always
    else if text_eq s (codes "fail-first-then-success")
    then some fail_first_then_success
    else none
plan_of _ = none

-- The order of the values of `ScriptedPlan` as texts.
abbrev pub rank : ScriptedPlan → ℕ
rank fail_always = 0
rank fail_first_then_success = 1
rank success = 2

abbrev pub same_plan : ScriptedPlan → ScriptedPlan → Bool
same_plan p q = rank p == rank q

unfoldable pub insert : ScriptedPlan → List ScriptedPlan → List ScriptedPlan
insert p [] = p ∷ []
insert p (q ∷ rest) =
    let further = insert p rest in if leb (rank p) (rank q) then p ∷ q ∷ rest else q ∷ further

unfoldable pub sorted : List ScriptedPlan → List ScriptedPlan
unfolding insert
sorted [] = []
sorted (p ∷ rest) = insert p (sorted rest)

unfoldable pub same_plans : List ScriptedPlan → List ScriptedPlan → Bool
same_plans [] [] = true
same_plans (p ∷ ps) (q ∷ qs) = same_plan p q && same_plans ps qs
same_plans _ _ = false

-- `plans[id]`
unfoldable pub plan_for : Uuid → List (Uuid × ScriptedPlan) → Option ScriptedPlan
plan_for id [] = none
plan_for id ((other, plan) ∷ rest) =
    let later = plan_for id rest in if other == id then some plan else later

abbrev pub values : List (Uuid × ScriptedPlan) → List ScriptedPlan
values = map (λ p. p.1)

-- The one target of `delivery-failure` must never be served.
abbrev pub require_fail_always : Option ScriptedPlan → Guarded Unit
require_fail_always none = key_error
require_fail_always (some plan) =
    reject_if (not (same_plan plan fail_always)) "delivery-failure requires one fail-always target"

abbrev pub require_one : List (Uuid × ScriptedPlan) → List Uuid → Guarded Unit
require_one plans (id ∷ []) = require_fail_always (plan_for id plans)
require_one plans _ = rejected (codes "delivery-failure requires one fail-always target")

abbrev pub require_success : List (Uuid × ScriptedPlan) → Guarded Unit
require_success plans =
    reject_if (any (λ p. not (same_plan p success)) (values plans))
      "this scenario permits only success scripted plans"

unfoldable pub validate_scenario_plan :
    SmokeScenario → List Uuid → List (Uuid × ScriptedPlan) → Guarded Unit
unfolding sorted same_plans
validate_scenario_plan partial_retry targets plans =
    reject_if
      (not (length targets == 2)
        || not
            (same_plans (sorted (values plans)) (sorted (success ∷ fail_first_then_success ∷ []))))
      "partial-retry requires one success and one fail-first target"
validate_scenario_plan delivery_failure targets plans = require_one plans targets
validate_scenario_plan _ targets plans = require_success plans
