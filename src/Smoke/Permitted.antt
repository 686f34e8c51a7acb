-- ===== src/Smoke/Permitted.antt =====
-- The plans that each scenario permits.
use eq_site_cms_vk_service.Text.{Text}
use eq_site_cms_vk_service.Db.{Uuid}
use eq_site_cms_vk_service.Smoke.Messenger.{
  ScriptedPlan, success, fail_always, fail_first_then_success,
}
use eq_site_cms_vk_service.Smoke.Config.{
  malformed, unknown_user, pending_binding, blocked_binding, soft_deleted_binding, repeated_event,
  concurrent_duplicate, delivery_failure, partial_retry, same_plan, same_plans, sorted, insert,
  require_fail_always, require_success, require_success, delivery_failure, partial_retry,
  SmokeScenario, Guarded, accepted, rejected, key_error, ◌>>=◌, reject_if, or_reject, plan_for,
  validate_scenario_plan, values,
}
use eq_site_cms_vk_service.Shared.{
  zero, suc, ℕ, ◌≡◌, refl, ℕ, not, any, ap, arith, suc, All, length, String, Bool, true, false,
  Option, none, some, List, [], ◌∷◌, ◌≡◌, refl, inl, inr, ◌⊎◌, Member,
}

-- It is rejected with a message, or `P` holds of what is accepted; no `KeyError` gets out.
abbrev pub Ensures : {A : Type 0} → (A → Type 0) → Guarded A → Type 0
Ensures P (accepted a) = P a
Ensures P (rejected e) = Unit
Ensures P key_error = ⊥

pub Ensures-bind :
    {A B : Type 0} (P : A → Type 0) (Q : B → Type 0) (m : Guarded A) (f : A → Guarded B)
    → Ensures P m
    → ((a : A) → P a → Ensures Q (f a))
    → Ensures Q (m >>= f)
unfolding ◌>>=◌
Ensures-bind P Q (accepted a) f h next = next a h
Ensures-bind P Q (rejected e) f h next = tt
Ensures-bind P Q key_error f h next = h

pub reject_if_lem : (b : Bool) (message : String) → Ensures (λ _. b ≡ false) (reject_if b message)
reject_if_lem true message = tt
reject_if_lem false message = refl

pub or_reject_lem :
    {A : Type 0} (x : Option A) (message : Text) → Ensures (λ a. x ≡ some a) (or_reject x message)
or_reject_lem none message = tt
or_reject_lem (some a) message = refl

-- The plans that a scenario is for.
abbrev pub Permits : SmokeScenario → List Uuid → List (Uuid × ScriptedPlan) → Type 0
Permits partial_retry targets plans =
    (length targets ≡ 2)
    × ((values plans ≡ success ∷ fail_first_then_success ∷ [])
        ⊎ (values plans ≡ fail_first_then_success ∷ success ∷ []))
Permits delivery_failure targets plans =
    (id : Uuid) × (targets ≡ id ∷ []) × (plan_for id plans ≡ some fail_always)
Permits _ targets plans = All (λ p. p ≡ success) (values plans)

-- Every target has a plan.
abbrev pub AreCovered : List Uuid → List (Uuid × ScriptedPlan) → Type 0
AreCovered targets plans =
    (id : Uuid) → Member id targets → (plan : ScriptedPlan) × (plan_for id plans ≡ some plan)

pub Ensures-mono :
    {A : Type 0} (P Q : A → Type 0) (m : Guarded A)
    → Ensures P m
    → ((a : A) → P a → Q a)
    → Ensures Q m
Ensures-mono P Q (accepted a) h f = f a h
Ensures-mono P Q (rejected e) h f = tt
Ensures-mono P Q key_error h f = h

same_plan_sound : (p q : ScriptedPlan) → same_plan p q ≡ true → p ≡ q
same_plan_sound success success e = refl
same_plan_sound fail_always fail_always e = refl
same_plan_sound fail_first_then_success fail_first_then_success e = refl
same_plan_sound success fail_always e = absurd (cc e)
same_plan_sound success fail_first_then_success e = absurd (cc e)
same_plan_sound fail_always success e = absurd (cc e)
same_plan_sound fail_always fail_first_then_success e = absurd (cc e)
same_plan_sound fail_first_then_success success e = absurd (cc e)
same_plan_sound fail_first_then_success fail_always e = absurd (cc e)

only_success :
    (plans : List ScriptedPlan)
    → any (λ p. not (same_plan p success)) plans ≡ false
    → All (λ p. p ≡ success) plans
unfolding any
only_success [] e = tt
only_success (p ∷ rest) e =
    let here : same_plan p success ≡ true = ground arith in
    let later : any (λ p. not (same_plan p success)) rest ≡ false = ground arith in
    (same_plan_sound p success here, only_success rest later)

require_success_lem :
    (plans : List (Uuid × ScriptedPlan))
    → Ensures (λ _. All (λ p. p ≡ success) (values plans)) (require_success plans)
require_success_lem plans =
    Ensures-mono _ _ (require_success plans) (reject_if_lem _ _)
      (λ _ e. only_success (values plans) e)

length-insert : (p : ScriptedPlan) (ps : List ScriptedPlan) → length (insert p ps) ≡ suc (length ps)
unfolding insert length
length-insert p [] = refl
length-insert p (q ∷ rest) = let h = length-insert p rest in ground arith

length-sorted : (ps : List ScriptedPlan) → length (sorted ps) ≡ length ps
unfolding sorted length
length-sorted [] = refl
length-sorted (p ∷ rest) = rw (length-insert p (sorted rest), length-sorted rest) refl

same_plans-length : (ps qs : List ScriptedPlan) → same_plans ps qs ≡ true → length ps ≡ length qs
unfolding same_plans length
same_plans-length [] [] e = refl
same_plans-length [] (q ∷ qs) e = absurd (cc e)
same_plans-length (p ∷ ps) [] e = absurd (cc e)
same_plans-length (p ∷ ps) (q ∷ qs) e =
    let later : same_plans ps qs ≡ true = ground arith in
    let h = same_plans-length ps qs later in omega arith

abbrev one_of_each : List ScriptedPlan
one_of_each = success ∷ fail_first_then_success ∷ []

abbrev IsOneOfEach : List ScriptedPlan → Type 0
IsOneOfEach plans = (plans ≡ one_of_each) ⊎ (plans ≡ fail_first_then_success ∷ success ∷ [])

two_plans :
    (ps : List ScriptedPlan) → same_plans (sorted ps) (sorted one_of_each) ≡ true → IsOneOfEach ps
unfolding sorted insert same_plans length
two_plans [] e = absurd (cc e)
two_plans (p ∷ []) e = absurd (rest_of (same_plans-length (p ∷ []) (sorted one_of_each) e))
  where
    rest_of : suc zero ≡ suc (suc zero) → ⊥
    rest_of h = omega arith
two_plans (success ∷ fail_first_then_success ∷ []) e = inl refl
two_plans (fail_first_then_success ∷ success ∷ []) e = inr refl
two_plans (success ∷ success ∷ []) e = absurd (cc e)
two_plans (success ∷ fail_always ∷ []) e = absurd (cc e)
two_plans (fail_first_then_success ∷ fail_first_then_success ∷ []) e = absurd (cc e)
two_plans (fail_first_then_success ∷ fail_always ∷ []) e = absurd (cc e)
two_plans (fail_always ∷ success ∷ []) e = absurd (cc e)
two_plans (fail_always ∷ fail_first_then_success ∷ []) e = absurd (cc e)
two_plans (fail_always ∷ fail_always ∷ []) e = absurd (cc e)
two_plans (p ∷ q ∷ r ∷ rest) e =
    let same : length (sorted (p ∷ q ∷ r ∷ rest)) ≡ 2 =
      same_plans-length (sorted (p ∷ q ∷ r ∷ rest)) (sorted one_of_each) e in
    let long : length (sorted (p ∷ q ∷ r ∷ rest)) ≡ length (p ∷ q ∷ r ∷ rest) =
      length-sorted (p ∷ q ∷ r ∷ rest) in
    absurd (too_long (length rest) (cc (same, long)))
  where
    too_long : (n : ℕ) → suc (suc (suc n)) ≡ 2 → ⊥
    too_long n h = omega arith

partial_retry_lem :
    (targets : List Uuid) (plans : List (Uuid × ScriptedPlan))
    → Ensures
        (λ _. Permits partial_retry targets plans)
        (validate_scenario_plan partial_retry targets plans)
unfolding validate_scenario_plan
partial_retry_lem targets plans =
    Ensures-mono _ _ (validate_scenario_plan partial_retry targets plans) (reject_if_lem _ _)
      (λ _ e.
        let two : length targets ≡ 2 = ground arith in
        let each : same_plans (sorted (values plans)) (sorted one_of_each) ≡ true = ground arith in
        (two, two_plans (values plans) each))

delivery_failure_lem :
    (targets : List Uuid) (plans : List (Uuid × ScriptedPlan))
    → AreCovered targets plans
    → Ensures
        (λ _. Permits delivery_failure targets plans)
        (validate_scenario_plan delivery_failure targets plans)
unfolding validate_scenario_plan
delivery_failure_lem [] plans h = tt
delivery_failure_lem (id ∷ other ∷ rest) plans h = tt
delivery_failure_lem (id ∷ []) plans h =
    let (plan, e) = h id (inl refl) in
    rw (e) (
      Ensures-mono _ _ (require_fail_always (some plan)) (reject_if_lem _ _)
        (λ _ f. (id, refl, rw (e) (ap some (same_plan_sound plan fail_always (ground arith))))))

pub validate_scenario_plan_lem :
    (scenario : SmokeScenario) (targets : List Uuid) (plans : List (Uuid × ScriptedPlan))
    → AreCovered targets plans
    → Ensures (λ _. Permits scenario targets plans) (validate_scenario_plan scenario targets plans)
unfolding validate_scenario_plan
validate_scenario_plan_lem partial_retry targets plans h = partial_retry_lem targets plans
validate_scenario_plan_lem delivery_failure targets plans h = delivery_failure_lem targets plans h
validate_scenario_plan_lem malformed targets plans h = require_success_lem plans
validate_scenario_plan_lem unknown_user targets plans h = require_success_lem plans
validate_scenario_plan_lem pending_binding targets plans h = require_success_lem plans
validate_scenario_plan_lem blocked_binding targets plans h = require_success_lem plans
validate_scenario_plan_lem soft_deleted_binding targets plans h = require_success_lem plans
validate_scenario_plan_lem repeated_event targets plans h = require_success_lem plans
validate_scenario_plan_lem concurrent_duplicate targets plans h = require_success_lem plans
