-- ===== src/Smoke/Environment.antt =====
-- `SmokeHarnessConfig.from_environment` of src/smoke_harness/config.py.
use eq_site_cms_vk_service.Repositories.Query.{is_empty}
use eq_site_cms_vk_service.Shared.{
  none, some, true, false, Option, ◌==◌, some, ◌&&◌, any, ◌∷◌, map, if◌then◌else◌, ◌++◌, [], true,
  ◌||◌, Option, List, false, not, Bool,
}
use eq_site_cms_vk_service.Text.{Text, Unicode, codes, strip, text_eq}
use eq_site_cms_vk_service.Text.Json.{Value, Fields, dict, no_fields, field}
use eq_site_cms_vk_service.Db.{Uuid}
use eq_site_cms_vk_service.Settings.{Validated, valid, invalid}
use eq_site_cms_vk_service.Smoke.Messenger.{ScriptedPlan}
use eq_site_cms_vk_service.Smoke.Targets.{uuid_list}
use eq_site_cms_vk_service.Smoke.Config.{
  SmokeHarnessConfig, Guarded, accepted, rejected, ◌>>=◌, ◌>>◌, reject_if, or_reject, scenario_of,
  plan_of, validate_scenario_plan,
}

-- The library's calls, on texts.
pub record Python : Type 0 where
  pub unicode : Unicode
  pub lower : Text → Text
  pub parse_uuid : Text → Option Uuid
  pub str_uuid : Uuid → Text
  pub hex : Uuid → Text
  pub loads : Text → Option Value

abbrev pub Environment : Type 0
Environment = Text → Option Text

abbrev pub or_empty : Option Text → Text
or_empty none = []
or_empty (some s) = s

abbrev pub guarded : {A : Type 0} → Validated A → Guarded A
guarded (valid a) = accepted a
guarded (invalid e) = rejected e

unfoldable pub has_key : Text → Fields → Bool
has_key key no_fields = false
has_key key (field other value rest) = text_eq other key || has_key key rest

unfoldable pub keys_are_among : List Text → Fields → Bool
keys_are_among names no_fields = true
keys_are_among names (field key value rest) = any (text_eq key) names && keys_are_among names rest

module _ (py : Python) where
  abbrev pub not_nil : Text → Option Uuid → Guarded Uuid
  not_nil name none = rejected (name ++ codes " must be an exact UUID")
  not_nil name (some id) =
      if id == 0 then rejected (name ++ codes " must not be nil") else accepted id

  unfoldable pub required_uuid : Environment → Text → Guarded Uuid
  required_uuid env name = not_nil name (py.parse_uuid (strip py.unicode (or_empty (env name))))

  -- `set(decoded) == {str(target) for target in targets}`
  abbrev pub keys_match : List Uuid → Fields → Bool
  keys_match targets entries =
      keys_are_among (map py.str_uuid targets) entries
      && not (any (λ id. not (has_key (py.str_uuid id) entries)) targets)

  -- What is decoded, if it is a dictionary with these keys.
  abbrev pub require_keys : List Uuid → Value → Guarded Fields
  require_keys targets (dict entries) =
      if keys_match targets entries
      then accepted entries
      else rejected (codes "scripted plans must exactly match synthetic targets")
  require_keys targets _ = rejected (codes "scripted plans must exactly match synthetic targets")

  abbrev pub one_plan : Text → Value → Option (Uuid × ScriptedPlan)
  one_plan key value = elim (py.parse_uuid key) [
    | none ↦ none
    | some id ↦ elim (plan_of value) [ none ↦ none | some plan ↦ some (id, plan) ]
  ]

  unfoldable pub plans_of : Fields → Guarded (List (Uuid × ScriptedPlan))
  plans_of no_fields = accepted []
  plans_of (field key value rest) = do
    plan ←
        or_reject (one_plan key value) (codes "scripted plans contain an invalid target or outcome")
    plans ← plans_of rest
    accepted (plan ∷ plans)

  unfoldable pub from_environment : Environment → Guarded SmokeHarnessConfig
  unfolding required_uuid plans_of
  from_environment env = do
    reject_if (not (text_eq (or_empty (env (codes "EQSITECMS_SMOKE_HARNESS"))) (codes "1")))
        "smoke harness is disabled"
    reject_if
        (not (
          text_eq (py.lower (strip py.unicode (or_empty (env (codes "EQSITECMS_ENVIRONMENT")))))
            (codes "local")))
        "smoke harness requires local environment"
    run_id ← required_uuid env (codes "EQSITECMS_SMOKE_RUN_ID")
    event_uuid ← required_uuid env (codes "EQSITECMS_SMOKE_EVENT_ID")
    callback_request_id ← required_uuid env (codes "EQSITECMS_SMOKE_CALLBACK_REQUEST_ID")
    scenario ←
        or_reject (scenario_of (or_empty (env (codes "EQSITECMS_SMOKE_SCENARIO"))))
          (codes "a supported exact smoke scenario is required")
    targets ← guarded (
        uuid_list py.unicode py.parse_uuid
          (or_empty (env (codes "EQSITECMS_SMOKE_SYNTHETIC_TARGETS"))))
    reject_if (is_empty targets) "at least one exact synthetic target is required"
    decoded ←
        or_reject (py.loads (or_empty (env (codes "EQSITECMS_SMOKE_SCRIPTED_PLANS"))))
          (codes "scripted plans must be a JSON object")
    entries ← require_keys targets decoded
    plans ← plans_of entries
    validate_scenario_plan scenario targets plans
    accepted (record {
      scenario = scenario;
      run_id = run_id;
      target_user_ids = targets;
      plans = plans;
      event_uuid = event_uuid;
      callback_request_id = callback_request_id;
    })
