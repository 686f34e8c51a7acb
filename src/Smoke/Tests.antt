-- ===== src/Smoke/Tests.antt =====
-- The harness at concrete peers and a concrete run.
use eq_site_cms_vk_service.Smoke.Config.{SmokeHarnessConfig, repeated_event}
use eq_site_cms_vk_service.Smoke.Runner.{Call, Failure, Outside, close_client, outside}
use eq_site_cms_vk_service.Smoke.Cleaned.{RunDone}
use eq_site_cms_vk_service.Smoke.Run.{run}
use eq_site_cms_vk_service.Smoke.Ran.{run_outcome}
use eq_site_cms_vk_service.Smoke.Main.{main, main_outcome, MainDone}
use eq_site_cms_vk_service.Process.Script.{Answers}
use eq_site_cms_vk_service.Db.{empty_db}
use eq_site_cms_vk_service.Smoke.Accepted.{IsSound, from_environment_outcome}
use eq_site_cms_vk_service.Smoke.Permitted.{Ensures}
use eq_site_cms_vk_service.Smoke.Environment.{Python, Environment, from_environment}
use eq_site_cms_vk_service.Text.Json.{dict, field, text, no_fields}
use eq_site_cms_vk_service.Smoke.Targets.{uuid_list, uuid_list_outcome, IsOpen, Verdict}
use eq_site_cms_vk_service.Text.{text_eq, Text, split_on_from}
use eq_site_cms_vk_service.Db.{Uuid}
use eq_site_cms_vk_service.Shared.{refl, none, ◌⊎◌, Option}
use eq_site_cms_vk_service.Smoke.Topology.{assert_isolated, for_run, assert_isolated-for_run}
use eq_site_cms_vk_service.Smoke.Messenger.{
  success, fail_first_then_success, ScriptedVkMessenger, answers_to, planned, count,
  answers_to-planned,
}
use eq_site_cms_vk_service.Settings.{valid}
use eq_site_cms_vk_service.Fixtures.{ascii}
use eq_site_cms_vk_service.Shared.{ℤ, pos, some, List, [], ◌∷◌, ◌≡◌, ◌==ℤ◌, if◌then◌else◌}
use eq_site_cms_vk_service.Text.{codes}

assert_isolated-for_run_example :
    assert_isolated (for_run ascii (codes "0a1b")) ≡ valid (for_run ascii (codes "0a1b"))
assert_isolated-for_run_example = assert_isolated-for_run ascii (codes "0a1b")

-- The peer 1 fails first; any other peer is served.
abbrev scripted : ScriptedVkMessenger
scripted = record {
  plans = λ peer. some (if peer ==ℤ pos 1 then fail_first_then_success else success);
  attempts = λ peer. 0;
}

abbrev peers : List ℤ
peers = pos 1 ∷ pos 2 ∷ pos 1 ∷ []

answers_to-planned_example :
    answers_to (pos 1) peers scripted ≡ planned (scripted.plans (pos 1)) 0 (count (pos 1) peers)
answers_to-planned_example = answers_to-planned (pos 1) peers scripted

-- A text of one character is an identifier, its code point.
abbrev one_character : Text → Option Uuid
one_character (c ∷ []) = some c
one_character _ = none

-- The same, whatever follows.
abbrev first_character : Text → Option Uuid
first_character (c ∷ _) = some c
first_character [] = none

uuid_list_outcome_example :
    (IsOpen ascii one_character (codes "a, b")
      × (uuid_list ascii one_character (codes "a, b") ≡ valid []))
    ⊎ ((IsOpen ascii one_character (codes "a, b") → ⊥)
        × Verdict ascii one_character
            (split_on_from 44 [] (codes "a, b"))
            (uuid_list ascii one_character (codes "a, b")))
uuid_list_outcome_example = uuid_list_outcome ascii one_character (codes "a, b")

-- One target that always fails, in the scenario of a failing delivery; the other texts are identifiers by
-- their first character.
abbrev python : Python
python = record {
  unicode = ascii;
  lower = λ s. s;
  parse_uuid = first_character;
  str_uuid = λ id. id ∷ [];
  hex = λ id. id ∷ [];
  loads = λ s. some (dict (field (codes "t") (text (codes "fail-always")) no_fields));
}

abbrev variables : Environment
variables name =
    if text_eq name (codes "EQSITECMS_SMOKE_HARNESS")
    then some (codes "1")
    else if text_eq name (codes "EQSITECMS_ENVIRONMENT")
    then some (codes " local ")
    else if text_eq name (codes "EQSITECMS_SMOKE_SCENARIO")
    then some (codes "delivery-failure")
    else some (codes "t")

from_environment_outcome_example :
    Ensures (IsSound python variables) (from_environment python variables)
from_environment_outcome_example = from_environment_outcome python (λ id. refl) variables

-- Nobody is bound, and closing the connection fails.
abbrev nobody : Outside
nobody = record { db = λ calls. empty_db; attempts_for = λ calls peer. 0; redelivered = λ calls. 0 }

abbrev close_fails : Answers Call Failure
close_fails calls close_client = some (outside 1)
close_fails calls _ = none

abbrev repeated : SmokeHarnessConfig
repeated = record {
  scenario = repeated_event;
  run_id = 1;
  target_user_ids = 501 ∷ [];
  plans = (501, success) ∷ [];
  event_uuid = 2;
  callback_request_id = 3;
}

run_outcome_example : RunDone close_fails (run python nobody repeated close_fails [])
run_outcome_example = run_outcome close_fails nobody repeated python

main_outcome_example :
    MainDone python variables close_fails (main python variables nobody close_fails)
main_outcome_example = main_outcome python variables nobody close_fails (λ id. refl)
