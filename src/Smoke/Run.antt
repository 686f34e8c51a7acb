-- ===== src/Smoke/Run.antt =====
-- src/smoke_harness/runner.py: a run, and how it is cleaned up. The handler that the consumer is started
-- with, the settings and the text of the command are not modelled.
use eq_site_cms_vk_service.Shared.{if◌then◌else◌, List, Bool, [], ◌∷◌, true, false}
use eq_site_cms_vk_service.Db.{UserVk}
use eq_site_cms_vk_service.Settings.{Validated, valid, invalid}
use eq_site_cms_vk_service.Smoke.Config.{
  malformed, concurrent_duplicate, repeated_event, partial_retry, delivery_failure, SmokeScenario,
  SmokeHarnessConfig,
}
use eq_site_cms_vk_service.Smoke.Runner.{
  not_isolated, dispose, add_stream, connect, close_client, fixtures_differ, delete_fixtures,
  delete_stream, stop_consumer, start_consumer, select_bindings, sleep, setup_consumers, publish,
  broken, command, Failure, Payload, Run, Outside, SmokeHarnessResult, binding_rows, expected_of,
  fits_expected,
}
use eq_site_cms_vk_service.Smoke.Topology.{SmokeTopology, assert_isolated, for_run}
use eq_site_cms_vk_service.Smoke.Environment.{Python}
use eq_site_cms_vk_service.Smoke.Waiting.{
  rounds, wait_for_sent_rows, wait_for_failed_redelivery_exhaustion, collect_result,
}
use eq_site_cms_vk_service.Process.Script.{
  Ended, returned, raised, perform, observe, pure, raise, try, when, ◌>>=◌, ◌>>◌,
}

-- What the body leaves in the variables of `run`.
pub record Progress : Type 0 where
  pub has_consumer : Bool
  pub stream_created : Bool
  pub body : Ended Failure SmokeHarnessResult

abbrev pub payload_of : SmokeScenario → Payload
payload_of malformed = broken
payload_of _ = command

abbrev pub first_error : Ended Failure Unit → Ended Failure Unit → Run Unit
first_error (raised e) _ = raise e
first_error (returned _) (raised e) = raise e
first_error (returned _) (returned _) = pure tt

-- `asyncio.gather(publish(), publish())`: both are published, and the first error is raised.
abbrev pub publish_twice : Payload → Run Unit
publish_twice payload = do
  one ← try (perform (publish payload))
  two ← try (perform (publish payload))
  first_error one two

abbrev pub publish_first : SmokeScenario → Run Unit
publish_first concurrent_duplicate = publish_twice command
publish_first scenario = perform (publish (payload_of scenario))

abbrev pub publish_again : SmokeScenario → Run Unit
publish_again repeated_event = do perform (publish command); perform sleep
publish_again _ = pure tt

module _ (outside : Outside) (config : SmokeHarnessConfig) where
  abbrev pub wait_for : SmokeScenario → List UserVk → Run Unit
  wait_for delivery_failure rows =
      wait_for_failed_redelivery_exhaustion outside config rows config.target_user_ids
  wait_for partial_retry rows = wait_for_sent_rows outside config rounds
  wait_for repeated_event rows = wait_for_sent_rows outside config rounds
  wait_for concurrent_duplicate rows = wait_for_sent_rows outside config rounds
  wait_for _ rows = perform sleep

  -- Up to the stream, which is then to be deleted.
  unfoldable pub prepare : Run (List UserVk)
  prepare = do
    perform select_bindings
    rows ← observe (λ calls. binding_rows config (outside.db calls))
    if fits_expected (expected_of config.scenario) config.target_user_ids rows
        then pure tt
        else raise fixtures_differ
    perform connect
    perform add_stream
    pure rows

  -- From the start of the consumer on.
  unfoldable pub exercise : List UserVk → Run SmokeHarnessResult
  exercise rows = do
    perform start_consumer
    publish_first config.scenario
    wait_for config.scenario rows
    publish_again config.scenario
    collect_result outside config rows

  -- The consumer stands once the consumers are set up.
  abbrev pub with_consumer : List UserVk → Ended Failure Unit → Run Progress
  with_consumer rows (raised e) =
      pure (record { has_consumer = false; stream_created = true; body = raised e })
  with_consumer rows (returned _) = do
    r ← try (exercise rows)
    pure (record { has_consumer = true; stream_created = true; body = r })

  abbrev pub with_stream : Ended Failure (List UserVk) → Run Progress
  with_stream (raised e) =
      pure (record { has_consumer = false; stream_created = false; body = raised e })
  with_stream (returned rows) = do r ← try (perform setup_consumers); with_consumer rows r

  unfoldable pub run_body : Run Progress
  run_body = do r ← try prepare; with_stream r

  -- The stages, in order; a failure of one does not keep the next from running.
  abbrev pub cleanup_stages : Progress → List (Run Unit)
  cleanup_stages p =
      when p.has_consumer (perform stop_consumer)
      ∷ when p.stream_created (perform delete_stream)
      ∷ perform delete_fixtures
      ∷ perform close_client
      ∷ perform dispose
      ∷ []

abbrev pub more_errors : Ended Failure Unit → List Failure → List Failure
more_errors (returned _) errors = errors
more_errors (raised e) errors = e ∷ errors

unfoldable pub cleanup_errors : List (Run Unit) → Run (List Failure)
cleanup_errors [] = pure []
cleanup_errors (stage ∷ rest) = do
  r ← try stage
  errors ← cleanup_errors rest
  pure (more_errors r errors)

-- How a run ends: with its result, or raising the error of its body, those of the cleanup, or both.
pub data Finish : Type 0 where
  finished : SmokeHarnessResult → Finish
  body_failed : Failure → Finish
  cleanup_failed : List Failure → Finish
  both_failed : Failure → List Failure → Finish

abbrev pub finish_of : Ended Failure SmokeHarnessResult → List Failure → Finish
finish_of (returned r) [] = finished r
finish_of (returned r) (e ∷ errors) = cleanup_failed (e ∷ errors)
finish_of (raised e) [] = body_failed e
finish_of (raised e) (f ∷ errors) = both_failed e (f ∷ errors)

unfoldable pub finish_with_cleanup : Ended Failure SmokeHarnessResult → List (Run Unit) → Run Finish
unfolding cleanup_errors
finish_with_cleanup body stages = do errors ← cleanup_errors stages; pure (finish_of body errors)

-- `topology.assert_isolated()` comes before anything that is cleaned up.
abbrev pub isolated : {A : Type 0} → Validated SmokeTopology → Run A → Run A
isolated (invalid e) m = raise not_isolated
isolated (valid topology) m = m

unfoldable pub run : Python → Outside → SmokeHarnessConfig → Run Finish
unfolding run_body finish_with_cleanup assert_isolated for_run
run py outside config = isolated (assert_isolated (for_run py.unicode (py.hex config.run_id))) (do
  progress ← run_body outside config
  finish_with_cleanup progress.body (cleanup_stages outside config progress))
