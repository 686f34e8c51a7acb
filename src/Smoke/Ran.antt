-- ===== src/Smoke/Ran.antt =====
-- A whole run: its body, then its cleanup.
use eq_site_cms_vk_service.Db.{UserVk}
use eq_site_cms_vk_service.Smoke.Config.{SmokeHarnessConfig}
use eq_site_cms_vk_service.Smoke.Runner.{
  fixtures_differ, Call, Failure, Outside, select_bindings, connect, add_stream, setup_consumers,
  start_consumer, fits_expected, expected_of, binding_rows,
}
use eq_site_cms_vk_service.Smoke.Run.{prepare, exercise, with_stream, with_consumer, run_body, run}
use eq_site_cms_vk_service.Smoke.Cleaned.{has_made_stream, Underway, BodyDone, RunDone, finish_lem}
use eq_site_cms_vk_service.Process.Script.{
  Answers, Ended, returned, raised, perform, pure, raise, observe, ◌>>◌,
}
use eq_site_cms_vk_service.Process.Rules.{step, last_step, in_turn, tried, called, all_returned}
use eq_site_cms_vk_service.Shared.{true, false, List, [], ◌≡◌, refl}
use eq_site_cms_vk_service.Smoke.Topology.{assert_isolated-for_run}
use eq_site_cms_vk_service.Smoke.Environment.{Python}
use eq_site_cms_vk_service.Smoke.Neutral.{
  On, perform-Neutral, if-Neutral, raise-Neutral, exercised-Neutral,
}

module _ (answers : Answers Call Failure) (outside : Outside) (config : SmokeHarnessConfig) where
  exercise_lem :
      (rows : List UserVk) (calls : List Call)
      → Underway answers true false calls
      → all_returned answers calls ≡ true
      → On answers true true (exercise outside config rows answers calls)
  unfolding exercise called has_made_stream all_returned
  exercise_lem rows calls (a, b, c, d) g =
      in_turn answers (On answers true true) (On answers true true) (perform start_consumer) _ calls
        (last_step answers (On answers true true) start_consumer calls
          (λ f. ((a, b, c, refl), rw (f) g)) (λ e f. ((a, b, c, refl), tt)))
        (λ _ calls' (u, g'). exercised-Neutral answers true true outside config rows calls' u g')
        (λ e calls' (u, _). (u, tt))

  -- The stream has been made exactly where the preparation has returned.
  abbrev Prepared : {A : Type 0} → Ended Failure A × List Call → Type 0
  Prepared (returned _, calls) =
      Underway answers true false calls × (all_returned answers calls ≡ true)
  Prepared (raised e, calls) = Underway answers false false calls

  made_stream :
      (rows : List UserVk) (calls : List Call)
      → Underway answers false false calls
      → all_returned answers calls ≡ true
      → Prepared ((do perform add_stream; pure rows) answers calls)
  unfolding called has_made_stream all_returned
  made_stream rows calls (a, b, c, d) g =
      step answers Prepared add_stream (λ _. pure rows) calls
        (λ f. ((a, b, rw (f) refl, d), rw (f) g)) (λ e f. (a, b, rw (f) c, d))

  prepare_lem : Prepared (prepare outside config answers [])
  unfolding prepare called has_made_stream all_returned
  prepare_lem =
      in_turn answers Still Prepared (perform select_bindings) _ []
        (perform-Neutral answers false false select_bindings refl [] (refl, refl, refl, refl) refl)
        (λ _ calls (u, g).
          in_turn answers Still Prepared (observe (λ calls. binding_rows config (outside.db calls)))
            _ calls (u, g)
            (λ rows calls (u, g).
              in_turn answers Still Prepared _ _ calls
                (if-Neutral answers false false
                  (fits_expected (expected_of config.scenario) config.target_user_ids rows)
                  (pure tt) (raise fixtures_differ) (λ _ u g. (u, g))
                  (raise-Neutral answers false false Unit fixtures_differ) calls u g)
                (λ _ calls (u, g).
                  in_turn answers Still Prepared (perform connect) _ calls
                    (perform-Neutral answers false false connect refl calls u g)
                    (λ _ calls (u, g). made_stream rows calls u g) (λ e calls (u, _). u))
                (λ e calls (u, _). u))
            (λ e calls (u, _). u))
        (λ e calls (u, _). u)
    where
      Still : {A : Type 0} → Ended Failure A × List Call → Type 0
      Still x = On answers false false x

  run_body_lem : BodyDone answers (run_body outside config answers [])
  unfolding run_body
  run_body_lem =
      tried answers Prepared (BodyDone answers) (prepare outside config) _ [] prepare_lem streamed
    where
      consuming :
          (rows : List UserVk) (r : Ended Failure Unit) (calls : List Call)
          → On answers true false (r, calls)
          → BodyDone answers (with_consumer outside config rows r answers calls)
      consuming rows (raised e) calls (u, _) = (u, tt)
      consuming rows (returned _) calls (u, g) =
          tried answers (On answers true true) (BodyDone answers) (exercise outside config rows) _
            calls (exercise_lem rows calls u g) (λ r calls h. h)

      streamed :
          (r : Ended Failure (List UserVk)) (calls : List Call)
          → Prepared (r, calls)
          → BodyDone answers (with_stream outside config r answers calls)
      streamed (raised e) calls u = (u, tt)
      streamed (returned rows) calls (u, g) =
          tried answers (On answers true false) (BodyDone answers) (perform setup_consumers) _ calls
            (perform-Neutral answers true false setup_consumers refl calls u g) (consuming rows)

  -- However each call of a run ends, and whatever is read on the way, the run ends: with its result, or
  -- with the errors of its body and of its cleanup. By then it has stopped the consumer exactly where it
  -- has started it, deleted the stream exactly where it has made it, called for its rows of the
  -- database to be deleted and for both connections to be closed; and it ends with a result only where every one of its calls has returned.
  pub run_outcome : (py : Python) → RunDone answers (run py outside config answers [])
  unfolding run
  run_outcome py = rw (assert_isolated-for_run py.unicode (py.hex config.run_id)) (
      in_turn answers (BodyDone answers) (RunDone answers) (run_body outside config) _ []
        run_body_lem (λ p calls h. finish_lem answers outside config p calls h)
        (λ e calls h. absurd h))
