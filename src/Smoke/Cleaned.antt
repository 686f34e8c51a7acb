-- ===== src/Smoke/Cleaned.antt =====
-- What a run leaves behind.
use eq_site_cms_vk_service.Repositories.Query.{is_empty}
use eq_site_cms_vk_service.Smoke.Config.{SmokeHarnessConfig}
use eq_site_cms_vk_service.Smoke.Runner.{
  Call, Failure, Run, Outside, SmokeHarnessResult, select_bindings, connect, add_stream,
  setup_consumers, start_consumer, publish, sleep, select_deliveries, consumer_info, stop_consumer,
  delete_stream, delete_fixtures, close_client, dispose,
}
use eq_site_cms_vk_service.Smoke.Run.{
  Progress, Finish, finished, cleanup_errors, cleanup_stages, more_errors, finish_of,
  finish_with_cleanup,
}
use eq_site_cms_vk_service.Process.Script.{Answers, Ended, returned, raised, perform, when}
use eq_site_cms_vk_service.Process.Rules.{last_step, in_turn, tried, called, all_returned}
use eq_site_cms_vk_service.Shared.{
  arith, Bool, true, false, ◌||◌, ◌&&◌, ◌==◌, is_none, ℕ, List, [], ◌∷◌, map, ◌≡◌, refl,
}

abbrev pub number_of : Call → ℕ
number_of select_bindings = 0
number_of connect = 1
number_of add_stream = 2
number_of setup_consumers = 3
number_of start_consumer = 4
number_of (publish _) = 5
number_of sleep = 6
number_of select_deliveries = 7
number_of consumer_info = 8
number_of stop_consumer = 9
number_of delete_stream = 10
number_of delete_fixtures = 11
number_of close_client = 12
number_of dispose = 13

abbrev pub has : Call → List Call → Bool
has = called number_of

-- The run has made its stream: the call to add it has returned.
unfoldable pub has_made_stream : Answers Call Failure → List Call → Bool
has_made_stream answers [] = false
has_made_stream answers (c ∷ calls) =
    (number_of c == number_of add_stream && is_none (answers calls c))
    || has_made_stream answers calls

-- A stage of the cleanup, as a call that is made or left out.
abbrev stage : Bool × Call → Run Unit
stage (b, call) = when b (perform call)

abbrev plan : Progress → List (Bool × Call)
plan p =
    (p.has_consumer, stop_consumer)
    ∷ (p.stream_created, delete_stream)
    ∷ (true, delete_fixtures)
    ∷ (true, close_client)
    ∷ (true, dispose)
    ∷ []

-- The calls of the stages, whatever they answer.
unfoldable pub swept : List (Bool × Call) → List Call → List Call
swept [] calls = calls
swept ((true, call) ∷ rest) calls = swept rest (call ∷ calls)
swept ((false, call) ∷ rest) calls = swept rest calls

module _ (answers : Answers Call Failure) where
  abbrev Staged : Bool × Call → List Call → Ended Failure Unit × List Call → Type 0
  Staged s calls (r, calls') =
      (calls' ≡ swept (s ∷ []) calls)
      × ((is_empty (more_errors r []) && all_returned answers calls) ≡ true
          → all_returned answers calls' ≡ true)

  stage_lem : (s : Bool × Call) (calls : List Call) → Staged s calls (stage s answers calls)
  unfolding swept all_returned
  stage_lem (false, call) calls = (refl, λ e. e)
  stage_lem (true, call) calls =
      last_step answers (Staged (true, call) calls) call calls (λ f. (refl, λ e. rw (f) e))
        (λ x f. (refl, λ e. absurd (cc e)))

  abbrev Swept : List (Bool × Call) → List Call → Ended Failure (List Failure) × List Call → Type 0
  Swept stages calls (raised e, calls') = ⊥
  Swept stages calls (returned errors, calls') =
      (calls' ≡ swept stages calls)
      × ((is_empty errors && all_returned answers calls) ≡ true
          → all_returned answers calls' ≡ true)

  cleanup_errors_lem :
      (stages : List (Bool × Call)) (calls : List Call)
      → Swept stages calls (cleanup_errors (map stage stages) answers calls)
  unfolding cleanup_errors swept
  cleanup_errors_lem [] calls = (refl, λ e. e)
  cleanup_errors_lem (s ∷ rest) calls =
      tried answers (Staged s calls) (Swept (s ∷ rest) calls) (stage s) _ calls (stage_lem s calls)
        (λ r calls' (made, good).
          in_turn answers (Swept rest calls') (Swept (s ∷ rest) calls)
            (cleanup_errors (map stage rest)) _ calls' (cleanup_errors_lem rest calls')
            (λ errors calls'' (made', good').
              joined s r errors calls' calls'' made good made' good')
            (λ e calls'' h. absurd h))
    where
      joined :
          (s : Bool × Call) (r : Ended Failure Unit) (errors : List Failure)
          (calls' calls'' : List Call)
          → calls' ≡ swept (s ∷ []) calls
          → ((is_empty (more_errors r []) && all_returned answers calls) ≡ true
              → all_returned answers calls' ≡ true)
          → calls'' ≡ swept rest calls'
          → ((is_empty errors && all_returned answers calls') ≡ true
              → all_returned answers calls'' ≡ true)
          → Swept (s ∷ rest) calls (returned (more_errors r errors), calls'')
      joined (b, call) r errors calls' calls'' made good made' good' =
          (order b made, all_good r good)
        where
          order :
              (b : Bool)
              → calls' ≡ swept ((b, call) ∷ []) calls
              → calls'' ≡ swept ((b, call) ∷ rest) calls
          order true e = rw (← e) made'
          order false e = rw (← e) made'

          all_good :
              (r : Ended Failure Unit)
              → ((is_empty (more_errors r []) && all_returned answers calls) ≡ true
                  → all_returned answers calls' ≡ true)
              → (is_empty (more_errors r errors) && all_returned answers calls) ≡ true
              → all_returned answers calls'' ≡ true
          all_good (raised x) good e = absurd (cc e)
          all_good (returned _) good e =
              let before : all_returned answers calls ≡ true = ground arith in
              let here = good before in good' (ground arith)

  -- Nothing of the cleanup has been done yet; the stream has been made, or not, and the consumer started.
  abbrev pub Underway : Bool → Bool → List Call → Type 0
  Underway made started calls =
      (has delete_stream calls ≡ false)
      × (has stop_consumer calls ≡ false)
      × (has_made_stream answers calls ≡ made)
      × (has start_consumer calls ≡ started)

  abbrev pub Good : {A : Type 0} → Ended Failure A → List Call → Type 0
  Good (returned _) calls = all_returned answers calls ≡ true
  Good (raised e) calls = Unit

  abbrev pub BodyDone : Ended Failure Progress × List Call → Type 0
  BodyDone (raised e, calls) = ⊥
  BodyDone (returned p, calls) = Underway p.stream_created p.has_consumer calls × Good p.body calls

  -- The consumer is stopped exactly where it was started, the stream is deleted exactly where this run has
  -- made it, the rows of the run are deleted, and the connections closed.
  abbrev pub IsCleanedUp : List Call → Type 0
  IsCleanedUp calls =
      (has stop_consumer calls ≡ has start_consumer calls)
      × (has delete_stream calls ≡ has_made_stream answers calls)
      × (has delete_fixtures calls ≡ true)
      × (has close_client calls ≡ true)
      × (has dispose calls ≡ true)

  -- A result comes only from a run none of whose calls has raised.
  abbrev pub Honest : Finish → List Call → Type 0
  Honest (finished r) calls = all_returned answers calls ≡ true
  Honest _ calls = Unit

  abbrev pub RunDone : Ended Failure Finish × List Call → Type 0
  RunDone (raised e, calls) = ⊥
  RunDone (returned f, calls) = IsCleanedUp calls × Honest f calls

  swept-IsCleanedUp :
      (p : Progress) (calls calls' : List Call)
      → Underway p.stream_created p.has_consumer calls
      → calls' ≡ swept (plan p) calls
      → IsCleanedUp calls'
  unfolding swept called has_made_stream
  swept-IsCleanedUp p calls calls' (a, b, c, d) e =
      rw (e) (go p.has_consumer p.stream_created b a c d)
    where
      go :
          (started made : Bool)
          → has stop_consumer calls ≡ false
          → has delete_stream calls ≡ false
          → has_made_stream answers calls ≡ made
          → has start_consumer calls ≡ started
          → IsCleanedUp (
              swept
                ((started, stop_consumer)
                  ∷ (made, delete_stream)
                  ∷ (true, delete_fixtures)
                  ∷ (true, close_client)
                  ∷ (true, dispose)
                  ∷ [])
                calls)
      go true true b a c d = rw (d, c) (refl, refl, refl, refl, refl)
      go true false b a c d = rw (d, c, a) (refl, refl, refl, refl, refl)
      go false true b a c d = rw (d, c, b) (refl, refl, refl, refl, refl)
      go false false b a c d = rw (d, c, b, a) (refl, refl, refl, refl, refl)

  finish-Honest :
      (body : Ended Failure SmokeHarnessResult) (errors : List Failure) (calls calls' : List Call)
      → Good body calls
      → ((is_empty errors && all_returned answers calls) ≡ true
          → all_returned answers calls' ≡ true)
      → Honest (finish_of body errors) calls'
  finish-Honest (returned r) [] calls calls' h good = good h
  finish-Honest (returned r) (e ∷ errors) calls calls' h good = tt
  finish-Honest (raised e) [] calls calls' h good = tt
  finish-Honest (raised e) (f ∷ errors) calls calls' h good = tt

  pub finish_lem :
      (outside : Outside) (config : SmokeHarnessConfig) (p : Progress) (calls : List Call)
      → BodyDone (returned p, calls)
      → RunDone (finish_with_cleanup p.body (cleanup_stages outside config p) answers calls)
  unfolding finish_with_cleanup
  finish_lem outside config p calls (underway, good) =
      in_turn answers (Swept (plan p) calls) RunDone (cleanup_errors (map stage (plan p))) _ calls
        (cleanup_errors_lem (plan p) calls)
        (λ errors calls' (made, all_good). (
          swept-IsCleanedUp p calls calls' underway made,
          finish-Honest p.body errors calls calls' good all_good,
        ))
        (λ e calls' h. absurd h)
