-- ===== src/Process/Started.antt =====
-- What the process has called when it has started up, or has failed to.
use eq_site_cms_vk_service.Process.Script.{◌>>◌, Answers, Ended, returned, raised, perform}
use eq_site_cms_vk_service.Process.Lifespan.{
  caught, Call, connect, setup, start_consumer, start_http_server, serve, stop_consumer,
  close_client, close_database, shutdown, server_close, join_thread, Failure, os_error, other_error,
  start_up, after_setup,
}
use eq_site_cms_vk_service.Process.Rules.{called, step, last_step, tried}
use eq_site_cms_vk_service.Shared.{
  Bool, true, false, ◌&&◌, is_none, List, [], ◌∷◌, ◌≡◌, refl, ℕ, sym,
}

abbrev pub number_of : Call → ℕ
number_of connect = 0
number_of setup = 1
number_of start_consumer = 2
number_of start_http_server = 3
number_of serve = 4
number_of stop_consumer = 5
number_of close_client = 6
number_of close_database = 7
number_of shutdown = 8
number_of server_close = 9
number_of join_thread = 10

abbrev pub has : Call → List Call → Bool
has = called number_of

-- Both parts of getting ready for messages succeed.
abbrev pub is_ready : Answers Call Failure → Bool
is_ready answers = is_none (answers [] connect) && is_none (answers (connect ∷ []) setup)

-- The process has neither served nor closed anything.
abbrev pub IsIdle : List Call → Type 0
IsIdle calls =
    (has serve calls ≡ false)
    × (has stop_consumer calls ≡ false)
    × (has close_client calls ≡ false)
    × (has close_database calls ≡ false)

abbrev pub SaysReady : Bool → Ended Failure Bool → Type 0
SaysReady ready (returned b) = b ≡ ready
SaysReady ready (raised e) = Unit

abbrev SaysConnected : Bool → Ended Failure Unit → Type 0
SaysConnected ready (returned _) = ready ≡ true
SaysConnected ready (raised e) = ready ≡ false

module _ (answers : Answers Call Failure) where
  abbrev Connected : Ended Failure Unit × List Call → Type 0
  Connected (r, calls) = IsIdle calls × SaysConnected (is_ready answers) r

  abbrev pub Started : Ended Failure Bool × List Call → Type 0
  Started (r, calls) = IsIdle calls × SaysReady (is_ready answers) r

  connecting : Connected ((do perform connect; perform setup) answers [])
  unfolding called
  connecting =
      step answers Connected connect (λ _. perform setup) []
        (λ c.
          last_step answers Connected setup (connect ∷ [])
            (λ d. ((refl, refl, refl, refl), rw (c, d) refl))
            (λ e d. ((refl, refl, refl, refl), rw (c, d) refl)))
        (λ e c. ((refl, refl, refl, refl), rw (c) refl))

  pub start_up_lem : Started (start_up answers [])
  unfolding start_up called
  start_up_lem =
      tried answers Connected Started (do perform connect; perform setup) _ [] connecting next
    where
      next :
          (r : Ended Failure Unit) (calls : List Call)
          → Connected (r, calls)
          → Started (after_setup r answers calls)
      next (raised os_error) calls (h, ready) = (h, sym ready)
      next (raised other_error) calls (h, ready) = (h, tt)
      next (returned _) calls (h, ready) =
          tried answers (λ x. IsIdle x.1) Started (perform start_consumer) _ calls
            (last_step answers (λ x. IsIdle x.1) start_consumer calls (λ _. h) (λ e _. h))
            (after_start (sym ready))
        where
          after_start :
              true ≡ is_ready answers
              → (r : Ended Failure Unit) (calls : List Call) → IsIdle calls
              → Started (caught true r answers calls)
          after_start ready (returned _) calls h = (h, ready)
          after_start ready (raised os_error) calls h = (h, ready)
          after_start ready (raised other_error) calls h = (h, tt)
