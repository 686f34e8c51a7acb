-- ===== src/Process/Closed.antt =====
-- What the process has called by the time it ends.
use eq_site_cms_vk_service.Process.Script.{
  when, ◌>>◌, pure, Answers, Ended, returned, raised, IsRaised, perform, finally,
}
use eq_site_cms_vk_service.Process.Lifespan.{
  Call, start_http_server, serve, stop_consumer, close_client, close_database, shutdown,
  server_close, join_thread, Failure, MetricsRuntime, close, running, closed_runtime, start_up,
  start_metrics_runtime, shut_down, lifespan, close_metrics,
}
use eq_site_cms_vk_service.Process.Rules.{called, step, last_step, in_turn, in_the_end, closing}
use eq_site_cms_vk_service.Text.{Text, codes, text_eq}
use eq_site_cms_vk_service.Shared.{
  Bool, true, false, Option, none, some, List, [], ◌∷◌, ◌≡◌, refl, ◌⊎◌, inl, inr, if◌then◌else◌,
}
use eq_site_cms_vk_service.Process.Started.{has, is_ready, IsIdle, Started, start_up_lem}

module _ (answers : Answers Call Failure) where
  -- The calls that serve and close are the same ones.
  abbrev SameClosed : List Call → List Call → Type 0
  SameClosed calls calls' =
      (has serve calls' ≡ has serve calls)
      × (has stop_consumer calls' ≡ has stop_consumer calls)
      × (has close_client calls' ≡ has close_client calls)
      × (has close_database calls' ≡ has close_database calls)

  close_metrics-SameClosed :
      (m : Option MetricsRuntime) (calls : List Call)
      → SameClosed calls (close_metrics m answers calls).1
  unfolding called close
  close_metrics-SameClosed none calls = (refl, refl, refl, refl)
  close_metrics-SameClosed (some m) calls =
      in_turn answers Same Same (close m) (λ _. pure tt) calls (closed m.closed) (λ m calls h. h)
        (λ e calls h. h)
    where
      Same : {A : Type 0} → Ended Failure A × List Call → Type 0
      Same x = SameClosed calls x.1

      closed :
          (b : Bool)
          → Same (
              (if b then pure m else do
                perform shutdown
                perform server_close
                perform join_thread
                pure closed_runtime)
                answers calls)
      closed true = (refl, refl, refl, refl)
      closed false =
          step answers Same shutdown _ calls
            (λ _.
              step answers Same server_close _ _
                (λ _.
                  step answers Same join_thread _ _ (λ _. (refl, refl, refl, refl))
                    (λ _ _. (refl, refl, refl, refl)))
                (λ _ _. (refl, refl, refl, refl)))
            (λ _ _. (refl, refl, refl, refl))

  -- How the process closes what it has: the database, and the connection where it is ready for messages,
  -- unless stopping or closing it raises, which leaves the database open.
  abbrev pub Shut : {A : Type 0} → Bool → Ended Failure A × List Call → Type 0
  Shut ready (r, calls) =
      (has serve calls ≡ true)
      × (has stop_consumer calls ≡ ready)
      × (((has close_database calls ≡ true) × (has close_client calls ≡ ready))
          ⊎ ((has close_database calls ≡ false) × (ready ≡ true) × IsRaised r))

  abbrev Serving : List Call → Type 0
  Serving calls =
      (has serve calls ≡ true)
      × (has stop_consumer calls ≡ false)
      × (has close_client calls ≡ false)
      × (has close_database calls ≡ false)

  closing_database :
      (ready : Bool) (m : Option MetricsRuntime) (calls : List Call)
      → has serve calls ≡ true
      → has stop_consumer calls ≡ ready
      → has close_client calls ≡ ready
      → Shut ready ((do perform close_database; close_metrics m) answers calls)
  unfolding called
  closing_database ready m calls served stopped closed =
      step answers (Shut ready) close_database (λ _. close_metrics m) calls
        (λ _.
          let (a, b, c, d) = close_metrics-SameClosed m (close_database ∷ calls) in
          rw (a, b, c, d) (served, stopped, inl (refl, closed)))
        (λ e _. (served, stopped, inl (refl, closed)))

  abbrev Disconnected : Bool → Ended Failure Unit → List Call → Type 0
  Disconnected ready (returned _) calls = has close_client calls ≡ ready
  Disconnected ready (raised e) calls = ready ≡ true

  abbrev Stopped : Bool → Ended Failure Unit × List Call → Type 0
  Stopped ready (r, calls) =
      (has serve calls ≡ true)
      × (has stop_consumer calls ≡ ready)
      × (has close_database calls ≡ false)
      × Disconnected ready r calls

  stopping :
      (ready : Bool) (calls : List Call)
      → Serving calls
      → Stopped ready (when ready (do perform stop_consumer; perform close_client) answers calls)
  unfolding called
  stopping false calls (a, b, c, d) = (a, b, d, c)
  stopping true calls (a, b, c, d) =
      step answers (Stopped true) stop_consumer (λ _. perform close_client) calls
        (λ _.
          last_step answers (Stopped true) close_client (stop_consumer ∷ calls)
            (λ _. (a, refl, d, refl)) (λ e _. (a, refl, d, refl)))
        (λ e _. (a, refl, d, refl))

  shut_down_lem :
      (ready : Bool) (m : Option MetricsRuntime) (calls : List Call)
      → Serving calls
      → Shut ready (shut_down ready m answers calls)
  unfolding shut_down
  shut_down_lem ready m calls h =
      in_turn answers (Stopped ready) (Shut ready) _ _ calls (stopping ready calls h)
        (λ _ calls' (a, b, c, d). closing_database ready m calls' a b d)
        (λ e calls' (a, b, c, d). (a, b, inr (c, d, tt)))

  closing-Shut :
      (ready : Bool) (r : Ended Failure Unit) (x : Ended Failure Unit × List Call)
      → Shut ready x
      → Shut ready (closing answers r x)
  closing-Shut ready r (returned _, calls) (a, b, inl c) = (a, b, inl c)
  closing-Shut ready r (returned _, calls) (a, b, inr (c, d, e)) = absurd e
  closing-Shut ready r (raised e, calls) h = h

  -- How the process ends.
  abbrev pub Closed : Ended Failure Unit × List Call → Type 0
  Closed (r, calls) = (IsIdle calls × IsRaised r) ⊎ Shut (is_ready answers) (r, calls)

  serving-Closed :
      (ready : Bool) (m : Option MetricsRuntime) (calls : List Call)
      → ready ≡ is_ready answers
      → IsIdle calls
      → Closed (finally (perform serve) (shut_down ready m) answers calls)
  unfolding called
  serving-Closed ready m calls e (a, b, c, d) =
      in_the_end answers (λ x. Serving x.1) Closed (perform serve) (shut_down ready m) calls
        (last_step answers (λ x. Serving x.1) serve calls (λ _. (refl, b, c, d))
          (λ _ _. (refl, b, c, d)))
        (λ r calls' h. rw (← e) (inr (closing-Shut ready r _ (shut_down_lem ready m calls' h))))

  metrics-IsIdle :
      (lower : Text → Text) (environment : Text) (calls : List Call)
      → IsIdle calls
      → IsIdle (start_metrics_runtime lower environment answers calls).1
  unfolding called start_metrics_runtime
  metrics-IsIdle lower environment calls h = go (text_eq (lower environment) (codes "production"))
    where
      go :
          (b : Bool)
          → IsIdle
              ((if b then (do perform start_http_server; pure (some running)) else pure none)
                answers calls).1
      go true = step answers (λ x. IsIdle x.1) start_http_server _ calls (λ _. h) (λ _ _. h)
      go false = h

  -- Whatever each call of the process does, it ends in one of two ways. Either starting up raises, and it
  -- has then neither served nor closed anything; or it serves, degraded or not, stops the consumer exactly
  -- where the connection was made and set up, and closes the client exactly then and the database as
  -- well, unless stopping the consumer or closing the client raises, which leaves the database open.
  pub lifespan_outcome :
      (lower : Text → Text) (environment : Text) → Closed (lifespan lower environment answers [])
  unfolding lifespan
  lifespan_outcome lower environment =
      in_turn answers (Started answers) Closed start_up _ [] (start_up_lem answers)
        (λ ready calls (h, e).
          in_turn answers (λ x. IsIdle x.1) Closed (start_metrics_runtime lower environment) _ calls
            (metrics-IsIdle lower environment calls h)
            (λ m calls' h'. serving-Closed ready m calls' e h') (λ _ calls' h'. inl (h', tt)))
        (λ _ calls (h, e). inl (h, tt))
