-- ===== src/Smoke/Neutral.antt =====
-- The parts of a run that leave its stream and its consumer as they are.
use eq_site_cms_vk_service.Db.{UserVk, VkNotificationDelivery, Uuid}
use eq_site_cms_vk_service.Smoke.Config.{
  SmokeScenario, SmokeHarnessConfig, malformed, unknown_user, pending_binding, blocked_binding,
  soft_deleted_binding, repeated_event, concurrent_duplicate, delivery_failure, partial_retry,
}
use eq_site_cms_vk_service.Smoke.Runner.{
  broken, timed_out, max_deliver_exceeded, key_error, multiple_rows, Call, Failure, Payload, Run,
  Outside, publish, sleep, select_deliveries, consumer_info, command, all_sent, peer_by_user,
}
use eq_site_cms_vk_service.Smoke.Waiting.{
  rounds, wait_for_sent_rows, wait_for_exhaustion, wait_for_peer,
  wait_for_failed_redelivery_exhaustion, check_quiet, exhausted_by, collect_result,
  smoke_max_deliver,
}
use eq_site_cms_vk_service.Smoke.Run.{
  first_error, publish_twice, publish_first, publish_again, wait_for,
}
use eq_site_cms_vk_service.Smoke.Cleaned.{number_of, has_made_stream, Underway, Good}
use eq_site_cms_vk_service.Process.Script.{
  try, Answers, Ended, returned, raised, perform, raise, ◌>>=◌, ◌>>◌,
}
use eq_site_cms_vk_service.Process.Rules.{last_step, in_turn, tried, called, all_returned}
use eq_site_cms_vk_service.Shared.{
  if◌then◌else◌, arith, Bool, true, false, not, ◌&&◌, ◌==◌, ℕ, List, [], ◌∷◌, ◌≡◌, refl, ℤ, Option,
  none, some, zero, suc,
}

-- A call that neither makes nor deletes the stream, and neither starts nor stops the consumer.
abbrev is_neutral : Call → Bool
is_neutral c =
    not (number_of c == 2)
    && not (number_of c == 4)
    && not (number_of c == 9)
    && not (number_of c == 10)

module _ (answers : Answers Call Failure) where
  module _ (made started : Bool) where
    abbrev pub On : {A : Type 0} → Ended Failure A × List Call → Type 0
    On (r, calls) = Underway answers made started calls × Good answers r calls

    -- A part of the body that leaves the stream and the consumer as they are.
    abbrev pub Neutral : {A : Type 0} → Run A → Type 0
    Neutral m =
        (calls : List Call)
        → Underway answers made started calls
        → all_returned answers calls ≡ true
        → On (m answers calls)

    pub still_Underway :
        (c : Call) (calls : List Call)
        → is_neutral c ≡ true
        → Underway answers made started calls
        → Underway answers made started (c ∷ calls)
    unfolding called has_made_stream
    still_Underway c calls n (a, b, d, e) =
        let n₂ : (number_of c == 2) ≡ false = ground arith in
        let n₄ : (number_of c == 4) ≡ false = ground arith in
        let n₉ : (number_of c == 9) ≡ false = ground arith in
        let n₁₀ : (number_of c == 10) ≡ false = ground arith in rw (n₂, n₄, n₉, n₁₀) (a, b, d, e)

    pub perform-Neutral : (c : Call) → is_neutral c ≡ true → Neutral (perform c)
    unfolding all_returned
    perform-Neutral c n calls u g =
        last_step answers On c calls (λ f. (still_Underway c calls n u, rw (f) g))
          (λ e f. (still_Underway c calls n u, tt))

    pub raise-Neutral : (A : Type 0) (e : Failure) → Neutral (raise {A = A} e)
    raise-Neutral A e calls u g = (u, tt)

    pub then-Neutral :
        {A B : Type 0} (m : Run A) (f : A → Run B)
        → Neutral m
        → ((a : A) → Neutral (f a))
        → Neutral (m >>= f)
    then-Neutral m f h next calls u g =
        in_turn answers On On m f calls (h calls u g) (λ a calls' (u', g'). next a calls' u' g')
          (λ e calls' (u', _). (u', tt))

    pub if-Neutral :
        {A : Type 0} (b : Bool) (m n : Run A) → Neutral m → Neutral n → Neutral (if b then m else n)
    if-Neutral true m n h k = h
    if-Neutral false m n h k = k

    publish_twice-Neutral : (payload : Payload) → Neutral (publish_twice payload)
    publish_twice-Neutral payload calls u g =
        tried answers On On (perform (publish payload)) _ calls
          (perform-Neutral (publish payload) refl calls u g) once
      where
        twice :
            (r : Ended Failure Unit) (calls : List Call)
            → On (r, calls)
            → On (first_error (returned tt) r answers calls)
        twice (returned _) calls h = h
        twice (raised e) calls h = h

        once :
            (r : Ended Failure Unit) (calls : List Call)
            → On (r, calls)
            → On ((do two ← try (perform (publish payload)); first_error r two) answers calls)
        once (returned _) calls (u, g) =
            tried answers On On (perform (publish payload)) _ calls
              (perform-Neutral (publish payload) refl calls u g) twice
        once (raised e) calls (u, _) =
            tried answers (λ x. Underway answers made started x.1) On (perform (publish payload)) _
              calls
              (last_step answers (λ x. Underway answers made started x.1) (publish payload) calls
                (λ _. still_Underway (publish payload) calls refl u)
                (λ _ _. still_Underway (publish payload) calls refl u))
              (λ r calls' u'. (u', tt))

    module _ (outside : Outside) (config : SmokeHarnessConfig) where
      wait_for_sent_rows-Neutral : (n : ℕ) → Neutral (wait_for_sent_rows outside config n)
      unfolding wait_for_sent_rows
      wait_for_sent_rows-Neutral zero = raise-Neutral Unit timed_out
      wait_for_sent_rows-Neutral (suc n) =
          then-Neutral _ _ (perform-Neutral select_deliveries refl) (λ _.
            then-Neutral _ _ (λ _ u g. (u, g))
              (λ rows.
                if-Neutral (all_sent config rows) _ _ (λ _ u g. (u, g))
                  (then-Neutral _ _ (perform-Neutral sleep refl)
                    (λ _. wait_for_sent_rows-Neutral n))))

      check_quiet-Neutral : (peer : ℤ) → Neutral (check_quiet outside config peer)
      check_quiet-Neutral peer = then-Neutral _ _ (perform-Neutral sleep refl) (λ _.
          then-Neutral _ _ (λ _ u g. (u, g))
            (λ attempts.
              if-Neutral (attempts == smoke_max_deliver) _ _ (λ _ u g. (u, g))
                (raise-Neutral Unit max_deliver_exceeded)))

      exhausted_by-Neutral :
          (peer : ℤ) (rows : List VkNotificationDelivery)
          → Neutral (exhausted_by outside config peer rows)
      exhausted_by-Neutral peer [] = λ _ u g. (u, g)
      exhausted_by-Neutral peer (row ∷ []) = λ _ u g. (u, g)
      exhausted_by-Neutral peer (row ∷ other ∷ rest) = raise-Neutral Bool multiple_rows

      wait_for_exhaustion-Neutral :
          (id : Uuid) (peer : ℤ) (n : ℕ) → Neutral (wait_for_exhaustion outside config id peer n)
      unfolding wait_for_exhaustion
      wait_for_exhaustion-Neutral id peer zero = raise-Neutral Unit timed_out
      wait_for_exhaustion-Neutral id peer (suc n) =
          then-Neutral _ _ (perform-Neutral select_deliveries refl) (λ _.
            then-Neutral _ _ (λ _ u g. (u, g))
              (λ rows. then-Neutral _ _ (exhausted_by-Neutral peer rows) (λ exhausted.
                if-Neutral exhausted _ _ (check_quiet-Neutral peer) (
                  then-Neutral _ _ (perform-Neutral sleep refl)
                    (λ _. wait_for_exhaustion-Neutral id peer n)))))

      wait_for_peer-Neutral :
          (id : Uuid) (peer : Option ℤ) → Neutral (wait_for_peer outside config id peer)
      wait_for_peer-Neutral id none = raise-Neutral Unit key_error
      wait_for_peer-Neutral id (some peer) = wait_for_exhaustion-Neutral id peer rounds

      wait_for_first-Neutral :
          (rows : List UserVk) (ids : List Uuid)
          → Neutral (wait_for_failed_redelivery_exhaustion outside config rows ids)
      unfolding wait_for_failed_redelivery_exhaustion
      wait_for_first-Neutral rows [] = raise-Neutral Unit key_error
      wait_for_first-Neutral rows (id ∷ _) = wait_for_peer-Neutral id (peer_by_user id rows)

      wait_for-Neutral :
          (s : SmokeScenario) (rows : List UserVk) → Neutral (wait_for outside config s rows)
      wait_for-Neutral delivery_failure rows = wait_for_first-Neutral rows config.target_user_ids
      wait_for-Neutral partial_retry rows = wait_for_sent_rows-Neutral rounds
      wait_for-Neutral repeated_event rows = wait_for_sent_rows-Neutral rounds
      wait_for-Neutral concurrent_duplicate rows = wait_for_sent_rows-Neutral rounds
      wait_for-Neutral malformed rows = perform-Neutral sleep refl
      wait_for-Neutral unknown_user rows = perform-Neutral sleep refl
      wait_for-Neutral pending_binding rows = perform-Neutral sleep refl
      wait_for-Neutral blocked_binding rows = perform-Neutral sleep refl
      wait_for-Neutral soft_deleted_binding rows = perform-Neutral sleep refl

      collect_result-Neutral : (rows : List UserVk) → Neutral (collect_result outside config rows)
      unfolding collect_result
      collect_result-Neutral rows = then-Neutral _ _ (perform-Neutral select_deliveries refl) (λ _.
          then-Neutral _ _ (λ _ u g. (u, g))
            (λ recipients.
              then-Neutral _ _ (perform-Neutral consumer_info refl)
                (λ _. then-Neutral _ _ (λ _ u g. (u, g)) (λ redeliveries _ u g. (u, g)))))

      publish_first-Neutral : (s : SmokeScenario) → Neutral (publish_first s)
      publish_first-Neutral concurrent_duplicate = publish_twice-Neutral command
      publish_first-Neutral malformed = perform-Neutral (publish broken) refl
      publish_first-Neutral unknown_user = perform-Neutral (publish command) refl
      publish_first-Neutral pending_binding = perform-Neutral (publish command) refl
      publish_first-Neutral blocked_binding = perform-Neutral (publish command) refl
      publish_first-Neutral soft_deleted_binding = perform-Neutral (publish command) refl
      publish_first-Neutral repeated_event = perform-Neutral (publish command) refl
      publish_first-Neutral delivery_failure = perform-Neutral (publish command) refl
      publish_first-Neutral partial_retry = perform-Neutral (publish command) refl

      publish_again-Neutral : (s : SmokeScenario) → Neutral (publish_again s)
      publish_again-Neutral repeated_event =
          then-Neutral _ _ (perform-Neutral (publish command) refl)
            (λ _. perform-Neutral sleep refl)
      publish_again-Neutral malformed = λ _ u g. (u, g)
      publish_again-Neutral unknown_user = λ _ u g. (u, g)
      publish_again-Neutral pending_binding = λ _ u g. (u, g)
      publish_again-Neutral blocked_binding = λ _ u g. (u, g)
      publish_again-Neutral soft_deleted_binding = λ _ u g. (u, g)
      publish_again-Neutral concurrent_duplicate = λ _ u g. (u, g)
      publish_again-Neutral delivery_failure = λ _ u g. (u, g)
      publish_again-Neutral partial_retry = λ _ u g. (u, g)

      pub exercised-Neutral :
          (rows : List UserVk)
          → Neutral (do
            publish_first config.scenario
            wait_for outside config config.scenario rows
            publish_again config.scenario
            collect_result outside config rows)
      exercised-Neutral rows = then-Neutral _ _ (publish_first-Neutral config.scenario) (λ _.
          then-Neutral _ _ (wait_for-Neutral config.scenario rows) (λ _.
            then-Neutral _ _ (publish_again-Neutral config.scenario)
              (λ _. collect_result-Neutral rows)))
