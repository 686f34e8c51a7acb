-- ===== src/Smoke/Waiting.antt =====
-- src/smoke_harness/runner.py: waiting for the ledger, and what is collected from it.
use mathlib.Core.Option
use eq_site_cms_vk_service.Shared.{
  ◌==◌, ◌&&◌, if◌then◌else◌, ◌∷◌, select, ℕ, Bool, Option, ℤ, List, none, some, [], zero, suc, true,
  false,
}
use eq_site_cms_vk_service.Db.{Uuid, VkNotificationDelivery, DeliveryStatus, UserVk}
use eq_site_cms_vk_service.Repositories.Deliveries.{is_delivery}
use eq_site_cms_vk_service.Smoke.Config.{SmokeHarnessConfig}
use eq_site_cms_vk_service.Smoke.Runner.{
  select_deliveries, sleep, consumer_info, timed_out, max_deliver_exceeded, key_error,
  multiple_rows, Call, Run, Outside, RecipientEvidence, SmokeHarnessResult, delivery_rows, all_sent,
  peer_by_user, ledger,
}
use eq_site_cms_vk_service.Process.Script.{perform, observe, pure, raise, ◌>>=◌, ◌>>◌}

abbrev pub smoke_max_deliver : ℕ
smoke_max_deliver = 3

-- The rounds of each of the two loops.
abbrev pub rounds : ℕ
rounds = 80

abbrev is_failed : DeliveryStatus → Bool
is_failed DeliveryStatus.failed = true
is_failed _ = false

module _ (outside : Outside) (config : SmokeHarnessConfig) where
  unfoldable pub wait_for_sent_rows : ℕ → Run Unit
  wait_for_sent_rows zero = raise timed_out
  wait_for_sent_rows (suc n) = do
    perform select_deliveries
    rows ← observe (λ calls. delivery_rows config (outside.db calls))
    let again = (do perform sleep; wait_for_sent_rows n) in
        if all_sent config rows then pure tt else again

  -- `all((…))`
  abbrev pub is_exhausted : VkNotificationDelivery → ℕ → Bool
  is_exhausted row attempts =
      is_failed row.status && row.attempts == smoke_max_deliver && attempts == smoke_max_deliver

  -- The delivery is not to be tried once more after the last time.
  abbrev pub check_quiet : ℤ → Run Unit
  check_quiet peer = do
    perform sleep
    attempts ← observe (λ calls. outside.attempts_for calls peer)
    if attempts == smoke_max_deliver then pure tt else raise max_deliver_exceeded

  -- What a query of one row, or none, finds: more are an error.
  abbrev pub exhausted_by : ℤ → List VkNotificationDelivery → Run Bool
  exhausted_by peer [] = pure false
  exhausted_by peer (row ∷ []) =
      observe (λ calls. is_exhausted row (outside.attempts_for calls peer))
  exhausted_by peer (row ∷ other ∷ rest) = raise multiple_rows

  unfoldable pub wait_for_exhaustion : Uuid → ℤ → ℕ → Run Unit
  wait_for_exhaustion id peer zero = raise timed_out
  wait_for_exhaustion id peer (suc n) = do
    perform select_deliveries
    rows ← observe (λ calls.
        select (is_delivery config.event_uuid id) (outside.db calls).vk_notification_deliveries)
    exhausted ← exhausted_by peer rows
    let again = (do perform sleep; wait_for_exhaustion id peer n) in
        if exhausted then check_quiet peer else again

  -- `config.target_user_ids[0]` and `peer_by_user[user_id]`
  abbrev pub wait_for_peer : Uuid → Option ℤ → Run Unit
  wait_for_peer id none = raise key_error
  wait_for_peer id (some peer) = wait_for_exhaustion id peer rounds

  unfoldable pub wait_for_failed_redelivery_exhaustion : List UserVk → List Uuid → Run Unit
  wait_for_failed_redelivery_exhaustion rows [] = raise key_error
  wait_for_failed_redelivery_exhaustion rows (id ∷ _) = wait_for_peer id (peer_by_user id rows)

  abbrev attempts_of : List Call → Option ℤ → ℕ
  attempts_of calls none = 0
  attempts_of calls (some peer) = outside.attempts_for calls peer

  -- The evidence for the targets, numbered from `recipient` on.
  unfoldable pub evidence :
      List UserVk → List VkNotificationDelivery → List Call → ℕ → List Uuid → List RecipientEvidence
  evidence bindings deliveries calls recipient [] = []
  evidence bindings deliveries calls recipient (id ∷ rest) =
      record {
        recipient = recipient;
        status = Option.map (λ r. r.status) (ledger id deliveries);
        attempts = attempts_of calls (peer_by_user id bindings);
      }
      ∷ evidence bindings deliveries calls (suc recipient) rest

  unfoldable pub collect_result : List UserVk → Run SmokeHarnessResult
  collect_result bindings = do
    perform select_deliveries
    recipients ← observe (λ calls.
        evidence bindings (delivery_rows config (outside.db calls)) calls 1 config.target_user_ids)
    perform consumer_info
    redeliveries ← observe outside.redelivered
    pure (record {
      scenario = config.scenario;
      recipients = recipients;
      redeliveries = redeliveries;
    })
