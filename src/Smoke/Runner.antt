-- ===== src/Smoke/Runner.antt =====
-- src/smoke_harness/runner.py: what the runner calls, what it reads, and the tests that it makes.
use eq_site_cms_vk_service.Shared.{none, some, [], true}
use eq_site_cms_vk_service.Repositories.Deliveries.{is_sent}
use eq_site_cms_vk_service.Repositories.Query.{is_empty}
use eq_site_cms_vk_service.Shared.{
  not, is_none, ◌∷◌, ◌&&◌, true, ◌==◌, some, if◌then◌else◌, none, any, length, Bool, Option, select,
  ℤ, List, ℕ,
}
use eq_site_cms_vk_service.Db.{
  state_eq, Db, UserVk, VkNotificationDelivery, Uuid, BindingState, DeliveryStatus,
}
use eq_site_cms_vk_service.Smoke.Config.{
  malformed, unknown_user, pending_binding, blocked_binding, soft_deleted_binding, SmokeScenario,
  SmokeHarnessConfig,
}
use eq_site_cms_vk_service.Process.Script.{Script}

pub data Payload : Type 0 where
  broken command : Payload

-- A call of the runner: of the database, of the server, of the consumer, or of the clock.
pub data Call : Type 0 where
  select_bindings connect add_stream setup_consumers start_consumer : Call
  publish : Payload → Call
  sleep select_deliveries consumer_info : Call
  stop_consumer delete_stream delete_fixtures close_client dispose : Call

-- What the runner raises itself, and what a call has raised, by a number.
pub data Failure : Type 0 where
  fixtures_differ timed_out max_deliver_exceeded key_error multiple_rows not_isolated : Failure
  outside : ℕ → Failure

abbrev pub Run : Type 0 → Type 0
Run = Script Call Failure

-- What is read after the calls made so far: the database, the messages that the scripted messenger has
-- had for a peer, and the redeliveries that the server counts.
pub record Outside : Type 0 where
  pub db : List Call → Db
  pub attempts_for : List Call → ℤ → ℕ
  pub redelivered : List Call → ℕ

pub record RecipientEvidence : Type 0 where
  pub recipient : ℕ
  -- nothing for `SKIPPED`
  pub status : Option DeliveryStatus
  pub attempts : ℕ

pub record SmokeHarnessResult : Type 0 where
  pub scenario : SmokeScenario
  pub recipients : List RecipientEvidence
  pub redeliveries : ℕ

unfoldable pub is_among : Uuid → List Uuid → Bool
is_among id ids = any (λ other. other == id) ids

-- The rows of `run`'s query.
abbrev pub binding_rows : SmokeHarnessConfig → Db → List UserVk
binding_rows config db = select (λ r. is_among r.user_id config.target_user_ids) db.user_vks

-- The rows of the ledger for the event and the targets.
abbrev pub delivery_rows : SmokeHarnessConfig → Db → List VkNotificationDelivery
delivery_rows config db =
    select (λ r. r.event_uuid == config.event_uuid && is_among r.user_id config.target_user_ids)
      db.vk_notification_deliveries

-- What `_validate_fixture_state` expects of the rows.
pub data Expected : Type 0 where
  anything no_row deleted_rows : Expected
  live_rows : BindingState → Expected

unfoldable pub expected_of : SmokeScenario → Expected
expected_of malformed = anything
expected_of unknown_user = no_row
expected_of pending_binding = live_rows BindingState.pending
expected_of blocked_binding = live_rows BindingState.blocked
expected_of soft_deleted_binding = deleted_rows
expected_of _ = live_rows BindingState.active

unfoldable pub fits_expected : Expected → List Uuid → List UserVk → Bool
fits_expected anything targets rows = true
fits_expected no_row targets rows = is_empty rows
fits_expected deleted_rows targets rows =
    length rows == length targets && not (any (λ r. is_none r.deleted_at) rows)
fits_expected (live_rows state) targets rows =
    length rows == length targets
    && not (any (λ r. not (state_eq r.state state && is_none r.deleted_at)) rows)

-- `peer_by_user`; the last row of a user counts.
abbrev peer_of_row : UserVk → Option ℤ
peer_of_row r =
    if state_eq r.state BindingState.active && is_none r.deleted_at then r.vk_peer_id else none

abbrev pub or_else : {A : Type 0} → Option A → Option A → Option A
or_else none x = x
or_else (some a) x = some a

unfoldable pub peer_by_user : Uuid → List UserVk → Option ℤ
peer_by_user id [] = none
peer_by_user id (r ∷ rest) =
    let later = peer_by_user id rest in
    or_else later (if r.user_id == id then peer_of_row r else none)

-- `ledger`; the last row of a user counts.
unfoldable pub ledger : Uuid → List VkNotificationDelivery → Option VkNotificationDelivery
ledger id [] = none
ledger id (r ∷ rest) =
    let later = ledger id rest in or_else later (if r.user_id == id then some r else none)

-- Every target has a row, and all are sent.
unfoldable pub all_sent : SmokeHarnessConfig → List VkNotificationDelivery → Bool
all_sent config rows =
    length rows == length config.target_user_ids && not (any (λ r. not (is_sent r.status)) rows)
