-- ===== src/Db.antt =====
-- src/models: the rows of the four tables. An `UUID` is a number, since it is only compared; a
-- `DateTime` counts microseconds from `datetime.min`; a status column holds one of the values that
-- the code writes. `details` of a log row is the list of its entries.
use eq_site_cms_vk_service.Shared.{ℕ, ℤ, String, Bool, true, false, Option, List, []}
use eq_site_cms_vk_service.Text.{Text}

abbrev pub Uuid : Type 0
Uuid = ℕ

abbrev pub DateTime : Type 0
DateTime = ℕ

pub data BindingState : Type 0 where
  pending active blocked : BindingState

unfoldable pub state_eq : BindingState → BindingState → Bool
state_eq pending pending = true
state_eq active active = true
state_eq blocked blocked = true
state_eq _ _ = false

pub record UserVk : Type 0 where
  pub id : Uuid
  pub user_id : Uuid
  pub vk_peer_id : Option ℤ
  pub state : BindingState
  pub vk_screen_name : Option Text
  pub vk_display_name : Option Text
  pub deleted_at : Option DateTime
  pub created_at : DateTime
  pub updated_at : DateTime

pub record VkConfirmation : Type 0 where
  pub id : Uuid
  pub user_vk_id : Uuid
  pub code : Text
  pub expires_at : DateTime
  pub created_at : DateTime
  pub used_at : Option DateTime

pub data Action : Type 0 where
  vk_issue_confirmation vk_unlink vk_confirmation vk_message_deny vk_message_allow vk_message :
      Action

pub data LogStatus : Type 0 where
  conflict_active conflict_blocked success noop : LogStatus
  not_found used expired peer_conflict error rate_limited already_confirmed : LogStatus
  no_binding ignored_chat unknown_command missing_code : LogStatus

-- One entry of the JSON object, by its key.
pub data Detail : Type 0 where
  vk_peer_id : ℤ → Detail
  user_id user_vk_id : Uuid → Detail
  code : Text → Detail
  previous_state state : BindingState → Detail
  reason : String → Detail

pub record VkLog : Type 0 where
  pub id : Uuid
  pub event_uuid : Uuid
  pub action : Action
  pub status : LogStatus
  pub details : List Detail
  pub created_at : DateTime

pub data DeliveryStatus : Type 0 where
  pending sent failed : DeliveryStatus

pub record VkNotificationDelivery : Type 0 where
  pub id : Uuid
  pub event_uuid : Uuid
  pub user_id : Uuid
  pub vk_peer_id : ℤ
  pub status : DeliveryStatus
  pub attempts : ℕ
  pub last_error : Option Text
  pub created_at : DateTime
  pub updated_at : DateTime
  pub sent_at : Option DateTime

pub record Db : Type 0 where
  pub user_vks : List UserVk
  pub vk_confirmations : List VkConfirmation
  pub vk_logs : List VkLog
  pub vk_notification_deliveries : List VkNotificationDelivery

abbrev pub empty_db : Db
empty_db = record {
  user_vks = [];
  vk_confirmations = [];
  vk_logs = [];
  vk_notification_deliveries = [];
}
