-- ===== src/Services/Delivery.antt =====
-- src/core/services/vk_notification_delivery.py: sending a notification to the recipients of a
-- command (src/core/schemas/messaging/notification_command_send_vk.py).
pub mod Sent
pub mod Apart
mod Others
mod Again
pub mod Loop
pub mod Redelivery
mod Tests
use eq_site_cms_vk_service.Shared.{
  String, ℤ, Bool, true, false, ◌&&◌, ◌||◌, Option, none, some, List, [], ◌∷◌, ◌==◌, is_none,
  if◌then◌else◌,
}
use eq_site_cms_vk_service.Text.{codes}
use eq_site_cms_vk_service.Errors.{delivery_retryable}
use eq_site_cms_vk_service.Db.{Uuid, UserVk, VkNotificationDelivery, active}
use eq_site_cms_vk_service.Exec.{Exec, pure, raise, ◌>>=◌, ◌>>◌}
use eq_site_cms_vk_service.Repositories.UserVks.{get_by_user_ids, is_live}
use eq_site_cms_vk_service.Repositories.Deliveries.{claim_attempt, mark_sent, mark_failed}
use eq_site_cms_vk_service.Services.Messenger.{send_message}

-- A validated command.
pub record SendVkCommand : Type 0 where
  pub event_uuid : Uuid
  pub callback_request_id : Uuid
  pub user_ids : List Uuid
  pub text : String

-- The peer of a recipient in the dictionary of the active bindings: a later entry replaces an
-- earlier one, and a binding that is deleted or has no peer makes none.
abbrev pub own_peer : UserVk → Uuid → Option ℤ
own_peer b user_id = if b.user_id == user_id && is_live b then b.vk_peer_id else none

unfoldable pub active_peer : List UserVk → Uuid → Option ℤ
active_peer [] user_id = none
active_peer (b ∷ rest) user_id =
    let later = active_peer rest user_id in if is_none later then own_peer b user_id else later

-- Whether the delivery to a recipient has failed.
abbrev pub settle : SendVkCommand → Uuid → Bool → Exec Bool
settle command user_id true = do mark_sent command.event_uuid user_id; pure false
settle command user_id false = do
  mark_failed command.event_uuid user_id (codes "VK_API_SEND_FAILED")
  pure true

abbrev pub send_claimed : SendVkCommand → Uuid → ℤ → Option VkNotificationDelivery → Exec Bool
send_claimed command user_id peer_id none = pure false
send_claimed command user_id peer_id (some _) = do
  sent ← send_message peer_id command.text
  settle command user_id sent

abbrev pub deliver_to_peer : SendVkCommand → Uuid → Option ℤ → Exec Bool
deliver_to_peer command user_id none = pure false
deliver_to_peer command user_id (some peer_id) = do
  claimed ← claim_attempt command.event_uuid user_id peer_id
  send_claimed command user_id peer_id claimed

-- The loop over the recipients, with whether one has failed.
unfoldable pub deliver_each : SendVkCommand → List UserVk → List Uuid → Bool → Exec Bool
deliver_each command bindings [] failed = pure failed
deliver_each command bindings (user_id ∷ rest) failed = do
  now_failed ← deliver_to_peer command user_id (active_peer bindings user_id)
  deliver_each command bindings rest (failed || now_failed)

abbrev pub raise_if : Bool → Exec Unit
raise_if true = raise delivery_retryable
raise_if false = pure tt

unfoldable pub deliver : SendVkCommand → Exec Unit
deliver command = do
  bindings ← get_by_user_ids command.user_ids (some active)
  failed ← deliver_each command bindings command.user_ids false
  raise_if failed
