-- ===== src/System/Base.antt =====
-- All that makes the service act: the endpoints of src/api/endpoints/vks.py, the handlers of
-- src/bot/handlers.py and the messages of src/clients/nats/consumers.
use eq_site_cms_vk_service.Steps.Base.{permits, writes, leaves, asks, looks, Cause}
use eq_site_cms_vk_service.Shared.{ℤ, Option, String, List, [], ◌∷◌}
use eq_site_cms_vk_service.Text.{Text}
use eq_site_cms_vk_service.Db.{active, blocked, Uuid}
use eq_site_cms_vk_service.Exec.{Env, World}
use eq_site_cms_vk_service.Services.Binding.{BindingSettings}
use eq_site_cms_vk_service.Services.Confirm.{ConfirmationSettings}
use eq_site_cms_vk_service.Api.{
  Dialog, create_binding, post_issue_confirmation, delete_binding, get_vks,
}
use eq_site_cms_vk_service.Bot.Base.{handle_message, handle_message_deny, handle_message_allow}
use eq_site_cms_vk_service.Messaging.Base.{Codec, process_message}

-- What the service is set up with, and what libraries decode for it.
pub record Setup (Payload Headers : Type 0) : Type 1 where
  pub binding : BindingSettings
  pub confirmation : ConfirmationSettings
  pub dialog : Dialog
  pub link_command : String
  pub codec : Codec Payload Headers
  pub parse_uuid : Text → Option Uuid

pub data Event (Payload Headers : Type 0) : Type 0 where
  get_request : Text → Option Text → Event Payload Headers
  create_request issue_request delete_request : Uuid → Event Payload Headers
  message : ℤ → ℤ → Text → Event Payload Headers
  message_deny message_allow : ℤ → Event Payload Headers
  command : Payload → Headers → Event Payload Headers

module _ {Payload Headers : Type 0} where
  -- Whom an event is from.
  unfoldable pub cause_of : Event Payload Headers → Cause
  cause_of (get_request ids state) = looks
  cause_of (create_request owner) = asks owner
  cause_of (issue_request owner) = asks owner
  cause_of (delete_request owner) = leaves owner
  cause_of (message peer_id from_id text) = writes from_id
  cause_of (message_deny user_id) = permits user_id blocked
  cause_of (message_allow user_id) = permits user_id active
  cause_of (command payload headers) = looks

module _ {Payload Headers : Type 0} (s : Setup Payload Headers) where
  -- The world after an event, however it has ended.
  unfoldable pub serve : Event Payload Headers → Env → World → World
  serve (get_request ids state) env w = (get_vks s.parse_uuid ids state env w).1
  serve (create_request owner) env w = (create_binding owner env w).1
  serve (issue_request owner) env w = (post_issue_confirmation s.binding s.dialog owner env w).1
  serve (delete_request owner) env w = (delete_binding owner env w).1
  serve (message peer_id from_id text) env w =
      (handle_message s.confirmation s.link_command peer_id from_id text env w).1
  serve (message_deny user_id) env w = (handle_message_deny user_id env w).1
  serve (message_allow user_id) env w = (handle_message_allow user_id env w).1
  serve (command payload headers) env w = (process_message s.codec payload headers env w).1

  -- One after the other.
  unfoldable pub serve_all : List (Event Payload Headers) → Env → World → World
  serve_all [] env w = w
  serve_all (e ∷ rest) env w = serve_all rest env (serve e env w)
