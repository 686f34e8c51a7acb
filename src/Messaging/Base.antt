-- ===== src/Messaging/Base.antt =====
-- src/clients/nats/handlers/notification_commands_send_vk.py and the treatment of a message in
-- src/clients/nats/consumers/notification_commands_send_vk.py.
use eq_site_cms_vk_service.Shared.{false, true, Bool, Option, some, ◌==◌, if◌then◌else◌}
use eq_site_cms_vk_service.Errors.{Error, value_error, delivery_retryable, nats_error}
use eq_site_cms_vk_service.Db.{Uuid}
use eq_site_cms_vk_service.Exec.{
  Exec, ask, check, pure, raise, catch, commit, rollback, ◌>>◌, ◌>>=◌,
}
use eq_site_cms_vk_service.Services.Delivery.{SendVkCommand, deliver}
use eq_site_cms_vk_service.Api.{in_new_session}

-- What libraries make of a message: the validated command and the identifier of the header, where
-- they are accepted, and the identifier that a correlation has on this channel.
pub record Codec (Payload Headers : Type 0) : Type 1 where
  pub command : Payload → Option SendVkCommand
  pub message_id : Headers → Option Uuid
  pub expected_id : Uuid → Uuid

abbrev pub close_failed : Error → Exec Unit
close_failed delivery_retryable = do commit; raise delivery_retryable
close_failed other = do rollback; raise other

unfoldable pub deliver_in_session : SendVkCommand → Exec Unit
deliver_in_session command = in_new_session (do catch (deliver command) close_failed; commit)

abbrev pub handle_command : Uuid → SendVkCommand → Uuid → Exec Unit
handle_command expected_id command message_id =
    if message_id == expected_id then deliver_in_session command else raise value_error

-- `message.ack()` or `message.nak()`
unfoldable pub send_answer : Bool → Exec Unit
send_answer acknowledged = do
  taken ← ask (λ env n. env.answered n acknowledged)
  check taken nats_error

module _ {Payload Headers : Type 0} (codec : Codec Payload Headers) where
  abbrev pub handle_decoded : Option SendVkCommand → Option Uuid → Exec Unit
  handle_decoded (some command) (some message_id) =
      handle_command (codec.expected_id command.callback_request_id) command message_id
  handle_decoded _ _ = raise value_error

  unfoldable pub handle : Payload → Headers → Exec Unit
  handle payload headers = handle_decoded (codec.command payload) (codec.message_id headers)

  -- What `message.ack()` or `message.nak()` raises leaves it.
  unfoldable pub process_message : Payload → Headers → Exec Bool
  process_message payload headers = do
    acknowledged ← catch (do handle payload headers; pure true) (λ _. pure false)
    send_answer acknowledged
    pure acknowledged
