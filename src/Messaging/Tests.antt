-- ===== src/Messaging/Tests.antt =====
-- The theorems on messages with a concrete codec: the payload is the command itself, and the
-- identifier of a message is the successor of its correlation.
use eq_site_cms_vk_service.Messaging.Consumer.{
  Fetch, messages, timed_out, treated, cut_off, consume,
}
use eq_site_cms_vk_service.Messaging.Consumed.{Consumed, IsCancelled, fetched, consume_outcome}
use eq_site_cms_vk_service.Messaging.Connection.{Client, Drain, close, IsClosed, close-IsClosed}
use eq_site_cms_vk_service.Messaging.Policy.{
  ConnectionEvent, failed, disconnected, new_policy, run, is_error,
}
use eq_site_cms_vk_service.Messaging.Incidents.{failures, reports, incident_is_reported_once}
use eq_site_cms_vk_service.Messaging.Setup.{Answer, registered, not_found, setup_consumers}
use eq_site_cms_vk_service.Messaging.Registration.{Tried, setup_consumers_outcome}
use eq_site_cms_vk_service.Shared.{ℕ, List, [], ◌∷◌, leb, length, select, if◌then◌else◌}
use eq_site_cms_vk_service.Shared.{◌≡◌, suc, true, false, some}
use eq_site_cms_vk_service.Db.{Uuid}
use eq_site_cms_vk_service.Services.Delivery.{SendVkCommand}
use eq_site_cms_vk_service.Fixtures.{calm, start, greeting}
use eq_site_cms_vk_service.Messaging.Base.{Codec, handle, process_message}
use eq_site_cms_vk_service.Messaging.Answered.{
  Handled, AnsweredBy, handle_outcome, process_message_outcome,
}

abbrev plain_codec : Codec SendVkCommand Uuid
plain_codec = record {
  command = λ payload. some payload;
  message_id = λ headers. some headers;
  expected_id = λ correlation. suc correlation;
}

handle_outcome_example :
    Handled
      (some greeting)
      (some 902)
      (λ correlation. suc correlation)
      calm
      start
      (handle plain_codec greeting 902 calm start)
handle_outcome_example = handle_outcome plain_codec greeting 902 calm start

process_message_outcome_example :
    AnsweredBy calm
      (handle plain_codec greeting 902 calm start)
      (process_message plain_codec greeting 902 calm start)
process_message_outcome_example = process_message_outcome plain_codec greeting 902 calm start

-- Four failures and a disconnection, with two failures that are not reported.
abbrev outage : List ConnectionEvent
outage = failed ∷ disconnected ∷ failed ∷ failed ∷ failed ∷ []

incident_is_reported_once_example :
    ((run outage (new_policy 2)).0.consecutive_failures ≡ failures outage)
    × (length (select is_error (run outage (new_policy 2)).1) ≡ reports 2 (failures outage))
incident_is_reported_once_example = incident_is_reported_once 2 outage tt

-- The stream is there at the third attempt.
abbrev late : ℕ → Answer
late n = if leb 3 n then registered else not_found

setup_consumers_outcome_example : Tried late 1 5 (setup_consumers late 5 2)
setup_consumers_outcome_example = setup_consumers_outcome late 5 2

-- A message that is delivered, one that is not, one that is cut off, and fetches that fail.
abbrev fetches : List (Fetch SendVkCommand Uuid)
fetches =
    timed_out
    ∷ messages (treated greeting 902 ∷ treated greeting 7 ∷ [])
    ∷ Fetch.failed
    ∷ messages (cut_off greeting 902 (λ w. w) ∷ treated greeting 902 ∷ [])
    ∷ []

consume_outcome_example :
    Consumed plain_codec calm
      (IsCancelled fetches)
      (fetched fetches)
      start
      (consume plain_codec fetches calm start)
consume_outcome_example = consume_outcome plain_codec calm fetches start

abbrev open_client : Client
open_client = record {
  connection = some (record { is_connected = true; is_closed = false });
  has_jetstream = true;
  policy = new_policy 2;
}

close-IsClosed_example : IsClosed (close Drain.timed_out true open_client).0
close-IsClosed_example = close-IsClosed Drain.timed_out true open_client
