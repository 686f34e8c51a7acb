-- ===== src/Messaging/Consumer.antt =====
-- The loop of src/clients/nats/consumers/notification_commands_send_vk.py, from its start, with the
-- fetches in the order in which they end. The task can be cancelled while it waits for messages or for
-- the pause of a second after a fetch that has failed, and while it treats a message: the world that a
-- message leaves which was cut off so is a parameter. An error of an answer to the server ends it.
use eq_site_cms_vk_service.Messaging.Base.{Codec, process_message}
use eq_site_cms_vk_service.Errors.{Error}
use eq_site_cms_vk_service.Exec.{ok, err, Result, World, Env}
use eq_site_cms_vk_service.Shared.{List, [], ◌∷◌, ◌++◌, Bool}

-- A message, with whether the task is cancelled during its treatment, and what that leaves.
pub data Arrival (Payload Headers : Type 0) : Type 0 where
  treated : Payload → Headers → Arrival Payload Headers
  cut_off : Payload → Headers → (World → World) → Arrival Payload Headers

-- How one `fetch`, or the pause after it, ends.
pub data Fetch (Payload Headers : Type 0) : Type 0 where
  messages : List (Arrival Payload Headers) → Fetch Payload Headers
  timed_out failed cancelled : Fetch Payload Headers

-- The loop goes on, has been cancelled, or has ended in an error.
pub data Ending : Type 0 where
  going stopped : Ending
  broken : Error → Ending

-- Where the loop stands: the answers that it has sent, in their order, and the world.
pub record Progress : Type 0 where
  pub ending : Ending
  pub answers : List Bool
  pub world : World

abbrev pub after_answers : List Bool → Progress → Progress
after_answers answers p = record p { answers = answers ++ p.answers }

-- The rest of the loop is only come to where the message has been answered.
abbrev pub after_message : Result Bool × World → (World → Progress) → Progress
after_message (ok acknowledged, w) rest = after_answers (acknowledged ∷ []) (rest w)
after_message (err e, w) rest = record { ending = broken e; answers = []; world = w }

-- And the next fetch only where no message has ended the loop.
abbrev pub after_batch : Ending → List Bool → World → (World → Progress) → Progress
after_batch going answers w rest = after_answers answers (rest w)
after_batch ending answers w rest = record { ending = ending; answers = answers; world = w }

module _ {Payload Headers : Type 0} (codec : Codec Payload Headers) where
  -- `for message in messages`
  unfoldable pub process_each : List (Arrival Payload Headers) → Env → World → Progress
  process_each [] env w = record { ending = going; answers = []; world = w }
  process_each (treated payload headers ∷ rest) env w =
      after_message (process_message codec payload headers env w) (λ u. process_each rest env u)
  process_each (cut_off payload headers left ∷ rest) env w = record {
    ending = stopped;
    answers = [];
    world = left w;
  }

  unfoldable pub consume : List (Fetch Payload Headers) → Env → World → Progress
  unfolding process_each
  consume [] env w = record { ending = going; answers = []; world = w }
  consume (cancelled ∷ rest) env w = record { ending = stopped; answers = []; world = w }
  consume (messages ms ∷ rest) env w =
      let p = process_each ms env w in
      after_batch p.ending p.answers p.world (λ u. consume rest env u)
  consume (_ ∷ rest) env w = consume rest env w
