-- ===== src/Messaging/Answered.antt =====
-- What handling a message commits, and when the message is acknowledged.
use eq_site_cms_vk_service.Services.Delivery.Apart.{deliver-Uncommitted}
use eq_site_cms_vk_service.Api.Atomic.{fresh}
use eq_site_cms_vk_service.Db.{Uuid}
use eq_site_cms_vk_service.Services.Delivery.{deliver, SendVkCommand}
use eq_site_cms_vk_service.Api.{in_new_session}
use eq_site_cms_vk_service.Messaging.Base.{
  send_answer, close_failed, handle_decoded, handle, process_message, Codec, deliver_in_session,
}
use eq_site_cms_vk_service.Shared.{
  suc, Bool, Option, ◌↔◌, ==_iff, ◌≡◌, ◌≢◌, refl, true, false, ◌⊎◌, inl, inr, some, none, ◌==◌,
  if◌then◌else◌,
}
use eq_site_cms_vk_service.Errors.{Error, delivery_retryable, value_error, nats_error}
use eq_site_cms_vk_service.Exec.{
  Env, World, Result, ok, err, Ends, catch, check, commit, pure, raise, ◌>>=◌, ◌>>◌,
}

-- What is committed once `x` is how the delivery has ended.
abbrev pub CommitsBy : World → Result {0} Unit × World → Error → World → Type 0
CommitsBy w x delivery_retryable w' = w'.committed ≡ x.1.db
CommitsBy w x _ w' = w'.committed ≡ w.committed

-- The delivery runs in a new session, and ends as in `x`: where it returns, or some recipient is to
-- be tried again, what it has written is committed, and after any other error nothing is.
abbrev pub ClosesBy : World → Result {0} Unit × World → Result {0} Unit × World → Type 0
ClosesBy w x =
    Ends (λ _ w'. (x.0 ≡ ok tt) × (w'.committed ≡ x.1.db))
      (λ e w'. (x.0 ≡ err e) × CommitsBy w x e w')

deliver_in_session_lem :
    (command : SendVkCommand) (env : Env) (w : World)
    → ClosesBy w (deliver command env (fresh w)) (deliver_in_session command env w)
unfolding deliver_in_session in_new_session ◌>>=◌ catch
deliver_in_session_lem command env w =
    go (deliver command env (fresh w)) ((deliver-Uncommitted command).at env (fresh w))
  where
    go :
        (x : Result {0} Unit × World)
        → x.1.committed ≡ w.committed
        → ClosesBy w x ((do catch (λ _ _. x) close_failed; commit) env (fresh w))
    go (ok tt, u) k = record { by = (refl, refl) }
    go (err delivery_retryable, u) k = record { by = (refl, refl) }
    go (err _, u) k = record { by = (refl, k) }

-- A message is refused before any session is opened, where it cannot be decoded or its identifier is
-- not that of its command.
abbrev pub Handled :
    Option SendVkCommand
    → Option Uuid
    → (Uuid → Uuid)
    → Env
    → World
    → Result {0} Unit × World
    → Type 0
Handled (some command) (some message_id) expected_id env w y =
    ((message_id ≡ expected_id command.callback_request_id)
      × ClosesBy w (deliver command env (fresh w)) y)
    ⊎ ((message_id ≢ expected_id command.callback_request_id) × (y ≡ (err value_error, w)))
Handled _ _ expected_id env w y = y ≡ (err value_error, w)

-- The answer to a message by how its handler has ended: an acknowledgement where it has returned.
abbrev pub Answers : Bool → Result {0} Unit × World → Type 0
Answers true y = y.0 ≡ ok tt
Answers false y = (e : Error) × (y.0 ≡ err e)

-- The answer has been asked for.
abbrev pub once_asked : World → World
once_asked w = record w { asked = suc w.asked }

-- After the handler ended as in `y`, the answer is sent, or sending it raises.
abbrev pub AnsweredBy : Env → Result {0} Unit × World → Result Bool × World → Type 0
AnsweredBy env y z =
    (z.1 ≡ once_asked y.1)
    × (acknowledged : Bool) × Answers acknowledged y
    × (((env.answered y.1.asked acknowledged ≡ true) × (z.0 ≡ ok acknowledged))
        ⊎ ((env.answered y.1.asked acknowledged ≡ false) × (z.0 ≡ err nats_error)))

module _ {Payload Headers : Type 0} (codec : Codec Payload Headers) where
  handle_decoded_lem :
      (command : Option SendVkCommand) (message_id : Option Uuid) (env : Env) (w : World)
      → Handled command message_id codec.expected_id env w
          (handle_decoded codec command message_id env w)
  handle_decoded_lem none message_id env w = refl
  handle_decoded_lem (some command) none env w = refl
  handle_decoded_lem (some command) (some message_id) env w =
      go (message_id == codec.expected_id command.callback_request_id)
        (==_iff message_id (codec.expected_id command.callback_request_id))
    where
      go :
          (b : Bool)
          → (b ≡ true) ↔ (message_id ≡ codec.expected_id command.callback_request_id)
          → Handled
              (some command)
              (some message_id)
              codec.expected_id
              env
              w
              ((if b then deliver_in_session command else raise value_error) env w)
      go true h = inl (h.0 refl, deliver_in_session_lem command env w)
      go false h = inr ((λ e. absurd (cc (h.1 e))), refl)

  -- The handler refuses a message that is not decoded, or whose identifier is not the one that its
  -- command has, and then changes nothing. Any other is delivered in a session of its own: where the
  -- delivery returns, or raises the error to try again, all that it has written is committed, and
  -- after any other error nothing is.
  pub handle_outcome :
      (payload : Payload) (headers : Headers) (env : Env) (w : World)
      → Handled
          (codec.command payload)
          (codec.message_id headers)
          codec.expected_id
          env
          w
          (handle codec payload headers env w)
  unfolding handle
  handle_outcome payload headers env w =
      handle_decoded_lem (codec.command payload) (codec.message_id headers) env w

  -- A message whose handler returns is acknowledged, and any other is refused, once. Where the server
  -- takes this answer, it is the result; where sending it fails, that error leaves the treatment of the
  -- message. The answer changes nothing of what the handler has done, which stays as it is even where
  -- the answer is not sent.
  pub process_message_outcome :
      (payload : Payload) (headers : Headers) (env : Env) (w : World)
      → AnsweredBy env
          (handle codec payload headers env w)
          (process_message codec payload headers env w)
  unfolding process_message send_answer ◌>>=◌ catch
  process_message_outcome payload headers env w = go (handle codec payload headers env w)
    where
      sent :
          (y : Result {0} Unit × World) (acknowledged taken : Bool)
          → env.answered y.1.asked acknowledged ≡ taken
          → Answers acknowledged y
          → AnsweredBy env y ((do check taken nats_error; pure acknowledged) env (once_asked y.1))
      sent y acknowledged true e h = (refl, acknowledged, h, inl (e, refl))
      sent y acknowledged false e h = (refl, acknowledged, h, inr (e, refl))

      go :
          (y : Result {0} Unit × World)
          → AnsweredBy env y (
              (do
                acknowledged ← catch (do (λ _ _. y); pure true) (λ _. pure false)
                send_answer acknowledged
                pure acknowledged)
                env w)
      go (ok tt, u) = sent (ok tt, u) true (env.answered u.asked true) refl refl
      go (err e, u) = sent (err e, u) false (env.answered u.asked false) refl (e, refl)
