-- ===== src/System/Events.antt =====
-- A query, an event of the bot and a message of the stream change the committed database by steps.
use eq_site_cms_vk_service.Steps.Base.{
  looks, writes, Cause, permits, Step, here, Steps, Steps-from, Steps-trans, rest, one_step,
}
use eq_site_cms_vk_service.Steps.Effects.{
  Goes, logged_step, Accepted-Goes, Refused-Goes, Moves-Goes,
}
use eq_site_cms_vk_service.Services.Delivery.Apart.{deliver-Apart}
use eq_site_cms_vk_service.Bot.Attempts.{Attempted}
use eq_site_cms_vk_service.Bot.Messages.{handle_message_outcome, Did, Noted}
use eq_site_cms_vk_service.Messaging.Base.{process_message, Codec}
use eq_site_cms_vk_service.Bot.Permissions.{permissions_outcome, Follows}
use eq_site_cms_vk_service.Services.Confirm.{ConfirmationSettings}
use eq_site_cms_vk_service.Services.Delivery.{deliver, SendVkCommand}
use eq_site_cms_vk_service.Messaging.Answered.{
  handle_outcome, process_message_outcome, Handled, CommitsBy, ClosesBy,
}
use eq_site_cms_vk_service.Shared.{
  ℤ, ◌≡◌, ◌≢◌, ap, inl, inr, Bool, true, false, Option, none, some, [], ◌∷◌, String,
}
use eq_site_cms_vk_service.Errors.{Error, delivery_retryable}
use eq_site_cms_vk_service.Db.{LogStatus, Uuid, BindingState, pending, active, blocked}
use eq_site_cms_vk_service.Text.{Text}
use eq_site_cms_vk_service.Exec.{Env, World, Result, ok, err, Ends}
use eq_site_cms_vk_service.Api.Atomic.{fresh}
use eq_site_cms_vk_service.Bot.Base.{
  Outcome, handle_message, handle_message_deny, handle_message_allow,
}

-- An event of the bot that is over has committed its session, or nothing.
saved_if_kept :
    {cause : Cause} (Q : Outcome → World → Type 0) (w : World) (x : Result Outcome × World)
    → ((o : Outcome) (w' : World) → Q o w' → Goes cause (fresh w) w')
    → Ends (λ o w'. (w'.committed ≡ w'.db) × Q o w') (λ e w'. w'.committed ≡ w.committed) x
    → Steps cause w.committed x.1.committed
saved_if_kept Q w (ok o, w') goes d = let (saved, q) = d.by in rw (saved) (goes o w' q)
saved_if_kept Q w (err e, w') goes d = Steps-from d.by

Noted-Goes :
    {cause : Cause} (status : LogStatus) (w w' : World) → Noted status w w' → Goes cause w w'
Noted-Goes status w w' (row, _, e) = logged_step row w w' e

Attempted-Goes :
    (settings : ConfirmationSettings) (from_id : ℤ) (code : Text) (env : Env) (w : World)
    (x : Outcome × String) (w' : World)
    → Attempted settings from_id code env w x w'
    → Goes (writes from_id) w w'
Attempted-Goes settings from_id code env w x w' d =
    Steps-trans (Steps-from d.same.db) (elim (d.outcome) [
      | inl (r, _, _, accepted) ↦ Accepted-Goes env _ d.before r w' accepted
      | inr (_, _, _, _, refused) ↦ Refused-Goes _ d.before w' refused
    ])

module _ (settings : ConfirmationSettings) (link_command : String) (peer from_id : ℤ)
    (env : Env) where
  Did-Goes :
      (chat : Bool) (asked : Option Text) (w : World) (o : Outcome) (w' : World)
      → Did settings link_command peer from_id env chat asked w o w'
      → Goes (writes from_id) w w'
  Did-Goes true asked w o w' (_, noted, _) = Noted-Goes _ w w' noted
  Did-Goes false none w o w' (_, d) = Noted-Goes _ w w' d.noted
  Did-Goes false (some []) w o w' (_, d) = Noted-Goes _ w w' d.noted
  Did-Goes false (some (c ∷ code)) w o w' d =
      rw (d.closed.db) (Attempted-Goes settings from_id (c ∷ code) env w _ d.after d.attempted)

  pub handle_message-Steps :
      (text : Text) (w : World)
      → Steps
          (writes from_id)
          w.committed
          (handle_message settings link_command peer from_id text env w).1.committed
  handle_message-Steps text w =
      saved_if_kept _ w _ (λ o w' d. Did-Goes _ _ (fresh w) o w' d)
        (handle_message_outcome settings link_command peer from_id env text w)

Follows-Steps :
    (peer : ℤ) (state : BindingState) (w : World) (x : Result Outcome × World)
    → state ≢ pending
    → Follows peer state w x
    → Steps (permits peer state) w.committed x.1.committed
Follows-Steps peer state w (ok o, w') settled d =
    let (saved, moved, u, _, moves, same_db, _) = d.by in
    rw (saved, same_db) (Moves-Goes peer state (fresh w) moved u settled moves)
Follows-Steps peer state w (err e, w') settled d = Steps-from d.by

pub permissions-Steps :
    (user_id : ℤ) (env : Env) (w : World)
    → Steps (permits user_id blocked) w.committed (handle_message_deny user_id env w).1.committed
      × Steps (permits user_id active) w.committed (handle_message_allow user_id env w).1.committed
permissions-Steps user_id env w =
    let (deny, allow) = permissions_outcome user_id env w in
    (
      Follows-Steps user_id blocked w _ (λ e. cc e) deny,
      Follows-Steps user_id active w _ (λ e. cc e) allow,
    )

-- A delivery that is over, however, has left both tables.
ClosesBy-Steps :
    (w : World) (x y : Result {0} Unit × World)
    → ClosesBy w x y
    → Step w.committed x.1.db looks
    → Steps looks w.committed y.1.committed
ClosesBy-Steps w x (ok a, w') d after = let (_, saved) = d.by in rw (saved) (one_step after)
ClosesBy-Steps w x (err e, w') d after = go e (d.by.1)
  where
    go : (e : Error) → CommitsBy w x e w' → Steps looks w.committed w'.committed
    go delivery_retryable saved = rw (saved) (one_step after)
    go _ saved = Steps-from saved

Handled-Steps :
    (asked : Option SendVkCommand) (message_id : Option Uuid) (expected_id : Uuid → Uuid)
    (env : Env) (w : World) (y : Result {0} Unit × World)
    → Handled asked message_id expected_id env w y
    → Steps looks w.committed y.1.committed
Handled-Steps none message_id expected_id env w y e = rw (e) here
Handled-Steps (some c) none expected_id env w y e = rw (e) here
Handled-Steps (some c) (some m) expected_id env w y (inr (_, e)) = rw (e) here
Handled-Steps (some c) (some m) expected_id env w y (inl (_, d)) =
    let left = (deliver-Apart c).at env (fresh w) in
    ClosesBy-Steps w (deliver c env (fresh w)) y d
      (rest (ap (λ x. x.1.0) left, ap (λ x. x.1.1) left))

pub process_message-Steps :
    {Payload Headers : Type 0} (codec : Codec Payload Headers) (payload : Payload)
    (headers : Headers) (env : Env) (w : World)
    → Steps looks w.committed (process_message codec payload headers env w).1.committed
process_message-Steps codec payload headers env w =
    rw ((process_message_outcome codec payload headers env w).0)
      (Handled-Steps _ _ _ env w _ (handle_outcome codec payload headers env w))
