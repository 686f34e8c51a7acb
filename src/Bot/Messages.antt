-- ===== src/Bot/Messages.antt =====
-- What the bot does with a message: what it has committed, and what it has answered.
use eq_site_cms_vk_service.Repositories.Logs.Effects.{log_action_lem}
use eq_site_cms_vk_service.Api.Atomic.{fresh}
use eq_site_cms_vk_service.Repositories.Uncommitted.{log_action-Uncommitted}
use eq_site_cms_vk_service.Repositories.Logs.{log_action}
use eq_site_cms_vk_service.Api.{in_new_session}
use eq_site_cms_vk_service.Bot.Base.{
  parse_link_command, confirm_code, is_chat_peer, answer, instruct, handle_message, ignore_chat,
  link_by, Outcome,
}
use eq_site_cms_vk_service.Bot.Closing.{commit_lem, close_lem, Closed, Replied}
use eq_site_cms_vk_service.Bot.Attempts.{
  confirm_code_lem, confirm_code-Uncommitted, Ends-kept, Attempted,
}
use eq_site_cms_vk_service.Text.{codes, Text}
use eq_site_cms_vk_service.Db.{vk_message, VkLog, LogStatus}
use eq_site_cms_vk_service.Services.Confirm.{ConfirmationSettings}
use eq_site_cms_vk_service.Bot.Replies
use eq_site_cms_vk_service.Shared.{
  Option, Bool, ℤ, String, sym, if◌then◌else◌, ◌≡◌, refl, ◌∙◌, none, some, [], ◌∷◌, true, false,
}
use eq_site_cms_vk_service.Exec.{Env, World, Result, Ends, Ends-bind, Ends-map, ◌>>=◌}

-- One row has been logged, with its status.
abbrev pub Noted : LogStatus → World → World → Type 0
Noted status w w' =
    (row : VkLog) × (row.status ≡ status) × (w'.db ≡ record (w.db) { vk_logs = row ∷ w.db.vk_logs })

-- A message without a code: it is logged, and answered with the instruction.
pub record Instructed (link_command : String) (peer : ℤ) (status : LogStatus) (w w' : World)
    : Type 0 where
  pub noted : Noted status w w'
  pub replied : Replied peer (Replies.instruction link_command) w w'

-- A message with a code: the code has been tried, and the answer is that of the outcome.
pub record Tried (settings : ConfirmationSettings) (peer from_id : ℤ) (code : Text) (env : Env)
    (w : World) (o : Outcome) (w' : World) : Type 0 where
  pub text : String
  pub after : World
  pub attempted : Attempted settings from_id code env w (o, text) after
  pub closed : Closed peer text after w'

module _ (settings : ConfirmationSettings) (link_command : String) (peer from_id : ℤ)
    (env : Env) where
  -- By whether the message is from a chat, and what it asks for.
  abbrev pub Did : Bool → Option Text → World → Outcome → World → Type 0
  Did true _ w o w' =
      (o ≡ Outcome.ignored_chat) × Noted LogStatus.ignored_chat w w' × (w'.outbox ≡ w.outbox)
  Did false none w o w' =
      (o ≡ Outcome.unknown_command) × Instructed link_command peer LogStatus.unknown_command w w'
  Did false (some []) w o w' =
      (o ≡ Outcome.missing_code) × Instructed link_command peer LogStatus.missing_code w w'
  Did false (some (c ∷ code)) w o w' = Tried settings peer from_id (c ∷ code) env w o w'

  -- Whatever was done has been committed; an error has committed nothing.
  abbrev pub Saves : (Outcome → World → Type 0) → World → Result Outcome × World → Type 0
  Saves Q w = Ends (λ o w'. (w'.committed ≡ w'.db) × Q o w') (λ e w'. w'.committed ≡ w.committed)

  instruct_lem :
      (status : LogStatus) (outcome : Outcome) (w : World)
      → Saves
          (λ o w'. (o ≡ outcome) × Instructed link_command peer status w w')
          w
          (instruct link_command peer status outcome env w)
  instruct_lem status outcome w =
      Ends-bind _ _ env w
        (Ends-kept (log_action vk_message status _) env w (log_action-Uncommitted _ _ _)
          (log_action_lem vk_message status _ env w))
        (λ _ _ h. h)
        λ r u logged.
          Ends-map _ (close_lem peer (Replies.instruction link_command) outcome env u)
            (λ o w' (e, closed). (
              closed.saved ∙ sym closed.db,
              (
                e,
                record {
                  noted = (r, logged.of_status, closed.db ∙ logged.db);
                  replied = rw (← logged.outbox) closed.replied;
                },
              ),
            ))
            (λ _ _ h. absurd h)

  link_by_lem :
      (code : Text) (w : World)
      → w.committed ≡ w.db
      → Saves (Tried settings peer from_id code env w) w (link_by settings peer from_id code env w)
  link_by_lem code w same =
      Ends-bind _ _ env w
        (Ends-kept (confirm_code settings from_id code) env w
          (confirm_code-Uncommitted settings from_id code)
          (confirm_code_lem settings from_id code env w same))
        (λ _ _ h. h)
        λ (outcome, text) u attempted.
          Ends-map _ (close_lem peer text outcome env u)
            (λ o w' (e, closed). (
              closed.saved ∙ sym closed.db,
              record { text = text; after = u; attempted = rw (e) attempted; closed = closed },
            ))
            (λ _ _ h. absurd h)

  ignore_chat_lem :
      (w : World)
      → Saves
          (λ o w'.
            (o ≡ Outcome.ignored_chat) × Noted LogStatus.ignored_chat w w' × (w'.outbox ≡ w.outbox))
          w
          (ignore_chat peer env w)
  ignore_chat_lem w =
      Ends-bind _ _ env w
        (Ends-kept (log_action vk_message LogStatus.ignored_chat _) env w
          (log_action-Uncommitted _ _ _) (log_action_lem vk_message LogStatus.ignored_chat _ env w))
        (λ _ _ h. h)
        λ r u logged.
          Ends-map _ (commit_lem Outcome.ignored_chat env u)
            (λ o w' (e, done).
              (cc done, (e, (r, logged.of_status, cc (done, logged.db)), cc (done, logged.outbox))))
            (λ _ _ h. absurd h)

  answer_lem :
      (command : Option Text) (w : World)
      → w.committed ≡ w.db
      → Saves (Did false command w) w (answer settings link_command peer from_id command env w)
  answer_lem none w same = instruct_lem LogStatus.unknown_command Outcome.unknown_command w
  answer_lem (some []) w same = instruct_lem LogStatus.missing_code Outcome.missing_code w
  answer_lem (some (c ∷ code)) w same = link_by_lem (c ∷ code) w same

  -- Once a message has ended in an outcome, all that its session wrote is committed. From a chat it is
  -- logged, with nothing sent. Without a code it is logged, and at most the instruction is sent. With a
  -- code, `confirm` has been called with the names of the profile that VK gave, and either accepted the
  -- code as it promises, with the outcome and the text for a new or a repeated link, or raised an error
  -- of the service after one row of the log: one for too many attempts, an unknown code or an expired
  -- code has the outcome and the text for it, and a conflict has those of a peer in use or of a used
  -- code, by whether its message speaks of another user. At most that text is sent. A message that ends
  -- in an error has committed nothing.
  pub handle_message_outcome :
      (text : Text) (w : World)
      → Saves
          (Did
            (is_chat_peer peer)
            (parse_link_command env.unicode text (codes link_command))
            (fresh w))
          (fresh w)
          (handle_message settings link_command peer from_id text env w)
  unfolding handle_message in_new_session ◌>>=◌
  handle_message_outcome text w =
      go (is_chat_peer peer) (parse_link_command env.unicode text (codes link_command))
    where
      go :
          (chat : Bool) (command : Option Text)
          → Saves (Did chat command (fresh w)) (fresh w) (
              (if chat then ignore_chat peer else answer settings link_command peer from_id command)
                env
                (fresh w))
      go true command = ignore_chat_lem (fresh w)
      go false command = answer_lem command (fresh w) refl
