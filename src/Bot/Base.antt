-- ===== src/Bot/Base.antt =====
-- src/bot/handlers.py and src/bot/replies.py, with the sessions that src/bot/main.py makes for
-- each event.
use eq_site_cms_vk_service.Repositories.Logs.{log_action}
use eq_site_cms_vk_service.Services.State.{unblock, block}
use eq_site_cms_vk_service.Services.Messenger.{send_message, get_profile}
use eq_site_cms_vk_service.Bot.Replies
use eq_site_cms_vk_service.Api.{in_new_session}
use eq_site_cms_vk_service.Exec.{
  VkUserProfile, pure, raise, catch, commit, reads, Exec, ◌>>=◌, ◌>>◌,
}
use eq_site_cms_vk_service.Services.Confirm.{confirm, ConfirmationSettings, ConfirmationStatus}
use eq_site_cms_vk_service.Db.{Detail, vk_message, LogStatus}
use eq_site_cms_vk_service.Text.{text_eq, casefold, strip, codes, split, contains, Text, Unicode}
use eq_site_cms_vk_service.Shared.{
  if◌then◌else◌, at_least, Option, Bool, List, ℤ, none, some, [], ◌∷◌, ◌++◌, true, false, String,
}
use eq_site_cms_vk_service.Errors.{
  Message, Error, app, AppErrorClass, plain, with_uuid, with_peer, with_text,
}

-- What a message asks for: nothing that the bot knows (a text of whitespace has no word), or to
-- link, with the code if there is one.
abbrev pub word_after : List Text → Text
word_after [] = []
word_after (code ∷ _) = code

abbrev pub command_in : Unicode → Text → List Text → Option Text
command_in u link_command [] = none
command_in u link_command (first ∷ rest) =
    if text_eq (casefold u first) (casefold u link_command) then some (word_after rest) else none

-- The empty text is the command without a code.
unfoldable pub parse_link_command : Unicode → Text → Text → Option Text
parse_link_command u text link_command = command_in u link_command (split u (strip u text))

unfoldable pub is_chat_peer : ℤ → Bool
is_chat_peer peer_id = at_least peer_id Replies.chat_peer_threshold

-- What a handler returns.
pub data Outcome : Type 0 where
  ignored_chat unknown_command missing_code : Outcome
  confirmed already_confirmed rate_limited not_found expired peer_conflict used : Outcome
  success no_binding : Outcome

-- `"другому пользователю" in str(exc.message)`; a number has none of these letters.
abbrev pub mentions_other : Message → Bool
mentions_other (plain s) = contains (codes s) (codes "другому пользователю")
mentions_other (with_uuid s _) = contains (codes s) (codes "другому пользователю")
mentions_other (with_peer s _) = contains (codes s) (codes "другому пользователю")
mentions_other (with_text s t) = contains (codes s ++ t) (codes "другому пользователю")

-- The outcomes and replies of `_confirm`.
abbrev pub accepted : ConfirmationStatus → Outcome × String
accepted ConfirmationStatus.already_confirmed = (Outcome.already_confirmed, Replies.already_linked)
accepted ConfirmationStatus.confirmed = (Outcome.confirmed, Replies.linked)

abbrev pub conflict_answer : Bool → Outcome × String
conflict_answer true = (Outcome.peer_conflict, Replies.peer_conflict)
conflict_answer false = (Outcome.used, Replies.code_used)

unfoldable pub declined : Error → Exec (Outcome × String)
declined (app AppErrorClass.rate_limited _) = pure (Outcome.rate_limited, Replies.rate_limited)
declined (app AppErrorClass.not_found _) = pure (Outcome.not_found, Replies.code_invalid)
declined (app AppErrorClass.gone _) = pure (Outcome.expired, Replies.code_expired)
declined (app AppErrorClass.conflict m) = pure (conflict_answer (mentions_other m))
declined other = raise other

abbrev pub screen_name_of : Option VkUserProfile → Option Text
screen_name_of none = none
screen_name_of (some profile) = profile.screen_name

abbrev pub display_name_of : Option VkUserProfile → Option Text
display_name_of none = none
display_name_of (some profile) = profile.display_name

-- `_confirm`
unfoldable pub confirm_code : ConfirmationSettings → ℤ → Text → Exec (Outcome × String)
confirm_code settings from_id code = do
  profile ← get_profile from_id
  catch
      (do
        result ← confirm settings code from_id (screen_name_of profile) (display_name_of profile)
        pure (accepted result.status))
      declined

-- `_reply`: a reply that is not delivered is only logged by the process.
abbrev pub reply : ℤ → String → Exec Unit
reply peer_id text = do send_message peer_id text; pure tt

-- A message that is no command with a code.
abbrev pub instruct : String → ℤ → LogStatus → Outcome → Exec Outcome
instruct link_command peer_id status outcome = do
  log_action vk_message status (Detail.vk_peer_id peer_id ∷ [])
  commit
  reply peer_id (Replies.instruction link_command)
  pure outcome

abbrev pub link_by : ConfirmationSettings → ℤ → ℤ → Text → Exec Outcome
link_by settings peer_id from_id code = do
  (outcome, text) ← confirm_code settings from_id code
  commit
  reply peer_id text
  pure outcome

abbrev pub answer : ConfirmationSettings → String → ℤ → ℤ → Option Text → Exec Outcome
answer settings link_command peer_id from_id none =
    instruct link_command peer_id LogStatus.unknown_command Outcome.unknown_command
answer settings link_command peer_id from_id (some []) =
    instruct link_command peer_id LogStatus.missing_code Outcome.missing_code
answer settings link_command peer_id from_id (some (c ∷ code)) =
    link_by settings peer_id from_id (c ∷ code)

abbrev pub ignore_chat : ℤ → Exec Outcome
ignore_chat peer_id = do
  log_action vk_message LogStatus.ignored_chat (Detail.vk_peer_id peer_id ∷ [])
  commit
  pure Outcome.ignored_chat

-- `handle_message`, `handle_message_deny` and `handle_message_allow`, each in a session of its own,
-- which an error leaves without a commit.
unfoldable pub handle_message : ConfirmationSettings → String → ℤ → ℤ → Text → Exec Outcome
handle_message settings link_command peer_id from_id text = in_new_session (do
  command ← reads (λ env. parse_link_command env.unicode text (codes link_command))
  if is_chat_peer peer_id
      then ignore_chat peer_id
      else answer settings link_command peer_id from_id command)

abbrev pub changed_outcome : Bool → Outcome
changed_outcome true = Outcome.success
changed_outcome false = Outcome.no_binding

unfoldable pub handle_message_deny : ℤ → Exec Outcome
handle_message_deny user_id =
    in_new_session (do changed ← block user_id; commit; pure (changed_outcome changed))

unfoldable pub handle_message_allow : ℤ → Exec Outcome
handle_message_allow user_id =
    in_new_session (do changed ← unblock user_id; commit; pure (changed_outcome changed))
