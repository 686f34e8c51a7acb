-- ===== src/Bot/Preflight.antt =====
-- src/bot/main.py: what is checked before the bot listens, and what a message gives to the handler.
use eq_site_cms_vk_service.Shared.{
  ℕ, Option, none, some, String, ◌++◌, any, ◌∷◌, [], List, ◌==◌, if◌then◌else◌,
}
use eq_site_cms_vk_service.Text.{Text, Unicode, codes, decimal}
use eq_site_cms_vk_service.Api.BotInfo.{VkSettings, is_positive, is_token_usable}

abbrev pub token_required_message : String
token_required_message =
    "VK_GROUP_TOKEN is empty or still holds a placeholder value. Fill it in services/vk-service/.env before starting the bot runtime."

abbrev pub group_id_required_message : String
group_id_required_message =
    "VK_GROUP_ID is not set to a positive community id. Fill it in services/vk-service/.env before starting the bot runtime."

abbrev pub longpoll_access_message : String
longpoll_access_message =
    "VK rejected groups.getLongPollServer. The community token needs BOTH the 'messages' and the 'manage' (Управление сообществом) scopes, and Long Poll API must be enabled in the community settings (Управление -> Работа с API -> Long Poll API) with the message_new, message_allow and message_deny event types switched on. Re-issue the token with both scopes and restart the bot."

abbrev pub invalid_token_message : String
invalid_token_message =
    "VK rejected the community token as invalid or expired. Re-issue VK_GROUP_TOKEN for the community and restart the bot."

abbrev pub access_denied_codes : List ℕ
access_denied_codes = 15 ∷ 100 ∷ []

abbrev pub invalid_token_codes : List ℕ
invalid_token_codes = 5 ∷ 27 ∷ 28 ∷ []

-- What comes of asking for the long-poll server: an error of VK has a code and a text.
pub data Access : Type 0 where
  granted unreachable : Access
  rejected : ℕ → Text → Access

abbrev pub with_code : String → ℕ → Text
with_code message code = codes message ++ (codes " (VK error " ++ (decimal code ++ codes ")"))

abbrev pub rejection : ℕ → Text → Text
rejection code text =
    if any (λ c. c == code) invalid_token_codes
    then with_code invalid_token_message code
    else if any (λ c. c == code) access_denied_codes
    then with_code longpoll_access_message code
    else codes "VK rejected groups.getLongPollServer with error "
      ++ (decimal code ++ (codes ": " ++ text))

abbrev pub problem_of : Access → Option Text
problem_of granted = none
problem_of unreachable = none
problem_of (rejected code text) = some (rejection code text)

-- The problem that keeps the bot from listening, if there is one.
unfoldable pub preflight : VkSettings → Access → Option Text
preflight settings access =
    if is_positive settings.vk_group_id
    then problem_of access
    else some (codes group_id_required_message)

-- How `run` goes on once it has started: it is refused, or listens and then ends or is interrupted.
abbrev pub exit_after : Option Text → ℕ
exit_after none = 0
exit_after (some problem) = 1

-- `main`
unfoldable pub exit_code : Unicode → VkSettings → Access → ℕ
exit_code u settings access =
    if is_token_usable u settings then exit_after (preflight settings access) else 1
