-- ===== src/Bot/Tests.antt =====
-- The theorems on the bot at concrete events.
use eq_site_cms_vk_service.Bot.Preflight.{exit_code, granted}
use eq_site_cms_vk_service.Bot.Started.{IsOpen, IsUsable, IsPositive, exit_code_is_zero_iff}
use eq_site_cms_vk_service.Api.BotInfo.{VkSettings}
use eq_site_cms_vk_service.Fixtures.{ascii}
use eq_site_cms_vk_service.Shared.{◌≡◌, ◌↔◌}
use eq_site_cms_vk_service.Api.Atomic.{fresh}
use eq_site_cms_vk_service.Bot.Messages.{Saves, Did, handle_message_outcome}
use eq_site_cms_vk_service.Bot.Base.{handle_message, is_chat_peer, parse_link_command}
use eq_site_cms_vk_service.Bot.Base.{handle_message_allow, handle_message_deny}
use eq_site_cms_vk_service.Bot.Permissions.{permissions_outcome, Follows}
use eq_site_cms_vk_service.Shared.{pos, [], ◌∷◌, ◌++◌, refl, some}
use eq_site_cms_vk_service.Bot.Command.{parse_link_command-typed}
use eq_site_cms_vk_service.Text.{codes, casefold, strip}
use mathlib.Core.List.{flat_map}
use eq_site_cms_vk_service.Db.{blocked, active}
use eq_site_cms_vk_service.Fixtures.{calm, start}
use eq_site_cms_vk_service.Services.Confirm.{ConfirmationSettings}

abbrev strict : ConfirmationSettings
strict = record { max_attempts = 5; attempt_window_minutes = 10 }

handle_message_outcome_example :
    Saves strict "привязать"
      (pos 42)
      (pos 42)
      calm
      (Did strict "привязать"
        (pos 42)
        (pos 42)
        calm
        (is_chat_peer (pos 42))
        (parse_link_command calm.unicode (codes "привязать abc23xyz") (codes "привязать"))
        (fresh start))
      (fresh start)
      (handle_message strict "привязать" (pos 42) (pos 42) (codes "привязать abc23xyz") calm start)
handle_message_outcome_example =
    handle_message_outcome strict "привязать" (pos 42) (pos 42) calm (codes "привязать abc23xyz")
      start

permissions_outcome_example :
    Follows (pos 77) blocked start (handle_message_deny (pos 77) calm start)
    × Follows (pos 77) active start (handle_message_allow (pos 77) calm start)
permissions_outcome_example = permissions_outcome (pos 77) calm start

abbrev unset_group : VkSettings
unset_group = record {
  vk_group_token = codes "vk1.a.token";
  vk_group_id = pos 0;
  vk_group_screen_name = codes "eqsite";
  vk_bot_link_command = codes "/link";
}

exit_code_is_zero_iff_example :
    (exit_code ascii unset_group granted ≡ 0)
    ↔ (IsUsable (strip ascii unset_group.vk_group_token) × IsPositive (pos 0) × IsOpen granted)
exit_code_is_zero_iff_example = exit_code_is_zero_iff ascii unset_group granted

parse_link_command-typed_example :
    parse_link_command ascii
      (codes "  " ++ (codes "Link" ++ ((32 ∷ 32 ∷ []) ++ (codes "abc23xyz" ++ codes " please"))))
      (codes "link")
    ≡ some (codes "abc23xyz")
unfolding casefold flat_map
parse_link_command-typed_example =
    parse_link_command-typed ascii (codes "link") (codes "  ") (codes "Link") 32 (32 ∷ [])
      (codes "abc23xyz") (codes " please") refl (λ e. absurd (cc e)) (λ e. absurd (cc e))
      (refl, (refl, (refl, (refl, tt))))
      (refl, (refl, (refl, (refl, (refl, (refl, (refl, (refl, tt)))))))) (refl, (refl, tt))
      (refl, (refl, tt)) refl
