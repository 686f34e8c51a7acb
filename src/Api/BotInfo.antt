-- ===== src/Api/BotInfo.antt =====
-- `GET /vks/bot-info` of src/api/endpoints/vks.py, and the properties of `VkSettings` in
-- src/settings.py.
use eq_site_cms_vk_service.Shared.{
  ℤ, pos, negsuc, Bool, false, not, ◌&&◌, [], ◌∷◌, ◌++◌, ltb, if◌then◌else◌, ◌==◌,
}
use eq_site_cms_vk_service.Text.{Text, Unicode, codes, strip}
use eq_site_cms_vk_service.Errors.{app, AppErrorClass, plain}
use eq_site_cms_vk_service.Exec.{Result, ok, err}
use eq_site_cms_vk_service.Repositories.Query.{is_empty}

pub record VkSettings : Type 0 where
  pub vk_group_token : Text
  pub vk_group_id : ℤ
  pub vk_group_screen_name : Text
  pub vk_bot_link_command : Text

abbrev pub is_positive : ℤ → Bool
is_positive (pos n) = ltb 0 n
is_positive (negsuc n) = false

-- `token.startswith("<")`
abbrev pub is_placeholder : Text → Bool
is_placeholder [] = false
is_placeholder (c ∷ _) = c == 60

module _ (u : Unicode) (settings : VkSettings) where
  unfoldable pub is_group_configured : Bool
  is_group_configured =
      not (is_empty (strip u settings.vk_group_screen_name)) && is_positive settings.vk_group_id

  unfoldable pub is_token_usable : Bool
  is_token_usable =
      let token = strip u settings.vk_group_token in
      not (is_empty token) && not (is_placeholder token)

  unfoldable pub group_url : Text
  group_url = codes "https://vk.com/" ++ strip u settings.vk_group_screen_name

  unfoldable pub dialog_url : Text
  dialog_url = codes "https://vk.me/" ++ strip u settings.vk_group_screen_name

pub record BotInfo : Type 0 where
  pub group_id : ℤ
  pub group_screen_name : Text
  pub link_command : Text
  pub group_link : Text
  pub dialog_link : Text

unfoldable pub get_bot_info : Unicode → VkSettings → Result BotInfo
get_bot_info u settings =
    if is_group_configured u settings
    then ok (record {
      group_id = settings.vk_group_id;
      group_screen_name = strip u settings.vk_group_screen_name;
      link_command = settings.vk_bot_link_command;
      group_link = group_url u settings;
      dialog_link = dialog_url u settings;
    })
    else err (app AppErrorClass.service_unavailable (plain "Конфигурация группы VK не завершена"))
