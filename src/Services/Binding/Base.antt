-- ===== src/Services/Binding/Base.antt =====
-- src/core/services/vk_binding.py: issuing a confirmation code, and unlinking. The service is built
-- with the messenger, as src/api/dependencies.py does.
use eq_site_cms_vk_service.Shared.{
  ℕ, zero, suc, ℤ, Bool, true, false, String, Option, none, some, List, [], ◌∷◌, is_none,
  if◌then◌else◌,
}
use eq_site_cms_vk_service.Text.{Text}
use eq_site_cms_vk_service.Errors.{Error, app, AppErrorClass, plain}
use eq_site_cms_vk_service.Db.{
  Uuid, DateTime, UserVk, BindingState, pending, active, blocked, LogStatus, conflict_active,
  conflict_blocked, success, noop, vk_issue_confirmation, vk_unlink, Detail,
}
use eq_site_cms_vk_service.Exec.{Exec, pure, raise, catch, now, ◌>>=◌, ◌>>◌}
use eq_site_cms_vk_service.Repositories.UserVks
use eq_site_cms_vk_service.Repositories.Confirmations
use eq_site_cms_vk_service.Repositories.Logs.{log_action}
use eq_site_cms_vk_service.Services.Code.{generate_code, mask_code, max_generation_attempts}
use eq_site_cms_vk_service.Services.Messenger.{send_message}
use eq_site_cms_vk_service.Services.Time.{plus_minutes}

-- What the service is built with.
pub record BindingSettings : Type 0 where
  pub ttl_minutes : ℕ
  pub code_length : ℕ

abbrev pub unlink_message : String
unlink_message =
    "Привязка этого аккаунта VK к профилю EqSiteCMS отменена. Чтобы привязать аккаунт снова, получите новый код в настройках уведомлений."

unfoldable pub get_binding : Uuid → Exec (Option UserVk)
get_binding user_id = UserVks.get_by_user_id user_id

unfoldable pub get_bindings : List Uuid → Option BindingState → Exec (List UserVk)
get_bindings user_ids state = UserVks.get_by_user_ids user_ids state

-- Another request of the same owner may have won the insertion.
abbrev pub read_again : Error → Option UserVk → Exec (UserVk × Bool)
read_again e none = raise e
read_again e (some existing) = pure (existing, false)

abbrev pub create_failed : Uuid → Error → Exec (UserVk × Bool)
create_failed user_id (app AppErrorClass.already_exists m) = do
  existing ← UserVks.get_by_user_id user_id
  read_again (app AppErrorClass.already_exists m) existing
create_failed user_id other = raise other

abbrev pub use_or_create : Uuid → Option UserVk → Exec (UserVk × Bool)
use_or_create user_id (some current) = pure (current, false)
use_or_create user_id none =
    catch (do row ← UserVks.create user_id; pure (row, true)) (create_failed user_id)

unfoldable pub ensure_binding : Uuid → Exec (UserVk × Bool)
ensure_binding user_id = do current ← UserVks.get_by_user_id user_id; use_or_create user_id current

-- The loop over the attempts, by the attempts left.
abbrev pub collision : String
collision = "Не удалось сгенерировать уникальный код подтверждения, повторите попытку"

unfoldable pub unique_code_from : ℕ → ℕ → Exec Text
unique_code_from code_length zero = raise (app AppErrorClass.conflict (plain collision))
unique_code_from code_length (suc attempts) = do
  code ← generate_code code_length
  taken ← Confirmations.get_by_code code
  let again = unique_code_from code_length attempts
  if is_none taken then pure code else again

unfoldable pub create_unique_code : ℕ → Exec Text
unfolding unique_code_from
create_unique_code code_length = unique_code_from code_length max_generation_attempts

pub record Issued : Type 0 where
  pub code : Text
  pub expires_at : DateTime
  pub state : BindingState

abbrev pub already_linked : String
already_linked = "Аккаунт VK уже привязан"

abbrev pub bot_blocked : String
bot_blocked = "Бот заблокирован: разрешите сообщения от группы в диалоге с ботом"

abbrev pub refuse_issue : Uuid → UserVk → LogStatus → String → Exec Issued
refuse_issue owner binding status message = do
  log_action vk_issue_confirmation status (Detail.user_id owner ∷ Detail.user_vk_id binding.id ∷ [])
  raise (app AppErrorClass.conflict (plain message))

unfoldable pub issue_new : BindingSettings → Uuid → UserVk → Exec Issued
issue_new settings owner binding = do
  Confirmations.invalidate_previous binding.id
  issued ← create_unique_code settings.code_length
  at ← now
  expires_at ← plus_minutes at settings.ttl_minutes
  confirmation ← Confirmations.create binding.id issued expires_at
  log_action vk_issue_confirmation success
      (Detail.user_id owner ∷ Detail.user_vk_id binding.id ∷ Detail.code (mask_code issued) ∷ [])
  pure (record { code = issued; expires_at = confirmation.expires_at; state = binding.state })

abbrev pub issue_for : BindingSettings → Uuid → UserVk → BindingState → Exec Issued
issue_for settings owner binding active = refuse_issue owner binding conflict_active already_linked
issue_for settings owner binding blocked = refuse_issue owner binding conflict_blocked bot_blocked
issue_for settings owner binding pending = issue_new settings owner binding

unfoldable pub issue_confirmation : BindingSettings → Uuid → Exec Issued
issue_confirmation settings owner = do
  (binding, _) ← ensure_binding owner
  issue_for settings owner binding binding.state

-- The outcome of the delivery is not looked at, and `send_message` raises nothing.
abbrev pub notify_unlinked : BindingState → Option ℤ → Exec Unit
notify_unlinked active (some peer_id) = do send_message peer_id unlink_message; pure tt
notify_unlinked _ _ = pure tt

unfoldable pub unlink_binding : Uuid → UserVk → Exec Bool
unlink_binding owner binding = do
  Confirmations.invalidate_previous binding.id
  UserVks.soft_delete owner
  log_action vk_unlink success (
      Detail.user_id owner
      ∷ Detail.user_vk_id binding.id
      ∷ Detail.previous_state binding.state
      ∷ [])
  notify_unlinked binding.state binding.vk_peer_id
  pure true

abbrev pub unlink_found : Uuid → Option UserVk → Exec Bool
unlink_found owner none = do log_action vk_unlink noop (Detail.user_id owner ∷ []); pure false
unlink_found owner (some binding) = unlink_binding owner binding

unfoldable pub unlink : Uuid → Exec Bool
unlink owner = do binding ← UserVks.get_by_user_id owner; unlink_found owner binding
