-- ===== src/Services/Confirm/Base.antt =====
-- src/core/services/vk_confirmation.py: linking a VK account by a confirmation code.
use eq_site_cms_vk_service.Shared.{
  ℕ, ℤ, Bool, false, not, ◌&&◌, String, Option, none, some, List, [], ◌∷◌, is_none, leb, ◌==◌,
  if◌then◌else◌,
}
use eq_site_cms_vk_service.Text.{Text}
use eq_site_cms_vk_service.Errors.{Error, app, AppErrorClass, plain}
use eq_site_cms_vk_service.Db.{
  Uuid, UserVk, VkConfirmation, active, state_eq, LogStatus, vk_confirmation, Detail,
}
use eq_site_cms_vk_service.Exec.{Exec, pure, raise, catch, reads, now, ◌>>=◌, ◌>>◌}
use eq_site_cms_vk_service.Repositories.UserVks
use eq_site_cms_vk_service.Repositories.UserVks.{is_live, same_peer}
use eq_site_cms_vk_service.Repositories.Confirmations
use eq_site_cms_vk_service.Repositories.Logs.{log_action, count_failed_since}
use eq_site_cms_vk_service.Services.Code.{normalize_code, mask_code}
use eq_site_cms_vk_service.Services.Time.{minus_minutes}

-- What the service is built with.
pub record ConfirmationSettings : Type 0 where
  pub max_attempts : ℕ
  pub attempt_window_minutes : ℕ

abbrev pub failed_statuses : List LogStatus
failed_statuses =
    LogStatus.not_found ∷ LogStatus.used ∷ LogStatus.expired ∷ LogStatus.peer_conflict ∷ []

pub data ConfirmationStatus : Type 0 where
  confirmed already_confirmed : ConfirmationStatus

pub record ConfirmationResult : Type 0 where
  pub status : ConfirmationStatus
  pub user_id : Uuid
  pub user_vk_id : Uuid

-- The arguments of `confirm`; `masked` is what of the code may be logged.
pub record Attempt : Type 0 where
  pub code : Text
  pub masked : Text
  pub vk_peer_id : ℤ
  pub vk_screen_name : Option Text
  pub vk_display_name : Option Text

abbrev pub too_many : String
too_many = "Слишком много неудачных попыток, повторите позже"

abbrev pub code_invalid : String
code_invalid = "Код подтверждения недействителен"

abbrev pub code_used : String
code_used = "Код подтверждения уже использован"

abbrev pub code_expired : String
code_expired = "Срок действия кода подтверждения истёк"

abbrev pub binding_not_found : String
binding_not_found = "Привязка не найдена"

abbrev pub peer_taken : String
peer_taken = "Этот аккаунт VK уже привязан к другому пользователю"

-- `_log`
abbrev pub log : LogStatus → Attempt → List Detail → Exec Unit
log status a details = do
  log_action vk_confirmation status
      (Detail.vk_peer_id a.vk_peer_id ∷ Detail.code a.masked ∷ details)
  pure tt

-- Logs a refusal and raises it.
abbrev pub refuse :
    {A : Type 0} → LogStatus → Attempt → List Detail → AppErrorClass → String → Exec A
refuse status a details kind message = do log status a details; raise (app kind (plain message))

unfoldable pub enforce_rate_limit : ConfirmationSettings → Attempt → Exec Unit
enforce_rate_limit settings a = do
  at ← now
  since ← minus_minutes at settings.attempt_window_minutes
  failures ← count_failed_since vk_confirmation a.vk_peer_id since failed_statuses
  if leb settings.max_attempts failures
      then refuse LogStatus.rate_limited a [] AppErrorClass.rate_limited too_many
      else pure tt

-- `_is_same_peer_active`
unfoldable pub is_same_peer_active : Option UserVk → ℤ → Bool
is_same_peer_active none peer_id = false
is_same_peer_active (some b) peer_id =
    is_live b && state_eq b.state active && same_peer b.vk_peer_id (some peer_id)

-- A code that has been used: the confirmation that it made may be delivered again.
abbrev pub confirm_again : Attempt → VkConfirmation → Option UserVk → Exec ConfirmationResult
confirm_again a c none =
    refuse LogStatus.used a (Detail.user_vk_id c.user_vk_id ∷ []) AppErrorClass.conflict code_used
confirm_again a c (some b) =
    if is_same_peer_active (some b) a.vk_peer_id
    then (do
      log LogStatus.already_confirmed a (Detail.user_vk_id c.user_vk_id ∷ [])
      pure (record { status = already_confirmed; user_id = b.user_id; user_vk_id = c.user_vk_id }))
    else refuse LogStatus.used a (Detail.user_vk_id c.user_vk_id ∷ []) AppErrorClass.conflict
        code_used

-- Whether the peer belongs to another binding.
abbrev pub is_taken : Uuid → Option UserVk → Bool
is_taken record_id none = false
is_taken record_id (some r) = not (r.id == record_id)

abbrev pub peer_conflict : {A : Type 0} → Attempt → VkConfirmation → Exec A
peer_conflict a c =
    refuse LogStatus.peer_conflict a (Detail.user_vk_id c.user_vk_id ∷ []) AppErrorClass.conflict
      peer_taken

-- `except AlreadyExistsError`
abbrev pub activate_failed : Attempt → VkConfirmation → Error → Exec UserVk
activate_failed a c (app AppErrorClass.already_exists m) = peer_conflict a c
activate_failed a c other = raise other

unfoldable pub link : Attempt → VkConfirmation → UserVk → Exec ConfirmationResult
link a c b = do
  catch (UserVks.activate c.user_vk_id a.vk_peer_id a.vk_screen_name a.vk_display_name)
      (activate_failed a c)
  Confirmations.mark_used c.id
  log LogStatus.success a (Detail.user_vk_id c.user_vk_id ∷ Detail.user_id b.user_id ∷ [])
  pure (record { status = confirmed; user_id = b.user_id; user_vk_id = c.user_vk_id })

abbrev pub binding_missing : {A : Type 0} → Attempt → VkConfirmation → Exec A
binding_missing a c =
    refuse LogStatus.error a (Detail.user_vk_id c.user_vk_id ∷ Detail.reason "binding_missing" ∷ [])
      AppErrorClass.not_found binding_not_found

unfoldable pub link_live : Attempt → VkConfirmation → UserVk → Exec ConfirmationResult
link_live a c b = do
  occupied ← UserVks.get_by_peer_id a.vk_peer_id
  if is_taken c.user_vk_id occupied then peer_conflict a c else link a c b

abbrev pub confirm_binding : Attempt → VkConfirmation → Option UserVk → Exec ConfirmationResult
confirm_binding a c none = binding_missing a c
confirm_binding a c (some b) = if is_live b then link_live a c b else binding_missing a c

unfoldable pub confirm_unused : Attempt → VkConfirmation → Option UserVk → Exec ConfirmationResult
confirm_unused a c binding = do
  at ← now
  if leb c.expires_at at
      then refuse LogStatus.expired a (Detail.user_vk_id c.user_vk_id ∷ []) AppErrorClass.gone
          code_expired
      else confirm_binding a c binding

unfoldable pub confirm_found : Attempt → Option VkConfirmation → Exec ConfirmationResult
confirm_found a none = refuse LogStatus.not_found a [] AppErrorClass.not_found code_invalid
confirm_found a (some c) = do
  binding ← UserVks.get_by_id c.user_vk_id
  if is_none c.used_at then confirm_unused a c binding else confirm_again a c binding

unfoldable pub confirm_attempt : ConfirmationSettings → Attempt → Exec ConfirmationResult
confirm_attempt settings a = do
  enforce_rate_limit settings a
  confirmation ← Confirmations.get_by_code a.code
  confirm_found a confirmation

abbrev pub attempt : Text → ℤ → Option Text → Option Text → Attempt
attempt normalized peer_id screen_name display_name = record {
  code = normalized;
  masked = mask_code normalized;
  vk_peer_id = peer_id;
  vk_screen_name = screen_name;
  vk_display_name = display_name;
}

unfoldable pub confirm :
    ConfirmationSettings → Text → ℤ → Option Text → Option Text → Exec ConfirmationResult
confirm settings raw peer_id screen_name display_name = do
  normalized ← reads (λ env. normalize_code env.unicode raw)
  confirm_attempt settings (attempt normalized peer_id screen_name display_name)
