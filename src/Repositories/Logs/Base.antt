-- ===== src/Repositories/Logs/Base.antt =====
-- src/repositories/vk_log.py on the table of src/models/vk_log.py.
use eq_site_cms_vk_service.Shared.{
  ℕ, ℤ, Bool, true, false, not, ◌&&◌, ◌||◌, List, [], ◌∷◌, any, select, length, leb, ◌==◌, ◌==ℤ◌,
}
use eq_site_cms_vk_service.Errors.{integrity_error}
use eq_site_cms_vk_service.Db.{
  Uuid, DateTime, VkLog, Action, vk_issue_confirmation, vk_unlink, vk_confirmation, vk_message_deny,
  vk_message_allow, vk_message, LogStatus, conflict_active, conflict_blocked, success, noop,
  not_found, used, expired, peer_conflict, error, rate_limited, already_confirmed, no_binding,
  ignored_chat, unknown_command, missing_code, Detail, vk_peer_id,
}
use eq_site_cms_vk_service.Exec.{Exec, pure, gets, modify, check, server_now, new_uuid, ◌>>=◌, ◌>>◌}

unfoldable pub action_eq : Action → Action → Bool
action_eq vk_issue_confirmation vk_issue_confirmation = true
action_eq vk_unlink vk_unlink = true
action_eq vk_confirmation vk_confirmation = true
action_eq vk_message_deny vk_message_deny = true
action_eq vk_message_allow vk_message_allow = true
action_eq vk_message vk_message = true
action_eq _ _ = false

unfoldable pub status_eq : LogStatus → LogStatus → Bool
status_eq conflict_active conflict_active = true
status_eq conflict_blocked conflict_blocked = true
status_eq success success = true
status_eq noop noop = true
status_eq not_found not_found = true
status_eq used used = true
status_eq expired expired = true
status_eq peer_conflict peer_conflict = true
status_eq error error = true
status_eq rate_limited rate_limited = true
status_eq already_confirmed already_confirmed = true
status_eq no_binding no_binding = true
status_eq ignored_chat ignored_chat = true
status_eq unknown_command unknown_command = true
status_eq missing_code missing_code = true
status_eq _ _ = false

-- The row that `log_action` inserts.
abbrev pub logged : Action → LogStatus → List Detail → Uuid → Uuid → DateTime → VkLog
logged action status details id event_uuid created_at = record {
  id = id;
  event_uuid = event_uuid;
  action = action;
  status = status;
  details = details;
  created_at = created_at;
}

-- The primary key and the unique index on `event_uuid`.
unfoldable pub conflicts : VkLog → VkLog → Bool
conflicts a b = a.id == b.id || a.event_uuid == b.event_uuid

unfoldable pub log_action : Action → LogStatus → List Detail → Exec VkLog
log_action action status details = do
  id ← new_uuid
  event_uuid ← new_uuid
  created_at ← server_now
  let row = logged action status details id event_uuid created_at
  rows ← gets (λ db. db.vk_logs)
  check (not (any (conflicts row) rows)) integrity_error
  modify (λ db. record db { vk_logs = row ∷ rows })
  pure row

-- `details["vk_peer_id"].astext == str(peer_id)`
unfoldable pub about_peer : ℤ → List Detail → Bool
about_peer peer_id [] = false
about_peer peer_id (vk_peer_id p ∷ rest) = p ==ℤ peer_id
about_peer peer_id (_ ∷ rest) = about_peer peer_id rest

unfoldable pub is_failure : Action → ℤ → DateTime → List LogStatus → VkLog → Bool
is_failure action peer_id since failed_statuses r =
    action_eq r.action action
    && any (status_eq r.status) failed_statuses
    && leb since r.created_at
    && about_peer peer_id r.details

unfoldable pub count_failed_since : Action → ℤ → DateTime → List LogStatus → Exec ℕ
count_failed_since action peer_id since failed_statuses =
    gets (λ db. length (select (is_failure action peer_id since failed_statuses) db.vk_logs))
