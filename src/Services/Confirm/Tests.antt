-- ===== src/Services/Confirm/Tests.antt =====
-- The theorems on `confirm` at concrete inputs.
use mathlib.Core.List.{flat_map}
use eq_site_cms_vk_service.Shared.{select, update_where, any, ◌==ℤ◌, pos, none, refl, ◌≡◌}
use eq_site_cms_vk_service.Text.{text_eq, codes, strip, lstrip, upper, decimal}
use eq_site_cms_vk_service.Exec.{ok, ◌>>=◌, catch}
use eq_site_cms_vk_service.Fixtures.{calm, ascii, start}
use eq_site_cms_vk_service.Repositories.Query.{one, one_or_none}
use eq_site_cms_vk_service.Repositories.UserVks
use eq_site_cms_vk_service.Repositories.UserVks.{is_unique, conflicts, same_peer}
use eq_site_cms_vk_service.Repositories.Confirmations.{get_by_code, mark_used}
use eq_site_cms_vk_service.Repositories.Logs
use eq_site_cms_vk_service.Repositories.Logs.{log_action, count_failed_since, is_failure}
use eq_site_cms_vk_service.Services.Code.{normalize_code, mask_code}
use eq_site_cms_vk_service.Services.Time.{minus_minutes}
use eq_site_cms_vk_service.Services.Confirm.Base.{
  confirm_attempt, confirm_found, confirm_unused, link_live, link, enforce_rate_limit,
  ConfirmationSettings, confirmed, attempt, confirm,
}
use eq_site_cms_vk_service.Services.Confirm.Verdict.{EndsLawfully, confirm_outcome}

abbrev strict : ConfirmationSettings
strict = record { max_attempts = 5; attempt_window_minutes = 10 }

-- The code is accepted in lower case, with spaces around it.
confirm_links :
    (confirm strict (codes " abc23xyz ") (pos 42) none none calm start).0
    ≡ ok (record { status = confirmed; user_id = 501; user_vk_id = 1 })
unfolding confirm confirm_attempt confirm_found confirm_unused link_live link enforce_rate_limit
    minus_minutes count_failed_since is_failure select update_where any get_by_code text_eq
    one_or_none one UserVks.get_by_id UserVks.get_by_peer_id UserVks.activate UserVks.write
    is_unique conflicts same_peer ◌==ℤ◌ mark_used log_action Logs.conflicts normalize_code strip
    lstrip upper mask_code decimal flat_map ◌>>=◌ catch
confirm_links = refl

confirm_outcome_example :
    EndsLawfully strict
      (attempt (normalize_code ascii (codes " abc23xyz ")) (pos 42) none none)
      calm
      start
      (confirm strict (codes " abc23xyz ") (pos 42) none none calm start)
confirm_outcome_example =
    confirm_outcome strict (codes " abc23xyz ") (pos 42) none none calm start refl
