-- ===== src/Repositories/Uncommitted.antt =====
-- No repository commits.
use eq_site_cms_vk_service.Text.{Text}
use eq_site_cms_vk_service.Db.{Detail, LogStatus, BindingState, DateTime, Action, Uuid}
use eq_site_cms_vk_service.Exec.{catch, ◌>>=◌}
use eq_site_cms_vk_service.Shared.{List, Option, ℤ, arith}
use eq_site_cms_vk_service.Exec.Preserves.{Uncommitted, preserves_rules}
use eq_site_cms_vk_service.Repositories.Confirmations
use eq_site_cms_vk_service.Repositories.Logs
use eq_site_cms_vk_service.Repositories.UserVks

pub create-Uncommitted : (user_id : Uuid) → Uncommitted (UserVks.create user_id)
unfolding UserVks.create ◌>>=◌ catch
create-Uncommitted user_id = record { at = λ env w. ground arith }

pub get_by_id-Uncommitted : (id : Uuid) → Uncommitted (UserVks.get_by_id id)
unfolding UserVks.get_by_id ◌>>=◌
get_by_id-Uncommitted id = record { at = λ env w. ground arith }

pub get_by_user_id-Uncommitted : (id : Uuid) → Uncommitted (UserVks.get_by_user_id id)
unfolding UserVks.get_by_user_id ◌>>=◌
get_by_user_id-Uncommitted id = record { at = λ env w. ground arith }

pub get_by_peer_id-Uncommitted : (peer : ℤ) → Uncommitted (UserVks.get_by_peer_id peer)
unfolding UserVks.get_by_peer_id ◌>>=◌
get_by_peer_id-Uncommitted peer = record { at = λ env w. ground arith }

pub activate-Uncommitted :
    (id : Uuid) (peer : ℤ) (screen_name display_name : Option Text)
    → Uncommitted (UserVks.activate id peer screen_name display_name)
unfolding UserVks.activate ◌>>=◌ catch
activate-Uncommitted id peer screen_name display_name = record { at = λ env w. ground arith }

pub set_state-Uncommitted :
    (id : Uuid) (state : BindingState) → Uncommitted (UserVks.set_state id state)
unfolding UserVks.set_state ◌>>=◌
set_state-Uncommitted id state = record { at = λ env w. ground arith }

pub soft_delete-Uncommitted : (id : Uuid) → Uncommitted (UserVks.soft_delete id)
unfolding UserVks.soft_delete ◌>>=◌
soft_delete-Uncommitted id = record { at = λ env w. ground arith }

pub create_confirmation-Uncommitted :
    (id : Uuid) (code : Text) (expires_at : DateTime)
    → Uncommitted (Confirmations.create id code expires_at)
unfolding Confirmations.create ◌>>=◌
create_confirmation-Uncommitted id code expires_at = record { at = λ env w. ground arith }

pub get_by_code-Uncommitted : (code : Text) → Uncommitted (Confirmations.get_by_code code)
unfolding Confirmations.get_by_code ◌>>=◌
get_by_code-Uncommitted code = record { at = λ env w. ground arith }

pub mark_used-Uncommitted : (id : Uuid) → Uncommitted (Confirmations.mark_used id)
unfolding Confirmations.mark_used ◌>>=◌
mark_used-Uncommitted id = record { at = λ env w. ground arith }

pub invalidate_previous-Uncommitted :
    (id : Uuid) → Uncommitted (Confirmations.invalidate_previous id)
unfolding Confirmations.invalidate_previous ◌>>=◌
invalidate_previous-Uncommitted id = record { at = λ env w. ground arith }

pub log_action-Uncommitted :
    (action : Action) (status : LogStatus) (details : List Detail)
    → Uncommitted (Logs.log_action action status details)
unfolding Logs.log_action ◌>>=◌
log_action-Uncommitted action status details = record { at = λ env w. ground arith }

pub count_failed_since-Uncommitted :
    (action : Action) (peer : ℤ) (since : DateTime) (failed : List LogStatus)
    → Uncommitted (Logs.count_failed_since action peer since failed)
unfolding Logs.count_failed_since ◌>>=◌
count_failed_since-Uncommitted action peer since failed = record { at = λ env w. ground arith }

pub ruleset repository_rules = (
  preserves_rules, create-Uncommitted, get_by_id-Uncommitted, get_by_user_id-Uncommitted,
  get_by_peer_id-Uncommitted, activate-Uncommitted, set_state-Uncommitted, soft_delete-Uncommitted,
  create_confirmation-Uncommitted, get_by_code-Uncommitted, mark_used-Uncommitted,
  invalidate_previous-Uncommitted, log_action-Uncommitted, count_failed_since-Uncommitted,
)
