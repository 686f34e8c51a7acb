-- ===== src/Repositories/Logs/Effects.antt =====
-- What the repository of the log does to the world.
use eq_site_cms_vk_service.Shared.{ℤ, length, select, refl, ◌≡◌, List, ◌∷◌, arith}
use eq_site_cms_vk_service.Errors.{Error, integrity_error}
use eq_site_cms_vk_service.Db.{DateTime, VkLog, Action, LogStatus, Detail}
use eq_site_cms_vk_service.Exec.{Untouched, Untouched-refl, Env, World, Ends, Quiet, ◌>>=◌}
use eq_site_cms_vk_service.Repositories.Logs.Base.{count_failed_since, is_failure, log_action}

-- One row has been added to the log, and nothing else has changed.
pub record Logged (action : Action) (status : LogStatus) (details : List Detail) (w : World)
    (r : VkLog) (w' : World) : Type 0 where
  pub of_action : r.action ≡ action
  pub of_status : r.status ≡ status
  pub of_details : r.details ≡ details
  pub db : w'.db ≡ record (w.db) { vk_logs = r ∷ w.db.vk_logs }
  pub committed : w'.committed ≡ w.committed
  pub outbox : w'.outbox ≡ w.outbox

-- The database has refused the row.
abbrev pub OnDuplicate : Error → World → Type 0
OnDuplicate integrity_error w = Unit
OnDuplicate _ w = ⊥

pub log_action_or_duplicate_lem :
    (action : Action) (status : LogStatus) (details : List Detail) (env : Env) (w : World)
    → Ends (Logged action status details w) OnDuplicate (log_action action status details env w)
unfolding log_action ◌>>=◌
log_action_or_duplicate_lem action status details env w = ground arith

pub log_action_lem :
    (action : Action) (status : LogStatus) (details : List Detail) (env : Env) (w : World)
    → Ends (Logged action status details w) Quiet (log_action action status details env w)
unfolding log_action ◌>>=◌
log_action_lem action status details env w = ground arith

pub count_failed_since_lem :
    (action : Action) (peer_id : ℤ) (since : DateTime) (failed_statuses : List LogStatus)
    (env : Env) (w : World)
    → Ends
        (λ n w'.
          (n ≡ length (select (is_failure action peer_id since failed_statuses) w.db.vk_logs))
          × Untouched w w')
        Quiet
        (count_failed_since action peer_id since failed_statuses env w)
unfolding count_failed_since
count_failed_since_lem action peer_id since failed_statuses env w = record {
  by = (refl, Untouched-refl w);
}
