-- ===== src/Api/Session.antt =====
-- src/utils/database.py: the session of a request, and src/main.py: the status of its response.
use eq_site_cms_vk_service.Shared.{ℕ}
use eq_site_cms_vk_service.Errors.{Error, app, status_code}
use eq_site_cms_vk_service.Exec.{Exec, raise, pure, catch, commit, rollback, ◌>>=◌, ◌>>◌}

-- A new session sees what is committed.
unfoldable pub in_new_session : {A : Type 0} → Exec A → Exec A
in_new_session m env w = m env (record w { db = w.committed })

abbrev pub commit_after : {A : Type 0} → Exec A → Exec A
commit_after m = do a ← m; commit; pure a

abbrev pub roll_back_and_raise : {A : Type 0} → Error → Exec A
roll_back_and_raise e = do rollback; raise e

-- `get_session`: the framework raises the error of an endpoint at the `yield`.
unfoldable pub with_session : {A : Type 0} → Exec A → Exec A
with_session m = in_new_session (catch (commit_after m) roll_back_and_raise)

-- `app_error_handler`; an error of no handler is answered by 500.
unfoldable pub error_status : Error → ℕ
error_status (app kind _) = status_code kind
error_status _ = 500
