-- ===== src/Api/Endpoints.antt =====
-- src/api/endpoints/vks.py: the endpoints that use the binding service, with the status of a success.
use eq_site_cms_vk_service.Api.Parameters.{parse_user_ids, validate_state}
use eq_site_cms_vk_service.Exec.{reads, lift}
use eq_site_cms_vk_service.Text.{Text}
use eq_site_cms_vk_service.Api.Session.{with_session}
use eq_site_cms_vk_service.Exec.{Exec, pure, ◌>>=◌, ◌>>◌}
use eq_site_cms_vk_service.Db.{UserVk, Uuid}
use eq_site_cms_vk_service.Services.Binding.{
  ensure_binding, unlink, issue_confirmation, get_bindings, Issued, BindingSettings,
}
use eq_site_cms_vk_service.Shared.{String, if◌then◌else◌, Option, List, ℕ}

-- `POST /vks`
unfoldable pub create_binding : Uuid → Exec (UserVk × ℕ)
create_binding user_id =
    with_session
      (do (binding, is_new) ← ensure_binding user_id; pure (binding, if is_new then 201 else 200))

-- What the settings add to the answer.
pub record Dialog : Type 0 where
  pub link_command : String
  pub dialog_url : String

unfoldable pub issue_with : BindingSettings → Dialog → Uuid → Exec (Issued × Dialog)
issue_with settings dialog user_id = do
  issued ← issue_confirmation settings user_id
  pure (issued, dialog)

-- `POST /vks/issue-confirmation`, status 201
unfoldable pub post_issue_confirmation : BindingSettings → Dialog → Uuid → Exec (Issued × Dialog)
post_issue_confirmation settings dialog user_id = with_session (issue_with settings dialog user_id)

-- `DELETE /vks/{user_id}`, status 204
unfoldable pub delete_binding : Uuid → Exec Unit
delete_binding user_id = with_session (do unlink user_id; pure tt)

-- What a query does in its session.
unfoldable pub read_bindings : (Text → Option Uuid) → Text → Option Text → Exec (List UserVk)
read_bindings parse_uuid raw_ids raw_state = do
  parsed ← reads (λ env. parse_user_ids env.unicode parse_uuid raw_ids)
  user_ids ← lift parsed
  state ← lift (validate_state raw_state)
  get_bindings user_ids state

-- `GET /vks`
unfoldable pub get_vks : (Text → Option Uuid) → Text → Option Text → Exec (List UserVk)
get_vks parse_uuid raw_ids raw_state = with_session (read_bindings parse_uuid raw_ids raw_state)
