-- ===== src/Services/State.antt =====
-- src/core/services/vk_state.py: following whether the user lets the group write.
mod Tests
pub mod Moved
use eq_site_cms_vk_service.Shared.{ℤ, Bool, true, false, Option, none, some, [], ◌∷◌}
use eq_site_cms_vk_service.Db.{
  UserVk, BindingState, active, blocked, Action, vk_message_deny, vk_message_allow, no_binding,
  success, Detail,
}
use eq_site_cms_vk_service.Exec.{Exec, pure, ◌>>=◌, ◌>>◌}
use eq_site_cms_vk_service.Repositories.UserVks
use eq_site_cms_vk_service.Repositories.Logs.{log_action}

abbrev pub move : ℤ → BindingState → Action → Option UserVk → Exec Bool
move peer_id state action none = do
  log_action action no_binding (Detail.vk_peer_id peer_id ∷ [])
  pure false
move peer_id state action (some binding) = do
  UserVks.set_state binding.id state
  log_action action success (
      Detail.vk_peer_id peer_id
      ∷ Detail.user_vk_id binding.id
      ∷ Detail.previous_state binding.state
      ∷ Detail.state state
      ∷ [])
  pure true

unfoldable pub transition : ℤ → BindingState → Action → Exec Bool
transition peer_id state action = do
  binding ← UserVks.get_by_peer_id peer_id
  move peer_id state action binding

unfoldable pub block : ℤ → Exec Bool
block peer_id = transition peer_id blocked vk_message_deny

unfoldable pub unblock : ℤ → Exec Bool
unblock peer_id = transition peer_id active vk_message_allow
