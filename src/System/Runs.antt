-- ===== src/System/Runs.antt =====
-- What any sequence of events does to the committed database.
use eq_site_cms_vk_service.Steps.Base.{Steps}
use eq_site_cms_vk_service.Consistency.Kept.{Steps-IsConsistent}
use eq_site_cms_vk_service.Shared.{List, [], ◌∷◌}
use eq_site_cms_vk_service.Exec.{Env, World}
use eq_site_cms_vk_service.Consistency.Base.{IsConsistent}
use eq_site_cms_vk_service.System.Base.{
  cause_of, Setup, Event, get_request, create_request, issue_request, delete_request, message,
  message_deny, message_allow, command, serve, serve_all,
}
use eq_site_cms_vk_service.System.Requests.{
  create_binding-Steps, post_issue_confirmation-Steps, delete_binding-Steps,
}
use eq_site_cms_vk_service.System.Queries.{get_vks-Steps}
use eq_site_cms_vk_service.System.Events.{
  handle_message-Steps, permissions-Steps, process_message-Steps,
}

module _ {Payload Headers : Type 0} (s : Setup Payload Headers) where
  -- Every request, event of the bot and message of the stream changes the committed bindings and codes
  -- by steps of the services for that cause only, whether it succeeds, is refused or fails in any
  -- other way.
  pub serve-Steps :
      (e : Event Payload Headers) (env : Env) (w : World)
      → Steps (cause_of e) w.committed (serve s e env w).committed
  unfolding serve cause_of
  serve-Steps (get_request ids state) env w = get_vks-Steps s.parse_uuid ids state env w
  serve-Steps (create_request owner) env w = create_binding-Steps owner env w
  serve-Steps (issue_request owner) env w =
      post_issue_confirmation-Steps s.binding s.dialog owner env w
  serve-Steps (delete_request owner) env w = delete_binding-Steps owner env w
  serve-Steps (message peer_id from_id text) env w =
      handle_message-Steps s.confirmation s.link_command peer_id from_id env text w
  serve-Steps (message_deny user_id) env w = (permissions-Steps user_id env w).0
  serve-Steps (message_allow user_id) env w = (permissions-Steps user_id env w).1
  serve-Steps (command payload headers) env w = process_message-Steps s.codec payload headers env w

  -- From a consistent committed database, such as the empty one, any sequence of requests, events of
  -- the bot and messages of the stream, however each of them ends and whatever the outside answers,
  -- leads to one in which the primary keys and the unique indexes of the bindings and of the
  -- confirmations hold, a binding has no peer exactly where it is PENDING, every unused code is for a
  -- live PENDING binding, and no binding has two of them.
  pub serve_all-IsConsistent :
      (events : List (Event Payload Headers)) (env : Env) (w : World)
      → IsConsistent w.committed
      → IsConsistent (serve_all s events env w).committed
  unfolding serve_all
  serve_all-IsConsistent [] env w h = h
  serve_all-IsConsistent (e ∷ rest) env w h =
      serve_all-IsConsistent rest env (serve s e env w) (Steps-IsConsistent (serve-Steps e env w) h)
