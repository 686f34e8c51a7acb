-- ===== src/Bot/Permissions.antt =====
-- What the bot does when a user forbids or allows the group to write.
use eq_site_cms_vk_service.Bot.Closing.{commit_lem}
use eq_site_cms_vk_service.Bot.Attempts.{Ends-kept}
use eq_site_cms_vk_service.Services.Uncommitted.{transition-Uncommitted}
use eq_site_cms_vk_service.Api.Atomic.{fresh}
use eq_site_cms_vk_service.Services.State.Moved.{transition_outcome, Moves, TransitionEnds}
use eq_site_cms_vk_service.Exec.Preserves.{Uncommitted}
use eq_site_cms_vk_service.Services.State.{unblock, block}
use eq_site_cms_vk_service.Db.{active, blocked, BindingState}
use eq_site_cms_vk_service.Shared.{Bool, ℤ, ◌≡◌}
use eq_site_cms_vk_service.Bot.Base.{
  handle_message_allow, handle_message_deny, changed_outcome, Outcome,
}
use eq_site_cms_vk_service.Api.{in_new_session}
use eq_site_cms_vk_service.Exec.{
  pure, commit, ◌>>◌, Ends-map, Ends-bind, Ends, Result, World, Env, Exec, ◌>>=◌,
}

-- The binding of the peer has moved to the state, or there is none; all of it is committed.
abbrev pub Follows : ℤ → BindingState → World → Result Outcome × World → Type 0
Follows peer state w =
    Ends
      (λ o w'.
        (w'.committed ≡ w'.db)
        × (moved : Bool) × (u : World) × (o ≡ changed_outcome moved)
        × Moves peer state (fresh w) moved u
        × (w'.db ≡ u.db)
        × (w'.outbox ≡ u.outbox))
      (λ e w'. w'.committed ≡ w.committed)

abbrev moved_and_saved : Exec Bool → Exec Outcome
moved_and_saved m = do changed ← m; commit; pure (changed_outcome changed)

Follows-by :
    (peer : ℤ) (state : BindingState) (m : Exec Bool) (env : Env) (w : World)
    → Uncommitted m
    → TransitionEnds peer state (fresh w) (m env (fresh w))
    → Follows peer state w (moved_and_saved m env (fresh w))
Follows-by peer state m env w kept h =
    Ends-bind _ _ env (fresh w) (Ends-kept m env (fresh w) kept h) (λ _ _ e. e)
      λ moved u moves.
        Ends-map _ (commit_lem (changed_outcome moved) env u)
          (λ o w' (e, done). (cc done, moved, u, e, moves, cc done, cc done)) (λ _ _ e. absurd e)

-- A user who forbids messages has the live binding of that peer BLOCKED, and one who allows them
-- has it ACTIVE, whatever state it was in; the outcome tells whether there was a binding, the move and
-- its row of the log are committed together, and nothing is sent. An error commits nothing.
pub permissions_outcome :
    (user_id : ℤ) (env : Env) (w : World)
    → Follows user_id blocked w (handle_message_deny user_id env w)
      × Follows user_id active w (handle_message_allow user_id env w)
unfolding ◌>>=◌ handle_message_deny handle_message_allow in_new_session block unblock
permissions_outcome user_id env w = (
  Follows-by user_id blocked _ env w (transition-Uncommitted _ _ _)
      ((transition_outcome user_id env (fresh w)).0),
  Follows-by user_id active _ env w (transition-Uncommitted _ _ _)
      ((transition_outcome user_id env (fresh w)).1),
)
