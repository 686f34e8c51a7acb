-- ===== src/Services/State/Moved.antt =====
-- What `block` and `unblock` do.
use eq_site_cms_vk_service.Repositories.UserVks.Effects.{set_state_lem, get_by_peer_id_lem}
use eq_site_cms_vk_service.Repositories.Logs.Effects.{log_action_lem}
use eq_site_cms_vk_service.Repositories.UserVks.{live_with_id, is_live}
use eq_site_cms_vk_service.Exec.{ok, Ends-bind, Untouched, Quiet, Env, Ends, Result, World}
use eq_site_cms_vk_service.Db.{
  success, vk_message_allow, vk_message_deny, active, blocked, no_binding, Detail, VkLog, DateTime,
  UserVk, Action, BindingState,
}
use eq_site_cms_vk_service.Services.State.{
  [], false, move, true, Bool, transition, Option, unblock, block,
}
use eq_site_cms_vk_service.Repositories.UserVks.{same_peer}
use eq_site_cms_vk_service.Shared.{
  update_where, ◌∷◌, ◌∙◌, ◌⊎◌, ◌&&◌, select, ◌≡◌, ℤ, none, some, refl, inl, inr,
}
use eq_site_cms_vk_service.Repositories.Query.{one_or_none}

-- The live binding of a peer, if there is one.
abbrev pub OfPeer : ℤ → World → Option UserVk → Type 0
OfPeer peer w r =
    one_or_none
      (select (λ (b : UserVk). same_peer b.vk_peer_id (some peer) && is_live b) w.db.user_vks)
    ≡ ok r

-- The row that `set_state` writes in place of `r`.
abbrev pub in_new_state : BindingState → DateTime → UserVk → UserVk
in_new_state state now r = record r { state = state; updated_at = now }

-- The binding of the peer has got the state, and the log has its previous one.
pub record Moved (peer : ℤ) (state : BindingState) (b : UserVk) (w w' : World) : Type 0 where
  pub found : OfPeer peer w (some b)
  pub at : DateTime
  pub row : VkLog
  pub of_details :
      row.details
      ≡ Detail.vk_peer_id peer
        ∷ Detail.user_vk_id b.id
        ∷ Detail.previous_state b.state
        ∷ Detail.state state
        ∷ []
  pub db : w'.db ≡ record (w.db) {
    user_vks = update_where (live_with_id b.id) (in_new_state state at) w.db.user_vks;
    vk_logs = row ∷ w.db.vk_logs;
  }
  pub committed : w'.committed ≡ w.committed
  pub outbox : w'.outbox ≡ w.outbox

pub record Ignored (peer : ℤ) (w w' : World) : Type 0 where
  pub absent : OfPeer peer w none
  pub row : VkLog
  pub of_status : row.status ≡ no_binding
  pub db : w'.db ≡ record (w.db) { vk_logs = row ∷ w.db.vk_logs }
  pub committed : w'.committed ≡ w.committed
  pub outbox : w'.outbox ≡ w.outbox

abbrev pub Moves : ℤ → BindingState → World → Bool → World → Type 0
Moves peer state w moved w' =
    ((moved ≡ true) × (b : UserVk) × Moved peer state b w w')
    ⊎ ((moved ≡ false) × Ignored peer w w')

abbrev pub TransitionEnds : ℤ → BindingState → World → Result Bool × World → Type 0
TransitionEnds peer state w = Ends (Moves peer state w) Quiet

move_lem :
    (peer : ℤ) (state : BindingState) (action : Action) (b : Option UserVk) (env : Env)
    (w u : World)
    → OfPeer peer w b
    → Untouched w u
    → TransitionEnds peer state w (move peer state action b env u)
move_lem peer state action none env w u absent t =
    Ends-bind _ _ env u (log_action_lem action no_binding _ env u) (λ _ _ h. h)
      λ r w' logged. record {
        by = inr (
          refl,
          record {
            absent = absent;
            row = r;
            of_status = logged.of_status;
            db = cc (logged.db, t.db);
            committed = logged.committed ∙ t.committed;
            outbox = logged.outbox ∙ t.outbox;
          },
        );
      }
move_lem peer state action (some b) env w u found t =
    Ends-bind _ _ env u (set_state_lem b.id state env u) (λ _ _ h. h)
      λ _ w₁ wrote.
        Ends-bind _ _ env w₁ (log_action_lem action success _ env w₁) (λ _ _ h. h)
          λ r w₂ logged. record {
            by = inl (
              refl,
              b,
              record {
                found = found;
                at = env.now u.asked;
                row = r;
                of_details = logged.of_details;
                db = cc (logged.db, wrote.db, t.db);
                committed = logged.committed ∙ wrote.committed ∙ t.committed;
                outbox = logged.outbox ∙ wrote.outbox ∙ t.outbox;
              },
            );
          }

-- `block` and `unblock` raise no error of the service. If a live binding has the peer, it gets the
-- state BLOCKED or ACTIVE and the log tells its previous one; otherwise only the log grows.
pub transition_outcome :
    (peer : ℤ) (env : Env) (w : World)
    → TransitionEnds peer blocked w (block peer env w)
      × TransitionEnds peer active w (unblock peer env w)
unfolding block unblock transition
transition_outcome peer env w = (step blocked vk_message_deny, step active vk_message_allow)
  where
    step :
        (state : BindingState) (action : Action)
        → TransitionEnds peer state w (transition peer state action env w)
    step state action =
        Ends-bind _ _ env w (get_by_peer_id_lem peer env w) (λ _ _ h. h)
          λ b u (found, t). move_lem peer state action b env w u found t
