-- ===== src/Repositories/UserVks/Effects.antt =====
-- What the repository of the bindings does to the world.
use eq_site_cms_vk_service.Shared.{
  ℤ, suc, ◌≡◌, refl, Bool, true, Option, some, List, ◌∷◌, not, map, select, update_where, arith,
  ◌==◌, ◌&&◌,
}
use eq_site_cms_vk_service.Text.{Text}
use eq_site_cms_vk_service.Db.{Uuid, DateTime, UserVk, BindingState}
use eq_site_cms_vk_service.Exec.{Env, World, ok, Ends, OnExists, Quiet, Untouched, ◌>>=◌, catch}
use eq_site_cms_vk_service.Repositories.Query.{one, one_or_none, is_empty}
use eq_site_cms_vk_service.Repositories.UserVks.Base.{
  create, created, get_by_id, get_by_user_id, get_by_peer_id, activate, activated, live_with_id,
  set_state, soft_delete, is_unique, is_live, same_peer,
}

-- Only the table of the bindings has changed, to `rows`.
pub record Wrote (rows : List UserVk) (w w' : World) : Type 0 where
  pub db : w'.db ≡ record (w.db) { user_vks = rows }
  pub committed : w'.committed ≡ w.committed
  pub outbox : w'.outbox ≡ w.outbox

-- The session has been rolled back.
pub record RolledBack (w w' : World) : Type 0 where
  pub db : w'.db ≡ w.committed
  pub committed : w'.committed ≡ w.committed
  pub outbox : w'.outbox ≡ w.outbox

-- A lookup: the only row with `p`, or none, and the world as it was.
abbrev pub Finds : (UserVk → Bool) → World → Option UserVk → World → Type 0
Finds p w r w' = (one_or_none (select p w.db.user_vks) ≡ ok r) × Untouched w w'

pub get_by_id_lem :
    (id : Uuid) (env : Env) (w : World)
    → Ends (Finds (λ r. r.id == id) w) Quiet (get_by_id id env w)
unfolding get_by_id ◌>>=◌ one_or_none
get_by_id_lem id env w = ground arith

pub get_by_user_id_lem :
    (user_id : Uuid) (env : Env) (w : World)
    → Ends (Finds (λ r. r.user_id == user_id && is_live r) w) Quiet (get_by_user_id user_id env w)
unfolding get_by_user_id ◌>>=◌ one_or_none
get_by_user_id_lem user_id env w = ground arith

-- A binding that is there is returned, and nothing else happens.
pub get_by_user_id_found :
    (user_id : Uuid) (b : UserVk) (env : Env) (w : World)
    → one_or_none (select (λ r. r.user_id == user_id && is_live r) w.db.user_vks) ≡ ok (some b)
    → get_by_user_id user_id env w ≡ (ok (some b), w)
unfolding get_by_user_id ◌>>=◌
get_by_user_id_found user_id b env w found = rw (found) refl

pub get_by_peer_id_lem :
    (peer_id : ℤ) (env : Env) (w : World)
    → Ends
        (Finds (λ r. same_peer r.vk_peer_id (some peer_id) && is_live r) w)
        Quiet
        (get_by_peer_id peer_id env w)
unfolding get_by_peer_id ◌>>=◌ one_or_none
get_by_peer_id_lem peer_id env w = ground arith

pub create_lem :
    (user_id : Uuid) (env : Env) (w : World)
    → let rows = created user_id (env.uuid (suc w.asked)) (env.now w.asked) ∷ w.db.user_vks in
      Ends
        (λ r w'.
          (r ≡ created user_id (env.uuid (suc w.asked)) (env.now w.asked))
          × (is_unique rows ≡ true)
          × Wrote rows w w')
        (OnExists (RolledBack w))
        (create user_id env w)
unfolding create ◌>>=◌ catch
create_lem user_id env w = ground arith

pub activate_lem :
    (id : Uuid) (peer_id : ℤ) (screen_name display_name : Option Text) (env : Env) (w : World)
    → let row = activated peer_id screen_name display_name (env.now w.asked) in
      let rows = update_where (live_with_id id) row w.db.user_vks in
      Ends
        (λ r w'.
          (one (map row (select (live_with_id id) w.db.user_vks)) ≡ ok r)
          × (is_unique rows ≡ true)
          × Wrote rows w w')
        (OnExists (RolledBack w))
        (activate id peer_id screen_name display_name env w)
unfolding activate ◌>>=◌ catch one
activate_lem id peer_id screen_name display_name env w = ground arith

pub set_state_lem :
    (id : Uuid) (state : BindingState) (env : Env) (w : World)
    → let row = λ (r : UserVk). record r { state = state; updated_at = env.now w.asked } in
      Ends
        (λ _ w'. Wrote (update_where (live_with_id id) row w.db.user_vks) w w')
        Quiet
        (set_state id state env w)
unfolding set_state ◌>>=◌ one_or_none
set_state_lem id state env w = ground arith

-- The row that `soft_delete` writes in place of `r`.
abbrev pub deleted : DateTime → UserVk → UserVk
deleted now r = record r { deleted_at = some now; updated_at = now }

abbrev pub live_of_user : Uuid → UserVk → Bool
live_of_user user_id r = r.user_id == user_id && is_live r

pub soft_delete_lem :
    (user_id : Uuid) (env : Env) (w : World)
    → Ends
        (λ gone w'.
          (gone ≡ not (is_empty (select (live_of_user user_id) w.db.user_vks)))
          × Wrote
              (update_where (live_of_user user_id) (deleted (env.now w.asked)) w.db.user_vks)
              w
              w')
        Quiet
        (soft_delete user_id env w)
unfolding soft_delete ◌>>=◌
soft_delete_lem user_id env w = ground arith
