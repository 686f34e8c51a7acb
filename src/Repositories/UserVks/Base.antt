-- ===== src/Repositories/UserVks/Base.antt =====
-- src/repositories/user_vk.py on the table of src/models/user_vk.py.
use eq_site_cms_vk_service.Shared.{
  ℕ, ℤ, Bool, true, false, not, ◌&&◌, ◌||◌, Option, none, some, List, [], ◌∷◌, map, is_none, any,
  select, update_where, ◌==◌, ◌==ℤ◌,
}
use eq_site_cms_vk_service.Text.{Text}
use eq_site_cms_vk_service.Errors.{
  Error, app, AppErrorClass, with_uuid, with_peer, integrity_error, data_error,
}
use eq_site_cms_vk_service.Db.{Uuid, DateTime, UserVk, BindingState, pending, active, state_eq}
use eq_site_cms_vk_service.Exec.{
  Exec, pure, raise, lift, gets, modify, check, catch, rollback, now, new_uuid, ◌>>=◌, ◌>>◌,
}
use eq_site_cms_vk_service.Repositories.Query.{fits, one, one_or_none, is_empty}

-- `deleted_at IS NULL`
abbrev pub is_live : UserVk → Bool
is_live r = is_none r.deleted_at

unfoldable pub same_peer : Option ℤ → Option ℤ → Bool
same_peer (some a) (some b) = a ==ℤ b
same_peer _ _ = false

-- The primary key and the two partial unique indexes.
unfoldable pub conflicts : UserVk → UserVk → Bool
conflicts a b =
    a.id == b.id
    || (is_live a && is_live b && (a.user_id == b.user_id || same_peer a.vk_peer_id b.vk_peer_id))

-- No two rows violate a constraint.
unfoldable pub is_unique : List UserVk → Bool
is_unique [] = true
is_unique (r ∷ rs) = not (any (conflicts r) rs) && is_unique rs

abbrev pub name_fits : ℕ → Option Text → Bool
name_fits n none = true
name_fits n (some name) = fits n name

-- Writes the table if its constraints hold afterwards.
unfoldable pub write : List UserVk → Exec Unit
write rows = do check (is_unique rows) integrity_error; modify (λ db. record db { user_vks = rows })

-- `except IntegrityError: rollback; raise AlreadyExistsError`
abbrev pub already_exists : {A : Type 0} → Error → Error → Exec A
already_exists e integrity_error = do rollback; raise e
already_exists e other = raise other

-- The row that `create` inserts.
abbrev pub created : Uuid → Uuid → DateTime → UserVk
created user_id id now = record {
  id = id;
  user_id = user_id;
  vk_peer_id = none;
  state = pending;
  vk_screen_name = none;
  vk_display_name = none;
  deleted_at = none;
  created_at = now;
  updated_at = now;
}

unfoldable pub create : Uuid → Exec UserVk
unfolding write
create user_id = do
  now ← now
  id ← new_uuid
  rows ← gets (λ db. db.user_vks)
  let row = created user_id id now
  catch (write (row ∷ rows)) (
      already_exists (
        app AppErrorClass.already_exists
          (with_uuid "VK binding already exists for user_id=" user_id)))
  pure row

unfoldable pub get_by_id : Uuid → Exec (Option UserVk)
get_by_id record_id = do
  rows ← gets (λ db. db.user_vks)
  lift (one_or_none (select (λ r. r.id == record_id) rows))

unfoldable pub get_by_user_id : Uuid → Exec (Option UserVk)
get_by_user_id user_id = do
  rows ← gets (λ db. db.user_vks)
  lift (one_or_none (select (λ r. r.user_id == user_id && is_live r) rows))

-- `user_id IN (…)`
abbrev pub is_in : List Uuid → Uuid → Bool
is_in ids id = any (λ i. i == id) ids

abbrev pub in_state : Option BindingState → UserVk → Bool
in_state none r = true
in_state (some s) r = state_eq r.state s

unfoldable pub get_by_user_ids : List Uuid → Option BindingState → Exec (List UserVk)
get_by_user_ids user_ids state =
    gets (λ db. select (λ r. is_in user_ids r.user_id && is_live r && in_state state r) db.user_vks)

unfoldable pub get_by_peer_id : ℤ → Exec (Option UserVk)
get_by_peer_id vk_peer_id = do
  rows ← gets (λ db. db.user_vks)
  lift (one_or_none (select (λ r. same_peer r.vk_peer_id (some vk_peer_id) && is_live r) rows))

-- The row that `activate` writes in place of `r`.
abbrev pub activated : ℤ → Option Text → Option Text → DateTime → UserVk → UserVk
activated peer_id screen_name display_name now r = record r {
  vk_peer_id = some peer_id;
  state = active;
  vk_screen_name = screen_name;
  vk_display_name = display_name;
  updated_at = now;
}

abbrev pub live_with_id : Uuid → UserVk → Bool
live_with_id record_id r = r.id == record_id && is_live r

unfoldable pub activate : Uuid → ℤ → Option Text → Option Text → Exec UserVk
unfolding write
activate record_id peer_id screen_name display_name = do
  now ← now
  rows ← gets (λ db. db.user_vks)
  let target = live_with_id record_id
  let row = activated peer_id screen_name display_name now
  let touched = select target rows
  check (is_empty touched || (name_fits 64 screen_name && name_fits 255 display_name)) data_error
  catch (write (update_where target row rows)) (
      already_exists (
        app AppErrorClass.already_exists
          (with_peer "VK account already linked: vk_peer_id=" peer_id)))
  lift (one (map row touched))

-- The test on `ALLOWED_STATES` is the type `BindingState`.
unfoldable pub set_state : Uuid → BindingState → Exec (Option UserVk)
set_state record_id state = do
  now ← now
  rows ← gets (λ db. db.user_vks)
  let target = live_with_id record_id
  let row = λ (r : UserVk). record r { state = state; updated_at = now }
  modify (λ db. record db { user_vks = update_where target row rows })
  lift (one_or_none (map row (select target rows)))

unfoldable pub soft_delete : Uuid → Exec Bool
soft_delete user_id = do
  now ← now
  rows ← gets (λ db. db.user_vks)
  let target = λ (r : UserVk). r.user_id == user_id && is_live r
  modify (λ db. record db {
    user_vks = update_where target (λ r. record r { deleted_at = some now; updated_at = now }) rows;
  })
  pure (not (is_empty (select target rows)))
