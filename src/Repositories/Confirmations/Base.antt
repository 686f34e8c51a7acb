-- ===== src/Repositories/Confirmations/Base.antt =====
-- src/repositories/vk_confirmation.py on the table of src/models/vk_confirmation.py.
use eq_site_cms_vk_service.Shared.{
  ℕ, Bool, not, ◌&&◌, ◌||◌, Option, none, some, ◌∷◌, is_none, any, select, update_where, length,
  ◌==◌,
}
use eq_site_cms_vk_service.Text.{Text, text_eq}
use eq_site_cms_vk_service.Errors.{integrity_error, data_error}
use eq_site_cms_vk_service.Db.{Uuid, DateTime, UserVk, VkConfirmation}
use eq_site_cms_vk_service.Exec.{Exec, pure, lift, gets, modify, check, now, new_uuid, ◌>>=◌, ◌>>◌}
use eq_site_cms_vk_service.Repositories.Query.{one_or_none, fits}

-- The primary key and the unique index on `code`.
unfoldable pub conflicts : VkConfirmation → VkConfirmation → Bool
conflicts a b = a.id == b.id || text_eq a.code b.code

-- The row that `create` inserts.
abbrev pub created : Uuid → Text → DateTime → Uuid → DateTime → VkConfirmation
created user_vk_id code expires_at id now = record {
  id = id;
  user_vk_id = user_vk_id;
  code = code;
  expires_at = expires_at;
  created_at = now;
  used_at = none;
}

unfoldable pub create : Uuid → Text → DateTime → Exec VkConfirmation
create user_vk_id code expires_at = do
  id ← new_uuid
  now ← now
  let row = created user_vk_id code expires_at id now
  check (fits 16 code) data_error
  rows ← gets (λ db. db.vk_confirmations)
  owners ← gets (λ db. db.user_vks)
  check (not (any (conflicts row) rows)) integrity_error
  -- the foreign key
  check (any (λ (r : UserVk). r.id == user_vk_id) owners) integrity_error
  modify (λ db. record db { vk_confirmations = row ∷ rows })
  pure row

unfoldable pub get_by_code : Text → Exec (Option VkConfirmation)
get_by_code code = do
  rows ← gets (λ db. db.vk_confirmations)
  lift (one_or_none (select (λ r. text_eq r.code code) rows))

-- A confirmation that is marked used at `now`.
abbrev pub used : DateTime → VkConfirmation → VkConfirmation
used now r = record r { used_at = some now }

unfoldable pub mark_used : Uuid → Exec Unit
mark_used confirmation_id = do
  now ← now
  modify (λ db. record db {
    vk_confirmations = update_where (λ r. r.id == confirmation_id) (used now) db.vk_confirmations;
  })

abbrev pub unused_of : Uuid → VkConfirmation → Bool
unused_of user_vk_id r = r.user_vk_id == user_vk_id && is_none r.used_at

unfoldable pub invalidate_previous : Uuid → Exec ℕ
invalidate_previous user_vk_id = do
  now ← now
  rows ← gets (λ db. db.vk_confirmations)
  let target = unused_of user_vk_id
  modify (λ db. record db { vk_confirmations = update_where target (used now) rows })
  pure (length (select target rows))
