-- ===== src/Steps/Base.antt =====
-- One change of the tables of src/models/user_vk.py and src/models/vk_confirmation.py, with what the
-- services have checked before they made it, and any number of them.
use eq_site_cms_vk_service.Shared.{
  ℤ, ◌≡◌, ◌≢◌, refl, true, false, List, ◌∷◌, none, some, Option, Member, any, select, update_where,
  ◌==◌, ◌&&◌,
}
use eq_site_cms_vk_service.Text.{Text}
use eq_site_cms_vk_service.Db.{Db, Uuid, DateTime, UserVk, VkConfirmation, BindingState, pending}
use eq_site_cms_vk_service.Exec.{ok}
use eq_site_cms_vk_service.Repositories.Query.{one_or_none}
use eq_site_cms_vk_service.Repositories.UserVks.{
  is_unique, is_live, live_with_id, activated, same_peer, created,
}
use eq_site_cms_vk_service.Repositories.UserVks.Effects.{deleted, live_of_user}
use eq_site_cms_vk_service.Repositories.Confirmations
use eq_site_cms_vk_service.Repositories.Confirmations.{used, unused_of}
use eq_site_cms_vk_service.Services.State.Moved.{in_new_state}

-- The binding that an open code is for: it is live and PENDING.
pub record Awaits (c : VkConfirmation) (rows : List UserVk) : Type 0 where
  pub binding : UserVk
  pub stored : Member binding rows
  pub is_owner : binding.id ≡ c.user_vk_id
  pub live : binding.deleted_at ≡ none
  pub is_pending : binding.state ≡ pending

-- Both tables of a database.
abbrev pub HasTables : List UserVk → List VkConfirmation → Db → Type 0
HasTables rows codes db = (db.user_vks ≡ rows) × (db.vk_confirmations ≡ codes)

-- What a change is made for.
pub data Cause : Type 0 where
  -- a request by an owner: for a binding and a code, or to unlink
  asks leaves : Uuid → Cause
  -- a message of a user, and a permission of a user that has changed
  writes : ℤ → Cause
  permits : ℤ → BindingState → Cause
  -- anything that changes neither table
  looks : Cause

pub data Step (db db' : Db) : Cause → Type 0 where
  -- something else has changed, if anything
  rest : {cause : Cause} → HasTables db.user_vks db.vk_confirmations db' → Step db db' cause
  -- a binding for an owner who had none
  insert :
      (owner id : Uuid) (now : DateTime)
      → one_or_none (select (live_of_user owner) db.user_vks) ≡ ok none
      → is_unique (created owner id now ∷ db.user_vks) ≡ true
      → HasTables (created owner id now ∷ db.user_vks) db.vk_confirmations db'
      → Step db db' (asks owner)
  -- a new code in place of the unused ones
  issue :
      (owner : Uuid) (c : VkConfirmation) (now : DateTime)
      → c.used_at ≡ none
      → any
          (Confirmations.conflicts c)
          (update_where (unused_of c.user_vk_id) (used now) db.vk_confirmations)
        ≡ false
      → Awaits c db.user_vks
      → HasTables db.user_vks
          (c ∷ update_where (unused_of c.user_vk_id) (used now) db.vk_confirmations)
          db'
      → Step db db' (asks owner)
  -- an unused code makes its live binding that of a peer
  link :
      (c : VkConfirmation) (peer : ℤ) (screen_name display_name : Option Text) (at now : DateTime)
      → Member c db.vk_confirmations
      → c.used_at ≡ none
      → is_unique (
          update_where
            (live_with_id c.user_vk_id)
            (activated peer screen_name display_name at)
            db.user_vks)
        ≡ true
      → HasTables
          (update_where
            (live_with_id c.user_vk_id)
            (activated peer screen_name display_name at)
            db.user_vks)
          (update_where (λ (r : VkConfirmation). r.id == c.id) (used now) db.vk_confirmations)
          db'
      → Step db db' (writes peer)
  -- the live binding of an owner goes, with its unused codes
  unlink :
      (owner : Uuid) (b : UserVk) (now at : DateTime)
      → one_or_none (select (live_of_user owner) db.user_vks) ≡ ok (some b)
      → HasTables
          (update_where (live_of_user owner) (deleted at) db.user_vks)
          (update_where (unused_of b.id) (used now) db.vk_confirmations)
          db'
      → Step db db' (leaves owner)
  -- the live binding of a peer is told of a permission
  move :
      (peer : ℤ) (state : BindingState) (b : UserVk) (at : DateTime)
      → state ≢ pending
      → one_or_none
          (select (λ (r : UserVk). same_peer r.vk_peer_id (some peer) && is_live r) db.user_vks)
        ≡ ok (some b)
      → HasTables
          (update_where (live_with_id b.id) (in_new_state state at) db.user_vks)
          db.vk_confirmations
          db'
      → Step db db' (permits peer state)

-- Any number of steps for one cause.
pub data Steps (cause : Cause) (db : Db) : Db → Type 0 where
  here : Steps cause db db
  next : {db' db'' : Db} → Steps cause db db' → Step db' db'' cause → Steps cause db db''

module _ {cause : Cause} where
  pub one_step : {db db' : Db} → Step db db' cause → Steps cause db db'
  one_step s = next here s

  pub Steps-trans : {a b c : Db} → Steps cause a b → Steps cause b c → Steps cause a c
  Steps-trans r here = r
  Steps-trans r (next s t) = next (Steps-trans r s) t

  pub Steps-from : {a b : Db} → b ≡ a → Steps cause a b
  Steps-from e = one_step (rest (rw (e) refl, rw (e) refl))
