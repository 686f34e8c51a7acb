-- ===== src/Services/Binding/Ensured.antt =====
-- What `ensure_binding` returns and writes.
use eq_site_cms_vk_service.Shared.{
  ℕ, suc, ◌≡◌, refl, sym, ◌∙◌, ◌⊎◌, inl, inr, true, false, Bool, Option, none, some, ◌∷◌, select,
}
use eq_site_cms_vk_service.Errors.{Message, Error, app, AppErrorClass}
use eq_site_cms_vk_service.Db.{Uuid, UserVk}
use eq_site_cms_vk_service.Exec.{
  OnExists-map, Quiet-exists, Env, World, ok, Ends, Ends-bind, Ends-catch, Ends-map, OnExists,
  Untouched, Untouched-refl, Untouched-trans,
}
use eq_site_cms_vk_service.Repositories.Query.{one_or_none}
use eq_site_cms_vk_service.Repositories.UserVks.{is_unique, created}
use eq_site_cms_vk_service.Repositories.UserVks.Effects.{
  Wrote, RolledBack, live_of_user, get_by_user_id_lem, create_lem,
}
use eq_site_cms_vk_service.Services.Binding.Base.{
  read_again, ensure_binding, use_or_create, create_failed,
}

-- The live binding of an owner, if there is one.
abbrev pub OfUser : Uuid → World → Option UserVk → Type 0
OfUser owner w r = one_or_none (select (live_of_user owner) w.db.user_vks) ≡ ok r

-- A new row has been inserted.
pub record Inserted (owner : Uuid) (w : World) (b : UserVk) (w' : World) : Type 0 where
  pub absent : OfUser owner w none
  pub id : Uuid
  pub at : ℕ
  pub row : b ≡ created owner id at
  pub unique : is_unique (b ∷ w.db.user_vks) ≡ true
  pub wrote : Wrote (b ∷ w.db.user_vks) w w'

-- The owner's binding was there, or has been inserted; the flag tells which.
abbrev pub Ensured : Uuid → World → UserVk × Bool → World → Type 0
Ensured owner w (b, is_new) w' =
    ((is_new ≡ false) × OfUser owner w (some b) × Untouched w w')
    ⊎ ((is_new ≡ true) × Inserted owner w b w')

pub Ensured-from :
    {u v w : World} (owner : Uuid) (b : UserVk) (is_new : Bool)
    → Untouched u v
    → Ensured owner v (b, is_new) w
    → Ensured owner u (b, is_new) w
Ensured-from owner b is_new t (inl (old, found, t')) =
    inl (old, rw (← t.db) found, Untouched-trans t t')
Ensured-from owner b is_new t (inr (fresh, h)) = inr (
  fresh,
  record {
    absent = rw (← t.db) h.absent;
    id = h.id;
    at = h.at;
    row = h.row;
    unique = rw (← t.db) h.unique;
    wrote = record {
      db = cc (h.wrote.db, t.db);
      committed = h.wrote.committed ∙ t.committed;
      outbox = h.wrote.outbox ∙ t.outbox;
    };
  },
)

-- The only error of the service's own is `AlreadyExistsError`, from the session's first state.
abbrev pub Clashed : World → Error → World → Type 0
Clashed w = OnExists (Untouched w)

read_again_lem :
    (owner : Uuid) (m : Message) (existing : Option UserVk) (env : Env) (w u : World)
    → OfUser owner w none
    → OfUser owner w existing
    → Untouched w u
    → Ends
        (Ensured owner w)
        (Clashed w)
        (read_again (app AppErrorClass.already_exists m) existing env u)
read_again_lem owner m none env w u absent found t = record { by = t }
read_again_lem owner m (some b) env w u absent found t = record { by = inl (refl, found, t) }

create_failed_lem :
    (owner : Uuid) (e : Error) (env : Env) (w w' : World)
    → w.committed ≡ w.db
    → OfUser owner w none
    → OnExists (RolledBack w) e w'
    → Ends (Ensured owner w) (Clashed w) (create_failed owner e env w')
create_failed_lem owner (app AppErrorClass.already_exists m) env w w' fresh absent h =
    Ends-bind _ _ env w' (get_by_user_id_lem owner env w') (Quiet-exists (Untouched w))
      λ existing u (found, t).
        let back : Untouched w w' = record {
          db = h.db ∙ fresh;
          committed = h.committed;
          outbox = h.outbox;
        } in
        read_again_lem owner m existing env w u absent (rw (h.db ∙ fresh) at found)
          (Untouched-trans back t)
create_failed_lem owner (app _ m) env w w' fresh absent h = absurd h
create_failed_lem owner _ env w w' fresh absent h = record { by = tt }

use_or_create_lem :
    (owner : Uuid) (current : Option UserVk) (env : Env) (w : World)
    → w.committed ≡ w.db
    → OfUser owner w current
    → Ends (Ensured owner w) (Clashed w) (use_or_create owner current env w)
use_or_create_lem owner (some b) env w fresh found = record {
  by = inl (refl, found, Untouched-refl w);
}
use_or_create_lem owner none env w fresh absent =
    Ends-catch _ _ env w
      (Ends-bind _ _ env w (create_lem owner env w) (λ _ _ h. h)
        λ b w₁ (row, unique, wrote). record {
          by = inr (
            refl,
            record {
              absent = absent;
              id = env.uuid (suc w.asked);
              at = env.now w.asked;
              row = row;
              unique = rw row unique;
              wrote = rw row wrote;
            },
          );
        })
      (λ e w' h. create_failed_lem owner e env w w' fresh absent h)

-- In a session with nothing uncommitted: an owner with a live binding gets that one and nothing is
-- written; for any other a row is inserted that is PENDING, has no peer and leaves every constraint
-- intact. `AlreadyExistsError` gets out only with the session as it was.
pub ensure_binding_outcome :
    (owner : Uuid) (env : Env) (w : World)
    → w.committed ≡ w.db
    → Ends (Ensured owner w) (Clashed w) (ensure_binding owner env w)
unfolding ensure_binding
ensure_binding_outcome owner env w fresh =
    Ends-bind _ _ env w (get_by_user_id_lem owner env w) (Quiet-exists (Untouched w))
      λ current w₁ (found, t).
        Ends-map _
          (use_or_create_lem owner current env w₁ (t.committed ∙ fresh ∙ sym t.db) (rw t.db found))
          (λ (b, is_new) w' h. Ensured-from owner b is_new t h)
          (λ e w' h. OnExists-map (Untouched w₁) (Untouched w) e w' (λ v x. Untouched-trans t x) h)
