-- ===== src/Steps/Effects.antt =====
-- What the services write, in the terms of their outcomes, is steps.
use eq_site_cms_vk_service.Services.Confirm.{ConfirmationResult, Attempt}
use eq_site_cms_vk_service.Services.Binding.{Issued, BindingSettings}
use eq_site_cms_vk_service.Shared.{◌∷◌, ℤ, ◌≡◌, ◌≢◌, refl, sym, inl, inr, Bool, arith}
use eq_site_cms_vk_service.Db.{VkLog, Uuid, UserVk, VkConfirmation, BindingState, pending}
use eq_site_cms_vk_service.Exec.{Env, World}
use eq_site_cms_vk_service.Repositories.Confirmations.{created}
use eq_site_cms_vk_service.Services.Binding.Ensured.{Ensured}
use eq_site_cms_vk_service.Services.Binding.Issuing.{Issuance}
use eq_site_cms_vk_service.Services.Binding.Unlinked.{Unlinked}
use eq_site_cms_vk_service.Services.Confirm.Outcome.{Accepted}
use eq_site_cms_vk_service.Services.Confirm.Refused.{Refused}
use eq_site_cms_vk_service.Services.State.Moved.{Moves}
use eq_site_cms_vk_service.Steps.Base.{
  leaves, writes, permits, asks, Cause, Awaits, Steps, rest, insert, issue, link, unlink, move,
  next, one_step, Steps-from,
}
use eq_site_cms_vk_service.Repositories.Selected.{one_or_none-only}

abbrev pub Goes : Cause → World → World → Type 0
Goes cause w w' = Steps cause w.db w'.db

pub Ensured-Goes :
    (owner : Uuid) (b : UserVk) (is_new : Bool) (w w' : World)
    → Ensured owner w (b, is_new) w'
    → Goes (asks owner) w w'
Ensured-Goes owner b is_new w w' (inl (_, _, t)) = Steps-from t.db
Ensured-Goes owner b is_new w w' (inr (_, i)) = one_step (
    insert owner i.id i.at i.absent (rw (← i.row) i.unique)
      (rw (i.wrote.db, i.row) refl, rw (i.wrote.db) refl))

-- The binding that has been found or made stands in the table.
Ensured-Awaits :
    (owner : Uuid) (b : UserVk) (is_new : Bool) (c : VkConfirmation) (w w' : World)
    → Ensured owner w (b, is_new) w'
    → b.state ≡ pending
    → c.user_vk_id ≡ b.id
    → Awaits c w'.db.user_vks
Ensured-Awaits owner b is_new c w w' (inl (_, found, t)) e f =
    let ((stored, live), _) = one_or_none-only _ w.db.user_vks b found in
    record {
      binding = b;
      stored = rw (t.db) stored;
      is_owner = sym f;
      live = ground arith;
      is_pending = e;
    }
Ensured-Awaits owner b is_new c w w' (inr (_, i)) e f = record {
  binding = b;
  stored = rw (i.wrote.db) (inl refl);
  is_owner = sym f;
  live = rw (i.row) refl;
  is_pending = e;
}

pub Issuance-Goes :
    (settings : BindingSettings) (env : Env) (owner : Uuid) (w : World) (r : Issued) (w' : World)
    → Issuance settings env owner w r w'
    → Goes (asks owner) w w'
Issuance-Goes settings env owner w r w' i =
    let b = i.binding in
    let code = created b.id r.code r.expires_at i.issued.id i.issued.created_at in
    next (Ensured-Goes owner b i.is_new w i.between i.ensured) (
      issue owner code i.issued.used_at refl i.issued.unknown
        (Ensured-Awaits owner b i.is_new code w i.between i.ensured i.is_pending refl)
        (rw (i.issued.db) refl, rw (i.issued.db) refl))

pub Unlinked-Goes :
    (owner : Uuid) (b : UserVk) (w w' : World) → Unlinked owner b w w' → Goes (leaves owner) w w'
Unlinked-Goes owner b w w' l =
    one_step (unlink owner b l.used_at l.deleted_at l.found (rw (l.db) refl, rw (l.db) refl))

-- A row of the log is no change of these tables.
pub logged_step :
    {cause : Cause} (row : VkLog) (w w' : World)
    → w'.db ≡ record (w.db) { vk_logs = row ∷ w.db.vk_logs }
    → Goes cause w w'
logged_step row w w' e = one_step (rest (rw (e) refl, rw (e) refl))

pub Moves-Goes :
    (peer : ℤ) (state : BindingState) (w : World) (moved : Bool) (w' : World)
    → state ≢ pending
    → Moves peer state w moved w'
    → Goes (permits peer state) w w'
Moves-Goes peer state w moved w' settled (inl (_, b, m)) =
    one_step (move peer state b m.at settled m.found (rw (m.db) refl, rw (m.db) refl))
Moves-Goes peer state w moved w' settled (inr (_, m)) = logged_step m.row w w' m.db

pub Accepted-Goes :
    (env : Env) (a : Attempt) (w : World) (r : ConfirmationResult) (w' : World)
    → Accepted env a w r w'
    → Goes (writes a.vk_peer_id) w w'
Accepted-Goes env a w r w' (inl c) =
    let ((stored, _), _) = one_or_none-only _ w.db.vk_confirmations c.confirmation c.found in
    one_step (
      link c.confirmation a.vk_peer_id a.vk_screen_name a.vk_display_name c.linked.activated_at
        c.linked.used_at stored c.was_unused c.linked.unique
        (rw (c.linked.db) refl, rw (c.linked.db) refl))
Accepted-Goes env a w r w' (inr c) = logged_step c.row w w' c.db

pub Refused-Goes : {cause : Cause} (a : Attempt) (w w' : World) → Refused a w w' → Goes cause w w'
Refused-Goes a w w' r = logged_step r.row w w' r.db
