-- ===== src/System/Requests.antt =====
-- A request changes the committed database by steps.
use eq_site_cms_vk_service.Steps.Base.{asks, Cause, leaves, Steps, Steps-from}
use eq_site_cms_vk_service.Steps.Effects.{
  Goes, logged_step, Ensured-Goes, Issuance-Goes, Unlinked-Goes,
}
use eq_site_cms_vk_service.Services.Binding.Ensured.{ensure_binding_outcome}
use eq_site_cms_vk_service.Services.Binding.Issuing.{issue_confirmation_outcome}
use eq_site_cms_vk_service.Services.Uncommitted.{unlink-Uncommitted, ensure_binding-Uncommitted}
use eq_site_cms_vk_service.Services.Binding.{BindingSettings}
use eq_site_cms_vk_service.Api.Refusals.{issue_with-Uncommitted}
use eq_site_cms_vk_service.Services.Binding.Unlinked.{unlink_outcome, NotLinked, Unlinked}
use eq_site_cms_vk_service.Shared.{◌⊎◌, ◌≡◌, refl, inl, inr, Bool, true, false}
use eq_site_cms_vk_service.Errors.{Error}
use eq_site_cms_vk_service.Db.{UserVk, Uuid}
use eq_site_cms_vk_service.Exec.{Env, World, Result, ok, err, Exec, Ends, Ends-bind}
use eq_site_cms_vk_service.Exec.Preserves.{Uncommitted, Preserves-bind, Preserves-pure}
use eq_site_cms_vk_service.Api.{with_session}
use eq_site_cms_vk_service.Api.Atomic.{AllOrNothing, fresh, with_session_is_atomic}
use eq_site_cms_vk_service.Api.{
  Dialog, issue_with, create_binding, post_issue_confirmation, delete_binding,
}

-- What a call has returned is what its postcondition says.
pub Ends-ok :
    {A : Type 0} {Q : A → World → Type 0} {R : Error → World → Type 0} (x : Result A × World)
    (a : A)
    → Ends Q R x
    → x.0 ≡ ok a
    → Q a x.1
Ends-ok (ok b, w) a h e = let same : b ≡ a = cc e in rw (← same) h.by
Ends-ok (err e, w) a h k = absurd (cc k)

-- Code that, where it returns, has changed the database of its session by steps.
abbrev pub IsSteps : {A : Type 0} → Cause → Exec A → Env → World → Type 0
IsSteps cause m env w = Ends (λ _ w'. Goes cause w w') (λ _ _. Unit) (m env w)

pub with_session-Steps :
    {cause : Cause} {A : Type 0} (m : Exec A) (env : Env) (w : World)
    → Uncommitted m
    → IsSteps cause m env (fresh w)
    → Steps cause w.committed (with_session m env w).1.committed
with_session-Steps {cause} {A} m env w kept keeps =
    go (with_session m env w) (with_session_is_atomic m env w kept)
  where
    go : (x : Result A × World) → AllOrNothing m env w x → Steps cause w.committed x.1.committed
    go (ok a, w') d = let (e, saved, _) = d.by in rw (saved) (Ends-ok (m env (fresh w)) a keeps e)
    go (err e, w') d = let (_, saved, _) = d.by in Steps-from saved

pub create_binding-Steps :
    (owner : Uuid) (env : Env) (w : World)
    → Steps (asks owner) w.committed (create_binding owner env w).1.committed
unfolding create_binding
create_binding-Steps owner env w =
    with_session-Steps _ env w
      (Preserves-bind _ _ (ensure_binding-Uncommitted owner) (λ _. Preserves-pure _))
      (Ends-bind _ _ env (fresh w) (ensure_binding_outcome owner env (fresh w) refl) (λ _ _ _. tt)
        λ (b, is_new) w' made. record { by = Ensured-Goes owner b is_new (fresh w) w' made })

pub post_issue_confirmation-Steps :
    (settings : BindingSettings) (dialog : Dialog) (owner : Uuid) (env : Env) (w : World)
    → Steps
        (asks owner)
        w.committed
        (post_issue_confirmation settings dialog owner env w).1.committed
unfolding post_issue_confirmation issue_with
post_issue_confirmation-Steps settings dialog owner env w =
    with_session-Steps _ env w (issue_with-Uncommitted settings dialog owner) (
      Ends-bind _ _ env (fresh w) (issue_confirmation_outcome settings owner env (fresh w) refl)
        (λ _ _ _. tt)
        λ r w' made. record { by = Issuance-Goes settings env owner (fresh w) r w' made })

pub delete_binding-Steps :
    (owner : Uuid) (env : Env) (w : World)
    → Steps (leaves owner) w.committed (delete_binding owner env w).1.committed
unfolding delete_binding
delete_binding-Steps owner env w =
    with_session-Steps _ env w
      (Preserves-bind _ _ (unlink-Uncommitted owner) (λ _. Preserves-pure tt))
      (Ends-bind _ _ env (fresh w) (unlink_outcome owner env (fresh w)) (λ _ _ _. tt)
        λ found w' done. record { by = kept w' done })
  where
    kept :
        {found : Bool} (w' : World)
        → ((found ≡ true) × (b : UserVk) × Unlinked owner b (fresh w) w')
          ⊎ ((found ≡ false) × NotLinked owner (fresh w) w')
        → Goes (leaves owner) (fresh w) w'
    kept w' (inl (_, b, l)) = Unlinked-Goes owner b (fresh w) w' l
    kept w' (inr (_, l)) = logged_step l.row (fresh w) w' l.db
