-- ===== src/Api/Refusals.antt =====
-- `POST /vks/issue-confirmation` for an owner whose binding is not PENDING.
use eq_site_cms_vk_service.Exec.Preserves.{Uncommitted, Preserves-bind, Preserves-pure}
use eq_site_cms_vk_service.Api.Endpoints.{Dialog, issue_with}
use eq_site_cms_vk_service.Services.Uncommitted.{issue_confirmation-Uncommitted}
use eq_site_cms_vk_service.Api.Atomic.{with_session_is_atomic, fresh}
use eq_site_cms_vk_service.Api.Endpoints.{post_issue_confirmation}
use eq_site_cms_vk_service.Repositories.UserVks.Effects.{get_by_user_id_found}
use eq_site_cms_vk_service.Repositories.Logs.Effects.{log_action_or_duplicate_lem, OnDuplicate}
use eq_site_cms_vk_service.Services.Binding.Ensured.{OfUser}
use eq_site_cms_vk_service.Services.Binding.{
  use_or_create, issue_for, refuse_issue, already_linked, BindingSettings, ensure_binding,
  issue_confirmation, bot_blocked, Issued,
}
use eq_site_cms_vk_service.Shared.{false, String, ◌≡◌, ◌≢◌, refl, ◌∷◌, some}
use eq_site_cms_vk_service.Errors.{Error, integrity_error, app, AppErrorClass, plain}
use eq_site_cms_vk_service.Db.{
  Uuid, UserVk, VkLog, BindingState, pending, active, blocked, LogStatus, vk_issue_confirmation,
}
use eq_site_cms_vk_service.Exec.{
  bind_ok, Untouched-refl, err, Result, ok, Untouched, Env, World, Ends, Ends-bind, Ends-map,
}

-- The answer, and the row of the log.
abbrev pub refusal : BindingState → String
refusal blocked = bot_blocked
refusal _ = already_linked

abbrev pub refusal_status : BindingState → LogStatus
refusal_status blocked = LogStatus.conflict_blocked
refusal_status _ = LogStatus.conflict_active

-- A conflict, with a row logged in the session, or the error of a database that refuses that row.
abbrev pub Declined : BindingState → World → Error → World → Type 0
Declined state w (app kind m) w' =
    (kind ≡ AppErrorClass.conflict)
    × (m ≡ plain (refusal state))
    × (row : VkLog) × (row.status ≡ refusal_status state)
    × (w'.db ≡ record (w.db) { vk_logs = row ∷ w.db.vk_logs })
Declined state w integrity_error w' = Unit
Declined state w _ w' = ⊥

OnDuplicate-Declined :
    (state : BindingState) (w : World) (e : Error) (w' : World)
    → OnDuplicate e w'
    → Declined state w e w'
OnDuplicate-Declined state w integrity_error w' h = tt
OnDuplicate-Declined state w (app k m) w' h = absurd h
OnDuplicate-Declined state w _ w' h = absurd h

refuse_issue_lem :
    {Q : Issued → World → Type 0} (owner : Uuid) (b : UserVk) (state : BindingState) (env : Env)
    (w u : World)
    → Untouched w u
    → Ends Q (Declined state w) (refuse_issue owner b (refusal_status state) (refusal state) env u)
refuse_issue_lem owner b state env w u t =
    Ends-bind _ _ env u
      (log_action_or_duplicate_lem vk_issue_confirmation (refusal_status state) _ env u)
      (OnDuplicate-Declined state w)
      λ r w' logged. record { by = (refl, refl, r, logged.of_status, cc (logged.db, t.db)) }

issue_for_refused :
    {Q : Issued → World → Type 0} (settings : BindingSettings) (owner : Uuid) (b : UserVk)
    (state : BindingState) (env : Env) (w u : World)
    → state ≢ pending
    → Untouched w u
    → Ends Q (Declined state w) (issue_for settings owner b state env u)
issue_for_refused settings owner b active env w u settled t =
    refuse_issue_lem owner b active env w u t
issue_for_refused settings owner b blocked env w u settled t =
    refuse_issue_lem owner b blocked env w u t
issue_for_refused settings owner b pending env w u settled t = absurd (settled refl)

-- A binding that is there is found.
ensure_found_lem :
    (owner : Uuid) (b : UserVk) (env : Env) (w : World)
    → OfUser owner w (some b)
    → ensure_binding owner env w ≡ (ok (b, false), w)
unfolding ensure_binding
ensure_found_lem owner b env w found =
    bind_ok _ (use_or_create owner) env w (some b) w (get_by_user_id_found owner b env w found)

-- In the session of the request, the refusal and its row.
issue_confirmation_refused :
    {Q : Issued → World → Type 0} (settings : BindingSettings) (owner : Uuid) (b : UserVk)
    (env : Env) (w : World)
    → OfUser owner w (some b)
    → b.state ≢ pending
    → Ends Q (Declined b.state w) (issue_confirmation settings owner env w)
unfolding issue_confirmation
issue_confirmation_refused settings owner b env w found settled =
    rw
      (bind_ok _ (λ (c, is_new). issue_for settings owner c c.state) env w (b, false) w
        (ensure_found_lem owner b env w found))
      (issue_for_refused settings owner b b.state env w w settled (Untouched-refl w))

-- What the client sees.
abbrev pub IsDeclined : BindingState → Error → Type 0
IsDeclined state (app kind m) = (kind ≡ AppErrorClass.conflict) × (m ≡ plain (refusal state))
IsDeclined state integrity_error = Unit
IsDeclined state _ = ⊥

Declined-with :
    {A : Type 0} (state : BindingState) (w : World) (e : Error) (x : Result A × World)
    → Ends (λ _ _. ⊥) (Declined state w) x
    → x.0 ≡ err e
    → IsDeclined state e
Declined-with state w e (ok a, w') h k = absurd h.by
Declined-with {A} state w e (err e', w') h k =
    let same : e' ≡ e = cc k in rw (← same) (seen e' w' h.by)
  where
    seen : (e : Error) (w' : World) → Declined state w e w' → IsDeclined state e
    seen (app kind m) w' (is_conflict, text, _, _, _) = (is_conflict, text)
    seen integrity_error w' h = tt
    seen _ w' h = absurd h

pub issue_with-Uncommitted :
    (settings : BindingSettings) (dialog : Dialog) (owner : Uuid)
    → Uncommitted (issue_with settings dialog owner)
unfolding issue_with
issue_with-Uncommitted settings dialog owner =
    Preserves-bind _ _ (issue_confirmation-Uncommitted settings owner)
      λ issued. Preserves-pure (issued, dialog)

-- A request for a code by an owner whose live binding is ACTIVE or BLOCKED never succeeds. Unless the
-- database refuses the row of the log, the service logs the refusal in the session and raises the
-- conflict with the text for that state, and the request ends in that conflict and has committed
-- nothing, so that the row of the log is lost. Where the database refuses the row, its error is what
-- the request ends in, with nothing committed either.
pub post_issue_confirmation-Declined :
    (settings : BindingSettings) (dialog : Dialog) (owner : Uuid) (b : UserVk) (env : Env)
    (w : World)
    → OfUser owner (fresh w) (some b)
    → b.state ≢ pending
    → Ends (λ _ _. ⊥) (Declined b.state (fresh w)) (issue_confirmation settings owner env (fresh w))
      × Ends
          (λ _ _. ⊥)
          (λ e w'. IsDeclined b.state e × (w'.committed ≡ w.committed))
          (post_issue_confirmation settings dialog owner env w)
unfolding post_issue_confirmation issue_with
post_issue_confirmation-Declined settings dialog owner b env w found settled =
    let m = issue_with settings dialog owner in
    let inner =
      issue_confirmation_refused {Q = λ _ _. ⊥} settings owner b env (fresh w) found settled in
    let outer : Ends (λ _ _. ⊥) (Declined b.state (fresh w)) (m env (fresh w)) =
      Ends-bind _ _ env (fresh w) inner (λ _ _ h. h) (λ _ _ h. absurd h) in
    (
      inner,
      Ends-map _ (with_session_is_atomic m env w (issue_with-Uncommitted settings dialog owner))
          (λ r w' (e, _, _). returned r (m env (fresh w)) outer e)
          (λ e w' (k, kept, _).
            (Declined-with b.state (fresh w) e (m env (fresh w)) outer k, kept)),
    )
  where
    returned :
        {A : Type 0} (r : A) (x : Result A × World)
        → Ends (λ _ _. ⊥) (Declined b.state (fresh w)) x
        → x.0 ≡ ok r
        → ⊥
    returned r (ok a, w') h k = h.by
    returned r (err e, w') h k = absurd (cc k)
