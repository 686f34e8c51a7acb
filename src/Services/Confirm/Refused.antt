-- ===== src/Services/Confirm/Refused.antt =====
-- What a refused confirmation leaves behind: one row in the log, and nothing else.
use eq_site_cms_vk_service.Shared.{
  leb, [], ℕ, ℤ, ◌-◌, ◌*◌, ◌<◌, length, select, arith, ◌≡◌, ◌∙◌, ◌∷◌, List, String,
}
use eq_site_cms_vk_service.Errors.{AppErrorClass}
use eq_site_cms_vk_service.Db.{
  rate_limited, DateTime, Db, VkLog, LogStatus, vk_confirmation, Detail,
}
use eq_site_cms_vk_service.Exec.{
  Result, pure, Ends-if, Ends-map, OnApp-map, now_lem, Untouched-trans, Env, World, Ends, OnApp,
  Quiet, Untouched, Ends-bind, Ends-then,
}
use eq_site_cms_vk_service.Repositories.Logs.{is_failure}
use eq_site_cms_vk_service.Services.Time.{minute, minus_minutes_lem}
use eq_site_cms_vk_service.Repositories.Logs.Effects.{
  count_failed_since_lem, Logged, log_action_lem,
}
use eq_site_cms_vk_service.Services.Confirm.Base.{
  ConfirmationSettings, enforce_rate_limit, failed_statuses, too_many, Attempt, log, refuse,
}

pub record Refused (a : Attempt) (w w' : World) : Type 0 where
  pub row : VkLog
  pub rest : List Detail
  pub of_action : row.action ≡ vk_confirmation
  pub of_details : row.details ≡ Detail.vk_peer_id a.vk_peer_id ∷ Detail.code a.masked ∷ rest
  pub db : w'.db ≡ record (w.db) { vk_logs = row ∷ w.db.vk_logs }
  pub committed : w'.committed ≡ w.committed
  pub outbox : w'.outbox ≡ w.outbox

pub Refused-from : {u v w : World} (a : Attempt) → Untouched u v → Refused a v w → Refused a u w
Refused-from a t r = record {
  row = r.row;
  rest = r.rest;
  of_action = r.of_action;
  of_details = r.of_details;
  db = cc (r.db, t.db);
  committed = r.committed ∙ t.committed;
  outbox = r.outbox ∙ t.outbox;
}

-- Logging one outcome of an attempt.
pub log_lem :
    (status : LogStatus) (a : Attempt) (details : List Detail) (env : Env) (w : World)
    → Ends
        (λ _ w'.
          (r : VkLog) × Logged vk_confirmation status
            (Detail.vk_peer_id a.vk_peer_id ∷ Detail.code a.masked ∷ details)
            w
            r
            w')
        Quiet
        (log status a details env w)
log_lem status a details env w =
    Ends-bind _ _ env w (log_action_lem vk_confirmation status _ env w) (λ e w' h. h)
      (λ r w' h. record { by = (r, h) })

pub refuse_lem :
    {A : Type 0} (status : LogStatus) (a : Attempt) (details : List Detail) (kind : AppErrorClass)
    (message : String) (env : Env) (w : World)
    → Ends {A = A} (λ _ _. ⊥) (OnApp (Refused a w)) (refuse status a details kind message env w)
refuse_lem status a details kind message env w =
    Ends-then (Refused a w) _ _ env w (log_lem status a details env w) (λ _ w' (r, h). record {
      by = record {
        row = r;
        rest = details;
        of_action = h.of_action;
        of_details = h.of_details;
        db = h.db;
        committed = h.committed;
        outbox = h.outbox;
      };
    })

-- An outcome after steps that changed nothing.
pub Ends-from :
    {A : Type 0} {Q Q' : A → World → Type 0} {w u : World} (a : Attempt) (x : Result A × World)
    → Untouched w u
    → Ends Q' (OnApp (Refused a u)) x
    → ((r : A) (w' : World) → Q' r w' → Q r w')
    → Ends Q (OnApp (Refused a w)) x
Ends-from {w} {u} a x t h keep =
    Ends-map x h keep
      (λ e w' h. OnApp-map (Refused a u) (Refused a w) e w' (λ v r. Refused-from a t r) h)

-- A refusal after steps that changed nothing.
pub refuse_after :
    {A : Type 0} {Q : A → World → Type 0} {w u : World} (a : Attempt)
    → Untouched w u
    → (status : LogStatus) (details : List Detail) (kind : AppErrorClass) (message : String)
      (env : Env)
    → Ends Q (OnApp (Refused a w)) (refuse status a details kind message env u)
refuse_after {w} {u} a t status details kind message env =
    Ends-from a _ t (refuse_lem status a details kind message env u) (λ _ _ h. absurd h)

-- The failed attempts of a peer that the limit counts, at a moment.
abbrev pub failures_since : ℤ → DateTime → Db → ℕ
failures_since peer_id since db =
    length (select (is_failure vk_confirmation peer_id since failed_statuses) db.vk_logs)

-- The peer has failed less often than the limit allows, in the window before the call.
abbrev pub IsBelowLimit : ConfirmationSettings → Attempt → Env → World → Type 0
IsBelowLimit settings a env w =
    failures_since a.vk_peer_id (env.now w.asked - settings.attempt_window_minutes * minute) w.db
    < settings.max_attempts

-- An attempt is let through below the limit only.
pub enforce_rate_limit_lem :
    (settings : ConfirmationSettings) (a : Attempt) (env : Env) (w : World)
    → Ends
        (λ _ w'. IsBelowLimit settings a env w × Untouched w w')
        (OnApp (Refused a w))
        (enforce_rate_limit settings a env w)
unfolding enforce_rate_limit
enforce_rate_limit_lem settings a env w =
    Ends-then (Refused a w) _ _ env w (now_lem env w) λ at w₁ (read, t₁).
      Ends-then (Refused a w) _ _ env w₁
        (minus_minutes_lem at settings.attempt_window_minutes env w₁)
        λ since w₂ (start, t₂).
          Ends-then (Refused a w) _ _ env w₂
            (count_failed_since_lem vk_confirmation a.vk_peer_id since failed_statuses env w₂)
            λ n w₃ (counted, t₃).
              let t = Untouched-trans (Untouched-trans t₁ t₂) t₃ in
              Ends-if (leb settings.max_attempts n)
                (refuse rate_limited a [] AppErrorClass.rate_limited too_many) (pure tt) env w₃
                (λ _. refuse_after a t rate_limited [] AppErrorClass.rate_limited too_many env)
                (λ few. record {
                  by = (
                    rw (← read, ← start, ← (Untouched-trans t₁ t₂).db, ← counted) (ground arith),
                    t,
                  );
                })
