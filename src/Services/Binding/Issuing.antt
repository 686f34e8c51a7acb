-- ===== src/Services/Binding/Issuing.antt =====
-- What `issue_confirmation` returns and writes.
use eq_site_cms_vk_service.Shared.{
  String, ℕ, zero, suc, ◌+◌, ◌*◌, ◌≡◌, refl, ◌∙◌, inl, inr, false, Bool, [], ◌∷◌, update_where, any,
  is_none, length, All,
}
use eq_site_cms_vk_service.Text.{Text}
use eq_site_cms_vk_service.Errors.{Error, app, AppErrorClass}
use eq_site_cms_vk_service.Db.{
  Uuid, DateTime, UserVk, VkLog, pending, active, blocked, BindingState, LogStatus, success,
  vk_issue_confirmation, Detail,
}
use eq_site_cms_vk_service.Exec.{
  Env, World, Result, Ends, Ends-then, Ends-bind, Ends-if, Ends-map, OnApp, OnApp-map, Quiet,
  Untouched, Untouched-refl, Untouched-trans, now_lem, pure,
}
use eq_site_cms_vk_service.Repositories.Confirmations.{created, used, unused_of, conflicts}
use eq_site_cms_vk_service.Repositories.Confirmations.Effects.{
  get_by_code_lem, invalidate_previous_lem, create_lem,
}
use eq_site_cms_vk_service.Repositories.Logs.Effects.{log_action_lem}
use eq_site_cms_vk_service.Services.Code.{generate_code, mask_code}
use eq_site_cms_vk_service.Services.Code.Laws.{IsInAlphabet, generate_code_outcome}
use eq_site_cms_vk_service.Services.Time.{minute, plus_minutes_lem}
use eq_site_cms_vk_service.Services.Binding.Base.{
  refuse_issue, already_linked, bot_blocked, BindingSettings, Issued, unique_code_from,
  create_unique_code, issue_new, issue_for, issue_confirmation,
}
use eq_site_cms_vk_service.Services.Binding.Ensured.{Clashed, Ensured, ensure_binding_outcome}

-- A text of the length that is asked for, over the alphabet of codes.
abbrev pub IsCode : ℕ → Text → Type 0
IsCode n s = (length s ≡ n) × All IsInAlphabet s

generate_lem :
    (n : ℕ) (env : Env) (w : World)
    → Ends (λ s w'. IsCode n s × Untouched w w') Quiet (generate_code n env w)
unfolding generate_code
generate_lem zero env w = record { by = tt }
generate_lem (suc n) env w =
    Ends-map _ (generate_code_outcome n env w) (λ s w' (size, known, t). ((size, known), t))
      (λ e w' h. absurd h)

unique_code_from_lem :
    (n attempts : ℕ) (env : Env) (w : World)
    → Ends
        (λ s w'. IsCode n s × Untouched w w')
        (OnApp (Untouched w))
        (unique_code_from n attempts env w)
unfolding unique_code_from
unique_code_from_lem n zero env w = record { by = Untouched-refl w }
unique_code_from_lem n (suc attempts) env w =
    Ends-then (Untouched w) _ _ env w (generate_lem n env w) λ s w₁ (code, t₁).
      Ends-then (Untouched w) _ _ env w₁ (get_by_code_lem s env w₁) λ taken w₂ (_, t₂).
        let t = Untouched-trans t₁ t₂ in
        Ends-if (is_none taken) (pure s) (unique_code_from n attempts) env w₂
          (λ _. record { by = (code, t) })
          (λ _.
            Ends-map _ (unique_code_from_lem n attempts env w₂)
              (λ s w' (code, t'). (code, Untouched-trans t t'))
              (λ e w' h.
                OnApp-map (Untouched w₂) (Untouched w) e w' (λ v x. Untouched-trans t x) h))

-- The earlier codes of the binding are used, a new one is open, and a row is logged.
pub record IssuedTo (settings : BindingSettings) (env : Env) (owner : Uuid) (b : UserVk) (w : World)
    (r : Issued) (w' : World) : Type 0 where
  pub used_at : DateTime
  pub read : ℕ
  pub id : Uuid
  pub created_at : DateTime
  pub row : VkLog
  pub is_code : IsCode settings.code_length r.code
  pub expiry : r.expires_at ≡ env.now read + settings.ttl_minutes * minute
  pub state : r.state ≡ b.state
  pub unknown :
      any
        (conflicts (created b.id r.code r.expires_at id created_at))
        (update_where (unused_of b.id) (used used_at) w.db.vk_confirmations)
      ≡ false
  pub masked :
      row.details
      ≡ Detail.user_id owner ∷ Detail.user_vk_id b.id ∷ Detail.code (mask_code r.code) ∷ []
  pub db : w'.db ≡ record (w.db) {
    vk_confirmations =
        created b.id r.code r.expires_at id created_at
        ∷ update_where (unused_of b.id) (used used_at) w.db.vk_confirmations;
    vk_logs = row ∷ w.db.vk_logs;
  }
  pub committed : w'.committed ≡ w.committed
  pub outbox : w'.outbox ≡ w.outbox

issue_new_lem :
    (settings : BindingSettings) (owner : Uuid) (b : UserVk) (env : Env) (w : World)
    → Ends
        (IssuedTo settings env owner b w)
        (OnApp (λ w'. w'.committed ≡ w.committed))
        (issue_new settings owner b env w)
unfolding issue_new create_unique_code
issue_new_lem settings owner b env w =
    let kept = λ (w' : World). w'.committed ≡ w.committed in
    Ends-then kept _ _ env w (invalidate_previous_lem b.id env w) λ _ w₁ (_, wrote).
      Ends-bind _ _ env w₁ (unique_code_from_lem settings.code_length 5 env w₁)
        (λ e w' h. OnApp-map (Untouched w₁) kept e w' (λ v t. t.committed ∙ wrote.committed) h)
        λ s w₂ (code, t₂). Ends-then kept _ _ env w₂ (now_lem env w₂) λ at w₃ (read, t₃).
          Ends-then kept _ _ env w₃ (plus_minutes_lem at settings.ttl_minutes env w₃)
            λ expires_at w₄ (sum, t₄).
              Ends-then kept _ _ env w₄ (create_lem b.id s expires_at env w₄)
                λ c w₅ (row, unknown, owned, inserted).
                  Ends-then kept _ _ env w₅ (log_action_lem vk_issue_confirmation success _ env w₅)
                    λ r w₆ logged.
                      let t = Untouched-trans (Untouched-trans t₂ t₃) t₄ in
                      record {
                        by = rw row (record {
                          used_at = env.now w.asked;
                          read = w₂.asked;
                          id = env.uuid w₄.asked;
                          created_at = env.now (suc w₄.asked);
                          row = r;
                          is_code = code;
                          expiry = cc (sum, read);
                          state = refl;
                          unknown = rw (t.db, wrote.db) at unknown;
                          masked = logged.of_details;
                          db = cc (logged.db, inserted.db, t.db, wrote.db);
                          committed =
                              logged.committed ∙ inserted.committed ∙ t.committed ∙ wrote.committed;
                          outbox = logged.outbox ∙ inserted.outbox ∙ t.outbox ∙ wrote.outbox;
                        });
                      }

-- The owner's binding, found or made, is PENDING, and a code has been issued to it.
pub record Issuance (settings : BindingSettings) (env : Env) (owner : Uuid) (w : World) (r : Issued)
    (w' : World) : Type 0 where
  pub between : World
  pub binding : UserVk
  pub is_new : Bool
  pub ensured : Ensured owner w (binding, is_new) between
  pub is_pending : binding.state ≡ pending
  pub issued : IssuedTo settings env owner binding between r w'

abbrev Uncommitted : World → World → Type 0
Uncommitted w w' = w'.committed ≡ w.committed

Ensured-Uncommitted :
    (owner : Uuid) (b : UserVk) (is_new : Bool) (w w' : World)
    → Ensured owner w (b, is_new) w'
    → Uncommitted w w'
Ensured-Uncommitted owner b is_new w w' (inl h) = h.2.committed
Ensured-Uncommitted owner b is_new w w' (inr h) = h.1.wrote.committed

refuse_issue_lem :
    {Q : Issued → World → Type 0} (owner : Uuid) (b : UserVk) (status : LogStatus)
    (message : String) (env : Env) (w u : World)
    → Uncommitted w u
    → Ends Q (OnApp (Uncommitted w)) (refuse_issue owner b status message env u)
refuse_issue_lem owner b status message env w u kept =
    Ends-then (Uncommitted w) _ _ env u (log_action_lem vk_issue_confirmation status _ env u)
      λ r w' logged. record { by = logged.committed ∙ kept }

issue_for_lem :
    (settings : BindingSettings) (owner : Uuid) (b : UserVk) (is_new : Bool) (state : BindingState)
    (env : Env) (w u : World)
    → b.state ≡ state
    → Ensured owner w (b, is_new) u
    → Ends
        (Issuance settings env owner w)
        (OnApp (Uncommitted w))
        (issue_for settings owner b state env u)
issue_for_lem settings owner b is_new active env w u e h =
    refuse_issue_lem owner b LogStatus.conflict_active already_linked env w u
      (Ensured-Uncommitted owner b is_new w u h)
issue_for_lem settings owner b is_new blocked env w u e h =
    refuse_issue_lem owner b LogStatus.conflict_blocked bot_blocked env w u
      (Ensured-Uncommitted owner b is_new w u h)
issue_for_lem settings owner b is_new pending env w u e h =
    Ends-map _ (issue_new_lem settings owner b env u)
      (λ r w' issued. record {
        between = u;
        binding = b;
        is_new = is_new;
        ensured = h;
        is_pending = e;
        issued = issued;
      })
      (λ e w' x.
        OnApp-map (Uncommitted u) (Uncommitted w) e w'
          (λ v y. y ∙ Ensured-Uncommitted owner b is_new w u h) x)

abbrev pub IssueEnds : BindingSettings → Env → Uuid → World → Result Issued × World → Type 0
IssueEnds settings env owner w =
    Ends (Issuance settings env owner w) (OnApp (λ w'. w'.committed ≡ w.committed))

Clashed-OnApp : (w : World) (e : Error) (w' : World) → Clashed w e w' → OnApp (Uncommitted w) e w'
Clashed-OnApp w (app AppErrorClass.already_exists m) w' h = h.committed
Clashed-OnApp w (app _ m) w' h = absurd h
Clashed-OnApp w _ w' h = tt

-- In a session with nothing uncommitted, `issue_confirmation` returns only with a code of the
-- configured length over the alphabet, that no confirmation had, stored with the announced expiry of
-- `ttl_minutes` after a reading of the clock, for the owner's live PENDING binding, which is the one
-- that was there or a new one. All earlier unused codes of the binding are used, the log has the
-- masked code, and nothing is committed. A refusal of the service commits nothing either.
pub issue_confirmation_outcome :
    (settings : BindingSettings) (owner : Uuid) (env : Env) (w : World)
    → w.committed ≡ w.db
    → IssueEnds settings env owner w (issue_confirmation settings owner env w)
unfolding issue_confirmation
issue_confirmation_outcome settings owner env w fresh =
    Ends-bind _ _ env w (ensure_binding_outcome owner env w fresh)
      (λ e w' h. Clashed-OnApp w e w' h)
      λ (b, is_new) u h. issue_for_lem settings owner b is_new b.state env w u refl h
