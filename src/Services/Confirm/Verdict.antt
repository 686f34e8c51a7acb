-- ===== src/Services/Confirm/Verdict.antt =====
-- The outcome of `confirm`, put together from those of its parts.
use eq_site_cms_vk_service.Shared.{
  ℕ, ℤ, inl, inr, ◌≡◌, refl, sym, ◌∙◌, ◌∷◌, [], List, Option, none, some, false, arith, leb,
  is_none, ◌<◌,
}
use eq_site_cms_vk_service.Text.{Text}
use eq_site_cms_vk_service.Services.Code.{normalize_code}
use eq_site_cms_vk_service.Errors.{AppErrorClass}
use eq_site_cms_vk_service.Db.{UserVk, VkConfirmation, Detail, LogStatus}
use eq_site_cms_vk_service.Exec.{
  Result, ◌>>◌, ◌>>=◌, Untouched-refl, Env, World, Ends, OnApp, Untouched-trans, Ends-bind,
  Ends-then, Ends-if, Ends-map, now_lem, pure,
}
use eq_site_cms_vk_service.Repositories.UserVks.{is_live}
use eq_site_cms_vk_service.Repositories.UserVks.Effects.{get_by_id_lem}
use eq_site_cms_vk_service.Repositories.Confirmations.Effects.{get_by_code_lem}
use eq_site_cms_vk_service.Services.Confirm.Base.{
  code_invalid, confirm, attempt, confirm_binding, confirm_again, log, binding_missing,
  binding_not_found, refuse, Attempt, ConfirmationSettings, ConfirmationResult, already_confirmed,
  link_live, confirm_unused, confirm_found, confirm_attempt, is_same_peer_active, code_expired,
  code_used,
}
use eq_site_cms_vk_service.Services.Confirm.Refused.{
  IsBelowLimit, Ends-from, enforce_rate_limit_lem, Refused, log_lem, refuse_after,
}
use eq_site_cms_vk_service.Services.Confirm.Linked.{Linked-from, conflict_details}
use eq_site_cms_vk_service.Services.Confirm.Outcome.{
  Accepted-from, Freed-from, ByCode, ById, Accepted, Freed, link_live_lem,
}

module _ (a : Attempt) (c : VkConfirmation) where
  -- What is known of the binding once it may be linked.
  record Ready (env : Env) (binding : Option UserVk) (w : World) (r : ConfirmationResult)
      (w' : World) : Type 0 where
    owner : UserVk
    is_owner : binding ≡ some owner
    live : owner.deleted_at ≡ none
    read_at : ℕ
    unexpired : env.now read_at < c.expires_at
    freed : Freed a c owner w r w'

  abbrev missing_details : List Detail
  missing_details = Detail.user_vk_id c.user_vk_id ∷ Detail.reason "binding_missing" ∷ []

  confirm_binding_lem :
      (binding : Option UserVk) (env : Env) (w : World)
      → w.committed ≡ w.db
      → (read_at : ℕ) → env.now read_at < c.expires_at
      → Ends (Ready env binding w) (OnApp (Refused a w)) (confirm_binding a c binding env w)
  confirm_binding_lem none env w fresh n early =
      refuse_after a (Untouched-refl w) LogStatus.error missing_details AppErrorClass.not_found
        binding_not_found env
  confirm_binding_lem (some b) env w fresh n early =
      Ends-if (is_live b) (link_live a c b) (binding_missing a c) env w
        (λ live.
          Ends-map _ (link_live_lem a c b env w fresh)
            (λ r w' freed. record {
              owner = b;
              is_owner = refl;
              live = ground arith;
              read_at = n;
              unexpired = early;
              freed = freed;
            })
            (λ e w' h. h))
        (λ _.
          refuse_after a (Untouched-refl w) LogStatus.error missing_details AppErrorClass.not_found
            binding_not_found env)

  confirm_unused_lem :
      (binding : Option UserVk) (env : Env) (w : World)
      → w.committed ≡ w.db
      → Ends (Ready env binding w) (OnApp (Refused a w)) (confirm_unused a c binding env w)
  unfolding confirm_unused
  confirm_unused_lem binding env w fresh =
      Ends-then (Refused a w) _ _ env w (now_lem env w) λ at w₁ (read, t).
        Ends-if (leb c.expires_at at)
          (refuse LogStatus.expired a (conflict_details c) AppErrorClass.gone code_expired)
          (confirm_binding a c binding) env w₁
          (λ _.
            refuse_after a t LogStatus.expired (conflict_details c) AppErrorClass.gone code_expired
              env)
          (λ early.
            Ends-from a _ t
              (confirm_binding_lem binding env w₁ (t.committed ∙ fresh ∙ sym t.db) w.asked
                (rw (← read) (ground arith)))
              (λ r w' h. record {
                owner = h.owner;
                is_owner = h.is_owner;
                live = h.live;
                read_at = h.read_at;
                unexpired = h.unexpired;
                freed = Freed-from a c h.owner r w' t h.freed;
              }))

  confirm_again_lem :
      (binding : Option UserVk) (env : Env) (w : World)
      → is_none c.used_at ≡ false
      → ByCode a w (some c)
      → ById c.user_vk_id w binding
      → Ends (Accepted env a w) (OnApp (Refused a w)) (confirm_again a c binding env w)
  confirm_again_lem none env w spent found owner =
      refuse_after a (Untouched-refl w) LogStatus.used (conflict_details c) AppErrorClass.conflict
        code_used env
  confirm_again_lem (some b) env w spent found owner =
      Ends-if (is_same_peer_active (some b) a.vk_peer_id)
        (do
          log LogStatus.already_confirmed a (conflict_details c)
          pure (record {
            status = already_confirmed;
            user_id = b.user_id;
            user_vk_id = c.user_vk_id;
          }))
        (refuse LogStatus.used a (conflict_details c) AppErrorClass.conflict code_used) env w
        (λ same.
          Ends-then (Refused a w) _ _ env w
            (log_lem LogStatus.already_confirmed a (conflict_details c) env w)
            λ _ w' (row, logged). record {
              by = inr (record {
                confirmation = c;
                binding = b;
                row = row;
                found = found;
                was_used = spent;
                owner = owner;
                same_peer = same;
                of_status = logged.of_status;
                db = logged.db;
                committed = logged.committed;
                outbox = logged.outbox;
                result = refl;
              });
            })
        (λ _.
          refuse_after a (Untouched-refl w) LogStatus.used (conflict_details c)
            AppErrorClass.conflict code_used env)

confirm_found_lem :
    (a : Attempt) (found : Option VkConfirmation) (env : Env) (w : World)
    → w.committed ≡ w.db
    → ByCode a w found
    → Ends (Accepted env a w) (OnApp (Refused a w)) (confirm_found a found env w)
unfolding confirm_found
confirm_found_lem a none env w fresh found =
    refuse_after a (Untouched-refl w) LogStatus.not_found [] AppErrorClass.not_found code_invalid
      env
confirm_found_lem a (some c) env w fresh found =
    Ends-then (Refused a w) _ _ env w (get_by_id_lem c.user_vk_id env w) λ binding w₁ (owner, t).
      Ends-if (is_none c.used_at) (confirm_unused a c binding) (confirm_again a c binding) env w₁
        (λ unused.
          Ends-from a _ t (confirm_unused_lem a c binding env w₁ (t.committed ∙ fresh ∙ sym t.db))
            (λ r w' h. inl (record {
              confirmation = c;
              binding = h.owner;
              occupied = h.freed.occupied;
              read_at = h.read_at;
              found = found;
              was_unused = ground arith;
              unexpired = h.unexpired;
              owner = rw (← h.is_owner) owner;
              live = h.live;
              peer = rw (← t.db) h.freed.peer;
              free = h.freed.free;
              linked = Linked-from a c h.owner t h.freed.linked;
              result = h.freed.result;
            })))
        (λ spent.
          Ends-from a _ t
            (confirm_again_lem a c binding env w₁ spent (rw t.db found) (rw t.db owner))
            (λ r w' h. Accepted-from a t h))

confirm_attempt_lem :
    (settings : ConfirmationSettings) (a : Attempt) (env : Env) (w : World)
    → w.committed ≡ w.db
    → Ends
        (λ r w'. Accepted env a w r w' × IsBelowLimit settings a env w)
        (OnApp (Refused a w))
        (confirm_attempt settings a env w)
unfolding confirm_attempt
confirm_attempt_lem settings a env w fresh =
    Ends-bind _ _ env w (enforce_rate_limit_lem settings a env w) (λ _ _ h. h)
      λ _ w₁ (below, t₁).
        Ends-then (Refused a w) _ _ env w₁ (get_by_code_lem a.code env w₁)
          λ found w₂ (search_result, t₂).
            let t = Untouched-trans t₁ t₂ in
            Ends-from a _ t
              (confirm_found_lem a found env w₂ (t.committed ∙ fresh ∙ sym t.db)
                (rw t₂.db search_result))
              (λ r w' h. (Accepted-from a t h, below))

abbrev pub EndsLawfully :
    ConfirmationSettings → Attempt → Env → World → Result ConfirmationResult × World → Type 0
EndsLawfully settings a env w =
    Ends (λ r w'. Accepted env a w r w' × IsBelowLimit settings a env w) (OnApp (Refused a w))

-- In a session with nothing uncommitted, `confirm` ends in one of three ways, unless it is broken off
-- by an error of the database or of the calendar. It links: then the peer was below its limit of
-- failures, the normalised code was the unused code of one confirmation, not yet expired at a
-- reading of the clock, of a live binding, no live binding but this one had the peer, and
-- exactly this has been written: the binding is ACTIVE with the peer and the profile's names, the
-- confirmation is used, and a row is logged. Or the code was used and its live, ACTIVE binding has
-- this peer: then it answers `already_confirmed` and only the log has grown. Or it raises an error
-- of the service: then only the log has grown, by a row with the peer and the masked code.
pub confirm_outcome :
    (settings : ConfirmationSettings) (raw : Text) (peer_id : ℤ)
    (screen_name display_name : Option Text) (env : Env) (w : World)
    → w.committed ≡ w.db
    → let a = attempt (normalize_code env.unicode raw) peer_id screen_name display_name in
      EndsLawfully settings a env w (confirm settings raw peer_id screen_name display_name env w)
unfolding confirm ◌>>=◌
confirm_outcome settings raw peer_id screen_name display_name env w fresh =
    confirm_attempt_lem settings
      (attempt (normalize_code env.unicode raw) peer_id screen_name display_name) env w fresh
