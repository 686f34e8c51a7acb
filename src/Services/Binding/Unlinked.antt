-- ===== src/Services/Binding/Unlinked.antt =====
-- What `unlink` returns, writes and sends.
use eq_site_cms_vk_service.Shared.{
  if◌then◌else◌, ℤ, ◌≡◌, refl, ◌∙◌, ◌⊎◌, inl, inr, true, false, Bool, Option, none, some, List, ◌∷◌,
  String, update_where,
}
use eq_site_cms_vk_service.Db.{
  Uuid, DateTime, UserVk, VkLog, pending, active, blocked, BindingState, success, noop, vk_unlink,
}
use eq_site_cms_vk_service.Exec.{Env, World, Result, Ends, Ends-bind, Ends-map, Quiet, Untouched}
use eq_site_cms_vk_service.Repositories.Confirmations.{used, unused_of}
use eq_site_cms_vk_service.Repositories.Confirmations.Effects.{invalidate_previous_lem}
use eq_site_cms_vk_service.Repositories.UserVks.Effects.{
  live_of_user, deleted, get_by_user_id_lem, soft_delete_lem,
}
use eq_site_cms_vk_service.Repositories.Logs.Effects.{log_action_lem}
use eq_site_cms_vk_service.Services.Messenger.{send_message_lem}
use eq_site_cms_vk_service.Services.Binding.Base.{
  unlink, unlink_found, unlink_binding, notify_unlinked, unlink_message,
}
use eq_site_cms_vk_service.Services.Binding.Ensured.{OfUser}

-- Nothing has been sent, or the notice to the peer of an ACTIVE binding.
abbrev pub Notified : UserVk → List (ℤ × String) → List (ℤ × String) → Type 0
Notified b before after =
    (after ≡ before)
    ⊎ ((peer : ℤ) × (b.state ≡ active)
        × (b.vk_peer_id ≡ some peer)
        × (after ≡ (peer, unlink_message) ∷ before))

pub record Unlinked (owner : Uuid) (b : UserVk) (w w' : World) : Type 0 where
  pub found : OfUser owner w (some b)
  pub used_at : DateTime
  pub deleted_at : DateTime
  pub row : VkLog
  pub of_status : row.status ≡ success
  pub db : w'.db ≡ record (w.db) {
    user_vks = update_where (live_of_user owner) (deleted deleted_at) w.db.user_vks;
    vk_confirmations = update_where (unused_of b.id) (used used_at) w.db.vk_confirmations;
    vk_logs = row ∷ w.db.vk_logs;
  }
  pub committed : w'.committed ≡ w.committed
  pub notified : Notified b w.outbox w'.outbox

pub record NotLinked (owner : Uuid) (w w' : World) : Type 0 where
  pub absent : OfUser owner w none
  pub row : VkLog
  pub of_status : row.status ≡ noop
  pub db : w'.db ≡ record (w.db) { vk_logs = row ∷ w.db.vk_logs }
  pub committed : w'.committed ≡ w.committed
  pub outbox : w'.outbox ≡ w.outbox

abbrev pub UnlinkEnds : Uuid → World → Result Bool × World → Type 0
UnlinkEnds owner w =
    Ends
      (λ found w'.
        ((found ≡ true) × (b : UserVk) × Unlinked owner b w w')
        ⊎ ((found ≡ false) × NotLinked owner w w'))
      Quiet

abbrev Sent : UserVk → World → World → Type 0
Sent b w w' = (w'.db ≡ w.db) × (w'.committed ≡ w.committed) × Notified b w.outbox w'.outbox

Notified-by :
    (b : UserVk) (p : ℤ) {before after : List (ℤ × String)}
    → b.state ≡ active
    → b.vk_peer_id ≡ some p
    → (sent : Bool) → after ≡ (if sent then (p, unlink_message) ∷ before else before)
    → Notified b before after
Notified-by b p es ep true out = inr (p, es, ep, out)
Notified-by b p es ep false out = inl out

notify_unlinked_lem :
    (b : UserVk) (state : BindingState) (peer : Option ℤ) (env : Env) (w : World)
    → b.state ≡ state
    → b.vk_peer_id ≡ peer
    → Ends (λ _ w'. Sent b w w') Quiet (notify_unlinked state peer env w)
notify_unlinked_lem b active (some p) env w es ep =
    Ends-bind _ _ env w (send_message_lem p unlink_message env w) (λ _ _ h. absurd h)
      λ sent w' (same_db, same_commit, out). record {
        by = (same_db, same_commit, Notified-by b p es ep sent out);
      }
notify_unlinked_lem b active none env w es ep = record { by = (refl, refl, inl refl) }
notify_unlinked_lem b pending p env w es ep = record { by = (refl, refl, inl refl) }
notify_unlinked_lem b blocked p env w es ep = record { by = (refl, refl, inl refl) }

unlink_binding_lem :
    (owner : Uuid) (b : UserVk) (env : Env) (w : World)
    → OfUser owner w (some b)
    → Ends (λ found w'. (found ≡ true) × Unlinked owner b w w') Quiet (unlink_binding owner b env w)
unfolding unlink_binding
unlink_binding_lem owner b env w found =
    Ends-bind _ _ env w (invalidate_previous_lem b.id env w) (λ _ _ h. h)
      λ _ w₁ (_, inv).
        Ends-bind _ _ env w₁ (soft_delete_lem owner env w₁) (λ _ _ h. h)
          λ _ w₂ (_, gone).
            Ends-bind _ _ env w₂ (log_action_lem vk_unlink success _ env w₂) (λ _ _ h. h)
              λ r w₃ logged.
                Ends-bind _ _ env w₃ (notify_unlinked_lem b b.state b.vk_peer_id env w₃ refl refl)
                  (λ _ _ h. h)
                  λ _ w₄ (same_db, same_commit, out). record {
                    by = (
                      refl,
                      record {
                        found = found;
                        used_at = env.now w.asked;
                        deleted_at = env.now w₁.asked;
                        row = r;
                        of_status = logged.of_status;
                        db = cc (same_db, logged.db, gone.db, inv.db);
                        committed = same_commit ∙ logged.committed ∙ gone.committed ∙ inv.committed;
                        notified = rw (← inv.outbox, ← gone.outbox, ← logged.outbox) out;
                      },
                    );
                  }

unlink_found_lem :
    (owner : Uuid) (binding : Option UserVk) (env : Env) (w : World)
    → OfUser owner w binding
    → UnlinkEnds owner w (unlink_found owner binding env w)
unlink_found_lem owner none env w absent =
    Ends-bind _ _ env w (log_action_lem vk_unlink noop _ env w) (λ _ _ h. h)
      λ r w' logged. record {
        by = inr (
          refl,
          record {
            absent = absent;
            row = r;
            of_status = logged.of_status;
            db = logged.db;
            committed = logged.committed;
            outbox = logged.outbox;
          },
        );
      }
unlink_found_lem owner (some b) env w found =
    Ends-map _ (unlink_binding_lem owner b env w found) (λ r w' (e, h). inl (e, b, h)) (λ _ _ h. h)

unlinked_from :
    (owner : Uuid) (env : Env) (u v : World) (x : Result Bool × World)
    → Untouched u v
    → UnlinkEnds owner v x
    → UnlinkEnds owner u x
unlinked_from owner env u v x t h = Ends-map x h (λ r w' e. moved r w' e) (λ _ _ e. e)
  where
    moved :
        (r : Bool) (w' : World)
        → ((r ≡ true) × (b : UserVk) × Unlinked owner b v w') ⊎ ((r ≡ false) × NotLinked owner v w')
        → ((r ≡ true) × (b : UserVk) × Unlinked owner b u w') ⊎ ((r ≡ false) × NotLinked owner u w')
    moved r w' (inl (e, b, l)) = inl (
      e,
      b,
      record {
        found = rw (← t.db) l.found;
        used_at = l.used_at;
        deleted_at = l.deleted_at;
        row = l.row;
        of_status = l.of_status;
        db = cc (l.db, t.db);
        committed = l.committed ∙ t.committed;
        notified = rw (← t.outbox) l.notified;
      },
    )
    moved r w' (inr (e, l)) = inr (
      e,
      record {
        absent = rw (← t.db) l.absent;
        row = l.row;
        of_status = l.of_status;
        db = cc (l.db, t.db);
        committed = l.committed ∙ t.committed;
        outbox = l.outbox ∙ t.outbox;
      },
    )

-- `unlink` raises no error of the service, whatever VK answers. With a live binding it returns true:
-- the binding is deleted, its unused codes are used, a row is logged, and nothing is sent but, at
-- most, the notice to the peer of an ACTIVE binding. Without one it returns false and only logs.
pub unlink_outcome :
    (owner : Uuid) (env : Env) (w : World) → UnlinkEnds owner w (unlink owner env w)
unfolding unlink
unlink_outcome owner env w =
    Ends-bind _ _ env w (get_by_user_id_lem owner env w) (λ _ _ h. h)
      λ binding w₁ (found, t).
        unlinked_from owner env w w₁ _ t (unlink_found_lem owner binding env w₁ (rw t.db found))
