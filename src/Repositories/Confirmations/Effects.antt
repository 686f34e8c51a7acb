-- ===== src/Repositories/Confirmations/Effects.antt =====
-- What the repository of the confirmations does to the world.
use eq_site_cms_vk_service.Shared.{
  suc, ◌≡◌, true, false, List, ◌∷◌, any, select, update_where, length, arith, ◌==◌,
}
use eq_site_cms_vk_service.Text.{Text, text_eq}
use eq_site_cms_vk_service.Db.{Uuid, DateTime, UserVk, VkConfirmation}
use eq_site_cms_vk_service.Exec.{Env, World, ok, Ends, Quiet, Untouched, ◌>>=◌}
use eq_site_cms_vk_service.Repositories.Query.{one_or_none}
use eq_site_cms_vk_service.Repositories.Confirmations.Base.{
  create, created, conflicts, get_by_code, mark_used, used, unused_of, invalidate_previous,
}

-- Only the table of the confirmations has changed, to `rows`.
pub record Wrote (rows : List VkConfirmation) (w w' : World) : Type 0 where
  pub db : w'.db ≡ record (w.db) { vk_confirmations = rows }
  pub committed : w'.committed ≡ w.committed
  pub outbox : w'.outbox ≡ w.outbox

pub create_lem :
    (user_vk_id : Uuid) (code : Text) (expires_at : DateTime) (env : Env) (w : World)
    → let row = created user_vk_id code expires_at (env.uuid w.asked) (env.now (suc w.asked)) in
      Ends
        (λ r w'.
          (r ≡ row)
          × (any (conflicts row) w.db.vk_confirmations ≡ false)
          × (any (λ (b : UserVk). b.id == user_vk_id) w.db.user_vks ≡ true)
          × Wrote (row ∷ w.db.vk_confirmations) w w')
        Quiet
        (create user_vk_id code expires_at env w)
unfolding create ◌>>=◌
create_lem user_vk_id code expires_at env w = ground arith

pub get_by_code_lem :
    (code : Text) (env : Env) (w : World)
    → Ends
        (λ r w'.
          (one_or_none (select (λ (c : VkConfirmation). text_eq c.code code) w.db.vk_confirmations)
            ≡ ok r)
          × Untouched w w')
        Quiet
        (get_by_code code env w)
unfolding get_by_code ◌>>=◌ one_or_none
get_by_code_lem code env w = ground arith

pub mark_used_lem :
    (id : Uuid) (env : Env) (w : World)
    → Ends
        (λ _ w'.
          Wrote
            (update_where
              (λ (c : VkConfirmation). c.id == id)
              (used (env.now w.asked))
              w.db.vk_confirmations)
            w
            w')
        Quiet
        (mark_used id env w)
unfolding mark_used ◌>>=◌
mark_used_lem id env w = ground arith

pub invalidate_previous_lem :
    (user_vk_id : Uuid) (env : Env) (w : World)
    → Ends
        (λ n w'.
          (n ≡ length (select (unused_of user_vk_id) w.db.vk_confirmations))
          × Wrote
              (update_where (unused_of user_vk_id) (used (env.now w.asked)) w.db.vk_confirmations)
              w
              w')
        Quiet
        (invalidate_previous user_vk_id env w)
unfolding invalidate_previous ◌>>=◌
invalidate_previous_lem user_vk_id env w = ground arith
