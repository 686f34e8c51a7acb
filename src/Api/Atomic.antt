-- ===== src/Api/Atomic.antt =====
-- A request is one transaction.
use eq_site_cms_vk_service.Shared.{◌≡◌, refl}
use eq_site_cms_vk_service.Exec.{Env, World, Result, ok, err, Exec, Ends, ◌>>=◌, catch}
use eq_site_cms_vk_service.Exec.Preserves.{Uncommitted}
use eq_site_cms_vk_service.Api.Session.{
  with_session, in_new_session, commit_after, roll_back_and_raise,
}

-- What a new session starts from.
abbrev pub fresh : World → World
fresh w = record w { db = w.committed }

-- All of what `m` has written in a new session, or nothing.
abbrev pub AllOrNothing : {A : Type 0} → Exec A → Env → World → Result A × World → Type 0
AllOrNothing m env w =
    Ends
      (λ a w'.
        ((m env (fresh w)).0 ≡ ok a)
        × (w'.committed ≡ (m env (fresh w)).1.db)
        × (w'.db ≡ w'.committed))
      (λ e w'.
        ((m env (fresh w)).0 ≡ err e) × (w'.committed ≡ w.committed) × (w'.db ≡ w'.committed))

-- Code that commits nothing itself is one transaction in the session of a request: where it returns,
-- the request returns the same and has committed all that it wrote, and where it raises, the request
-- raises the same and has committed nothing.
pub with_session_is_atomic :
    {A : Type 0} (m : Exec A) (env : Env) (w : World)
    → Uncommitted m
    → AllOrNothing m env w (with_session m env w)
unfolding with_session in_new_session ◌>>=◌ catch
with_session_is_atomic {A} m env w h = go (m env (fresh w)) (h.at env (fresh w))
  where
    go :
        (x : Result A × World)
        → x.1.committed ≡ w.committed
        → AllOrNothing
            (λ _ _. x)
            env
            w
            (catch (commit_after (λ _ _. x)) roll_back_and_raise env (fresh w))
    go (ok a, w') k = record { by = (refl, refl, refl) }
    go (err e, w') k = record { by = (refl, k, refl) }
