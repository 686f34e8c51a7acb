-- ===== src/Exec/Preserves.antt =====
-- Coroutines that leave a part of the world alone, whether they return or raise.
use eq_site_cms_vk_service.Shared.{◌≡◌, refl, ◌∙◌, Bool, true, false, if◌then◌else◌}
use eq_site_cms_vk_service.Errors.{Error}
use eq_site_cms_vk_service.Exec.Base.{
  Env, World, Result, ok, err, Exec, pure, raise, now, ◌>>=◌, catch,
}

pub record Preserves {X : Type 0} (view : World → X) {A : Type 0} (m : Exec A) : Type 0 where
  pub at : (env : Env) (w : World) → view (m env w).1 ≡ view w

-- Nothing is committed.
abbrev pub Uncommitted : {A : Type 0} → Exec A → Type 0
Uncommitted m = Preserves (λ w. w.committed) m

module _ {X : Type 0} {view : World → X} {A : Type 0} where
  pub Preserves-pure : (a : A) → Preserves view (pure a)
  Preserves-pure a = record { at = λ env w. refl }

  pub Preserves-raise : (e : Error) → Preserves view (raise {A = A} e)
  Preserves-raise e = record { at = λ env w. refl }

  pub Preserves-if :
      (b : Bool) (m n : Exec A)
      → Preserves view m
      → Preserves view n
      → Preserves view (if b then m else n)
  Preserves-if true m n hm hn = hm
  Preserves-if false m n hm hn = hn

  pub Preserves-catch :
      (m : Exec A) (handler : Error → Exec A)
      → Preserves view m
      → ((e : Error) → Preserves view (handler e))
      → Preserves view (catch m handler)
  unfolding catch
  Preserves-catch m handler hm hh = record { at = λ env w. go env (m env w) (hm.at env w) }
    where
      go :
          (env : Env) (x : Result A × World) {c : X}
          → view x.1 ≡ c
          → view (
              let y : Result A × World =
                let (r, w') = x in elim r [ ok a ↦ (ok a, w') | err e ↦ handler e env w' ] in
              y.1)
            ≡ c
      go env (ok a, w') h = h
      go env (err e, w') h = (hh e).at env w' ∙ h

pub Preserves-bind :
    {X : Type 0} {view : World → X} {A B : Type 0} (m : Exec A) (f : A → Exec B)
    → Preserves view m
    → ((a : A) → Preserves view (f a))
    → Preserves view (m >>= f)
unfolding ◌>>=◌
Preserves-bind {X} {view} {A} {B} m f hm hf = record {
  at = λ env w. go env (m env w) (hm.at env w);
}
  where
    go :
        (env : Env) (x : Result A × World) {c : X}
        → view x.1 ≡ c
        → view (
            let y : Result B × World =
              let (r, w') = x in elim r [ ok a ↦ f a env w' | err e ↦ (err e, w') ] in
            y.1)
          ≡ c
    go env (ok a, w') h = (hf a).at env w' ∙ h
    go env (err e, w') h = h

pub Uncommitted-now : Uncommitted now
Uncommitted-now = record { at = λ env w. refl }

pub ruleset preserves_rules = (
  Preserves-pure, Preserves-raise, Preserves-if, Preserves-catch, Preserves-bind, Uncommitted-now,
)
