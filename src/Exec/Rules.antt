-- ===== src/Exec/Rules.antt =====
-- Postconditions of coroutines, and one rule for each way to put coroutines together.
use eq_site_cms_vk_service.Errors.{Error, app, AppErrorClass}
use eq_site_cms_vk_service.Shared.{ap, ◌≡◌, refl, ◌∙◌, Bool, true, false, if◌then◌else◌}
use eq_site_cms_vk_service.Exec.Base.{Env, World, Result, ok, err, Exec, now, ◌>>=◌, catch}

-- How a call may end: it returns an `a` in a world with `Q a`, or raises `e` in one with `R e`.
abbrev pub EndsBy :
    {A : Type 0} → (A → World → Type 0) → (Error → World → Type 0) → Result A × World → Type 0
EndsBy Q R (ok a, w) = Q a w
EndsBy Q R (err e, w) = R e w

pub record Ends {A : Type 0} (Q : A → World → Type 0) (R : Error → World → Type 0)
    (x : Result A × World) : Type 0 where
  pub by : EndsBy Q R x

module _ {A : Type 0} {Q : A → World → Type 0} {R : Error → World → Type 0} where
  -- The rest of a block starts where its first part has returned.
  pub Ends-bind :
      {B : Type 0} {S : B → World → Type 0} {R' : Error → World → Type 0} (m : Exec A)
      (f : A → Exec B) (env : Env) (w : World)
      → Ends Q R' (m env w)
      → ((e : Error) (w' : World) → R' e w' → R e w')
      → ((a : A) (w' : World) → Q a w' → Ends S R (f a env w'))
      → Ends S R ((m >>= f) env w)
  unfolding ◌>>=◌
  Ends-bind {B} {S} {R'} m f env w h r k = go (m env w) h.by
    where
      go :
          (x : Result A × World)
          → EndsBy Q R' x
          → Ends S R (let (r, w') = x in elim r [ ok a ↦ f a env w' | err e ↦ (err e, w') ])
      go (ok a, w') q = k a w' q
      go (err e, w') x = record { by = r e w' x }

  -- A handler starts where its block has raised.
  pub Ends-catch :
      {R' : Error → World → Type 0} (m : Exec A) (handler : Error → Exec A) (env : Env) (w : World)
      → Ends Q R' (m env w)
      → ((e : Error) (w' : World) → R' e w' → Ends Q R (handler e env w'))
      → Ends Q R (catch m handler env w)
  unfolding catch
  Ends-catch {R'} m handler env w h k = go (m env w) h.by
    where
      go :
          (x : Result A × World)
          → EndsBy Q R' x
          → Ends Q R (let (r, w') = x in elim r [ ok a ↦ (ok a, w') | err e ↦ handler e env w' ])
      go (ok a, w') q = record { by = q }
      go (err e, w') r = k e w' r

  -- Weaker postconditions.
  pub Ends-map :
      {Q' : A → World → Type 0} {R' : Error → World → Type 0} (x : Result A × World)
      → Ends Q R x
      → ((a : A) (w : World) → Q a w → Q' a w)
      → ((e : Error) (w : World) → R e w → R' e w)
      → Ends Q' R' x
  Ends-map (ok a, w) h f g = record { by = f a w h.by }
  Ends-map (err e, w) h f g = record { by = g e w h.by }

-- The session, its last commit and what has been sent are as before.
pub record Untouched (w w' : World) : Type 0 where
  pub db : w'.db ≡ w.db
  pub committed : w'.committed ≡ w.committed
  pub outbox : w'.outbox ≡ w.outbox

pub Untouched-refl : (w : World) → Untouched w w
Untouched-refl w = record { db = refl; committed = refl; outbox = refl }

pub Untouched-trans : {u v w : World} → Untouched u v → Untouched v w → Untouched u w
Untouched-trans a b = record {
  db = b.db ∙ a.db;
  committed = b.committed ∙ a.committed;
  outbox = b.outbox ∙ a.outbox;
}

-- A condition on the worlds in which one of the service's own errors is raised.
abbrev pub OnApp : (World → Type 0) → Error → World → Type 0
OnApp P (app _ _) w = P w
OnApp P _ w = Unit

-- The same where the only error of the service's own is `AlreadyExistsError`.
abbrev pub OnExists : (World → Type 0) → Error → World → Type 0
OnExists P (app AppErrorClass.already_exists _) w = P w
OnExists P (app _ _) w = ⊥
OnExists P _ w = Unit

-- No error of the service's own is raised.
abbrev pub Quiet : Error → World → Type 0
Quiet = OnApp (λ _. ⊥)

pub quiet : (P : World → Type 0) (e : Error) (w : World) → Quiet e w → OnApp P e w
quiet P (app k m) w h = absurd h
quiet P _ w h = tt

pub Quiet-exists : (P : World → Type 0) (e : Error) (w : World) → Quiet e w → OnExists P e w
Quiet-exists P (app k m) w h = absurd h
Quiet-exists P _ w h = tt

-- A first part that raises no error of the service's own.
pub Ends-then :
    {A B : Type 0} {Q : A → World → Type 0} {S : B → World → Type 0} (P : World → Type 0)
    (m : Exec A) (f : A → Exec B) (env : Env) (w : World)
    → Ends Q Quiet (m env w)
    → ((a : A) (w' : World) → Q a w' → Ends S (OnApp P) (f a env w'))
    → Ends S (OnApp P) ((m >>= f) env w)
Ends-then P m f env w h k = Ends-bind m f env w h (quiet P) k

pub Ends-if :
    {A : Type 0} {Q : A → World → Type 0} {R : Error → World → Type 0} (b : Bool) (m n : Exec A)
    (env : Env) (w : World)
    → (b ≡ true → Ends Q R (m env w))
    → (b ≡ false → Ends Q R (n env w))
    → Ends Q R ((if b then m else n) env w)
Ends-if true m n env w h k = h refl
Ends-if false m n env w h k = k refl

pub OnApp-map :
    (P P' : World → Type 0) (e : Error) (w : World)
    → ((w : World) → P w → P' w)
    → OnApp P e w
    → OnApp P' e w
OnApp-map P P' (app k m) w f h = f w h
OnApp-map P P' _ w f h = tt

pub OnExists-map :
    (P P' : World → Type 0) (e : Error) (w : World)
    → ((w : World) → P w → P' w)
    → OnExists P e w
    → OnExists P' e w
OnExists-map P P' (app AppErrorClass.already_exists m) w f h = f w h
OnExists-map P P' (app _ m) w f h = absurd h
OnExists-map P P' _ w f h = tt

-- The clock is read, and nothing changes.
pub now_lem :
    (env : Env) (w : World)
    → Ends (λ t w'. (t ≡ env.now w.asked) × Untouched w w') Quiet (now env w)
now_lem env w = record { by = (refl, record { db = refl; committed = refl; outbox = refl }) }

-- The rest of a block whose first part has returned.
pub bind_ok :
    {A B : Type 0} (m : Exec A) (f : A → Exec B) (env : Env) (w : World) (a : A) (w' : World)
    → m env w ≡ (ok a, w')
    → (m >>= f) env w ≡ f a env w'
unfolding ◌>>=◌
bind_ok {A} m f env w a w' e =
    ap
      (λ (x : Result A × World). let (r, v) = x in elim r [ ok b ↦ f b env v | err e ↦ (err e, v) ])
      e
