-- ===== src/Services/Time.antt =====
-- `datetime ± timedelta(minutes=…)`: a result outside `datetime.min` … `datetime.max` raises
-- `OverflowError`, as does a `timedelta` too large for its type, which no such sum could hold.
use eq_site_cms_vk_service.Shared.{ℕ, ◌≡◌, arith, ◌+◌, ◌-◌, ◌*◌, leb}
use eq_site_cms_vk_service.Errors.{overflow_error}
use eq_site_cms_vk_service.Db.{DateTime}
use eq_site_cms_vk_service.Exec.{Env, World, Ends, Quiet, Untouched, ◌>>=◌, Exec, pure, check, ◌>>◌}

abbrev pub minute : ℕ
minute = 60_000_000

-- 9999-12-31 23:59:59.999999
abbrev pub datetime_max : DateTime
datetime_max = 315_537_897_599_999_999

unfoldable pub plus_minutes : DateTime → ℕ → Exec DateTime
plus_minutes t minutes = do
  check (leb (t + minutes * minute) datetime_max) overflow_error
  pure (t + minutes * minute)

unfoldable pub minus_minutes : DateTime → ℕ → Exec DateTime
minus_minutes t minutes = do
  check (leb (minutes * minute) t) overflow_error
  pure (t - minutes * minute)

pub minus_minutes_lem :
    (t : DateTime) (minutes : ℕ) (env : Env) (w : World)
    → Ends
        (λ s w'. (s ≡ t - minutes * minute) × Untouched w w')
        Quiet
        (minus_minutes t minutes env w)
unfolding minus_minutes ◌>>=◌
minus_minutes_lem t minutes env w = ground arith

pub plus_minutes_lem :
    (t : DateTime) (minutes : ℕ) (env : Env) (w : World)
    → Ends
        (λ s w'. (s ≡ t + minutes * minute) × Untouched w w')
        Quiet
        (plus_minutes t minutes env w)
unfolding plus_minutes ◌>>=◌
plus_minutes_lem t minutes env w = ground arith
