-- ===== src/Workers/Probe.antt =====
-- src/workers/tasks/integration_probe.py on the keys of one probe in Redis, where `incr` counts from zero
-- and `set` with `nx` sets a key once. The delay is left out.
use eq_site_cms_vk_service.Shared.{
  false, ℕ, suc, Bool, true, Option, some, List, [], ◌∷◌, leb, if◌then◌else◌,
}

pub record Keys : Type 0 where
  pub attempts : ℕ
  pub started : Option ℕ
  pub effect : Bool

-- The exception that asks Celery to retry, or the `effect` of the result with its `attempts`.
pub data Answer : Type 0 where
  retry : Answer
  created duplicate : ℕ → Answer

-- `redis.incr` and `redis.set` of the first lines.
abbrev pub begun : Keys → Keys
begun k = record k { attempts = suc k.attempts; started = some (suc k.attempts) }

-- `redis.set(…, nx=True)`
abbrev pub first_effect : Keys → Answer × Keys
first_effect k =
    if k.effect then (duplicate k.attempts, k) else (created k.attempts, record k { effect = true })

unfoldable pub integration_probe : ℕ → Keys → Answer × Keys
integration_probe fail_until k =
    let now = begun k in if leb now.attempts fail_until then (retry, now) else first_effect now

-- An execution of the task whose answer gets out; one whose worker is lost after `redis.incr`, after the
-- first `redis.set`, or when all calls of Redis are made, but its answer does not get out. Celery then
-- gives the task to another worker.
pub data Execution : Type 0 where
  whole lost_counted lost_early lost_late : Execution

-- What the executions, one after another, come to, each with whether the answer gets out, and the keys
-- after them.
unfoldable pub execute_all : ℕ → List Execution → Keys → List (Answer × Bool) × Keys
unfolding integration_probe
execute_all fail_until [] k = ([], k)
execute_all fail_until (lost_counted ∷ rest) k =
    execute_all fail_until rest (record k { attempts = suc k.attempts })
execute_all fail_until (lost_early ∷ rest) k = execute_all fail_until rest (begun k)
execute_all fail_until (lost_late ∷ rest) k =
    let (answer, k') = integration_probe fail_until k in
    let (answers, k'') = execute_all fail_until rest k' in ((answer, false) ∷ answers, k'')
execute_all fail_until (whole ∷ rest) k =
    let (answer, k') = integration_probe fail_until k in
    let (answers, k'') = execute_all fail_until rest k' in ((answer, true) ∷ answers, k'')
