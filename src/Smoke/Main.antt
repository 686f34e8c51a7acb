-- ===== src/Smoke/Main.antt =====
-- src/smoke_harness/__main__.py: the status of the command, and the calls of its run. What it prints, and a
-- run that is interrupted, are left out.
use eq_site_cms_vk_service.Db.{Uuid}
use eq_site_cms_vk_service.Smoke.Config.{SmokeHarnessConfig, Guarded, accepted, rejected, key_error}
use eq_site_cms_vk_service.Smoke.Environment.{Python, Environment, from_environment}
use eq_site_cms_vk_service.Smoke.Permitted.{Ensures}
use eq_site_cms_vk_service.Smoke.Accepted.{IsSound, from_environment_outcome}
use eq_site_cms_vk_service.Smoke.Runner.{Call, Failure, Outside}
use eq_site_cms_vk_service.Smoke.Run.{
  Finish, finished, body_failed, cleanup_failed, both_failed, run,
}
use eq_site_cms_vk_service.Smoke.Cleaned.{IsCleanedUp, RunDone}
use eq_site_cms_vk_service.Smoke.Ran.{run_outcome}
use eq_site_cms_vk_service.Process.Script.{Answers, Ended, returned, raised}
use eq_site_cms_vk_service.Process.Rules.{all_returned}
use eq_site_cms_vk_service.Shared.{some, ℕ, List, [], ◌≡◌, refl, true, ◌⊎◌, inl, inr}

abbrev pub status_of : Ended Failure Finish → ℕ
status_of (returned (finished _)) = 0
status_of (returned (body_failed _)) = 1
status_of (returned (cleanup_failed _)) = 1
status_of (returned (both_failed _ _)) = 1
status_of (raised _) = 1

-- An error that is not caught ends the interpreter with status 1.
abbrev pub main_with :
    Python → Outside → Answers Call Failure → Guarded SmokeHarnessConfig → ℕ × List Call
main_with py outside answers (rejected e) = (2, [])
main_with py outside answers key_error = (1, [])
main_with py outside answers (accepted config) =
    let (r, calls) = run py outside config answers [] in (status_of r, calls)

unfoldable pub main : Python → Environment → Outside → Answers Call Failure → ℕ × List Call
main py env outside answers = main_with py outside answers (from_environment py env)

-- How the command ends.
abbrev pub MainDone : Python → Environment → Answers Call Failure → ℕ × List Call → Type 0
MainDone py env answers (status, calls) =
    ((status ≡ 2) × (calls ≡ []))
    ⊎ ((status ≡ 1) × IsCleanedUp answers calls)
    ⊎ ((status ≡ 0)
        × IsCleanedUp answers calls
        × (all_returned answers calls ≡ true)
        × (config : SmokeHarnessConfig) × (from_environment py env ≡ accepted config)
        × IsSound py env config)

-- Where `UUID(str(id))` is `id`: the command has status 2 and has called nothing, or it has run and cleaned
-- up; and it has status 0 only where its configuration was accepted, as one of an enabled harness in the
-- local environment with exact targets and permitted plans, and every call of the run has returned.
pub main_outcome :
    (py : Python) (env : Environment) (outside : Outside) (answers : Answers Call Failure)
    → ((id : Uuid) → py.parse_uuid (py.str_uuid id) ≡ some id)
    → MainDone py env answers (main py env outside answers)
unfolding main
main_outcome py env outside answers back =
    go (from_environment py env) refl (from_environment_outcome py back env)
  where
    ran :
        (config : SmokeHarnessConfig) (x : Ended Failure Finish × List Call)
        → from_environment py env ≡ accepted config
        → IsSound py env config
        → RunDone answers x
        → MainDone py env answers (status_of x.0, x.1)
    ran config (returned (finished r), calls) e s (clean, good) =
        inr (inr (refl, clean, good, config, e, s))
    ran config (returned (body_failed f), calls) e s (clean, _) = inr (inl (refl, clean))
    ran config (returned (cleanup_failed fs), calls) e s (clean, _) = inr (inl (refl, clean))
    ran config (returned (both_failed f fs), calls) e s (clean, _) = inr (inl (refl, clean))
    ran config (raised f, calls) e s h = absurd h

    go :
        (g : Guarded SmokeHarnessConfig)
        → from_environment py env ≡ g
        → Ensures (IsSound py env) g
        → MainDone py env answers (main_with py outside answers g)
    go (rejected m) e h = inl (refl, refl)
    go key_error e h = absurd h
    go (accepted config) e h =
        ran config (run py outside config answers []) e h (run_outcome answers outside config py)
