-- ===== src/Workers/Once.antt =====
-- The effect of the probe is created once.
use eq_site_cms_vk_service.Workers.Probe.{
  Keys, Answer, retry, created, duplicate, begun, integration_probe, Execution, whole, lost_counted,
  lost_early, lost_late, execute_all,
}
use eq_site_cms_vk_service.Shared.{
  ◌||◌, ℕ, suc, Bool, true, false, List, [], ◌∷◌, ◌+◌, leb, length, if◌then◌else◌, ◌≡◌, refl, arith,
}

-- How often the effect was created, whether or not the answer got out.
unfoldable pub created_in : List (Answer × Bool) → ℕ
created_in [] = 0
created_in ((created _, _) ∷ rest) = suc (created_in rest)
created_in ((retry, _) ∷ rest) = created_in rest
created_in ((duplicate _, _) ∷ rest) = created_in rest

abbrev pub number : Bool → ℕ
number false = 0
number true = 1

-- Some execution that was not lost before it looked for the effect comes after the attempts that are to fail.
unfoldable pub gets_through : ℕ → ℕ → List Execution → Bool
gets_through fail_until before [] = false
gets_through fail_until before (lost_counted ∷ rest) = gets_through fail_until (suc before) rest
gets_through fail_until before (lost_early ∷ rest) = gets_through fail_until (suc before) rest
gets_through fail_until before (lost_late ∷ rest) =
    let later = gets_through fail_until (suc before) rest in
    if leb (suc before) fail_until then later else true
gets_through fail_until before (whole ∷ rest) =
    let later = gets_through fail_until (suc before) rest in
    if leb (suc before) fail_until then later else true

-- What holds of the answers and the keys after the executions.
abbrev pub CreatedOnce : ℕ → List Execution → Keys → List (Answer × Bool) × Keys → Type 0
CreatedOnce fail_until executions k (answers, k') =
    (k'.attempts ≡ k.attempts + length executions)
    × (created_in answers + number k.effect ≡ number k'.effect)
    × (k'.effect ≡ (k.effect || gets_through fail_until k.attempts executions))

-- Whatever executions there are, each whole, or with a worker that is lost after the first call, after
-- the second or after the last one, from keys as they stand: every execution counts as an attempt, the
-- effect is created at most once, never where it stands already, and it stands in the end exactly where
-- it did or some execution, whole or lost after its last call, came after the attempts that are to fail.
pub effect_once :
    (fail_until : ℕ) (executions : List Execution) (k : Keys)
    → CreatedOnce fail_until executions k (execute_all fail_until executions k)
unfolding execute_all integration_probe gets_through created_in
effect_once fail_until [] k = (omega arith, omega arith, or_false k.effect)
  where
    or_false : (b : Bool) → b ≡ (b || false)
    or_false true = refl
    or_false false = refl
effect_once fail_until (lost_counted ∷ rest) k =
    let (a, b, c) = effect_once fail_until rest (record k { attempts = suc k.attempts }) in
    (omega arith, b, c)
effect_once fail_until (lost_early ∷ rest) k =
    let (a, b, c) = effect_once fail_until rest (begun k) in (omega arith, b, c)
effect_once fail_until (lost_late ∷ rest) k =
    go k.effect (leb (suc k.attempts) fail_until) refl (λ k'. effect_once fail_until rest k')
  where
    go :
        (e b : Bool)
        → leb (suc k.attempts) fail_until ≡ b
        → ((k' : Keys) → CreatedOnce fail_until rest k' (execute_all fail_until rest k'))
        → CreatedOnce fail_until
            (lost_late ∷ rest)
            (record k { effect = e })
            (execute_all fail_until (lost_late ∷ rest) (record k { effect = e }))
    go e true f later =
        let (a, b, c) = later (begun (record k { effect = e })) in rw (f) (omega arith, b, c)
    go true false f later =
        let (a, b, c) = later (begun (record k { effect = true })) in rw (f) (omega arith, b, c)
    go false false f later =
        let (a, b, c) = later (record (begun k) { effect = true }) in
        rw (f) (omega arith, omega arith, c)
effect_once fail_until (whole ∷ rest) k =
    go k.effect (leb (suc k.attempts) fail_until) refl (λ k'. effect_once fail_until rest k')
  where
    go :
        (e b : Bool)
        → leb (suc k.attempts) fail_until ≡ b
        → ((k' : Keys) → CreatedOnce fail_until rest k' (execute_all fail_until rest k'))
        → CreatedOnce fail_until
            (whole ∷ rest)
            (record k { effect = e })
            (execute_all fail_until (whole ∷ rest) (record k { effect = e }))
    go e true f later =
        let (a, b, c) = later (begun (record k { effect = e })) in rw (f) (omega arith, b, c)
    go true false f later =
        let (a, b, c) = later (begun (record k { effect = true })) in rw (f) (omega arith, b, c)
    go false false f later =
        let (a, b, c) = later (record (begun k) { effect = true }) in
        rw (f) (omega arith, omega arith, c)
