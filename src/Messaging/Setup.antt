-- ===== src/Messaging/Setup.antt =====
-- src/clients/nats/client.py: registering the durable consumer, again while its stream is missing.
use eq_site_cms_vk_service.Shared.{ℕ, zero, suc, ◌*◌, List, [], ◌∷◌, leb, if◌then◌else◌}

-- What the server answers to `add_consumer`.
pub data Answer : Type 0 where
  registered not_found refused : Answer

-- How the registration ends: a loop of no attempts ends without one.
pub data SetupResult : Type 0 where
  done no_stream broken never_tried : SetupResult

-- The attempts from `attempt` on, of which `left` are left, and the waits between them.
unfoldable pub setup_from : (ℕ → Answer) → ℕ → ℕ → ℕ → SetupResult × List ℕ
setup_from add backoff attempt zero = (never_tried, [])
setup_from add backoff attempt (suc left) =
    let (result, waits) = setup_from add backoff (suc attempt) left in
    elim (add attempt) [
      | registered ↦ (done, [])
      | not_found ↦ if leb left 0 then (no_stream, []) else (result, backoff * attempt ∷ waits)
      | refused ↦ (broken, [])
    ]

unfoldable pub setup_consumers : (ℕ → Answer) → ℕ → ℕ → SetupResult × List ℕ
unfolding setup_from
setup_consumers add max_attempts backoff = setup_from add backoff 1 max_attempts
