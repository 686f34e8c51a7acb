-- ===== src/Messaging/Incidents.antt =====
-- How often an outage of the connection is reported as an error.
use eq_site_cms_vk_service.Shared.{
  ℕ, ◌+◌, List, [], ◌∷◌, ◌≡◌, ltb, arith, length, select, if◌then◌else◌,
}
use eq_site_cms_vk_service.Messaging.Policy.{
  ErrorPolicy, ConnectionEvent, failed, disconnected, reconnected, closed, new_policy, on_error,
  on_disconnected, on_closed, run, is_failure, is_error, IsIncident,
}

abbrev pub failures : List ConnectionEvent → ℕ
failures events = length (select is_failure events)

-- One report of a failure beyond the limit.
abbrev pub reports : ℕ → ℕ → ℕ
reports limit n = if ltb limit n then 1 else 0

-- From a policy that has escalated exactly where its failures are beyond the limit.
incident_from :
    (events : List ConnectionEvent) (p : ErrorPolicy)
    → IsIncident events
    → p.escalated ≡ ltb p.report_after_attempts p.consecutive_failures
    → ((run events p).0.consecutive_failures ≡ p.consecutive_failures + failures events)
      × (length (select is_error (run events p).1)
            + reports p.report_after_attempts p.consecutive_failures
          ≡ reports p.report_after_attempts (p.consecutive_failures + failures events))
unfolding run select on_error on_disconnected on_closed
incident_from [] p h e = (omega arith, ground arith)
incident_from (failed ∷ rest) p h e =
    let (q, level) = on_error p in
    let kept : q.escalated ≡ ltb q.report_after_attempts q.consecutive_failures = ground arith in
    let ih = incident_from rest q h kept in ground (arith, ih.0, ih.1)
incident_from (disconnected ∷ rest) p h e = incident_from rest p h e
incident_from (closed ∷ rest) p h e = incident_from rest p h e
incident_from (reconnected ∷ rest) p h e = absurd h

-- While the connection does not come back, the policy counts every failure and reports an error exactly
-- once where there have been more than `report_after_attempts` failures, and never otherwise,
-- whatever disconnections and closings lie between them.
pub incident_is_reported_once :
    (limit : ℕ) (events : List ConnectionEvent)
    → IsIncident events
    → ((run events (new_policy limit)).0.consecutive_failures ≡ failures events)
      × (length (select is_error (run events (new_policy limit)).1)
          ≡ reports limit (failures events))
incident_is_reported_once limit events h =
    let x = incident_from events (new_policy limit) h (ground arith) in
    (omega (arith, x.0), grind (arith, x.1))
