-- ===== src/Messaging/Policy.antt =====
-- src/clients/nats/lifecycle.py: how failures of the connection to NATS are logged.
use eq_site_cms_vk_service.Shared.{
  ℕ, suc, Bool, true, false, not, ◌&&◌, List, [], ◌∷◌, ltb, if◌then◌else◌,
}

pub record ErrorPolicy : Type 0 where
  pub report_after_attempts : ℕ
  pub consecutive_failures : ℕ
  pub escalated : Bool

pub data Level : Type 0 where
  info warning error : Level

abbrev pub new_policy : ℕ → ErrorPolicy
new_policy limit = record {
  report_after_attempts = limit;
  consecutive_failures = 0;
  escalated = false;
}

unfoldable pub reset : ErrorPolicy → ErrorPolicy
reset p = record p { consecutive_failures = 0; escalated = false }

-- `on_error`, with the level of what it logs
unfoldable pub on_error : ErrorPolicy → ErrorPolicy × Level
on_error p =
    let failures = suc p.consecutive_failures in
    let counted : ErrorPolicy = record p { consecutive_failures = failures } in
    if ltb p.report_after_attempts failures && not p.escalated
    then (record counted { escalated = true }, error)
    else (counted, warning)

unfoldable pub on_disconnected : ErrorPolicy → ErrorPolicy × Level
on_disconnected p = (p, warning)

unfoldable pub on_reconnected : ErrorPolicy → ErrorPolicy × Level
unfolding reset
on_reconnected p = (reset p, info)

unfoldable pub on_closed : ErrorPolicy → ErrorPolicy × Level
on_closed p = (p, info)

-- What happens on the connection.
pub data ConnectionEvent : Type 0 where
  failed disconnected reconnected closed : ConnectionEvent

abbrev pub on_event : ConnectionEvent → ErrorPolicy → ErrorPolicy × Level
on_event failed p = on_error p
on_event disconnected p = on_disconnected p
on_event reconnected p = on_reconnected p
on_event closed p = on_closed p

-- Events in order, with all that is logged.
unfoldable pub run : List ConnectionEvent → ErrorPolicy → ErrorPolicy × List Level
run [] p = (p, [])
run (e ∷ rest) p =
    let (q, level) = on_event e p in let (r, levels) = run rest q in (r, level ∷ levels)

abbrev pub is_failure : ConnectionEvent → Bool
is_failure failed = true
is_failure _ = false

abbrev pub is_error : Level → Bool
is_error error = true
is_error _ = false

-- No event of a run is a reconnection: the run is one incident.
abbrev pub IsIncident : List ConnectionEvent → Type 0
IsIncident [] = Unit
IsIncident (reconnected ∷ rest) = ⊥
IsIncident (_ ∷ rest) = IsIncident rest
