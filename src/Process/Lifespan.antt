-- ===== src/Process/Lifespan.antt =====
-- `lifespan` of src/main.py, and the runtime of the metrics of src/utils/observability.py. `str.lower` is
-- a parameter; the logging is left out.
use eq_site_cms_vk_service.Shared.{none, true, some, if◌then◌else◌, false, Bool, Option}
use eq_site_cms_vk_service.Text.{Text, codes, text_eq}
use eq_site_cms_vk_service.Process.Script.{
  Script, Ended, returned, raised, pure, raise, try, finally, perform, when, ◌>>=◌, ◌>>◌,
}

pub data Call : Type 0 where
  connect setup start_consumer start_http_server serve stop_consumer close_client close_database :
      Call
  shutdown server_close join_thread : Call

-- What a call raises: a `ConnectionRefusedError` is an `OSError`.
pub data Failure : Type 0 where
  os_error other_error : Failure

abbrev pub Run : Type 0 → Type 0
Run = Script Call Failure

pub record MetricsRuntime : Type 0 where
  pub closed : Bool

abbrev pub running : MetricsRuntime
running = record { closed = false }

abbrev pub closed_runtime : MetricsRuntime
closed_runtime = record { closed = true }

-- Nothing where no server is started.
unfoldable pub start_metrics_runtime : (Text → Text) → Text → Run (Option MetricsRuntime)
start_metrics_runtime lower environment =
    if text_eq (lower environment) (codes "production")
    then (do perform start_http_server; pure (some running))
    else pure none

-- The flag is set before the calls; the runtime as it is afterwards.
unfoldable pub close : MetricsRuntime → Run MetricsRuntime
close m =
    if m.closed
    then pure m
    else (do perform shutdown; perform server_close; perform join_thread; pure closed_runtime)

-- `except (ConnectionRefusedError, OSError)`
abbrev degraded : Bool → Failure → Run Bool
degraded connected os_error = pure connected
degraded connected other_error = raise other_error

abbrev pub caught : Bool → Ended Failure Unit → Run Bool
caught connected (returned _) = pure true
caught connected (raised e) = degraded connected e

-- The consumer is started once the client is connected and set up.
abbrev pub after_setup : Ended Failure Unit → Run Bool
after_setup (raised e) = degraded false e
after_setup (returned _) = do started ← try (perform start_consumer); caught true started

-- `nats_connected` after the connection was tried.
unfoldable pub start_up : Run Bool
start_up = do r ← try (do perform connect; perform setup); after_setup r

abbrev pub close_metrics : Option MetricsRuntime → Run Unit
close_metrics none = pure tt
close_metrics (some m) = do close m; pure tt

unfoldable pub shut_down : Bool → Option MetricsRuntime → Run Unit
shut_down nats_connected metrics_runtime = do
  when nats_connected (do perform stop_consumer; perform close_client)
  perform close_database
  close_metrics metrics_runtime

unfoldable pub lifespan : (Text → Text) → Text → Run Unit
lifespan lower environment = do
  nats_connected ← start_up
  metrics_runtime ← start_metrics_runtime lower environment
  finally (perform serve) (shut_down nats_connected metrics_runtime)
