-- ===== src/Observability.antt =====
-- What the service tells about itself: the events that are sent to Sentry, and the server of metrics.
mod Sanitize
mod Hidden
mod Tests
