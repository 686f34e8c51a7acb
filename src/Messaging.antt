-- ===== src/Messaging.antt =====
-- src/clients/nats: handling a command of the stream in a session of its own, and answering the
-- message. Decoding the payload and the headers, and deriving the expected identifier of a message
-- (UUID version 5), are parameters.
pub mod Base
mod Policy
mod Setup
mod Registration
mod Incidents
mod Consumed
mod Consumer
mod Connection
pub mod Answered
mod Tests
