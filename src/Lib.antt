-- ===== src/Lib.antt =====
-- The VK service of EqSiteCMS: it binds VK accounts to owners of EqSiteCMS by a confirmation code,
-- follows whether a user lets the group write, and sends notifications.
--
-- The program and its model. An owner gets a code over HTTP (src/api, src/core/services) and sends it
-- to the bot of the group (src/bot), which links the peer that wrote. Notifications come as commands
-- on a NATS stream (src/clients/nats) and go to the linked peers, with a ledger of what was sent.
-- All of them work on the tables of src/models through src/repositories, each request, event and
-- message in a database session of its own, and write to users through the VK client.
--
-- A coroutine is an `Exec A`: a function from the outside's answers (`Env`) and the state (`World`) to
-- a result or an error and the new state. `World` has the database as the session sees it, the
-- database as last committed, the messages that VK accepted, and a counter of the questions put to
-- the outside, by which the clock, the server's clock, the identifiers, the draws of
-- `secrets.choice` and VK's answers are read. `raise`, `catch`, `commit` and `rollback` are Python's
-- and SQLAlchemy's. A unique or foreign key that a statement would break raises the database's error
-- and leaves the tables as they were.
--
--   Shared, Text             tests and lists over native numbers; texts as lists of code points,
--                            with case and whitespace of Unicode as a parameter
--   Errors                   src/core/exceptions/base.py
--   Db                       src/models: the rows of the four tables
--   Exec                     the coroutines, and rules for what they do: `Ends Q R x` says that a call
--                            returns with Q or raises with R, `Preserves` that it leaves a part of the
--                            world alone, and `Uncommitted` that it commits nothing
--   Repositories.UserVks     src/repositories/user_vk.py
--   Repositories.Confirmations, Logs, Deliveries
--                            vk_confirmation.py, vk_log.py, vk_notification_delivery.py beside it
--   Services.Code            src/core/services/vk_code.py
--   Services.Messenger       src/clients/vk/client.py
--   Services.Binding         src/core/services/vk_binding.py
--   Services.Confirm         src/core/services/vk_confirmation.py
--   Services.State           src/core/services/vk_state.py
--   Services.Delivery        src/core/services/vk_notification_delivery.py
--   Settings                 src/settings.py: its validators and the lists in one variable
--   Api                      src/utils/database.py, src/api/endpoints/vks.py, src/main.py, and the
--                            settings of the group in src/settings.py
--   Bot                      src/bot/handlers.py, src/bot/replies.py, the sessions and the
--                            preflight of src/bot/main.py
--   Messaging                src/clients/nats: handlers, the loop of the consumer, lifecycle.py, and
--                            in client.py the connection and the registration of the consumer
--   MainBackend              src/clients/main_backend/client.py
--   Smoke                    src/smoke_harness: config.py, topology.py, messenger.py, runner.py and
--                            the status of __main__.py
--   Process                  src/main.py and src/utils/observability.py: how the process starts and stops.
--                            `Script`, for code that calls the outside step by step, serves the harness too
--   Observability            src/utils/configure_sentry.py
--   Workers                  src/workers/tasks/integration_probe.py
--   Migration                src/migration/versions, and the tables that src/models declares
--   Steps                    the changes that the services make to the bindings and the codes, each for
--                            a cause, such as a request of an owner or a message of a peer
--   Consistency              the invariant of both tables, kept by every step
--   Lifecycle                the phases of an owner's link, which abstract from the rows, and what each
--                            cause may make of them
--   System                   every request, event of the bot and message of the stream, as one event of
--                            the service that takes a world to the next; any sequence of them is steps
--   Fixtures, and Tests in each part
--                            concrete states and inputs, and the theorems applied to them
--
-- In each part the module Base, or the part itself, has the definitions, named as in the source; a
-- branch or the rest of a method that is proved by itself is a definition too. Python's integers are
-- natural numbers or, for peers, ℤ; instants are microseconds since the year 1, and arithmetic on them
-- raises an overflow outside the years 1 to 9999. The loop that looks for an unused code has its
-- number of attempts as fuel, as in the source, and so has the registration of the consumer; `decimal`
-- has the number itself, which is enough, as every step divides it by ten. The two loops of
-- the smoke harness that wait have their 80 rounds. The other loops are recursion on a list.
--
-- Not modelled: sessions that run at the same time (the order of the statements of one session is
-- modelled, and a unique key that another has taken is an error of the database that may occur where
-- the row is there; System takes events one after the other); validation of requests and commands by
-- pydantic, decoding and UUID version 5 (parameters of Messaging); the long poll and the start and stop
-- of the tasks, with what a message leaves that is cut off by the stop (a parameter of Messaging); the
-- range of the columns of integers, so that a peer has no bound; the declared fields and bounds of the
-- settings; the logging and the counters of the process, the configuration of Celery, and what the smoke
-- harness publishes and prints. In a run of the harness the database, the server and the consumer, which
-- works at the same time, are what it calls and reads: each call may end in any way, and each reading be
-- anything, whatever went before.
pub mod Shared
pub mod Text
pub mod Errors
pub mod Db
pub mod Exec
pub mod Repositories
pub mod Services
pub mod Settings
pub mod Migration
pub mod Observability
pub mod Process
pub mod Workers
pub mod Smoke
pub mod MainBackend
pub mod Steps
pub mod Consistency
pub mod Api
pub mod Bot
pub mod Messaging
pub mod Lifecycle
pub mod System
pub mod Fixtures
