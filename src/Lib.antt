-- ===== src/Lib.antt =====
-- Verification of the inference engine's control plane.
--
-- The engine answers OpenAI- and Anthropic-style requests from a pool of inference backends.  A
-- request is authenticated and limited by the gateway, admitted by the scheduler, placed by the
-- router on a backend of the registry, and metered when it ends; Stripe events and operators
-- change the accounts that the gateway reads.  The modules, each with the code that it models:
--
--   Prelude: names and lemmas that the others share; dictionaries (Prelude/Maps) and database
--     tables (Prelude/Tables) as lists of their entries.
--   Scheduler: engine/inference/scheduler.py.  `admit` suspends at one place and is two steps,
--     `arrive` and `resume`; the semaphore of asyncio is modelled as the code uses it
--     (Scheduler/Permits).  What happens is a list of events, in any order.
--   Backends: engine/inference/registry.py, selection and occupancy of backends.
--   Router: engine/inference/router.py, over the operations of Backends.
--   Stream: engine/inference/stream.py, the token stream between a producer thread and the event
--     loop (Stream.antt); its invariant is in Stream/Sound and Stream/Tidy.
--   Accounts: engine/auth/keys.py and engine/billing/store.py, over one record of tables.
--   Stripe: engine/billing/stripe.py and the webhook of engine/api/billing_router.py, which call
--   Accounts; the signature check is Stripe/Signature.
--   Gateway: engine/gateway.py with engine/quota, which reads Accounts: authorization
--     (Gateway.antt), limiter (Gateway/Limiting), quota windows (Gateway/Quota).
--   Webhooks: engine/billing/webhooks, the outbound webhooks: store.py (Webhooks.antt), signing.py
--     (Webhooks/Signing), and the delivery worker of delivery.py (Webhooks/Worker).
--     Webhooks/Service interleaves the worker with the callers of the store.
--   Audit: engine/audit/log.py, the hash chain and its check; SHA-256 and JSON are parameters.
--   Models: engine/models, the model store: names (Models/Names), one download with its cancel flag
--     (Models/Download), the registry (Models/Registry), and the service with the tasks of its
--     downloads (Models/Tasks, Models/Service); Models/Events puts the calls and the steps of the
--     tasks in any order.
--
-- Moments are natural numbers of a fixed unit, money and compute units natural numbers too: the
-- source's floats are whole numbers of small units here.  Hashes, random texts and ids that the
-- code draws are arguments.  Loops are recursions on lists; only `download`, which calls itself, has
-- fuel, and two calls are enough.
--
-- Not modelled: the HTTP and gRPC surfaces, the engines behind the backends, logging and the
-- dashboard, which hold none of this state; and telemetry, the migrations and the benchmark harness,
-- which have state of their own.
pub mod Prelude
pub mod Scheduler
pub mod Backends
pub mod Router
pub mod Accounts
pub mod Stream
pub mod Stripe
pub mod Gateway
pub mod Webhooks
pub mod Audit
pub mod Models
