-- ===== src/Lib.antt =====
-- AkarAI, a property marketplace: a verification library for the core of its backend and worker.
--
-- The backend (backend/app) serves users, who search listings, send inquiries (leads) and book
-- viewings, and agencies, the tenants, who manage them. A request runs in one database transaction:
-- a service method reads and writes rows and either returns, and the transaction is committed, or
-- raises, and it is rolled back. Beside the rows a service leaves events in an outbox table; the
-- worker (workers) claims them and runs a handler for each. The model service answers the handler of
-- a new lead by callbacks, which set the lead's spam and level results. Rate limits, the token
-- blacklist and the invalidation times of sessions are keys of Redis.
--
--   Prelude    comparisons, strings, lists, options that the components share
--   Exec       backend/app/common/exceptions.py, common/dependencies.py and the handlers of main.py:
--              errors, actions on a state, `transaction` for `get_db_session`
--   Table      a database table or a Redis keyspace as rows under a primary key
--   Database   the rows of the models.py files, common/events.py, common/rls.py
--   Tenant     common/tenant.py and the permission checks of auth/dependencies.py
--   Domain     common/domain.py: the status transition tables
--   Viewings   viewings/service.py and repository.py: Slots and Bookings are its operations,
--              Requests the transactions around them, Effects, BookingEffects, StatusEffects and
--              Change what they write
--   Redis, RateLimit   common/redis.py and common/rate_limit.py
--   Outbox     workers/outbox.py and the loop of workers/main.py
--   Leads      leads/service.py, repository.py, the callback of router.py: Inquiries, Reviews and
--              Callbacks are its operations, Requests, Effects, Classified and Change as for viewings;
--              Worker is workers/handlers/leads.py with its client, FailOpen what it leaves
--   Rows       `scalar_one_or_none`
--   Listings   listings/service.py without photos: Service, Requests, Effects
--   Media      common/media.py: the validation of an upload
--   Photos     the photo methods of listings/service.py and common/storage.py: Service and Upload are
--              the operations, State the rows and the object storage
--   Search     listings/query_service.py and the public search of listings/router.py: Query has the
--              filters, orders and cursors, Pages the pages, Codec the text form of a cursor;
--              Selected and Order write out what it asks for
--   Pagination common/pagination.py and the repositories' offset and limit
--   Saved, Comparisons   the saved listings and comparison sessions of listings/router.py and
--              listings/repository.py
--   Notifications   notifications/service.py
--   Ingestion  workers/handlers/rag.py over rag/models.py: Chunks and Reconcile are the steps, Handler
--              the run with its two commits, Active and Outcome what they leave
--   Guardrails ai/guardrails.py: History is what of a conversation is handed on, Messages the patterns
--              and messages, Generate the chains of checks around an answer, Judged what they ensure
--   Retrieval  rag/service.py over rag/repository.py: Search to Stages are the stages of a policy
--              question, Query their run, Current and Answers what is answered; Assemble and
--              Citations are rag/retrieval.py, Redaction rag/redaction.py and ai/pii_redaction.py
--   Auth       auth/service.py and repository.py: State, Sessions, Login
--   Agencies   agencies/service.py and repository.py; State also has the tenant context of
--              auth/dependencies.py, Route the deactivation of auth/router.py
--   Tests      a small agency and runs on it
--
-- Correspondence. Functions and columns keep the source's names. An action of type `Exec S A` takes
-- the state and returns a result and the state; an error keeps what was written before it, and
-- `transaction` undoes it. What a method reads from outside is an argument: the tenant context, the
-- time `now`, and the ids that `uuid4` draws, which are numbers; `IsFresh` says that a drawn id is
-- new where it comes. Timestamps are microseconds as natural numbers. Token decoding, hashing and
-- password checks are fields of `Tokens` in Auth.State, with the one law that a token that is
-- decoded twice has the same claims; the handlers of events and the random number of a delay are
-- parameters of Outbox, and what else writes to the outbox comes in before each round of polling.
-- In Photos a record says which calls of the object storage and of the database fail, and Pillow is
-- a parameter; in Search the database's `ilike` and the two `lower` are, with the writing and
-- reading of JSON; in Leads.Worker an attempt at the model service is, in Ingestion, Guardrails and
-- Retrieval the records `Outside`, `Providers`, `Services` and `Redactor` have what is not the
-- repository's, and `Reads` what each statement of a policy question reads. A session keeps the
-- objects that it has loaded: a second select of a document answers with the object of the first. A
-- table with a unique index has it as a test before the insert. Event payloads carry the keys and
-- values of the source, each value as text.
--
-- Bounds. No operation needs fuel: lists of requests, polling times and tables are followed to
-- their end. The two clients that read page after page are given a number of pages; as many as
-- there are rows is enough. Counters are natural numbers, as Python's integers are.
--
-- Not modelled: transactions that are open at the same time, since requests follow one another. (The lock
-- that a booking takes does not re-read the slot into the session, so nothing is claimed of two
-- bookings that overlap in time.) Nor paging and the listing summaries attached to viewings;
-- timestamps kept by the database (created_at, updated_at); response bodies, headers and logging;
-- the row-level policies of the database; the JSON text of a cursor, the caches, presigned
-- addresses and image derivatives; the list of notifications and the e-mail provider; the policy
-- chats, uploads and evaluations, the other assistants, the worker's other handlers, the pauses
-- between its attempts at the model service, the administration pages and the frontends.
pub mod Prelude
pub mod Exec
pub mod Table
pub mod Rows
pub mod Database
pub mod Tenant
pub mod Domain
pub mod Viewings
pub mod Redis
pub mod RateLimit
pub mod Outbox
pub mod Leads
pub mod Listings
pub mod Auth
pub mod Pagination
pub mod Agencies
pub mod Search
pub mod Saved
pub mod Comparisons
pub mod Media
pub mod Ingestion
pub mod Guardrails
pub mod Retrieval
pub mod Notifications
pub mod Photos
mod Tests
