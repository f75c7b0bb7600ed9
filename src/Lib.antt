-- ===== src/Lib.antt =====
-- Stark Bank trial backend: a Python service that issues invoices in batches over a day, receives
-- the provider's webhooks, and forwards what each paid invoice brings, less its fee, in a transfer.
-- Three processes share one database: the scheduler issues invoices, the web application records
-- webhook events and answers a reviewer's queries, and the worker turns queued transfer jobs into
-- transfers. All three reach the provider through one client of its SDK.
--
-- Files, with the code below src/starkbank_trial/ that they model:
--   Domain/Money, Domain/Transfer: domain/money.py, domain/transfer.py, domain/constants.py
--   Domain/Models, Status, Events, Errors: the dataclasses, enumerations and exceptions of domain/
--   Domain/Values: the texts of the enumerations, as columns and answers have them
--   Domain/Time: datetimes as microseconds since the epoch, with or without a zone
--   Schema: persistence/schema.py, rows as records and tables as lists of rows. The UNIQUE and CHECK
--     constraints of a table are one Boolean test, which every write of constrained columns meets
--   Transaction: `engine.begin()` (`commit`) and `begin_nested()` (`savepoint`)
--   Service: a method that runs transactions and calls the provider and the clock between them.
--     `meanwhile` is what other processes commit while the provider answers
--   TransferStore: persistence/transfer_store.py (`claim`, `_finish` as `finish_job`, `succeeded` as
--     `mark_succeeded`, and so on). FOR UPDATE SKIP LOCKED is the argument `locked`
--   TransferWorker: application/transfers.py, each method under its name without the underscore
--   EventStore: persistence/event_store.py (`record` as `record_event`)
--   Webhooks: application/webhooks.py
--   Schedule: application/schedule.py
--   TrialStore: persistence/trial_store.py, its read-only `report` in TrialStore/Report
--   InvoiceStore: persistence/invoice_store.py (`created` as `mark_created`, `failed` as
--     `mark_draft_failed`, `retry` as `retry_draft`; `record_smoke` is in Smoke)
--   TrialService: application/trials.py (`reconcile_invoices` in TrialService/Reconciling), and
--     `build_invoice_drafts` of application/payers.py
--   Smoke: application/smoke.py, `build_smoke_invoice` of application/payers.py
--   Provider: infrastructure/starkbank_client.py. Sdk has what is called of the SDK and of pydantic,
--     Transfers the invoices and transfers, Events the webhook events, Subscriptions the webhooks;
--     Worker runs the transfer worker with this client
--   Review: persistence/review_store.py and http/review.py. Cursor, Page and Walk have the paging,
--     Views the joins, Filters the conditions, Payloads the rows of an answer, Overview the
--     counts, Store the methods of `ReviewStore`, Params the ranges of a query's parameters, Routes the views of the web
--     application
--   Config: config.py and bootstrap.py, the settings and what is built from them
--   Http: the webhook endpoint of http/app.py
--   Commands: of cli.py `sync-transfer-statuses`, `cleanup-webhooks`, `cleanup-events` and
--     `worker run`, and in Live `setup-webhook`, `smoke-invoice` and `smoke-batch`
--   Base: statements on tables, ordered SELECTs, integers
--   Tests: the theorems at concrete inputs
--
-- An ordered SELECT is the interface `OrderBy`, or `NewestFirst` for rows by an instant and a text:
-- a permutation of the rows in the order of the key. `insertion` and `newest` show that they can be
-- met. The SDK, the verifier of the webhook service, the clock, hashes, random ids, base64 and the
-- texts of datetimes are parameters. Amounts are integers and instants natural numbers without
-- bound, as in Python; the widths of the columns, foreign keys, log lines and `pg_notify` are left
-- out. The loops of the modelled code go over rows or lists, with two exceptions. `follow` is a
-- client of the review pages, on fuel: more than the rows that fit is enough. `worker_passes` is a
-- number of passes of the loop of `worker run`, which has no end.
--
-- Not modelled: of cli.py the parsing of arguments, the printing and the commands that only call one
-- modelled method; of http/ Flask, the rate limit, the health checks, the reading of a query string and
-- the answer of the configuration; logging, engines and migrations.
pub mod Base
pub mod Domain
pub mod Schema
pub mod Transaction
pub mod TransferStore
pub mod EventStore
pub mod Service
pub mod Webhooks
pub mod Schedule
pub mod TrialStore
pub mod InvoiceStore
pub mod TrialService
pub mod TransferWorker
pub mod Smoke
pub mod Provider
pub mod Config
pub mod Review
pub mod Http
pub mod Commands
pub mod Tests
