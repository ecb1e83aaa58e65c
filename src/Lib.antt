-- ===== src/Lib.antt =====
-- Verification of painfree, a service that sends payment orders to banks over EBICS 3.0 and fetches
-- statements from them.
--
-- The program. A caller submits a payment instruction for a bank connection. The service checks it
-- against the Swiss payment rules (painfree/sps.py), decides once which payment scheme it is sent
-- under (painfree/schemes.py), builds one message or, with a reserve, two, and stores an order with
-- its attempts. Workers share a queue of orders in the database (painfree/queue.py): a worker claims
-- an order under a lease, drives an EBICS upload of the stored message (painfree/worker.py over
-- painfree/ebics3/transaction.py), and records how the upload ended. A refusal of an instant payment
-- may put the reserve in place of the message that was refused. An operator may replay an order that
-- was not delivered (painfree/orders.py). The bank answers later with status reports, and each moves
-- its order once or is kept without effect (painfree/reconcile.py). What happens to an order is owed
-- as an event to every webhook subscription that wants it, and dispatchers deliver the events of a
-- subscription one at a time (painfree/webhooks.py, painfree/dispatcher.py, painfree/redelivery.py).
-- Statements are fetched on schedules, by a cadence or a cron expression (painfree/schedule.py,
-- painfree/cron.py), each run for the days behind the last one that the bank answered. Downloads use
-- the other direction of the same engine (painfree/downloader.py).
--
-- The files. Prelude holds what the others share: tests on numbers, lists, text as lists of code points,
-- integers, decimals, and tables with updates and queries.
--   Ebics.ReturnCodes    painfree/ebics3/returncodes.py: the table, the readings of a code, lookup.
--   Ebics.Responses      painfree/ebics3/responses.py over the element trees of Ebics.Xml: parsing a
--                        response, both of its codes, raise_for_status. What an exception class raises
--                        is a constructor of Ebics.Errors.
--   Ebics.Segments       split_segments of painfree/ebics3/transaction.py.
--   Ebics.Transaction    the classes of painfree/ebics3/transaction.py. A method is a function from the
--                        object to its result and the object that it leaves, also when it raises. Feed is
--                        the part that both directions share. Upload.run_upload is the loop of
--                        UploadWorker._upload, Download.run_download that of
--                        BankDownloader._download with unpack of painfree/statements.py in
--                        Download.Unpack, Upload.posted the requests of the upload loop also
--                        when it does not end; the bank is a function from the number of an exchange
--                        to its answer.
--   Schemes.Profiles     Code, SchemeProfile and SchemeProfiles of painfree/schemes.py.
--   Schemes.Resolve      resolve and its helpers; what it raises is a value of Attempted.
--   Orders.Rows          the tables payment_order and payment_attempt of painfree/schema.py, with the
--                        columns that the queue works on, and the audit log without its details.
--   Orders.Queue         OrderQueue of painfree/queue.py: claim here, the outcomes in Queue.Outcomes and
--                        fall_back in Queue.Fallback. A statement is an update or a query of a list of
--                        rows, and the candidate of a claim is the row with the least number.
--   Orders.Submission    _find, _insert and _replay of OrderStore in painfree/orders.py, with the unique
--                        constraints of the two tables.
--   Orders.Replay        OrderStore.replay of painfree/orders.py, over the row that it read before.
--   Orders.Worker        UploadWorker._deliver, from the way that the upload ended.
--   Orders.History       any sequence of claims, openings, deliveries, replays and status reports, by any
--                        number of workers, one statement after the other, as the database runs them.
--                        A delivery may come from a claim whose lease lapsed long before, and a
--                        replay may write long after it read the row.
--   Reconcile.Codes      STATUS_CODES of painfree/reconcile.py and what a code makes of an order.
--   Reconcile.Reports    the part of a pain.002 that is read, with the keys of painfree/pain002.py.
--   Reconcile.Decide     resolve and its helpers: a report to a StatusOutcome.
--   Reconcile.Apply      StatusReconciler: order_for, reconcile with its four endings, and replay, over the
--                        tables of Orders.Rows.
--   Reconcile.Verdicts   a state machine of where an order stands under reports, the abstract view.
--   Reconcile.Reading    reading and Reading of painfree/reconcile.py: the answer for one transfer.
--   Cron.Calendar        the month, day and weekday of a datetime in UTC, counted from the epoch.
--   Cron.Expressions     parse, _field and _number of painfree/cron.py.
--   Cron.Search          Cron.matches and Cron.next_after.
--   Webhooks.Rows        the tables webhook_delivery and webhook_subscription of painfree/schema.py.
--   Webhooks.FanOut      fan_out, live_subscriptions and delivery_rows of painfree/webhooks.py.
--   Webhooks.Dispatch    the claim of WebhookDispatcher in painfree/dispatcher.py.
--   Webhooks.Finish      _deliver after the POST: _delivered, _retry_later, _subscription_failed.
--   Webhooks.Manage      set_enabled, resume and enqueue_ping of painfree/webhooks.py, redeliver of
--                        painfree/redelivery.py.
--   Webhooks.Steps       any sequence of these, one transaction after the other; redeliver and a finish
--                        after the lease lapsed are not among the steps.
--   Schedules.Rows       the tables download_schedule and download_run, with dates as day numbers.
--   Schedules.Claim      Schedule.window and DownloadSchedules.claim of painfree/schedule.py.
--   Schedules.Finish     DownloadSchedules.finished and _next_due; the random number is an argument.
--   Schedules.Manage     run_now, refetch and set_enabled.
--   Schedules.Steps      any sequence of these, with the claims whose runs have not ended.
--   Sps                  painfree/sps.py: check digits, accounts, references, amounts, and their rules.
--   Examples             tests, and the theorems at concrete inputs.
--
-- Bounds and fuel. The exchange loops run on fuel; the theorems on uploads and downloads give the
-- amount, one step more than there are segments to send or to fetch, and state that the run ends. The
-- search for a next run has fuel for every minute of its horizon and one more, which every round uses
-- at least one of. Numbers of the program are natural numbers without a bound, as Python's are, and
-- integers where the sign matters. An instant is a number of microseconds; the lease is subtracted
-- from it, and stops at zero there, which changes no comparison with an instant. Recursion in a table
-- or a text is structural.
--
-- Not modelled. Base64, encryption, signatures, the schema check of a refused request, the reading of
-- an ISO date and the answer of a webhook endpoint are parameters, as are zipfile and the storing of downloaded documents. Building and serialising requests
-- and documents, the HTTP transport, log lines, the details of audit entries, storage of profiles as
-- JSON and the summaries for display are left out; in Sps a failure has its location and rule but not
-- its sentence, and texts are ASCII, as in Cron; describe in painfree/cron.py only formats. Of the
-- webhooks, registration, rotation of secrets, deletion, sending an order again, the envelope and its
-- signature are left out. The checks in front of the insert of an order, the registration and edit of
-- a schedule, returns, access and the keys are not modelled either.
mod Prelude
pub mod Ebics
pub mod Schemes
pub mod Orders
pub mod Sps
mod Examples
pub mod Reconcile
pub mod Cron
pub mod Webhooks
pub mod Schedules
