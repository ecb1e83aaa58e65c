-- ===== src/Orders/History.antt =====
-- What happens to the orders of one database, as a sequence of events: the statements of the workers and
-- of the operator, in the order in which the database runs them.
pub mod WellFormed
pub mod Reported
pub mod Promotion
pub mod Changes
pub mod Promoted
pub mod Reachable
pub mod Keeps
pub mod Exclusive
pub mod Recorded
pub mod Retries
pub mod Justified
pub mod Accepted
pub mod Inserted
pub mod SameMessage
use painfree_ebics_middlewar.Prelude.{ℕ, Text, Option, List, [], ◌∷◌}
use painfree_ebics_middlewar.Schemes.Profiles.{SchemeProfiles}
use painfree_ebics_middlewar.Orders.Rows.{OrderRow, Store}
use painfree_ebics_middlewar.Orders.Queue.{ClaimedOrder, claim_lease, claim}
use painfree_ebics_middlewar.Orders.Queue.Outcomes.{opened}
use painfree_ebics_middlewar.Orders.Replay.{replay}
use painfree_ebics_middlewar.Reconcile.Reports.{StatusReport}
use painfree_ebics_middlewar.Reconcile.Apply.{reconcile}
use painfree_ebics_middlewar.Orders.Worker.{UploadEnd, deliver}

-- A worker claims; a worker writes down the transaction that the bank opened; a worker, at the end of
-- an upload of what it claimed, possibly long ago, records the outcome; an operator replays an order,
-- as it was seen possibly long ago; a status report is stored and applied.
pub data Event : Type 0 where
  claims : (worker : Text) → (now : ℕ) → Event
  opens : (order_id : Text) → (transaction_id bank_order_id : Option Text) → (now : ℕ) → Event
  delivers :
      (profiles : SchemeProfiles) → (claimed : ClaimedOrder) → (end : UploadEnd) → (now : ℕ) → Event
  replays : (order_id : Text) → (seen : Option OrderRow) → (now : ℕ) → Event
  reports :
      (connection_id : Text)
      → (order_id : Option Text) → (report : StatusReport) → (now : ℕ) → Event

module _ (schema_failures : Text → List Text) (datetime_utc : Text → Option ℕ) where
  unfoldable pub perform : Event → Store → Store
  perform (claims worker now) s = (claim worker now claim_lease s).1
  perform (opens id transaction_id bank_order_id now) s =
      opened id transaction_id bank_order_id now s
  perform (delivers profiles claimed end now) s =
      (deliver schema_failures profiles now claimed end s).1
  perform (replays id seen now) s = (replay id seen now s).1
  perform (reports connection_id order_id report now) s =
      (reconcile datetime_utc connection_id order_id report now s).1

  abbrev pub run : List Event → Store → Store
  run [] s = s
  run (e ∷ es) s = run es (perform e s)
