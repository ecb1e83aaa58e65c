-- ===== src/Orders.antt =====
-- An accepted payment order on its way to the bank: its rows, the queue that the workers share, and
-- the worker. painfree/orders.py, painfree/attempts.py, painfree/queue.py, painfree/worker.py.
pub mod Rows
pub mod Queue
pub mod Replay
pub mod Submission
pub mod Worker
pub mod History
