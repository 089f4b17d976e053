-- ===== src/Consumer.antt =====
-- crates/carriage/src/consumer.rs: what the two reading consumers share.
pub mod Indexed
pub mod Raw
pub mod Exact
mod Tests
use open_ot_experiments.Prelude.{List, [], ◌∷◌}
use open_ot_experiments.Ring.Types.{ReadRecord}
use open_ot_experiments.Loss.{LossTracker, account}

-- `self.tracker.account(&read.record)` for each record of a batch.
unfoldable pub account_reads : LossTracker → List ReadRecord → LossTracker
account_reads t [] = t
account_reads t (r ∷ records) = account_reads (account t r.value) records
