-- ===== src/Consumer/Indexed.antt =====
-- crates/carriage/src/consumer.rs: `LossAccountingConsumer`, which reads through the ring's index.
use open_ot_experiments.Prelude.{ℕ, List, ok, ◌>>=◌}
use open_ot_experiments.Ring.{read_from}
use open_ot_experiments.Ring.Types.{RingBuffer, ReadBatch, RingResult, default_buffer_id}
use open_ot_experiments.Loss.{LossEvent, LossTracker, new_tracker, delivered, lost}
use open_ot_experiments.Loss.Events.{loss_events}
use open_ot_experiments.Consumer.{account_reads}

pub record LossAccountingConsumer : Type 0 where
  pub cursor_abs : ℕ
  pub tracker : LossTracker

unfoldable pub with_buffer_id : ℕ → LossAccountingConsumer
with_buffer_id buffer_id = record { cursor_abs = 0; tracker = new_tracker buffer_id }

unfoldable pub new : LossAccountingConsumer
new = with_buffer_id default_buffer_id

unfoldable pub account_batch : LossAccountingConsumer → ReadBatch → LossAccountingConsumer
account_batch c batch = record {
  cursor_abs = batch.next_abs;
  tracker = account_reads c.tracker batch.records;
}

-- The batch and the consumer after it; on an error the consumer stays as it was.
unfoldable pub poll :
    LossAccountingConsumer → RingBuffer → RingResult (ReadBatch × LossAccountingConsumer)
poll c ring = do batch ← read_from ring c.cursor_abs; ok (batch, account_batch c batch)

unfoldable pub delivered_in_run : LossAccountingConsumer → ℕ → ℕ → ℕ
delivered_in_run c run_id source_id = delivered c.tracker run_id source_id

unfoldable pub lost_in_run : LossAccountingConsumer → ℕ → ℕ → ℕ
lost_in_run c run_id source_id = lost c.tracker run_id source_id

unfoldable pub all_loss_events : LossAccountingConsumer → List LossEvent
all_loss_events c = loss_events c.tracker

-- `delivered` and `lost`, of run 1.
unfoldable pub delivered_in_first_run : LossAccountingConsumer → ℕ → ℕ
delivered_in_first_run c source_id = delivered_in_run c 1 source_id

unfoldable pub lost_in_first_run : LossAccountingConsumer → ℕ → ℕ
lost_in_first_run c source_id = lost_in_run c 1 source_id
