-- ===== src/Consumer/Raw.antt =====
-- crates/carriage/src/consumer.rs: `RawByteConsumer`, which reads through the raw bytes.
use open_ot_experiments.Prelude.{ℕ, List, ok, ◌>>=◌}
use open_ot_experiments.Control.{ControlBlockSnapshot}
use open_ot_experiments.Ring.{read_raw_from, read_raw_from_snapshot}
use open_ot_experiments.Ring.Types.{RingBuffer, ReadBatch, RingResult, default_buffer_id}
use open_ot_experiments.Loss.{LossEvent, LossTracker, new_tracker, delivered, lost}
use open_ot_experiments.Loss.Events.{loss_events}
use open_ot_experiments.Consumer.{account_reads}

pub record RawByteConsumer : Type 0 where
  pub cursor_abs : ℕ
  pub tracker : LossTracker

unfoldable pub with_buffer_id : ℕ → RawByteConsumer
with_buffer_id buffer_id = record { cursor_abs = 0; tracker = new_tracker buffer_id }

unfoldable pub new : RawByteConsumer
new = with_buffer_id default_buffer_id

unfoldable pub account_batch : RawByteConsumer → ReadBatch → RawByteConsumer
account_batch c batch = record {
  cursor_abs = batch.next_abs;
  tracker = account_reads c.tracker batch.records;
}

-- The batch and the consumer after it; on an error the consumer stays as it was.
unfoldable pub poll : RawByteConsumer → RingBuffer → RingResult (ReadBatch × RawByteConsumer)
poll c ring = do batch ← read_raw_from ring c.cursor_abs; ok (batch, account_batch c batch)

unfoldable pub poll_snapshot :
    RawByteConsumer → RingBuffer → ControlBlockSnapshot → RingResult (ReadBatch × RawByteConsumer)
poll_snapshot c ring snapshot = do
  batch ← read_raw_from_snapshot ring c.cursor_abs snapshot
  ok (batch, account_batch c batch)

unfoldable pub delivered_in_run : RawByteConsumer → ℕ → ℕ → ℕ
delivered_in_run c run_id source_id = delivered c.tracker run_id source_id

unfoldable pub lost_in_run : RawByteConsumer → ℕ → ℕ → ℕ
lost_in_run c run_id source_id = lost c.tracker run_id source_id

unfoldable pub all_loss_events : RawByteConsumer → List LossEvent
all_loss_events c = loss_events c.tracker
