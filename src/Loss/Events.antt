-- ===== src/Loss/Events.antt =====
-- crates/carriage/src/loss.rs: `loss_events`, the events in order.
use open_ot_experiments.Prelude.{Bool, ◌&&◌, ◌||◌, List, [], ◌∷◌, ltb, leb, ◌==◌, if◌then◌else◌}
use open_ot_experiments.Loss.{LossEvent, LossTracker}

-- The order of the keys `(buffer_id, run_id, source_id, first_seq, last_seq)`.
unfoldable pub key_le : LossEvent → LossEvent → Bool
key_le e f =
    ltb e.buffer_id f.buffer_id
    || (e.buffer_id == f.buffer_id
        && (ltb e.run_id f.run_id
            || (e.run_id == f.run_id
                && (ltb e.source_id f.source_id
                    || (e.source_id == f.source_id
                        && (ltb e.first_seq f.first_seq
                            || (e.first_seq == f.first_seq && leb e.last_seq f.last_seq)))))))

unfoldable pub insert_by_key : LossEvent → List LossEvent → List LossEvent
insert_by_key e [] = e ∷ []
insert_by_key e (f ∷ events) = if key_le e f then e ∷ f ∷ events else f ∷ insert_by_key e events

unfoldable pub sort_by_key : List LossEvent → List LossEvent
sort_by_key [] = []
sort_by_key (e ∷ events) = insert_by_key e (sort_by_key events)

unfoldable pub loss_events : LossTracker → List LossEvent
loss_events t = sort_by_key t.loss_events
