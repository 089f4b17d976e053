-- ===== src/Consumer/Exact.antt =====
-- crates/carriage/src/consumer.rs: what a new consumer counts on its first poll of a ring.
use open_ot_experiments.Prelude.{
  ℕ, ◌%◌, ◌<◌, ◌^◌, ◌-◌, ◌≡◌, refl, ap, ◌∙◌, sym, false, List, [], ◌∷◌, ◌++◌, none, All, length, ok,
  ◌+◌, ◌&&◌, ◌==◌, if◌then◌else◌,
}
use mathlib.Core.Path.{subst}
use open_ot_experiments.Registry.{event_records_dropped}
use open_ot_experiments.Wire.{Record}
use open_ot_experiments.Ring.Types.{RingBuffer, ReadRecord, ReadBatch}
use open_ot_experiments.Ring.Run.{Run, Run-reads}
use open_ot_experiments.Ring.Read.{values, as_read, all_as_read}
use open_ot_experiments.Loss.{
  LossTracker, account, new_tracker, parse_records_dropped, delivered, lost,
}
use open_ot_experiments.Loss.Balance.{account_each}
use open_ot_experiments.Loss.Numbered.{count_of, Numbered, Numbered-append, new_tracker-counts}
use open_ot_experiments.Consumer.{account_reads}
use open_ot_experiments.Consumer.Raw.{
  RawByteConsumer, with_buffer_id, poll, account_batch, delivered_in_run, lost_in_run,
}

-- A record that is no report of dropped records, and whose number the tracker can count on from.
pub record IsData (x : Record) : Type 0 where
  pub no_report : (x.event_type_id == event_records_dropped) ≡ false
  pub below : x.seq < 2 ^ 64 - 1

account_reads-values :
    (t : LossTracker) (records : List ReadRecord)
    → account_reads t records ≡ account_each t (values records)
unfolding account_reads account_each
account_reads-values t [] = refl
account_reads-values t (r ∷ records) = account_reads-values (account t r.value) records

All-tail : (P : Record → Type 0) (xs ys : List Record) → All P (xs ++ ys) → All P ys
All-tail P [] ys h = h
All-tail P (x ∷ xs) ys (p, h) = All-tail P xs ys h

count_of-as_read :
    (xs : List Record) (run source : ℕ)
    → count_of (all_as_read xs) run source ≡ count_of xs run source
unfolding count_of
count_of-as_read [] run source = refl
count_of-as_read (x ∷ xs) run source =
    ap (λ n. if x.run_id == run && x.source_id == source then n + 1 else n)
      (count_of-as_read xs run source)

all_as_read_append :
    (xs ys : List Record) → all_as_read (xs ++ ys) ≡ all_as_read xs ++ all_as_read ys
all_as_read_append [] ys = refl
all_as_read_append (x ∷ xs) ys = ap (λ l. as_read x ∷ l) (all_as_read_append xs ys)

Numbered-as_read :
    (before ks : List Record) → Numbered before ks → Numbered (all_as_read before) (all_as_read ks)
Numbered-as_read before [] h = tt
Numbered-as_read before (x ∷ ks) (p, h) = (
  p ∙ sym (count_of-as_read before x.run_id x.source_id),
  subst (λ l. Numbered l (all_as_read ks)) (all_as_read_append before (x ∷ []))
      (Numbered-as_read (before ++ x ∷ []) ks h),
)

below-as_read : (ks : List Record) → All IsData ks → All (λ x. x.seq < 2 ^ 64 - 1) (all_as_read ks)
below-as_read [] h = tt
below-as_read (x ∷ ks) (p, h) = (p.below, below-as_read ks h)

no_report-as_read :
    (buffer : ℕ) (ks : List Record)
    → All IsData ks
    → All (λ x. parse_records_dropped x buffer ≡ none) (all_as_read ks)
unfolding parse_records_dropped
no_report-as_read buffer [] h = tt
no_report-as_read buffer (x ∷ ks) (p, h) =
    let q = p.no_report in (rw q, no_report-as_read buffer ks h)

counts_at :
    (buffer : ℕ) (dropped kept : List Record) (records : List ReadRecord) (run source : ℕ)
    → values records ≡ all_as_read kept
    → All IsData kept
    → Numbered dropped kept
    → (delivered (account_reads (new_tracker buffer) records) run source ≡ count_of kept run source)
      × (lost (account_reads (new_tracker buffer) records) run source
          ≡ (if count_of kept run source == 0 then 0 else count_of dropped run source))
counts_at buffer dropped kept records run source same h n =
    let reads_at : account_reads (new_tracker buffer) records
        ≡ account_each (new_tracker buffer) (all_as_read kept) =
      account_reads-values (new_tracker buffer) records
      ∙ ap (account_each (new_tracker buffer)) same in
    let counted =
      new_tracker-counts buffer (all_as_read dropped) (all_as_read kept) run source
        (below-as_read kept h) (no_report-as_read buffer kept h)
        (Numbered-as_read dropped kept n) in
    let all_kept = count_of-as_read kept run source in
    let all_dropped = count_of-as_read dropped run source in
    rw (reads_at, ← all_kept, ← all_dropped) counted

-- The accounting of a new consumer is exact: on its first poll of a ring that writes reached from
-- a new one, it delivers the newest records in their order; of every source it counts the
-- delivered records as delivered, and as lost exactly those that the ring dropped, if it delivers
-- a record of the source, or else none. The records are numbered source by source from 0 and below
-- 2^64 - 1, none is a report of dropped records, their fields fit their widths, every write found
-- the head, with two laps, below 2^64, and the last head is below 2^64.
pub poll-exact :
    (buffer : ℕ) {pool : ℕ} {xs : List Record} {r : RingBuffer}
    → Run pool xs r
    → r.head_abs < 2 ^ 64
    → Numbered [] xs
    → All IsData xs
    → (dropped : List Record) × (kept : List Record) × (batch : ReadBatch) × (c : RawByteConsumer)
      × (xs ≡ dropped ++ kept)
      × (r.lost_count ≡ length dropped % 2 ^ 64)
      × (poll (with_buffer_id buffer) r ≡ ok (batch, c))
      × (values batch.records ≡ all_as_read kept)
      × (c.cursor_abs ≡ r.head_abs)
      × ((run source : ℕ)
          → (delivered_in_run c run source ≡ count_of kept run source)
            × (lost_in_run c run source
                ≡ (if count_of kept run source == 0 then 0 else count_of dropped run source)))
unfolding poll account_batch delivered_in_run lost_in_run with_buffer_id
poll-exact buffer {xs} {r} run small n h =
    let (dropped, kept, batch, split, counted, indexed, raw, same, next) = Run-reads run small in
    let numbered = Numbered-append [] dropped kept (subst (Numbered []) split n) in
    let data_ = All-tail IsData dropped kept (subst (All IsData) split h) in
    (
      dropped,
      kept,
      batch,
      account_batch (with_buffer_id buffer) batch,
      split,
      counted,
      rw raw,
      same,
      next,
      λ run source. counts_at buffer dropped kept batch.records run source same data_ numbered,
    )
