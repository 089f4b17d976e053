-- ===== src/Loss/Report.antt =====
-- crates/carriage/src/loss.rs: the report of a range of dropped records, written and read back.
use open_ot_experiments.Prelude.{
  ℕ, ◌+◌, ◌-◌, ◌%◌, ◌≤◌, ◌<◌, ◌^◌, ◌≡◌, refl, ap, ◌∙◌, false, List, [], ◌∷◌, none, some, arith, ltb,
  ◌==◌, if◌then◌else◌, Bool-cases, inl, inr, add64, bit_and, ltb→lt, ==_refl, length, from_le_bytes,
  to_le_bytes, from_le_bytes-to_le_bytes, length-to_le_bytes,
}
use native.Mathlib.Nat.{mod-eq_of_lt}
use open_ot_experiments.Registry.{
  key_dropped_count, key_first_lost_seq, key_last_lost_seq, ty_udint, ty_ulint,
}
use open_ot_experiments.Wire.{Record, new_record, flag_synthetic}
use open_ot_experiments.Ring.Types.{LossRange, range_count}
use open_ot_experiments.Loss.{
  Dropped, parse_records_dropped, records_dropped_record, dropped_event, dropped_slots,
}

-- The three slots of a report, with any payloads of the right lengths.
dropped_slots-report :
    (a b c : List ℕ) (d : Dropped)
    → length a ≡ 4
    → length b ≡ 8
    → length c ≡ 8
    → dropped_slots
        (record { key = key_dropped_count; ty = ty_udint; payload = a }
          ∷ record { key = key_first_lost_seq; ty = ty_ulint; payload = b }
          ∷ record { key = key_last_lost_seq; ty = ty_ulint; payload = c }
          ∷ [])
        d
      ≡ record {
        count = some (from_le_bytes a);
        first = some (from_le_bytes b);
        last = some (from_le_bytes c);
      }
unfolding dropped_slots
dropped_slots-report a b c d h k l = rw (h, k, l)

range_count-eq :
    (range : LossRange)
    → range.first_seq ≤ range.last_seq
    → range.last_seq < 2 ^ 64 - 1
    → range_count range ≡ range.last_seq - range.first_seq + 1
unfolding range_count
range_count-eq range h w = omega arith

dropped_event-report :
    (r : Record) (buffer first last : ℕ)
    → first ≤ last
    → last < 2 ^ 64 - 1
    → bit_and r.flags flag_synthetic ≡ 0
    → dropped_event r buffer (some first) (some last) (some ((last - first + 1) % 2 ^ 32)) ≡ (
        if ltb (last - first + 1) (2 ^ 32)
        then some (record {
          buffer_id = buffer;
          run_id = r.run_id;
          source_id = r.source_id;
          first_seq = first;
          last_seq = last;
          count = last - first + 1;
          synthetic = false;
        })
        else none)
unfolding dropped_event
dropped_event-report r buffer first last h w f =
    let ordered : ltb last first ≡ false = ground arith in
    let count : add64 (last - first) 1 ≡ last - first + 1 = mod-eq_of_lt (omega arith) in
    elim (Bool-cases (ltb (last - first + 1) (2 ^ 32))) [
      | inl t ↦
          let m : (last - first + 1) % 2 ^ 32 ≡ last - first + 1 =
            mod-eq_of_lt (ltb→lt (last - first + 1) (2 ^ 32) t) in
          rw (t, ordered, count, m, ==_refl (last - first + 1), f)
      | inr n ↦
          let below : (last - first + 1) % 2 ^ 32 < 2 ^ 32 = omega arith in
          let other : ((last - first + 1) % 2 ^ 32 == last - first + 1) ≡ false = ground arith in
          rw (n, ordered, count, other)
    ]

-- A producer's report of a range reads back as the range, not synthetic, if it holds fewer than
-- 2^32 records, and is refused if it holds more, since the count is cut to 32 bits; for a range
-- that is not empty and ends below 2^64 - 1.
pub parse_records_dropped-report :
    (seq buffer : ℕ) (range : LossRange)
    → range.first_seq ≤ range.last_seq
    → range.last_seq < 2 ^ 64 - 1
    → parse_records_dropped (records_dropped_record seq range) buffer ≡ (
        if ltb (range.last_seq - range.first_seq + 1) (2 ^ 32)
        then some (record {
          buffer_id = buffer;
          run_id = range.run_id;
          source_id = range.source_id;
          first_seq = range.first_seq;
          last_seq = range.last_seq;
          count = range.last_seq - range.first_seq + 1;
          synthetic = false;
        })
        else none)
unfolding parse_records_dropped records_dropped_record new_record
parse_records_dropped-report seq buffer range h w =
    let r = records_dropped_record seq range in
    let n : from_le_bytes (to_le_bytes 4 (range_count range % 2 ^ 32))
        ≡ (range.last_seq - range.first_seq + 1) % 2 ^ 32 =
      from_le_bytes-to_le_bytes 4 (range_count range % 2 ^ 32) (omega arith)
      ∙ ap (λ x. x % 2 ^ 32) (range_count-eq range h w) in
    let first = from_le_bytes-to_le_bytes 8 range.first_seq (omega arith) in
    let last = from_le_bytes-to_le_bytes 8 range.last_seq (omega arith) in
    ap (λ d. dropped_event r buffer (Dropped.first d) (Dropped.last d) (Dropped.count d))
      (dropped_slots-report (to_le_bytes 4 (range_count range % 2 ^ 32))
        (to_le_bytes 8 range.first_seq) (to_le_bytes 8 range.last_seq)
        (record { count = none; first = none; last = none })
        (length-to_le_bytes 4 (range_count range % 2 ^ 32)) (length-to_le_bytes 8 range.first_seq)
        (length-to_le_bytes 8 range.last_seq))
    ∙ ap
        (λ x.
          dropped_event r buffer (some x) (some (from_le_bytes (to_le_bytes 8 range.last_seq)))
            (some (from_le_bytes (to_le_bytes 4 (range_count range % 2 ^ 32)))))
        first
    ∙ ap
        (λ x.
          dropped_event r buffer (some range.first_seq) (some x)
            (some (from_le_bytes (to_le_bytes 4 (range_count range % 2 ^ 32)))))
        last
    ∙ ap (λ x. dropped_event r buffer (some range.first_seq) (some range.last_seq) (some x)) n
    ∙ dropped_event-report r buffer range.first_seq range.last_seq h w refl
