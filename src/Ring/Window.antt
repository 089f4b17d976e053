-- ===== src/Ring/Window.antt =====
-- crates/carriage/src/ring.rs: `read_raw_window` on any bytes, against a writer that may advance
-- `OldestAbs` while it reads.
use open_ot_experiments.Prelude.{
  ℕ, zero, suc, ◌+◌, ◌-◌, ◌%◌, ◌^◌, ◌≤◌, ◌<◌, ◌≡◌, ◌≢◌, ◌⊎◌, inl, inr, refl, ap, ◌∙◌, List, [], ◌∷◌,
  true, ok, stuck, arith, length, get_or, slice, ltb, ◌==◌, if◌then◌else◌, add64, ◌>>=◌, ◌>>◌,
  >>=-eq-ok, ensure, ensure-eq-ok, >>=-eq-stuck, ensure-ne-stuck, from_le_bytes, Bool-cases, not,
  ltb→lt, max, ◌&&◌, Bool,
}
use native.Mathlib.Numerals.{add-one}
use mathlib.Core.Path.{subst}
use native.Mathlib.Nat.{mod-lt, mod-eq_of_lt}
use open_ot_experiments.Wire.{DecodedRecord}
use open_ot_experiments.Wire.Total.{decode-ne-stuck}
use open_ot_experiments.Ring.{read_raw_loop, read_raw_window, read_raw_record}
use open_ot_experiments.Ring.Types.{ReadRecord, ReadBatch, RingResult, overwritten_mid_read}

-- The `n`th and later calls of the closure found the records' starts not yet reclaimed, and the
-- records start between `lo` and `hi`.
abbrev pub Fresh : (ℕ → ℕ) → ℕ → ℕ → ℕ → List ReadRecord → Type 0
Fresh oldest_after n lo hi [] = Unit {0}
Fresh oldest_after n lo hi (r ∷ rs) =
    (oldest_after n ≤ r.start_abs)
    × (lo ≤ r.start_abs)
    × (r.start_abs < hi)
    × Fresh oldest_after (suc n) lo hi rs

pub read_raw_record-ne-stuck : (bytes : List ℕ) (abs : ℕ) → read_raw_record bytes abs ≢ stuck
unfolding read_raw_record
read_raw_record-ne-stuck bytes abs e =
    let phys = abs % length bytes in
    let n = from_le_bytes (slice bytes (phys + 4) (phys + 4 + 2)) in
    ground (arith, decode-ne-stuck (slice bytes phys (phys + n)))

read_raw_record_len :
    (bytes : List ℕ) (abs : ℕ) {d : DecodedRecord} {n : ℕ}
    → read_raw_record bytes abs ≡ ok (d, n)
    → (40 ≤ n) × (n ≤ length bytes)
unfolding read_raw_record
read_raw_record_len bytes abs h = ground arith

module _ (bytes : List ℕ) (head first_oldest : ℕ) (oldest_after : ℕ → ℕ) (pos : 0 < length bytes)
    (small : head + length bytes < 2 ^ 64) where
  abbrev walk : ℕ → ℕ → ℕ → RingResult (List ReadRecord × ℕ)
  walk fuel calls abs = read_raw_loop fuel bytes head first_oldest oldest_after calls abs

  -- The delivering round, taken apart.
  record Delivered (fuel calls abs : ℕ) (records : List ReadRecord) (calls' : ℕ) : Type 0 where
    first : ReadRecord
    rest : List ReadRecord
    first_at : first.start_abs ≡ abs
    all : records ≡ first ∷ rest
    checked : oldest_after calls ≤ abs
    next : ℕ
    forward : abs < next
    later : walk fuel (calls + 1) next ≡ ok (rest, calls')

  -- The branch of the loop that delivers.
  abbrev deliver : ℕ → ℕ → ℕ → RingResult (List ReadRecord × ℕ)
  deliver fuel calls abs = do
    (d, total_len) ← read_raw_record bytes abs
    ensure (not (ltb abs (oldest_after calls))) (overwritten_mid_read abs (oldest_after calls))
    (rest, calls'') ← walk fuel (calls + 1) (add64 abs total_len)
    ok (
      record { start_abs = abs; end_abs = add64 abs d.consumed; value = d.decoded } ∷ rest,
      calls'',
    )

  delivered :
      (fuel calls abs : ℕ) {records : List ReadRecord} {calls' : ℕ}
      → abs < head
      → deliver fuel calls abs ≡ ok (records, calls')
      → Delivered fuel calls abs records calls'
  delivered fuel calls abs {calls' = calls'} inside h =
      let ((d, n), e, h1) = >>=-eq-ok (read_raw_record bytes abs) _ h in
      let (large, fits) = read_raw_record_len bytes abs e in
      let stale = overwritten_mid_read abs (oldest_after calls) in
      let (_, ok1, h2) = >>=-eq-ok (ensure (not (ltb abs (oldest_after calls))) stale) _ h1 in
      let ((rest, calls''), later, h3) = >>=-eq-ok (walk fuel (calls + 1) (add64 abs n)) _ h2 in
      let passed = ensure-eq-ok _ stale ok1 in
      let next : add64 abs n ≡ abs + n = mod-eq_of_lt (omega arith) in
      let same : calls'' ≡ calls' = cc in
      record {
        first = record { start_abs = abs; end_abs = add64 abs d.consumed; value = d.decoded };
        rest = rest;
        first_at = refl;
        all = cc;
        checked = ground arith;
        next = abs + n;
        forward = omega arith;
        later = rw (← next) (later ∙ ap (λ (c : ℕ). ok (rest, c)) same);
      }

  -- What one round does: it ends, or goes on behind a wrap marker, or delivers a record.
  round_cases :
      (fuel calls abs : ℕ) {records : List ReadRecord} {calls' : ℕ}
      → walk (suc fuel) calls abs ≡ ok (records, calls')
      → abs < head
      → ((next : ℕ) × (abs < next) × (walk fuel calls next ≡ ok (records, calls')))
        ⊎ Delivered fuel calls abs records calls'
  unfolding read_raw_loop
  round_cases fuel calls abs {records} {calls'} h inside =
      let phys = abs % length bytes in
      let below = mod-lt abs pos in
      let more : ltb abs head ≡ true = ground arith in
      let h1 = rw more at h in
      elim (Bool-cases (ltb abs first_oldest)) [
        | inl old ↦ let bad = rw old at h1 in cc
        | inr fresh ↦
            let h2 = rw fresh at h1 in
            elim (Bool-cases (get_or bytes phys 0 == 0)) [
              | inl marker ↦
                  let h3 = rw marker at h2 in
                  elim (Bool-cases (phys == 0)) [
                    | inl front ↦ let bad = rw front at h3 in cc
                    | inr inner ↦
                        let next : add64 abs (length bytes - phys) ≡ abs + (length bytes - phys) =
                          mod-eq_of_lt (omega arith) in
                        inl (abs + (length bytes - phys), omega arith, rw (inner, next) at h3)
                  ]
              | inr sync ↦ inr (delivered fuel calls abs inside (rw sync at h2))
            ]
      ]

  Fresh-nil :
      (calls lo : ℕ) {records : List ReadRecord} {calls' : ℕ}
      → ◌≡◌ {A = RingResult (List ReadRecord × ℕ)} (ok ([], calls)) (ok (records, calls'))
      → Fresh oldest_after calls lo head records × (calls' ≡ calls + length records)
  Fresh-nil calls lo {records} h = let e : records ≡ [] = cc in rw e (tt, ground arith)

  -- Every record of the loop's result passed its check, and the calls were counted.
  read_raw_loop-Fresh :
      (fuel calls abs lo : ℕ) {records : List ReadRecord} {calls' : ℕ}
      → walk fuel calls abs ≡ ok (records, calls')
      → lo ≤ abs
      → Fresh oldest_after calls lo head records × (calls' ≡ calls + length records)
  unfolding read_raw_loop
  read_raw_loop-Fresh zero calls abs lo {records} h l = elim (Bool-cases (ltb abs head)) [
    | inl more ↦ let bad = rw more at h in cc
    | inr done ↦ Fresh-nil calls lo (rw done at h)
  ]
  read_raw_loop-Fresh (suc fuel) calls abs lo {records} {calls'} h l =
      elim (Bool-cases (ltb abs head)) [
        | inr done ↦ Fresh-nil calls lo (rw done at h)
        | inl more ↦ elim (round_cases fuel calls abs h (ltb→lt abs head more)) [
          | inl (next, forward, later) ↦ read_raw_loop-Fresh fuel calls next lo later (omega arith)
          | inr d ↦
              let (fresh, counted) =
                read_raw_loop-Fresh fuel (calls + 1) d.next lo d.later (omega (arith, d.forward)) in
              (
                rw d.all (
                  omega (arith, d.checked, d.first_at),
                  omega (arith, d.first_at),
                  omega (arith, d.first_at, ltb→lt abs head more),
                  subst (λ n. Fresh oldest_after n lo head d.rest) (add-one calls) fresh,
                ),
                rw d.all (omega (arith, counted)),
              )
        ]
      ]

  -- A delivering round is stuck only if the rest is.
  deliver-ne-stuck :
      (fuel calls abs : ℕ)
      → abs < head
      → ((next : ℕ) → abs < next → walk fuel (calls + 1) next ≢ stuck)
      → deliver fuel calls abs ≢ stuck
  deliver-ne-stuck fuel calls abs inside later h =
      elim (>>=-eq-stuck (read_raw_record bytes abs) _ h) [
        | inl e ↦ read_raw_record-ne-stuck bytes abs e
        | inr ((d, n), e, h1) ↦
            let (large, fits) = read_raw_record_len bytes abs e in
            let next : add64 abs n ≡ abs + n = mod-eq_of_lt (omega arith) in
            elim (>>=-eq-stuck
              (ensure (not (ltb abs (oldest_after calls)))
                (overwritten_mid_read abs (oldest_after calls)))
              _ h1) [
                | inl e' ↦ ensure-ne-stuck _ _ e'
                | inr (_, _, h2) ↦ elim (>>=-eq-stuck (walk fuel (calls + 1) (add64 abs n)) _ h2) [
                  | inl e' ↦ later (abs + n) (omega arith) (rw next at e')
                  | inr (_, _, bad) ↦ cc
                ]
              ]
      ]

  -- With the bytes up to the head as fuel the loop ends.
  read_raw_loop-ne-stuck : (fuel calls abs : ℕ) → head ≤ abs + fuel → walk fuel calls abs ≢ stuck
  unfolding read_raw_loop
  read_raw_loop-ne-stuck zero calls abs h e = ground arith
  read_raw_loop-ne-stuck (suc fuel) calls abs h e =
      let phys = abs % length bytes in
      let below = mod-lt abs pos in
      let skip = add64 abs (length bytes - phys) in
      let deliver_on = λ (inside : abs < head).
        deliver-ne-stuck fuel calls abs inside
          (λ next forward. read_raw_loop-ne-stuck fuel (calls + 1) next (omega arith)) in
      elim (Bool-cases (ltb abs head)) [
        | inr done ↦ let bad = rw done at e in cc
        | inl more ↦
            let inside = ltb→lt abs head more in
            let next : skip ≡ abs + (length bytes - phys) = mod-eq_of_lt (omega arith) in
            ground (arith, deliver_on inside, read_raw_loop-ne-stuck fuel calls skip (omega arith))
      ]

ap_records :
    {records : List ReadRecord} {head : ℕ} {lapped : Bool} {batch : ReadBatch}
    → ◌≡◌ {A = RingResult ReadBatch}
        (ok (record { records = records; next_abs = head; lapped = lapped }))
        (ok batch)
    → batch.records ≡ records
ap_records h = ground arith

module _ (bytes : List ℕ) (cursor head first_oldest : ℕ) (oldest_after : ℕ → ℕ)
    (pos : 0 < length bytes) (small : head + length bytes < 2 ^ 64) where
  -- Whatever the bytes, and however the writer advances `OldestAbs` meanwhile, the walk ends: it
  -- returns a batch or an error. The pool is not empty, and the head, with one lap, is below 2^64.
  pub read_raw_window-ne-stuck : read_raw_window bytes cursor head first_oldest oldest_after ≢ stuck
  unfolding read_raw_window
  read_raw_window-ne-stuck h =
      let abs = if ltb cursor first_oldest then first_oldest else cursor in
      elim (>>=-eq-stuck (read_raw_loop (head - abs) bytes head first_oldest oldest_after 0 abs) _
        h) [
          | inl e ↦
              read_raw_loop-ne-stuck bytes head first_oldest oldest_after pos small (head - abs) 0
                abs (omega arith) e
          | inr ((records, calls), _, h1) ↦
              elim (>>=-eq-stuck
                (ensure
                  (not
                    (not (oldest_after calls == first_oldest) && ltb cursor (oldest_after calls)))
                  (overwritten_mid_read cursor (oldest_after calls)))
                _ h1) [ inl e ↦ ensure-ne-stuck _ _ e | inr (_, _, bad) ↦ cc ]
        ]

  -- What the walk accepts starts inside the window, at or after the oldest byte that was observed
  -- behind the record, so no delivered record had been reclaimed when its bytes were read; and the
  -- last observation had not passed the cursor, or is the first. The pool is not empty, and the
  -- head, with one lap, is below 2^64.
  pub read_raw_window_safe :
      {batch : ReadBatch}
      → read_raw_window bytes cursor head first_oldest oldest_after ≡ ok batch
      → Fresh oldest_after 0 (max cursor first_oldest) head batch.records
        × (batch.next_abs ≡ head)
        × (batch.lapped ≡ ltb cursor first_oldest)
        × ((oldest_after (length batch.records) ≡ first_oldest)
            ⊎ (oldest_after (length batch.records) ≤ cursor))
  unfolding read_raw_window
  read_raw_window_safe {batch} h =
      let abs = if ltb cursor first_oldest then first_oldest else cursor in
      let from : max cursor first_oldest ≡ abs = ground arith in
      let ((records, calls), walked, h1) =
        >>=-eq-ok (read_raw_loop (head - abs) bytes head first_oldest oldest_after 0 abs) _ h in
      let (fresh, counted) =
        read_raw_loop-Fresh bytes head first_oldest oldest_after pos small (head - abs) 0 abs abs
          walked (omega arith) in
      let late = overwritten_mid_read cursor (oldest_after calls) in
      let (_, passed, h2) =
        >>=-eq-ok
          (ensure
            (not (not (oldest_after calls == first_oldest) && ltb cursor (oldest_after calls)))
            late)
          _ h1 in
      let same : batch.records ≡ records = ap_records h2 in
      let count : calls ≡ length batch.records = rw same (omega arith) in
      (
        rw (from, same) fresh,
        ground arith,
        ground arith,
        rw (← count) (ground (arith, ensure-eq-ok _ late passed)),
      )
