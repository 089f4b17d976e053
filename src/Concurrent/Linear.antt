-- ===== src/Concurrent/Linear.antt =====
-- crates/carriage/src/concurrent.rs: what `read_raw_from_store` accepts is what the ring held when
-- the head was loaded, whatever the producer stored meanwhile.
use open_ot_experiments.Prelude.{
  ℕ, zero, suc, ◌+◌, ◌-◌, ◌%◌, ◌^◌, ◌≤◌, ◌<◌, ◌≡◌, ◌≢◌, inl, inr, refl, ap, ap₂, ◌∙◌, sym, List, [],
  ◌∷◌, true, false, not, arith, length, get_or, ok, >>=-eq-ok, ensure, ensure-eq-ok, ltb, ◌==◌,
  if◌then◌else◌, Bool-cases, add64, ltb→lt, ok-injective, get_or-slice, max, ◌&&◌,
}
use native.Mathlib.Nat.{mod-lt, mod-eq_of_lt}
use open_ot_experiments.Wire.{Record, DecodedRecord}
use open_ot_experiments.Wire.RoundTrip.{encode_front}
use open_ot_experiments.Ring.Types.{
  RecordIndex, ReadRecord, ReadBatch, overwritten_mid_read, control_block_capacity_mismatch,
}
use open_ot_experiments.Ring.Stored.{adjacent, wrapped, Stored, Stored-le, Follows-le}
use open_ot_experiments.Ring.RawRead.{first_byte}
use open_ot_experiments.Ring.Read.{reads}
use open_ot_experiments.Concurrent.{ConcurrentRing}
use open_ot_experiments.Concurrent.Stable.{Stable}
use open_ot_experiments.Concurrent.Walk.{
  owned, owned_snapshot, capacity_u32, load_record, read_loop, read_raw_from_store,
}
use open_ot_experiments.Concurrent.Loads.{load_record-Loaded, load_record-Holds, since, oldest_mono}

-- One successful round: a wrap marker, or a record.
data Round (ring : ℕ → ConcurrentRing) (fuel head first at abs : ℕ) (records : List ReadRecord)
    (last : ℕ) : Type 0 where
  skipped :
      get_or (ring at).bytes (abs % length (ring 0).bytes) 0 ≡ 0
      → read_loop fuel
          (owned ring)
          head
          first
          (at + 1)
          (add64 abs (length (ring 0).bytes - abs % length (ring 0).bytes))
        ≡ ok (records, last)
      → Round ring fuel head first at abs records last
  delivered :
      (d : DecodedRecord) (n next : ℕ) (rest : List ReadRecord)
      → get_or (ring at).bytes (abs % length (ring 0).bytes) 0 ≢ 0
      → load_record (owned ring) (at + 1) abs ≡ ok (d, n, next)
      → read_loop fuel (owned ring) head first next (add64 abs n) ≡ ok (rest, last)
      → records
        ≡ record { start_abs = abs; end_abs = add64 abs d.consumed; value = d.decoded } ∷ rest
      → Round ring fuel head first at abs records last

read_loop-Round :
    (ring : ℕ → ConcurrentRing) (fuel head first at abs : ℕ) {records : List ReadRecord} {last : ℕ}
    → abs < head
    → read_loop (suc fuel) (owned ring) head first at abs ≡ ok (records, last)
    → Round ring fuel head first at abs records last
unfolding read_loop owned
read_loop-Round ring fuel head first at abs {records} {last} inside h =
    let cap = length (ring 0).bytes in
    let phys = abs % cap in
    let s = owned ring in
    let more : ltb abs head ≡ true = ground arith in
    let h1 = rw more at h in
    elim (Bool-cases (ltb abs first)) [
      | inl old ↦ let bad = rw old at h1 in cc
      | inr fresh ↦
          let h2 = rw fresh at h1 in
          elim (Bool-cases (get_or (ring at).bytes phys 0 == 0)) [
            | inl marker ↦
                let h3 = rw marker at h2 in
                elim (Bool-cases (phys == 0)) [
                  | inl front ↦ let bad = rw front at h3 in cc
                  | inr inner ↦ skipped (ground arith) (rw inner at h3)
                ]
            | inr sync ↦
                let ((d, n, next), loaded, h3) =
                  >>=-eq-ok (load_record s (at + 1) abs) _ (rw sync at h2) in
                let ((rest, last'), later, h4) =
                  >>=-eq-ok (read_loop fuel s head first next (add64 abs n)) _ h3 in
                let all = ok-injective h4 in
                delivered d n next rest (ground arith) loaded
                  (later ∙ ap (λ (l : ℕ). ok (rest, l)) (ap (λ p. p.1) all))
                  (sym (ap (λ p. p.0) all))
          ]
    ]

-- Loads only move on.
read_loop-le :
    (ring : ℕ → ConcurrentRing) (fuel head first at abs : ℕ) {records : List ReadRecord} {last : ℕ}
    → read_loop fuel (owned ring) head first at abs ≡ ok (records, last)
    → at ≤ last
unfolding read_loop
read_loop-le ring zero head first at abs h = ground arith
read_loop-le ring (suc fuel) head first at abs {records} {last} h =
    elim (Bool-cases (ltb abs head)) [
      | inr done ↦ let h' = rw done at h in ground arith
      | inl more ↦ elim (read_loop-Round ring fuel head first at abs (ltb→lt abs head more) h) [
        | skipped _ later ↦ omega (arith, read_loop-le ring fuel head first (at + 1) _ later)
        | delivered d n next rest _ loaded later _ ↦
            let l = load_record-Loaded ring (at + 1) abs loaded in
            omega (arith, l.next_at, read_loop-le ring fuel head first next _ later)
      ]
    ]

module _ (ring : ℕ → ConcurrentRing) (pos : 0 < length (ring 0).bytes)
    (trace : (n : ℕ) → Stable (ring n) (ring (suc n))) where
  abbrev held : List ℕ
  held = (ring 0).bytes

  abbrev pool : ℕ
  pool = length (ring 0).bytes

  abbrev head : ℕ
  head = (ring 0).head_abs

  -- A committed byte that the last load still found retained was loaded as it was.
  byte_at :
      (at last p : ℕ)
      → at ≤ last
      → (ring last).oldest_abs ≤ p
      → p < head
      → get_or (ring at).bytes (p % pool) 0 ≡ get_or held (p % pool) 0
  byte_at at last p le fresh inside =
      (since ring pos trace at).same_byte p (omega (arith, oldest_mono ring pos trace at last le))
        inside

  -- The loop over stored records.
  read_loop-Stored :
      (first : ℕ) (fuel at p : ℕ) (index : List RecordIndex) (xs : List Record)
      {records : List ReadRecord} {last : ℕ}
      → head < 2 ^ 64
      → Stored held pool p index xs head
      → read_loop fuel (owned ring) head first at p ≡ ok (records, last)
      → (ring last).oldest_abs ≤ p
      → records ≡ reads index xs
  unfolding read_loop
  read_loop-Stored first zero at p [] [] small e h fresh =
      let done : ltb p head ≡ false = ground arith in
      let h' = rw done at h in sym (ap (λ q. q.0) (ok-injective h'))
  read_loop-Stored first (suc fuel) at p [] [] small e h fresh =
      let done : ltb p head ≡ false = ground arith in
      let h' = rw done at h in sym (ap (λ q. q.0) (ok-injective h'))
  read_loop-Stored first fuel at p [] (x ∷ xs) small e h fresh = absurd e
  read_loop-Stored first fuel at p (i ∷ index) [] small e h fresh = absurd e
  read_loop-Stored first zero at p (i ∷ index) (x ∷ xs) small (f, d, e) h fresh =
      let (_, _, _, large) = encode_front x true d.is_record d.is_encoded in
      let more : ltb p head ≡ true =
        ground (arith, Follows-le f, d.span, Stored-le held pool i.end_abs index xs head e) in
      let bad = rw more at h in cc
  read_loop-Stored first (suc fuel) at p (i ∷ index) (x ∷ xs) {records} {last} small
        (adjacent start, d, e) h fresh =
      let (_, _, _, large) = encode_front x true d.is_record d.is_encoded in
      let le = Stored-le held pool i.end_abs index xs head e in
      let span = d.span in
      let after = read_loop-le ring (suc fuel) head first at p h in
      let byte =
        byte_at at last p after fresh (omega arith)
        ∙ ap (λ k. get_or held (k % pool) 0) start
        ∙ first_byte held pool head 0 refl pos small d in
      elim (read_loop-Round ring fuel head first at p (omega arith) h) [
        | skipped zero_byte later ↦ absurd (omega (arith, byte, zero_byte))
        | delivered got n next rest _ loaded later all ↦
            let (same, len, _) =
              load_record-Holds ring pos trace (at + 1) d le (rw start at loaded) in
            let end : add64 p n ≡ i.end_abs = mod-eq_of_lt (omega arith) ∙ omega arith in
            let others =
              read_loop-Stored first fuel next i.end_abs index xs small e (rw end at later)
                (omega arith) in
            let end' : add64 p got.consumed ≡ i.end_abs =
              ap (λ (g : DecodedRecord). add64 p g.consumed) same ∙ ap (add64 p) (sym len) ∙ end in
            all
            ∙ ap₂ ◌∷◌
                (λ k. record {
                  start_abs = start k;
                  end_abs = end' k;
                  value = (ap (λ (g : DecodedRecord). g.decoded) same) k;
                })
                others
      ]
  read_loop-Stored first (suc fuel) at p (i ∷ index) (x ∷ xs) {records} {last} small
        (wrapped ne marker start, d, e) h fresh =
      let (_, _, _, large) = encode_front x true d.is_record d.is_encoded in
      let le = Stored-le held pool i.end_abs index xs head e in
      let span = d.span in
      let below = mod-lt p pos in
      let after = read_loop-le ring (suc fuel) head first at p h in
      let byte =
        byte_at at last p after fresh (omega arith)
        ∙ get_or-slice held (p % pool) 1 (omega arith)
        ∙ ap (λ l. get_or l 0 0) marker in
      elim (read_loop-Round ring fuel head first at p (omega arith) h) [
        | skipped _ later ↦
            let next : add64 p (pool - p % pool) ≡ i.start_abs =
              mod-eq_of_lt (omega arith) ∙ sym start in
            read_loop-Stored first fuel (at + 1) i.start_abs (i ∷ index) (x ∷ xs) small
              (adjacent refl, d, e) (rw next at later) (omega arith)
        | delivered _ _ _ _ sync _ _ _ ↦ absurd (sync byte)
      ]

  -- A read that starts at or behind the head finds nothing.
  pub read_raw_from_store-Empty :
      (cursor : ℕ) {batch : ReadBatch}
      → head ≤ max cursor (ring 1).oldest_abs
      → read_raw_from_store (owned ring) cursor ≡ ok batch
      → (batch.records ≡ []) × (batch.next_abs ≡ head)
  unfolding read_raw_from_store owned owned_snapshot read_loop
  read_raw_from_store-Empty cursor {batch} past h =
      let first = (ring 1).oldest_abs in
      let abs = if ltb cursor first then first else cursor in
      let no_fuel : head - abs ≡ 0 = ground arith in
      let at_end : ltb abs head ≡ false = ground arith in
      let h' = rw (no_fuel, at_end) at h in ground arith

  -- Whatever the producer stores between the loads of a read: if the read returns a batch, and the
  -- ring held records from the read's start to the head when the head was loaded, the batch has
  -- exactly these records, where they were, and ends at that head.
  pub read_raw_from_store-Stored :
      (cursor : ℕ) (index : List RecordIndex) (xs : List Record) {batch : ReadBatch}
      → head < 2 ^ 64
      → Stored held pool (max cursor (ring 1).oldest_abs) index xs head
      → read_raw_from_store (owned ring) cursor ≡ ok batch
      → (batch.records ≡ reads index xs)
        × (batch.next_abs ≡ head)
        × (batch.lapped ≡ ltb cursor (ring 1).oldest_abs)
  unfolding read_raw_from_store owned owned_snapshot
  read_raw_from_store-Stored cursor index xs {batch} small e h =
      let first = (ring 1).oldest_abs in
      let s = owned ring in
      let abs = if ltb cursor first then first else cursor in
      let from : max cursor first ≡ abs = ground arith in
      let fits = control_block_capacity_mismatch (capacity_u32 pool) pool in
      let (_, _, h1) = >>=-eq-ok (ensure (capacity_u32 pool == pool) fits) _ h in
      let ((records, last), walked, h2) =
        >>=-eq-ok (read_loop (head - abs) s head first 3 abs) _ h1 in
      let final = (ring last).oldest_abs in
      let late = overwritten_mid_read cursor final in
      let (_, passed, h3) =
        >>=-eq-ok (ensure (not (not (final == first) && ltb cursor final)) late) _ h2 in
      let fresh : final ≤ abs = ground (arith, ensure-eq-ok _ late passed) in
      let all =
        read_loop-Stored first (head - abs) 3 abs index xs small (rw from at e) walked fresh in
      let batch_at = ok-injective h3 in
      (
        sym (ap (λ (b : ReadBatch). b.records) batch_at) ∙ all,
        sym (ap (λ (b : ReadBatch). b.next_abs) batch_at),
        sym (ap (λ (b : ReadBatch). b.lapped) batch_at),
      )
