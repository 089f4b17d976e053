-- ===== src/Ring/RawRead.antt =====
-- crates/carriage/src/ring.rs: the raw walk delivers what the index reader does, and its checks.
use open_ot_experiments.Prelude.{
  ℕ, zero, suc, ◌+◌, ◌-◌, ◌%◌, ◌^◌, ◌≤◌, ◌<◌, ◌≡◌, ◌≢◌, refl, ap, ◌∙◌, sym, List, [], ◌∷◌, true,
  false, ok, arith, length, get_or, ltb, ◌==◌, if◌then◌else◌, add64, get_or-slice, ==_refl,
}
use native.Mathlib.Nat.{mod-lt, mod-eq_of_lt}
use open_ot_experiments.Wire.{Record}
use open_ot_experiments.Wire.RoundTrip.{encode_front}
use open_ot_experiments.Ring.{read_from, read_raw_loop, read_raw_window, read_raw_from}
use open_ot_experiments.Ring.Types.{RecordIndex, RingBuffer, ReadRecord, RingResult}
use open_ot_experiments.Ring.Stored.{
  adjacent, wrapped, Holds, Stored, Follows-le, Stored-le, IsValid,
}
use open_ot_experiments.Ring.Read.{reads, as_read, read_raw_record-Holds, read_from-IsValid}

module _ (bytes : List ℕ) (pool head o : ℕ) (size : length bytes ≡ pool) (pos : 0 < pool)
    (small : head < 2 ^ 64) where
  abbrev walk : ℕ → ℕ → ℕ → RingResult (List ReadRecord × ℕ)
  walk fuel calls abs = read_raw_loop fuel bytes head o (λ _. o) calls abs

  pub first_byte :
      {i : RecordIndex} {x : Record}
      → Holds bytes pool i x
      → get_or bytes (i.start_abs % pool) 0 ≡ 0x4f
  first_byte {i} {x} h =
      let (_, front, _, large) = encode_front x true h.is_record h.is_encoded in
      let n = length h.encoded in
      get_or-slice bytes (i.start_abs % pool) n (omega arith)
      ∙ ap (λ l. get_or l 0 0) h.bytes_at
      ∙ get_or-slice h.encoded 0 4 (omega arith)
      ∙ ap (λ l. get_or l 0 0) front

  -- One round on a held record.
  deliver_round :
      (fuel calls : ℕ) {i : RecordIndex} {x : Record} (records : List ReadRecord) (calls' : ℕ)
      → Holds bytes pool i x
      → o ≤ i.start_abs
      → i.end_abs ≤ head
      → walk fuel (calls + 1) i.end_abs ≡ ok (records, calls')
      → walk (suc fuel) calls i.start_abs
        ≡ ok (
          record { start_abs = i.start_abs; end_abs = i.end_abs; value = as_read x } ∷ records,
          calls',
        )
  unfolding read_raw_loop
  deliver_round fuel calls {i} {x} records calls' h fresh inside later =
      let n = length h.encoded in
      let (_, _, _, large) = encode_front x true h.is_record h.is_encoded in
      let next : add64 i.start_abs n ≡ i.end_abs =
        mod-eq_of_lt (omega (arith, h.span)) ∙ sym h.span in
      let a : ltb i.start_abs head ≡ true = ground (arith, h.span) in
      let b : ltb i.start_abs o ≡ false = ground arith in
      rw (a, b, size, first_byte h, read_raw_record-Holds h size, next, later)

  -- One round on a wrap marker.
  skip_round :
      (fuel calls p start : ℕ)
      → p % pool ≢ 0
      → get_or bytes (p % pool) 0 ≡ 0
      → start ≡ p + (pool - p % pool)
      → o ≤ p
      → start ≤ head
      → walk (suc fuel) calls p ≡ walk fuel calls start
  unfolding read_raw_loop
  skip_round fuel calls p start ne marker e fresh inside =
      let below = mod-lt p pos in
      let next : add64 p (pool - p % pool) ≡ start = mod-eq_of_lt (omega arith) ∙ sym e in
      let a : ltb p head ≡ true = ground arith in
      let b : ltb p o ≡ false = ground arith in
      let c : (p % pool == 0) ≡ false = ground arith in rw (a, b, size, marker, c, next)

  held_span : {i : RecordIndex} {x : Record} → Holds bytes pool i x → i.start_abs + 40 ≤ i.end_abs
  held_span h =
      let (_, _, _, large) = encode_front _ true h.is_record h.is_encoded in omega (arith, h.span)

  end_round : (fuel calls : ℕ) → walk fuel calls head ≡ ok ([], calls)
  unfolding read_raw_loop
  end_round zero calls = ground arith
  end_round (suc fuel) calls = ground arith

  pub walk-Stored :
      (p : ℕ) (index : List RecordIndex) (xs : List Record) (fuel calls : ℕ)
      → Stored bytes pool p index xs head
      → o ≤ p
      → head ≤ p + fuel
      → (calls' : ℕ) × (walk fuel calls p ≡ ok (reads index xs, calls'))
  walk-Stored p [] [] fuel calls h fresh enough = (calls, rw h (end_round fuel calls))
  walk-Stored p [] (x ∷ xs) fuel calls h fresh enough = absurd h
  walk-Stored p (i ∷ index) [] fuel calls h fresh enough = absurd h
  walk-Stored p (i ∷ index) (x ∷ xs) zero calls (f, s, h) fresh enough =
      absurd
        (omega (arith, Follows-le f, held_span s, Stored-le bytes pool i.end_abs index xs head h))
  walk-Stored p (i ∷ index) (x ∷ xs) (suc fuel) calls (adjacent e, s, h) fresh enough =
      let span = held_span s in
      let le = Stored-le bytes pool i.end_abs index xs head h in
      let (calls', later) =
        walk-Stored i.end_abs index xs fuel (calls + 1) h (omega arith) (omega arith) in
      (calls', rw e (deliver_round fuel calls (reads index xs) calls' s (omega arith) le later))
  walk-Stored p (i ∷ index) (x ∷ xs) (suc zero) calls (wrapped ne m e, s, h) fresh enough =
      absurd
        (omega (arith, mod-lt p pos, held_span s, Stored-le bytes pool i.end_abs index xs head h))
  walk-Stored p (i ∷ index) (x ∷ xs) (suc (suc fuel)) calls (wrapped ne m e, s, h) fresh enough =
      let span = held_span s in
      let below = mod-lt p pos in
      let le = Stored-le bytes pool i.end_abs index xs head h in
      let (calls', later) =
        walk-Stored i.end_abs index xs fuel (calls + 1) h (omega arith) (omega arith) in
      let marker = get_or-slice bytes (p % pool) 1 (omega arith) ∙ ap (λ l. get_or l 0 0) m in
      (
        calls',
        skip_round (suc fuel) calls p i.start_abs ne marker e fresh (omega arith)
            ∙ deliver_round fuel calls (reads index xs) calls' s (omega arith) le later,
      )

-- The raw walk agrees with the index reader on a valid ring whose head is below 2^64, wrap markers
-- and all: from a cursor that stands at the oldest byte or was overtaken, both return the same, an
-- `ok` batch with every retained record.
pub read_raw_from-eq-read_from :
    (r : RingBuffer) (xs : List Record) (cursor : ℕ)
    → IsValid r xs
    → r.head_abs < 2 ^ 64
    → cursor ≤ r.oldest_abs
    → read_raw_from r cursor ≡ read_from r cursor
unfolding read_raw_from read_raw_window
read_raw_from-eq-read_from r xs cursor v small c =
    let pool = length r.bytes in
    let o = r.oldest_abs in
    let from : (if ltb cursor o then o else cursor) ≡ o = ground arith in
    let le = v.oldest_le_head in
    let (calls, walked) =
      walk-Stored r.bytes pool r.head_abs o refl v.pool small o r.index xs (r.head_abs - o) 0
        v.stored (omega arith) (omega arith) in
    let (indexed, _) = read_from-IsValid r xs cursor v c in
    rw (from, walked, ==_refl o) (sym indexed)
