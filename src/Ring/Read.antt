-- ===== src/Ring/Read.antt =====
-- crates/carriage/src/ring.rs: what the index reader and the raw walk return of a valid ring.
use open_ot_experiments.Prelude.{
  ℕ, ◌+◌, ◌-◌, ◌%◌, ◌≤◌, ◌≡◌, refl, ap, ◌∙◌, List, [], ◌∷◌, true, ok, arith, length, slice,
  append-nil, from_le_bytes, ltb, leb, if◌then◌else◌, slice-slice,
}
use native.Mathlib.Nat.{add-zero}
use open_ot_experiments.Wire.{Record, encode, decode, wire_flags}
use open_ot_experiments.Wire.Layout.{IsRecord}
use open_ot_experiments.Wire.RoundTrip.{decode-encode, encode_front}
use open_ot_experiments.Ring.{read_indexed, read_from, read_raw_record}
use open_ot_experiments.Ring.Types.{RecordIndex, RingBuffer, ReadRecord}
use open_ot_experiments.Ring.Stored.{Holds, Stored, Follows-le, IsValid}

-- A record as it comes back: with the CRC flag set.
abbrev pub as_read : Record → Record
as_read x = record x { flags = wire_flags x.flags true }

-- The records of an index, read back.
abbrev pub reads : List RecordIndex → List Record → List ReadRecord
reads [] xs = []
reads (i ∷ index) [] = []
reads (i ∷ index) (x ∷ xs) =
    record { start_abs = i.start_abs; end_abs = i.end_abs; value = as_read x } ∷ reads index xs

-- Their values, in the order of the writes.
abbrev pub values : List ReadRecord → List Record
values [] = []
values (r ∷ rs) = r.value ∷ values rs

abbrev pub all_as_read : List Record → List Record
all_as_read [] = []
all_as_read (x ∷ xs) = as_read x ∷ all_as_read xs

pub values-reads :
    (bytes : List ℕ) (pool p : ℕ) (index : List RecordIndex) (xs : List Record) (head : ℕ)
    → Stored bytes pool p index xs head
    → values (reads index xs) ≡ all_as_read xs
values-reads bytes pool p [] [] head h = refl
values-reads bytes pool p [] (x ∷ xs) head h = absurd h
values-reads bytes pool p (i ∷ index) [] head h = absurd h
values-reads bytes pool p (i ∷ index) (x ∷ xs) head (f, s, h) =
    ap (λ l. as_read x ∷ l) (values-reads bytes pool i.end_abs index xs head h)

pub decode-encoded :
    (x : Record) {encoded : List ℕ}
    → IsRecord x
    → encode x true ≡ ok encoded
    → decode encoded ≡ ok (record { decoded = as_read x; consumed = length encoded })
decode-encoded x {encoded} v e = rw append-nil at (decode-encode x true [] v e)

decode-held :
    {bytes : List ℕ} {pool : ℕ} {i : RecordIndex} {x : Record} (h : Holds bytes pool i x)
    → decode (slice bytes (i.start_abs % pool) (i.start_abs % pool + (i.end_abs - i.start_abs)))
      ≡ ok (record { decoded = as_read x; consumed = length h.encoded })
decode-held {bytes} {pool} {i} {x} h =
    let e : i.end_abs - i.start_abs ≡ length h.encoded = omega (arith, h.span) in
    rw (e, h.bytes_at) (decode-encoded x h.is_record h.is_encoded)

read_indexed-Stored :
    (bytes : List ℕ) (pool p cursor : ℕ) (index : List RecordIndex) (xs : List Record) (head : ℕ)
    → length bytes ≡ pool
    → cursor ≤ p
    → Stored bytes pool p index xs head
    → read_indexed bytes cursor index ≡ ok (reads index xs)
unfolding read_indexed
read_indexed-Stored bytes pool p cursor [] [] head size c h = refl
read_indexed-Stored bytes pool p cursor [] (x ∷ xs) head size c h = absurd h
read_indexed-Stored bytes pool p cursor (i ∷ index) [] head size c h = absurd h
read_indexed-Stored bytes pool p cursor (i ∷ index) (x ∷ xs) head size c (f, s, h) =
    let le = Follows-le f in
    let t : leb cursor i.start_abs ≡ true = ground arith in
    let later =
      read_indexed-Stored bytes pool i.end_abs cursor index xs head size (omega (arith, s.span))
        h in
    rw (t, size, decode-held s, later)

-- From any cursor that the ring has overtaken, or that stands at its oldest byte, `read_from` on a
-- valid ring delivers exactly the retained records, in order, with their spans.
pub read_from-IsValid :
    (r : RingBuffer) (xs : List Record) (cursor : ℕ)
    → IsValid r xs
    → cursor ≤ r.oldest_abs
    → (read_from r cursor
        ≡ ok (record {
          records = reads r.index xs;
          next_abs = r.head_abs;
          lapped = ltb cursor r.oldest_abs;
        }))
      × (values (reads r.index xs) ≡ all_as_read xs)
unfolding read_from
read_from-IsValid r xs cursor v c =
    let from : (if ltb cursor r.oldest_abs then r.oldest_abs else cursor) ≡ r.oldest_abs =
      ground arith in
    let pool = length r.bytes in
    (
      rw (
        from,
        read_indexed-Stored r.bytes pool r.oldest_abs r.oldest_abs r.index xs r.head_abs refl
            (omega arith) v.stored,
      ),
      values-reads r.bytes pool r.oldest_abs r.index xs r.head_abs v.stored,
    )

-- A part of a held record, in the pool and in its encoding.
pub part :
    {bytes : List ℕ} {pool : ℕ} {i : RecordIndex} {x : Record} (h : Holds bytes pool i x) (a k : ℕ)
    → a + k ≤ length h.encoded
    → slice bytes (i.start_abs % pool + a) (i.start_abs % pool + a + k) ≡ slice h.encoded a (a + k)
part {bytes} {pool} {i} h a k le =
    slice-slice bytes (i.start_abs % pool) (length h.encoded) a k le
    ∙ ap (λ l. slice l a (a + k)) h.bytes_at

-- The raw walk's reading of a held record.
pub read_raw_record-Holds :
    {bytes : List ℕ} {pool : ℕ} {i : RecordIndex} {x : Record} (h : Holds bytes pool i x)
    → length bytes ≡ pool
    → read_raw_record bytes i.start_abs
      ≡ ok (record { decoded = as_read x; consumed = length h.encoded }, length h.encoded)
unfolding read_raw_record
read_raw_record-Holds {bytes} {pool} {i} {x} h size =
    let phys = i.start_abs % pool in
    let enc = h.encoded in
    let n = length enc in
    let (synced, _, len_at, large) = encode_front x true h.is_record h.is_encoded in
    let sync_at : slice bytes phys (phys + 4) ≡ slice enc 0 4 =
      rw (add-zero phys) at (part h 0 4 (omega arith)) in
    let len_at' : from_le_bytes (slice bytes (phys + 4) (phys + 4 + 2)) ≡ n =
      ap from_le_bytes (part h 4 2 (omega arith)) ∙ len_at in
    let a : leb (phys + 40) pool ≡ true = ground arith in
    let b : leb 40 n ≡ true = ground arith in
    let c : leb (phys + n) pool ≡ true = ground arith in
    rw (
      size,
      a,
      sync_at,
      synced,
      len_at',
      b,
      c,
      h.bytes_at,
      decode-encoded x h.is_record h.is_encoded,
    )
