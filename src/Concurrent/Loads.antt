-- ===== src/Concurrent/Loads.antt =====
-- crates/carriage/src/concurrent.rs: the loads of a reader, one after another, against the stores.
use open_ot_experiments.Prelude.{
  take-drop-suc, ℕ, zero, suc, ◌+◌, ◌-◌, ◌%◌, ◌≤◌, ◌<◌, ◌≡◌, refl, ap, ap₂, ◌∙◌, sym, List, ◌∷◌,
  true, arith, length, get_or, slice, take, drop, slice-take, ok, from_le_bytes,
}
use native.Mathlib.Nat.{mod-eq_of_lt, mod-add-mod}
use open_ot_experiments.Wire.{Record, DecodedRecord, decode}
use open_ot_experiments.Wire.RoundTrip.{encode_front}
use open_ot_experiments.Ring.Types.{RecordIndex}
use open_ot_experiments.Ring.Stored.{Holds}
use open_ot_experiments.Ring.Read.{as_read, part, decode-encoded}
use open_ot_experiments.Concurrent.{ConcurrentRing}
use open_ot_experiments.Concurrent.Stable.{Stable, Stable-refl, Stable-trans}
use open_ot_experiments.Concurrent.Walk.{owned, load_bytes, load_record}

pub load_bytes-eq :
    (ring : ℕ → ConcurrentRing) (bytes : List ℕ) (at phys n : ℕ)
    → phys + n ≤ length bytes
    → ((k : ℕ) → k < n → get_or (ring (at + k)).bytes (phys + k) 0 ≡ get_or bytes (phys + k) 0)
    → load_bytes (owned ring) at phys n ≡ take n (drop phys bytes)
unfolding load_bytes owned
load_bytes-eq ring bytes at phys zero h e = refl
load_bytes-eq ring bytes at phys (suc n) h e =
    let a : at + 0 ≡ at = omega arith in
    let p : phys + 0 ≡ phys = omega arith in
    ap₂ ◌∷◌ (rw (a, p) at (e 0 (omega arith))) (
      load_bytes-eq ring bytes (at + 1) (phys + 1) n (omega arith) (λ k lt.
        let a' : at + 1 + k ≡ at + suc k = omega arith in
        let p' : phys + 1 + k ≡ phys + suc k = omega arith in
        rw (a', p') (e (suc k) (omega arith))))
    ∙ sym (take-drop-suc bytes phys n (omega arith))

-- What a successful `load_record` did.
pub record Loaded (ring : ℕ → ConcurrentRing) (at abs : ℕ) (d : DecodedRecord) (n next : ℕ)
    : Type 0 where
  pub len_at :
      n ≡ from_le_bytes (load_bytes (owned ring) (at + 4) (abs % length (ring 0).bytes + 4) 2)
  pub checked : (ring (at + 6 + n)).oldest_abs ≤ abs
  pub next_at : next ≡ at + 6 + n + 1
  pub is_decoded : decode (load_bytes (owned ring) (at + 6) (abs % length (ring 0).bytes) n) ≡ ok d

pub load_record-Loaded :
    (ring : ℕ → ConcurrentRing) (at abs : ℕ) {d : DecodedRecord} {n next : ℕ}
    → load_record (owned ring) at abs ≡ ok (d, n, next)
    → Loaded ring at abs d n next
unfolding load_record owned
load_record-Loaded ring at abs h = record {
  len_at = ground arith;
  checked = ground arith;
  next_at = ground arith;
  is_decoded = ground arith;
}

module _ (ring : ℕ → ConcurrentRing) (pos : 0 < length (ring 0).bytes)
    (trace : (n : ℕ) → Stable (ring n) (ring (suc n))) where
  abbrev held : List ℕ
  held = (ring 0).bytes

  abbrev pool : ℕ
  pool = length (ring 0).bytes

  abbrev head : ℕ
  head = (ring 0).head_abs

  pub since : (n : ℕ) → Stable (ring 0) (ring n)
  since zero = Stable-refl (ring 0)
  since (suc n) = Stable-trans (since n) (trace n)

  oldest_later : (n k : ℕ) → (ring n).oldest_abs ≤ (ring (n + k)).oldest_abs
  oldest_later n zero = (let e : n + 0 ≡ n = omega arith in rw e (omega arith))
  oldest_later n (suc k) =
      let e : n + suc k ≡ suc (n + k) = omega arith in
      rw e (omega (arith, oldest_later n k, (trace (n + k)).oldest_le))

  pub oldest_mono : (n m : ℕ) → n ≤ m → (ring n).oldest_abs ≤ (ring m).oldest_abs
  oldest_mono n m le = let e : n + (m - n) ≡ m = omega arith in rw e at (oldest_later n (m - n))

  -- Bytes of the span at `q`, if the last of the loads still found it retained.
  loaded_span :
      (at q a n : ℕ)
      → (ring (at + n)).oldest_abs ≤ q
      → q + a + n ≤ head
      → q % pool + a + n ≤ pool
      → load_bytes (owned ring) at (q % pool + a) n ≡ slice held (q % pool + a) (q % pool + a + n)
  loaded_span at q a n fresh inside in_pool =
      load_bytes-eq ring held at (q % pool + a) n in_pool (λ k lt.
        let w : (q + (a + k)) % pool ≡ q % pool + a + k =
          sym (mod-add-mod q pool (a + k)) ∙ mod-eq_of_lt (omega arith) ∙ omega arith in
        rw w at (
          (since (at + k)).same_byte (q + (a + k))
            (omega (arith, oldest_mono (at + k) (at + n) (omega arith))) (omega arith)))
      ∙ sym (slice-take held (q % pool + a) n)

  -- A record that was held is loaded as it was, or refused.
  pub load_record-Holds :
      (at : ℕ) {i : RecordIndex} {x : Record} {d : DecodedRecord} {n next : ℕ}
      → (h : Holds held pool i x) → i.end_abs ≤ head
      → load_record (owned ring) at i.start_abs ≡ ok (d, n, next)
      → (d ≡ record { decoded = as_read x; consumed = length h.encoded })
        × (n ≡ length h.encoded)
        × (at ≤ next)
  load_record-Holds at {i} {x} {d} {n} {next} h inside loaded =
      let l = load_record-Loaded ring at i.start_abs loaded in
      let q = i.start_abs in
      let (_, _, len_at, large) = encode_front x true h.is_record h.is_encoded in
      let span = h.span in
      let room = h.in_pool in
      let fresh = l.checked in
      let len : n ≡ length h.encoded =
        l.len_at
        ∙ ap from_le_bytes (
            loaded_span (at + 4) q 4 2
              (omega (arith, oldest_mono (at + 4 + 2) (at + 6 + n) (omega arith))) (omega arith)
              (omega arith))
        ∙ ap from_le_bytes (part h 4 2 (omega arith))
        ∙ len_at in
      let zero_at : q % pool + 0 ≡ q % pool = omega arith in
      let bytes : load_bytes (owned ring) (at + 6) (q % pool) n ≡ h.encoded =
        rw zero_at at (loaded_span (at + 6) q 0 n fresh (omega arith) (omega arith))
        ∙ ap (λ k. slice held (q % pool) (q % pool + k)) len
        ∙ h.bytes_at in
      let same = sym l.is_decoded ∙ ap decode bytes ∙ decode-encoded x h.is_record h.is_encoded in
      (cc, len, omega (arith, l.next_at))
