-- ===== src/Concurrent/Safe.antt =====
-- crates/carriage/src/concurrent.rs: a reader beside the producer delivers records that were
-- written, whole and in their order.
use open_ot_experiments.Prelude.{
  ℕ, zero, suc, ◌^◌, ◌≤◌, ◌<◌, ◌≡◌, inl, inr, refl, ap, ◌∙◌, List, [], ◌∷◌, ◌++◌, append-nil, arith,
  length, ok, some, max, Bool-cases, ◌==◌,
}
use mathlib.Core.Path.{subst}
use open_ot_experiments.Wire.{Record}
use open_ot_experiments.Ring.Types.{ReadBatch}
use open_ot_experiments.Ring.Read.{values, all_as_read, values-reads}
use open_ot_experiments.Ring.Run.{fresh, fresh-Retains}
use open_ot_experiments.Concurrent.{ConcurrentRing, StoreOp, new, apply_all}
use open_ot_experiments.Concurrent.Walk.{owned, read_raw_from_store}
use open_ot_experiments.Concurrent.Publish.{shared}
use open_ot_experiments.Concurrent.Stable.{Stable, Stable-refl, Stable-trans}
use open_ot_experiments.Concurrent.Linear.{read_raw_from_store-Stored, read_raw_from_store-Empty}
use open_ot_experiments.Concurrent.Window.{Holding, Along}
use open_ot_experiments.Concurrent.Invariant.{Sound, Sound-begin, Sound-store}
use open_ot_experiments.Concurrent.System.{
  System, Step, begin, store, Steps, done, then, Reached, start, step,
}

Step-Sound :
    {xs ys : List Record} {s t : System}
    → Step xs s ys t
    → Sound xs s
    → Sound ys t × Stable s.ring t.ring
Step-Sound (begin {m} x is_record room lost h) s =
    (Sound-begin x s is_record room lost h, Stable-refl m)
Step-Sound store s = Sound-store s

-- The steps keep the invariant, and what a reader may still read.
Steps-Sound :
    {xs ys : List Record} {s t : System}
    → Steps xs s ys t
    → Sound xs s
    → Sound ys t × Stable s.ring t.ring
Steps-Sound (done {s}) h = (h, Stable-refl s.ring)
Steps-Sound (then first later) h =
    let (h', a) = Steps-Sound first h in
    let (h'', b) = Step-Sound later h' in (h'', Stable-trans a b)

new-shared :
    (pool : ℕ) {m : ConcurrentRing} → new pool ≡ some m → (0 < pool) × (shared (fresh pool) ≡ m)
unfolding new
new-shared pool h = elim (Bool-cases (pool == 0)) [
  | inl t ↦ let bad = rw t at h in cc
  | inr f ↦ let same = rw f at h in (ground arith, cc)
]

fresh-Sound :
    (pool : ℕ)
    → 0 < pool
    → Sound [] (record {
      ring = shared (fresh pool);
      producer = record { spans = []; head_abs = 0 };
      pending = [];
    })
unfolding apply_all
fresh-Sound pool pos =
    let k = fresh-Retains pool pos in
    record {
      target = fresh pool;
      dropped = k.dropped;
      kept = k.kept;
      split = k.split;
      valid = k.valid;
      producer_at = refl;
      leads = refl;
      size = refl;
      ordered = tt;
      along = record {
        index = [];
        xs = k.kept;
        before = k.dropped;
        after = [];
        split = rw append-nil k.split;
        held = inr k.valid.stored;
      };
    }

Reached-Sound : {pool : ℕ} {xs : List Record} {s : System} → Reached pool xs s → Sound xs s
Reached-Sound {pool} (start h) =
    (let (pos, same) = new-shared pool h in
      subst
        (λ m.
          Sound []
            (record { ring = m; producer = record { spans = []; head_abs = 0 }; pending = [] }))
        same (fresh-Sound pool pos))
Reached-Sound (step run st) = (Step-Sound st (Reached-Sound run)).0

Sound-Holding : {xs : List Record} {s : System} → Sound xs s → Holding xs s.ring
Sound-Holding {xs} {s} h = along_now xs s.pending s.ring h.along
  where
    along_now :
        (written : List Record) (ops : List StoreOp) (m : ConcurrentRing)
        → Along written ops m
        → Holding written m
    along_now written [] m h = h
    along_now written (op ∷ ops) m h = h.0

-- However a producer's stores fall between the loads of a read, which may be torn apart by them
-- anywhere, a batch that the read returns is a run of the records written, whole, unchanged but
-- for the CRC flag and in their order, and ends at the head that the read loaded. The read starts
-- at or behind the oldest byte, nothing is reclaimed between its loads of the head and of the
-- oldest offset, and the head is below 2^64.
pub read_raw_from_store-Written :
    {pool : ℕ} (written : ℕ → List Record) (sys : ℕ → System) (cursor : ℕ) {batch : ReadBatch}
    → Reached pool (written 0) (sys 0)
    → ((n : ℕ) → Steps (written n) (sys n) (written (suc n)) (sys (suc n)))
    → cursor ≤ (sys 0).ring.oldest_abs
    → (sys 1).ring.oldest_abs ≡ (sys 0).ring.oldest_abs
    → (sys 0).ring.head_abs < 2 ^ 64
    → read_raw_from_store (owned (λ n. (sys n).ring)) cursor ≡ ok batch
    → (before xs after : List Record) × (written 0 ≡ before ++ (xs ++ after))
      × (values batch.records ≡ all_as_read xs)
      × (batch.next_abs ≡ (sys 0).ring.head_abs)
read_raw_from_store-Written written sys cursor {batch} reached steps behind same small h =
    let ring = λ (n : ℕ). (sys n).ring in
    let m = (sys 0).ring in
    let now = Reached-Sound reached in
    let pos : 0 < length m.bytes = omega (arith, now.size, now.valid.pool) in
    let trace = λ (n : ℕ). (Steps-Sound (steps n) (sound_at n)).1 in
    let holding = Sound-Holding now in
    let from : max cursor (sys 1).ring.oldest_abs ≡ m.oldest_abs = omega arith in
    elim holding.held [
      | inl (past, none_) ↦
          let (empty, next) = read_raw_from_store-Empty ring pos trace cursor (omega arith) h in
          (holding.before, [], holding.after, rw none_ at holding.split, rw empty refl, next)
      | inr stored ↦
          let (all, next, _) =
            read_raw_from_store-Stored ring pos trace cursor holding.index holding.xs small
              (rw from stored) h in
          (
            holding.before,
            holding.xs,
            holding.after,
            holding.split,
            ap values all
                ∙ values-reads m.bytes (length m.bytes) m.oldest_abs holding.index holding.xs
                    m.head_abs stored,
            next,
          )
    ]
  where
    sound_at : (n : ℕ) → Sound (written n) (sys n)
    sound_at zero = Reached-Sound reached
    sound_at (suc n) = (Steps-Sound (steps n) (sound_at n)).0
