-- ===== src/Concurrent/Window.antt =====
-- crates/carriage/src/concurrent.rs: what the ring holds while an append is under way.
use open_ot_experiments.Prelude.{
  ℕ, ◌+◌, ◌≤◌, ◌<◌, ◌≡◌, ◌⊎◌, inl, inr, refl, List, [], ◌∷◌, ◌++◌, arith, length, ◌==◌, Bool-cases,
}
use open_ot_experiments.Wire.{Record}
use open_ot_experiments.Ring.Types.{RecordIndex, RingBuffer}
use open_ot_experiments.Ring.Stored.{Stored}
use open_ot_experiments.Concurrent.{
  ConcurrentRing, StoreOp, apply_op, apply_all, begin_control_update, end_control_update_release,
  fetch_add_lost_release, store_oldest_relaxed, release_before_clobber, store_byte_relaxed,
  store_head_release, store_bytes, mark_wrap, count_lost,
}
use open_ot_experiments.Concurrent.Publish.{producer_of}
use open_ot_experiments.Concurrent.Stable.{Stable, InOrder, apply_op-Stable}
use open_ot_experiments.Concurrent.Kept.{Stored-Stable}

-- From the oldest byte to the head the ring holds records that were written one after another. The
-- oldest offset may be ahead of the head while the only record is being written.
pub record Holding (written : List Record) (m : ConcurrentRing) : Type 0 where
  pub index : List RecordIndex
  pub xs : List Record
  pub before : List Record
  pub after : List Record
  pub split : written ≡ before ++ (xs ++ after)
  pub held :
      ((m.head_abs ≤ m.oldest_abs) × (xs ≡ []))
      ⊎ Stored m.bytes (length m.bytes) m.oldest_abs index xs m.head_abs

-- The ring is like that now and after each of the operations.
abbrev pub Along : List Record → List StoreOp → ConcurrentRing → Type 0
Along written [] m = Holding written m
Along written (op ∷ ops) m = Holding written m × Along written ops (apply_op m op)

-- The operations that leave the offsets alone.
abbrev pub IsQuiet : StoreOp → Type 0
IsQuiet (store_oldest_relaxed v) = ⊥
IsQuiet (store_head_release v) = ⊥
IsQuiet op = Unit {0}

abbrev pub AreQuiet : List StoreOp → Type 0
AreQuiet [] = Unit {0}
AreQuiet (op ∷ ops) = IsQuiet op × AreQuiet ops

pub AreQuiet-append :
    (ops later : List StoreOp) → AreQuiet ops → AreQuiet later → AreQuiet (ops ++ later)
AreQuiet-append [] later h k = k
AreQuiet-append (op ∷ ops) later (q, h) k = (q, AreQuiet-append ops later h k)

pub store_bytes-AreQuiet : (phys : ℕ) (bytes : List ℕ) → AreQuiet (store_bytes phys bytes)
unfolding store_bytes
store_bytes-AreQuiet phys [] = tt
store_bytes-AreQuiet phys (b ∷ bytes) = (tt, store_bytes-AreQuiet (phys + 1) bytes)

pub count_lost-AreQuiet : (n : ℕ) → AreQuiet (count_lost n)
unfolding count_lost
count_lost-AreQuiet n = elim (Bool-cases (n == 0)) [ inl t ↦ rw t tt | inr f ↦ rw f (tt, tt) ]

pub mark_wrap-AreQuiet :
    (r : RingBuffer) (start phys : ℕ) → AreQuiet (mark_wrap (producer_of r) start phys)
unfolding mark_wrap
mark_wrap-AreQuiet r start phys = elim (Bool-cases (start == r.head_abs)) [
  | inl t ↦ rw t tt
  | inr f ↦ rw f (tt, tt)
]

quiet_offsets :
    (m : ConcurrentRing) (op : StoreOp)
    → IsQuiet op
    → ((apply_op m op).oldest_abs ≡ m.oldest_abs) × ((apply_op m op).head_abs ≡ m.head_abs)
unfolding apply_op
quiet_offsets m begin_control_update q = (refl, refl)
quiet_offsets m end_control_update_release q = (refl, refl)
quiet_offsets m (fetch_add_lost_release v) q = (refl, refl)
quiet_offsets m (store_oldest_relaxed v) q = absurd q
quiet_offsets m release_before_clobber q = (refl, refl)
quiet_offsets m (store_byte_relaxed phys v) q = (refl, refl)
quiet_offsets m (store_head_release v) q = absurd q

Holding-quiet :
    (written : List Record) (m : ConcurrentRing) (op : StoreOp)
    → 0 < length m.bytes
    → IsQuiet op
    → Stable m (apply_op m op)
    → Holding written m
    → Holding written (apply_op m op)
Holding-quiet written m op pos q s h =
    let (o, e) = quiet_offsets m op q in
    record {
      index = h.index;
      xs = h.xs;
      before = h.before;
      after = h.after;
      split = h.split;
      held = elim h.held [
        | inl (le, none_) ↦ inl (rw (o, e) le, none_)
        | inr stored ↦ inr (
            rw (o, e, s.same_size)
              (Stored-Stable m (apply_op m op) pos s m.oldest_abs h.index h.xs m.head_abs stored
                (omega (arith, o)) (omega arith)))
      ];
    }

-- Quiet operations keep what is held, whatever comes behind them.
pub Along-quiet :
    (written : List Record) (ops later : List StoreOp) (m : ConcurrentRing)
    → AreQuiet ops
    → 0 < length m.bytes
    → InOrder (length m.bytes) m.oldest_abs m.head_abs (ops ++ later)
    → Holding written m
    → (let m' = apply_all m ops in
        0 < length m'.bytes
        → InOrder (length m'.bytes) m'.oldest_abs m'.head_abs later
        → Holding written m'
        → Along written later m')
    → Along written (ops ++ later) m
unfolding apply_all
Along-quiet written [] later m q pos order h next = next pos order h
Along-quiet written (op ∷ ops) later m (q, qs) pos order h next =
    let (s, order') = apply_op-Stable m op (ops ++ later) pos order in
    (
      h,
      Along-quiet written ops later (apply_op m op) qs (omega (arith, s.same_size)) order'
          (Holding-quiet written m op pos q s h) next,
    )
