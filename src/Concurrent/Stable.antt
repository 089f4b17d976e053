-- ===== src/Concurrent/Stable.antt =====
-- crates/carriage/src/concurrent.rs: the producer's stores leave alone what a reader may still read.
use open_ot_experiments.Prelude.{
  ℕ, zero, suc, ◌+◌, ◌%◌, ◌≤◌, ◌<◌, ◌≡◌, ◌≢◌, inl, inr, refl, ap, ◌∙◌, sym, List, [], ◌∷◌, arith,
  length, length-set, get_or, set,
}
use native.Mathlib.Nat.{mod-lt}
use open_ot_experiments.Ring.Disjoint.{spans_apart}
use open_ot_experiments.Concurrent.{
  ConcurrentRing, StoreOp, apply_op, begin_control_update, end_control_update_release,
  fetch_add_lost_release, store_oldest_relaxed, release_before_clobber, store_byte_relaxed,
  store_head_release,
}

-- From `m` to `m'` the offsets did not go back, and the bytes of the window that were committed in
-- `m` and are retained in `m'` are the same.
pub record Stable (m m' : ConcurrentRing) : Type 0 where
  pub same_size : length m'.bytes ≡ length m.bytes
  pub oldest_le : m.oldest_abs ≤ m'.oldest_abs
  pub head_le : m.head_abs ≤ m'.head_abs
  pub same_byte :
      (q : ℕ)
      → m'.oldest_abs ≤ q
      → q < m.head_abs
      → get_or m'.bytes (q % length m.bytes) 0 ≡ get_or m.bytes (q % length m.bytes) 0

pub Stable-refl : (m : ConcurrentRing) → Stable m m
Stable-refl m = record {
  same_size = refl;
  oldest_le = omega arith;
  head_le = omega arith;
  same_byte = λ q lo hi. refl;
}

pub Stable-trans : {m m' m'' : ConcurrentRing} → Stable m m' → Stable m' m'' → Stable m m''
Stable-trans {m} {m'} {m''} s s' = record {
  same_size = s'.same_size ∙ s.same_size;
  oldest_le = omega (arith, s.oldest_le, s'.oldest_le);
  head_le = omega (arith, s.head_le, s'.head_le);
  same_byte = λ q lo hi.
      ap (λ n. get_or m''.bytes (q % n) 0) (sym s.same_size)
      ∙ s'.same_byte q lo (omega (arith, s.head_le))
      ∙ ap (λ n. get_or m'.bytes (q % n) 0) s.same_size
      ∙ s.same_byte q (omega (arith, s'.oldest_le)) hi;
}

-- Every operation in its turn keeps to the order of the protocol: the offsets only grow, and a byte
-- goes to an absolute position at or after the head and less than a lap after the oldest byte.
abbrev pub InOrder : ℕ → ℕ → ℕ → List StoreOp → Type 0
InOrder pool oldest head [] = Unit {0}
InOrder pool oldest head (begin_control_update ∷ ops) = InOrder pool oldest head ops
InOrder pool oldest head (end_control_update_release ∷ ops) = InOrder pool oldest head ops
InOrder pool oldest head (fetch_add_lost_release v ∷ ops) = InOrder pool oldest head ops
InOrder pool oldest head (store_oldest_relaxed v ∷ ops) = (oldest ≤ v) × InOrder pool v head ops
InOrder pool oldest head (release_before_clobber ∷ ops) = InOrder pool oldest head ops
InOrder pool oldest head (store_byte_relaxed phys v ∷ ops) =
    ((w : ℕ) × (phys ≡ w % pool) × (head ≤ w) × (w < oldest + pool)) × InOrder pool oldest head ops
InOrder pool oldest head (store_head_release v ∷ ops) = (head ≤ v) × InOrder pool oldest v ops

get_or-set_other :
    (bytes : List ℕ) (i j v : ℕ) → i ≢ j → get_or (set bytes j v) i 0 ≡ get_or bytes i 0
get_or-set_other [] i j v h = refl
get_or-set_other (b ∷ bytes) zero zero v h = absurd (h refl)
get_or-set_other (b ∷ bytes) zero (suc j) v h = refl
get_or-set_other (b ∷ bytes) (suc i) zero v h = refl
get_or-set_other (b ∷ bytes) (suc i) (suc j) v h = get_or-set_other bytes i j v (λ e. h (ap suc e))

store_byte-Stable :
    (m : ConcurrentRing) (w v : ℕ)
    → 0 < length m.bytes
    → m.head_abs ≤ w
    → w < m.oldest_abs + length m.bytes
    → Stable m (record m { bytes = set m.bytes (w % length m.bytes) v })
store_byte-Stable m w v pos after near = record {
  same_size = length-set m.bytes (w % length m.bytes) v;
  oldest_le = omega arith;
  head_le = omega arith;
  same_byte = λ q lo hi. get_or-set_other m.bytes (q % length m.bytes) (w % length m.bytes) v (λ e.
      elim (spans_apart (length m.bytes) q 1 w 1 pos (omega arith) (omega arith)
        (omega (arith, mod-lt q pos)) (omega (arith, mod-lt w pos))) [
          | inl l ↦ omega arith
          | inr l ↦ omega arith
        ]);
}

-- One operation in order.
pub apply_op-Stable :
    (m : ConcurrentRing) (op : StoreOp) (ops : List StoreOp)
    → 0 < length m.bytes
    → InOrder (length m.bytes) m.oldest_abs m.head_abs (op ∷ ops)
    → let m' = apply_op m op in
      Stable m m' × InOrder (length m'.bytes) m'.oldest_abs m'.head_abs ops
unfolding apply_op
apply_op-Stable m begin_control_update ops pos h = (Stable-refl m, h)
apply_op-Stable m end_control_update_release ops pos h = (Stable-refl m, h)
apply_op-Stable m (fetch_add_lost_release v) ops pos h = (
  record {
    same_size = refl;
    oldest_le = omega arith;
    head_le = omega arith;
    same_byte = λ q lo hi. refl;
  },
  h,
)
apply_op-Stable m (store_oldest_relaxed v) ops pos (le, h) = (
  record { same_size = refl; oldest_le = le; head_le = omega arith; same_byte = λ q lo hi. refl },
  h,
)
apply_op-Stable m release_before_clobber ops pos h = (Stable-refl m, h)
apply_op-Stable m (store_byte_relaxed phys v) ops pos ((w, e, after, near), h) =
    rw (e, length-set m.bytes (w % length m.bytes) v) (store_byte-Stable m w v pos after near, h)
apply_op-Stable m (store_head_release v) ops pos (le, h) = (
  record { same_size = refl; oldest_le = omega arith; head_le = le; same_byte = λ q lo hi. refl },
  h,
)
