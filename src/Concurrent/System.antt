-- ===== src/Concurrent/System.antt =====
-- crates/carriage/src/concurrent.rs: the producer and the ring as a system that a reader looks at
-- between any two stores.
use open_ot_experiments.Prelude.{ℕ, ◌+◌, ◌*◌, ◌^◌, ◌<◌, ◌≡◌, List, [], ◌∷◌, ◌++◌, some, ok, length}
use open_ot_experiments.Wire.{Record}
use open_ot_experiments.Wire.Layout.{IsRecord}
use open_ot_experiments.Concurrent.{
  ConcurrentRing, ConcurrentProducer, StoreOp, new, new_producer, write_record, apply_op,
}

-- The shared ring, the producer, and the stores that the producer has yet to do.
pub record System : Type 0 where
  pub ring : ConcurrentRing
  pub producer : ConcurrentProducer
  pub pending : List StoreOp

-- The producer begins a write, or does its next store. `begin` computes what the producer stores,
-- which depends on nothing that a reader does. The condition on the head keeps the 64-bit offsets
-- from wrapping, and that on the count keeps the loss counter from wrapping.
pub data Step : List Record → System → List Record → System → Type 0 where
  begin :
      {xs : List Record} {m : ConcurrentRing} {p p' : ConcurrentProducer} {ops : List StoreOp}
      (x : Record)
      → IsRecord x
      → m.head_abs + 2 * length m.bytes < 2 ^ 64
      → m.lost_count < 2 ^ 64
      → write_record (length m.bytes) p x ≡ ok (p', ops)
      → Step xs
          (record { ring = m; producer = p; pending = [] })
          (xs ++ x ∷ [])
          (record { ring = m; producer = p'; pending = ops })
  store :
      {xs : List Record} {m : ConcurrentRing} {p : ConcurrentProducer} {op : StoreOp}
      {ops : List StoreOp}
      → Step xs
          (record { ring = m; producer = p; pending = op ∷ ops })
          xs
          (record { ring = apply_op m op; producer = p; pending = ops })

-- Any number of steps. The lists are the records of the writes begun so far.
pub data Steps : List Record → System → List Record → System → Type 0 where
  done : {xs : List Record} {s : System} → Steps xs s xs s
  then :
      {xs ys zs : List Record} {s t u : System} → Steps xs s ys t → Step ys t zs u → Steps xs s zs u

-- The systems that a new ring and a new producer reach.
pub data Reached (pool : ℕ) : List Record → System → Type 0 where
  start :
      {m : ConcurrentRing}
      → new pool ≡ some m
      → Reached pool [] (record { ring = m; producer = new_producer; pending = [] })
  step :
      {xs ys : List Record} {s t : System} → Reached pool xs s → Step xs s ys t → Reached pool ys t
