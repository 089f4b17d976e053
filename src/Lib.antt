-- ===== src/Lib.antt =====
-- The carriage layer of OpenOT, in crates/carriage and crates/open-ot-shm: records in a self-describing binary format are
-- written to a ring of bytes, which overwrites its oldest records, and are read from it by
-- consumers that account for what they lose.
--
-- The parts and the files that model them:
--   * crates/carriage/src/crc.rs: Crc.antt, the CRC-32C by its bit loop.
--   * crates/carriage/src/wire.rs: Wire.antt, `Slot`, `Record`, `Record::encode` (`encode`),
--     `validate_record` and `decode`. Wire/Layout, Wire/Slots, Wire/Validate: what an encoding is
--     made of, and what `validate_record` accepts; Wire/RoundTrip, Wire/Canonical, Wire/Reencode,
--     Wire/Total: the theorems on the format.
--   * crates/carriage/src/control.rs: Control.antt, `ControlBlockSnapshot::encode` and
--     `decode_with_locks`; Control/RoundTrip: reading what was encoded; Control/Reencode: encoding
--     what was read.
--   * crates/carriage/src/ring.rs: Ring/Types.antt, the state and the errors; Ring.antt, the
--     operations of `RingBuffer`. Ring/Disjoint, Ring/Stored, Ring/Place: where records lie in the
--     pool, and the invariant; Ring/Write: the writer keeps it; Ring/Read, Ring/RawRead: the two
--     readers on a valid ring; Ring/Window: the raw walk on any bytes; Ring/Run: the rings that
--     writes reach from a new one; Ring/Accepts, Ring/Takes: which records the ring takes.
--   * crates/carriage/src/loss.rs: Loss.antt, `LossTracker::account`, the merging of loss intervals,
--     and the report of dropped records; Loss/Events.antt, `loss_events`. Loss/Covered, Loss/Union:
--     the sequence numbers that events cover; Loss/Separated: intervals stay apart; Loss/Count:
--     `lost` counts numbers; Loss/Account, Loss/Balance: what `account` adds, and that delivered
--     and lost records add up; Loss/Report: a report written and read back.
--   * crates/carriage/src/consumer.rs: Consumer.antt and its children, `LossAccountingConsumer`
--     (Consumer/Indexed) and `RawByteConsumer` (Consumer/Raw), a cursor and a tracker each;
--     Consumer/Exact: what a new consumer counts of a ring, by Loss/Numbered, the account of records
--     that are numbered source by source.
--   * crates/carriage/src/epoch.rs: Epoch.antt, `EpochProducer`, which numbers the records of each
--     source and emits the records around a change of the definition; Epoch/Protocol, Epoch/Moves:
--     the protocol of such a change; Epoch/Counters, Epoch/Numbering, Epoch/Checkpoint,
--     Epoch/Numbered: which numbers the records get; Epoch/Bounds, Epoch/Advances: how far an
--     operation moves the counters; Epoch/Produced: sequences of operations; Epoch/Resolver.antt,
--     `EpochResolver`.
--   * crates/carriage/src/concurrent.rs: Concurrent.antt, `ConcurrentRing`, the stores of
--     `OwnedConcurrentStore` and the producer, whose append is the list of its stores;
--     Concurrent/Walk.antt, the loads, `read_raw_from_store` and `ConcurrentRawConsumer::poll`.
--     Concurrent/Publish: an append against the ring buffer's; Concurrent/System: how stores and
--     loads interleave; Concurrent/Stable, Concurrent/Order, Concurrent/Kept, Concurrent/Window,
--     Concurrent/Append, Concurrent/Invariant: what the ring holds after each store;
--     Concurrent/Loads, Concurrent/Linear, Concurrent/Safe: what a reader makes of it;
--     Concurrent/Quiescent: a reader alone; Concurrent/Published: after writes of the producer;
--     Concurrent/Encoded: `append_encoded`; Concurrent/Poll.
--   * crates/carriage/src/capture.rs: Capture.antt, the scenarios and `reference_capture`;
--     Capture/Validate.antt, `validate_capture`; Capture/Accepts, Capture/Mismatch: its theorems.
--   * crates/open-ot-shm/src/lib.rs: Shm.antt, `SharedConcurrentStore` on the bytes of its mapping;
--     Shm/View: it implements the concurrent ring; Shm/Publish: an append through it; Shm/Seqlock,
--     Shm/Snapshot: `read_control_snapshot`; Shm/Create: new mappings.
--   * crates/carriage/src/registry.rs: Registry.antt, the ids that these parts use; Registry/Events,
--     Registry/Fields, Registry/Units: the catalogues, over the lookup of Registry/Lookup.
-- Prelude.antt and its children hold what the parts share: tests on numbers (Tests), lists (Lists),
-- bytes in little-endian order and slices (Bytes), single bits (Bits), and results (Results).
--
-- How the code is modelled: an operation that changes its object takes the state and returns the
-- new one; an operation that returns a `Result` returns an `Outcome`, which is `ok`, `err` or, only
-- where fuel ran out, `stuck`. Where `err` comes without a state, the operation leaves the object as
-- it was; the producer of Epoch.antt returns its state with an error too, since it may have changed.
-- `none` stands for a panic. The interaction is by calls: a consumer reads a ring and hands each
-- record to its tracker, a producer writes to the ring that it owns.
--
-- Integers: 64-bit sums that the code makes of offsets, counters and sequence numbers wrap, as in a
-- release build (`add64`); sums of lengths of data in memory do not come near the width of `usize`
-- and are not wrapped. Bytes, flags and lengths are numbers, and theorems say which widths they fit
-- (`IsRecord`, `IsSnapshot`). A slice out of range, where the code panics, is cut; the code slices
-- only behind its own length checks.
--
-- Fuel: the slot loops of `validate_record` and `decode` move at least four bytes on, so the end of
-- the slots is fuel enough; the raw walk of the ring moves its position on in every round, so the
-- number of bytes to the head is. All other loops are structural.
--
-- A map keyed by run and source is a list of entries; the code uses lookup and insertion, and one
-- walk in the order of the keys, for which the map of Epoch.antt is kept sorted. The closure by
-- which the raw walk observes the oldest offset is a function from the number of the call, so that
-- a writer may advance the offset between any two calls; the bytes of the pool are those that the
-- walk reads.
--
-- Concurrency: the atomics of the concurrent ring are sequentially consistent here, one store or
-- load a step, so fences do nothing; what weaker orders allow is not modelled. A reader's loads are
-- numbered, and the ring at each of them is a function of the number.
--
-- Not modelled: the calls of the operating system behind crates/open-ot-shm and its choice of fences,
-- the test vectors of crates/carriage, the enum tables of the registry and its lookup of a unit by a
-- symbol, the crates that hold definitions, documents and conformance suites, and the IEC 61131
-- sources in st/. The accessors of a ring are the fields of its state.
pub mod Prelude
pub mod Registry
pub mod Crc
pub mod Wire
pub mod Control
pub mod Ring
pub mod Loss
pub mod Consumer
pub mod Epoch
pub mod Concurrent
pub mod Capture
pub mod Shm
