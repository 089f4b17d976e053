-- ===== src/Ring/Takes.antt =====
-- crates/carriage/src/ring.rs: which records the ring takes, and where it puts them.
use open_ot_experiments.Prelude.{ℕ, ◌+◌, ◌≤◌, ◌≡◌, true, length, ok, All}
use open_ot_experiments.Wire.{Record}
use open_ot_experiments.Wire.Layout.{Fits, total_len}
use open_ot_experiments.Ring.{read_raw_record}
use open_ot_experiments.Ring.Types.{RingBuffer}
use open_ot_experiments.Ring.Place.{Placed}
use open_ot_experiments.Ring.Read.{as_read}

-- The record stands in the ring behind the old head, and reads back from there.
pub record Stands (r : RingBuffer) (x : Record) (span : ℕ × ℕ) (r' : RingBuffer) : Type 0 where
  pub placed : Placed (length r.bytes) r.head_abs span.0
  pub size : span.1 ≡ span.0 + total_len x true
  pub head_at : r'.head_abs ≡ span.1
  pub same_pool : length r'.bytes ≡ length r.bytes
  pub reads :
      read_raw_record r'.bytes span.0
      ≡ ok (record { decoded = as_read x; consumed = total_len x true }, total_len x true)

-- A record that the wire format can hold: its payloads and its whole are not too long.
abbrev pub Encodable : Record → Type 0
Encodable x = All Fits x.slots × (total_len x true ≤ 65535)
