-- ===== src/Registry.antt =====
-- crates/carriage/src/registry.rs: the ids and type tags that the carriage layer itself emits and
-- interprets, and the id ranges.
mod Tests
pub mod Lookup
pub mod Events
pub mod Fields
pub mod Units
use open_ot_experiments.Prelude.{ℕ}

abbrev pub system_source_id : ℕ
system_source_id = 0

abbrev pub event_message : ℕ
event_message = 0x0003

abbrev pub event_logger_started : ℕ
event_logger_started = 0x0101

abbrev pub event_logger_stopped : ℕ
event_logger_stopped = 0x0102

abbrev pub event_records_dropped : ℕ
event_records_dropped = 0x0104

abbrev pub event_definition_changed : ℕ
event_definition_changed = 0x0106

abbrev pub event_source_high_water : ℕ
event_source_high_water = 0x0108

abbrev pub key_message_template_id : ℕ
key_message_template_id = 0x0014

-- `KEY_COUNT`
abbrev pub key_dropped_count : ℕ
key_dropped_count = 0x0016

abbrev pub key_first_lost_seq : ℕ
key_first_lost_seq = 0x0017

abbrev pub key_last_lost_seq : ℕ
key_last_lost_seq = 0x0018

abbrev pub key_def_hash_new : ℕ
key_def_hash_new = 0x001c

-- `KEY_PRODUCED_COUNT`
abbrev pub key_source_high_water : ℕ
key_source_high_water = 0x0038

abbrev pub key_def_hash_old : ℕ
key_def_hash_old = 0x0039

abbrev pub key_epoch_id : ℕ
key_epoch_id = 0x003a

abbrev pub key_cold_start : ℕ
key_cold_start = 0x003b

abbrev pub ty_bool : ℕ
ty_bool = 0x00

abbrev pub ty_udint : ℕ
ty_udint = 0x05

abbrev pub ty_ulint : ℕ
ty_ulint = 0x07

abbrev pub ty_bytes : ℕ
ty_bytes = 0x0d
