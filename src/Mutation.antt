-- ===== src/Mutation.antt =====
-- MutationEngine (core/mutation_engine.hpp, core/mutation_engine.cpp): its types. One call is one
-- step here; the read gate, at which frames and a commit meet, is `Mutation.Gate`. A char array is
-- the list of its characters before the first '\0'; an index below 0 is `none`.
pub mod Registry
pub mod Rules
pub mod Table
pub mod Staging
pub mod Commit
pub mod Apply
pub mod Dispatch
pub mod Frames
pub mod Control
pub mod Gate
pub mod Identity
pub mod Counting
pub mod Fields
pub mod Handles
pub mod Failure
pub mod Outputs
use signal_scope_api.Base.{ℕ, Bool, Option, List, [], ◌∷◌, Array, true, false, none}
use signal_scope_api.Frame.{Bytes, Direction, a_to_b}
use signal_scope_api.Codec.Physical.{Floats}

pub data RuleKind : Type 0 where
  bit_range raw_mask counter checksum_xor sequence8 checksum_crc8_autosar : RuleKind

-- `kind == other`
abbrev pub same_kind : RuleKind → RuleKind → Bool
same_kind bit_range bit_range = true
same_kind raw_mask raw_mask = true
same_kind counter counter = true
same_kind checksum_xor checksum_xor = true
same_kind sequence8 sequence8 = true
same_kind checksum_crc8_autosar checksum_crc8_autosar = true
same_kind _ _ = false

abbrev pub Name : Type 0
Name = List ℕ

-- `name[0] != '\0'`
abbrev pub named : Name → Bool
named [] = false
named (c ∷ cs) = true

pub record RuleStageRequest (F : Type 0) : Type 0 where
  pub kind : RuleKind
  pub can_id : ℕ
  pub direction : Direction
  pub enabled : Bool
  pub start_bit : ℕ
  pub bit_length : ℕ
  pub little_endian : Bool
  pub dynamic_value : Bool
  pub replace_value : ℕ
  pub value_source : Name
  pub lookup_table : Name
  pub override_active_source : Name
  pub override_value_source : Name
  pub source_gain : F
  pub source_offset : F
  pub output_scale : F
  pub output_offset : F
  pub truncate_affine : Bool
  pub truncate_output : Bool
  pub zero_override : Bool
  pub zero_threshold : F
  pub zero_output : ℕ
  pub full_override : Bool
  pub full_threshold : F
  pub full_output : ℕ
  pub selector_source : Name
  pub selector_maps_output : Bool
  pub selector_active_mask : ℕ
  pub selector_direct_mask : ℕ
  pub selector_output_scale : Array F
  pub selector_full_output : Array ℕ
  pub selector_direct_output : Array ℕ
  pub mask : Bytes
  pub value : Bytes
  pub counter_initial : ℕ
  pub counter_step : ℕ
  pub counter_wrap_after : ℕ
  pub counter_wrap_to : ℕ
  pub checksum_target_byte : ℕ
  pub checksum_start_byte : ℕ
  pub checksum_end_byte : ℕ
  pub checksum_seed : ℕ
  pub checksum_counter_byte : ℕ
  pub sequence_values : Array ℕ
  pub sequence_count : ℕ
  pub sequence_initial_index : ℕ

pub record RuleListEntry (F : Type 0) : Type 0 where
  pub rule_id : ℕ
  pub priority : ℕ
  pub epoch : ℕ
  pub request : RuleStageRequest F
  pub active : Bool

abbrev pub max_rules : ℕ
max_rules = 96

-- kBucketCount
abbrev pub rule_buckets : ℕ
rule_buckets = 128

abbrev pub invalid_rule_id : ℕ
invalid_rule_id = 0xFFFF

pub record RuntimeRuleState : Type 0 where
  pub current_value : ℕ
  pub enabled : Bool

pub record StagedRule (F : Type 0) : Type 0 where
  pub in_use : Bool
  pub rule_id : ℕ
  pub sequence : ℕ
  pub pending_runtime_value : ℕ
  pub pending_enabled : Bool
  pub publish_runtime_on_commit : Bool
  pub request : RuleStageRequest F

pub record CompiledRule (F : Type 0) : Type 0 where
  pub rule_id : ℕ
  pub priority : ℕ
  pub source : RuleStageRequest F
  pub clear_mask : Bytes
  pub static_set_bits : Bytes
  pub dynamic_bit_count : ℕ
  pub dynamic_bit_positions : Array ℕ
  pub runtime_value_index : Option ℕ
  pub runtime_table_index : Option ℕ
  pub override_active_index : Option ℕ
  pub override_value_index : Option ℕ
  pub selector_index : Option ℕ

pub record RuleGroup : Type 0 where
  pub can_id : ℕ
  pub direction : Direction
  pub first_rule : ℕ
  pub rule_count : ℕ
  pub next : Option ℕ

pub record ActiveRuleTable (F : Type 0) : Type 0 where
  pub rule_count : ℕ
  pub group_count : ℕ
  pub rules : Array (CompiledRule F)
  pub groups : Array RuleGroup
  pub bucket_head : Array (Option ℕ)

-- RuntimeValueRegistry and RuntimeTableRegistry (core/runtime_values.hpp, core/runtime_tables.hpp)
pub record ValueEntry (F : Type 0) : Type 0 where
  pub name : Name
  pub value : F
  pub in_use : Bool

pub record TableEntry (F : Type 0) : Type 0 where
  pub name : Name
  pub values : Array F
  pub generation : ℕ
  pub count : ℕ
  pub valid : Bool
  pub in_use : Bool

-- The engine. A pointer to memory of the engine's own is whether it is set, and the contents; a
-- pointer to a registry is the registry as it is at the time of a call, `none` for a null pointer.
pub record MutationEngine (F : Type 0) : Type 0 where
  pub staged_set : Bool
  pub shadow_set : Bool
  pub table_set : Array Bool
  pub staged : Array (StagedRule F)
  pub staged_count : ℕ
  pub staging_dirty : Bool
  pub committed_shadow : Array (StagedRule F)
  pub committed_count : ℕ
  pub runtime_state : Array RuntimeRuleState
  pub tables : Array (ActiveRuleTable F)
  pub active_table : Option ℕ
  pub active_table_index : ℕ
  pub active_count : ℕ
  pub rule_epoch : ℕ
  pub mutation_reads_enabled : Bool
  pub runtime_values : Option (Array (ValueEntry F))
  pub runtime_tables : Option (Bool × Array (TableEntry F))
  pub next_sequence : ℕ

-- The floating-point operations of the engine beside those of the codec. A comparison with NaN is
-- false; `to_u8` and `to_u32` are the conversions of a value in range.
pub record RuleFloats : Type 1 where
  pub codec : Floats
  pub zero32 : codec.F32
  pub half32 : codec.F32
  pub one32 : codec.F32
  pub fifteen32 : codec.F32
  pub hundred32 : codec.F32
  pub zero64 : codec.F64
  pub half64 : codec.F64
  pub isfinite32 : codec.F32 → Bool
  pub isfinite64 : codec.F64 → Bool
  pub le32 : codec.F32 → codec.F32 → Bool
  pub le64 : codec.F64 → codec.F64 → Bool
  pub floor64 : codec.F64 → codec.F64
  pub to_u8 : codec.F32 → ℕ
  pub to_u32 : codec.F64 → ℕ

-- RuleStageRequest{}
abbrev pub empty_request : (floats : RuleFloats) → RuleStageRequest floats.codec.F32
empty_request floats = record {
  kind = bit_range;
  can_id = 0;
  direction = a_to_b;
  enabled = true;
  start_bit = 0;
  bit_length = 1;
  little_endian = true;
  dynamic_value = false;
  replace_value = 0;
  value_source = [];
  lookup_table = [];
  override_active_source = [];
  override_value_source = [];
  source_gain = floats.one32;
  source_offset = floats.zero32;
  output_scale = floats.one32;
  output_offset = floats.zero32;
  truncate_affine = false;
  truncate_output = false;
  zero_override = false;
  zero_threshold = floats.zero32;
  zero_output = 0;
  full_override = false;
  full_threshold = floats.hundred32;
  full_output = 0;
  selector_source = [];
  selector_maps_output = false;
  selector_active_mask = 0;
  selector_direct_mask = 0;
  selector_output_scale = λ i. floats.zero32;
  selector_full_output = λ i. 0;
  selector_direct_output = λ i. 0;
  mask = λ i. 0;
  value = λ i. 0;
  counter_initial = 0;
  counter_step = 1;
  counter_wrap_after = 0xFFFFFFFF;
  counter_wrap_to = 0;
  checksum_target_byte = 0;
  checksum_start_byte = 0;
  checksum_end_byte = 7;
  checksum_seed = 0;
  checksum_counter_byte = 1;
  sequence_values = λ i. 0;
  sequence_count = 0;
  sequence_initial_index = 0;
}

-- StagedRule{}
abbrev pub empty_staged : (floats : RuleFloats) → StagedRule floats.codec.F32
empty_staged floats = record {
  in_use = false;
  rule_id = invalid_rule_id;
  sequence = 0;
  pending_runtime_value = 0;
  pending_enabled = false;
  publish_runtime_on_commit = false;
  request = empty_request floats;
}
