-- ===== src/Tests/Engines.antt =====
-- The theorems about the mutation engine at concrete rules, frames and interleavings.
use signal_scope_api.Base.{
  ℕ, zero, suc, ◌+◌, ◌<◌, ◌≤◌, ◌≡◌, bit_xor, ◌≢◌, refl, arith, Bool, true, false, leb, Option, some,
  none, [], ◌∷◌, Array,
}
use signal_scope_api.Frame.{Bytes, a_to_b}
use signal_scope_api.Codec.{read_frame_bit, insert_raw}
use signal_scope_api.Codec.Bit.{IsBytes}
use signal_scope_api.Gateway.Forward.Steps.{KeepsIdentity}
use signal_scope_api.Mutation.{
  RuleFloats, RuleStageRequest, StagedRule, CompiledRule, MutationEngine, empty_request,
  empty_staged, counter, checksum_crc8_autosar, ActiveRuleTable, RuleGroup, ValueEntry, TableEntry,
}
use signal_scope_api.Mutation.Table.{compile_rule, blank_rule}
use signal_scope_api.Mutation.Staging.{new_engine, init, stage_rule}
use signal_scope_api.Mutation.Commit.{apply_commit}
use signal_scope_api.Mutation.Apply.{
  apply_static_rule, apply_xor_checksum_rule, apply_autosar_checksum_rule,
}
use signal_scope_api.Mutation.Dispatch.{selector_allows}
use signal_scope_api.Mutation.Frames.{group_of, apply_frame_mutations}
use signal_scope_api.Mutation.Gate.{
  Gate, open_gate, reader_step, committer_step, run_readers, steps_of, inside, publishing, draining,
  Reach, start, reads, commits,
}
use signal_scope_api.Mutation.Gate.Quiet.{Reach-NotInside}
use signal_scope_api.Mutation.Gate.Drain.{Reach-publishes}
use signal_scope_api.Mutation.Identity.{
  BytesOnly, apply_frame_mutations-BytesOnly, engine_peers, engine_peers-KeepsIdentity,
}
use signal_scope_api.Mutation.Fields.Static.{apply_static_rule-insert_raw}
use signal_scope_api.Mutation.Handles.{Refused, staged, Reissues-Refused}
use signal_scope_api.Mutation.Failure.{Unnoticed, apply_commit-Unnoticed}
use signal_scope_api.Mutation.Counting.Cycles.{Carries, after_traffic, after_traffic-counter}
use signal_scope_api.Mutation.Outputs.{
  register, xor_all, protected, received_crc, checksums-received,
}
use signal_scope_api.Tests.Codecs.{sample_floats}
use signal_scope_api.Tests.Samples.{frame_of, sample_peers}

abbrev rule_floats : RuleFloats
rule_floats = record {
  codec = sample_floats;
  zero32 = 0;
  half32 = 0;
  one32 = 1;
  fifteen32 = 15;
  hundred32 = 100;
  zero64 = 0;
  half64 = 0;
  isfinite32 = λ x. true;
  isfinite64 = λ x. true;
  le32 = leb;
  le64 = leb;
  floor64 = λ x. x;
  to_u8 = λ x. x;
  to_u32 = λ x. x;
}

abbrev sample_engine : MutationEngine ℕ
unfolding init new_engine
sample_engine = init rule_floats true true (λ i. true) (new_engine rule_floats)

-- Twelve bits from bit 7 on, big-endian, with the value 0xABC.
abbrev field_request : RuleStageRequest ℕ
field_request = record (empty_request rule_floats) {
  can_id = 0x101;
  start_bit = 7;
  bit_length = 12;
  little_endian = false;
  replace_value = 0xABC;
}

-- A rule fed by an application value that no registry has.
abbrev missing_request : RuleStageRequest ℕ
missing_request = record (empty_request rule_floats) {
  can_id = 0x101;
  bit_length = 8;
  dynamic_value = true;
  value_source = 65 ∷ [];
}

abbrev staged_field : StagedRule ℕ
staged_field = record (empty_staged rule_floats) {
  in_use = true;
  rule_id = 0;
  request = field_request;
}

abbrev compiled_or : CompiledRule ℕ → Option (CompiledRule ℕ) → CompiledRule ℕ
compiled_or c none = c
compiled_or c (some d) = d

abbrev no_values : Option (Array (ValueEntry ℕ))
no_values = none

abbrev no_tables : Option (Bool × Array (TableEntry ℕ))
no_tables = none

abbrev compiled_field : CompiledRule ℕ
unfolding compile_rule
compiled_field =
    compiled_or (blank_rule staged_field 0 none) (compile_rule no_values no_tables staged_field 0)

field_compiles : compile_rule no_values no_tables staged_field 0 ≡ some compiled_field
unfolding compile_rule
field_compiles = refl

abbrev full_bytes : Bytes
full_bytes = λ i. 255

full_bytes-IsBytes : IsBytes full_bytes
full_bytes-IsBytes i hi = omega arith

apply_static_rule-insert_raw_example :
    read_frame_bit (apply_static_rule compiled_field full_bytes) 5
    ≡ read_frame_bit (insert_raw full_bytes 7 12 false 0xABC).1 5
apply_static_rule-insert_raw_example =
    apply_static_rule-insert_raw no_values no_tables staged_field 0 compiled_field full_bytes 5 refl
      refl field_compiles full_bytes-IsBytes (omega arith)

-- The same field with a value that comes at run time.
abbrev staged_dynamic : StagedRule ℕ
staged_dynamic = record staged_field {
  request = record field_request { dynamic_value = true; replace_value = 0 };
}

abbrev compiled_dynamic : CompiledRule ℕ
unfolding compile_rule
compiled_dynamic =
    compiled_or (blank_rule staged_dynamic 0 none)
      (compile_rule no_values no_tables staged_dynamic 0)

abbrev engine_with_field : MutationEngine ℕ
unfolding stage_rule init new_engine
engine_with_field = (stage_rule field_request sample_engine).1

field_staged : (stage_rule field_request sample_engine).0 ≡ some 0
unfolding stage_rule init new_engine
field_staged = refl

Reissues-Refused_example :
    Refused sample_engine.rule_epoch (stage_rule field_request sample_engine).1
unfolding sample_engine init new_engine
Reissues-Refused_example =
    Reissues-Refused rule_floats sample_engine (stage_rule field_request sample_engine).1
      (ground arith) (staged field_request 0 field_staged)

abbrev engine_with_missing : MutationEngine ℕ
unfolding stage_rule init new_engine
engine_with_missing = (stage_rule missing_request sample_engine).1

missing_fails : (apply_commit rule_floats engine_with_missing).0 ≡ false
unfolding apply_commit stage_rule init new_engine
missing_fails = refl

apply_commit-Unnoticed_example :
    Unnoticed rule_floats engine_with_missing (apply_commit rule_floats engine_with_missing).1
unfolding stage_rule init new_engine
apply_commit-Unnoticed_example =
    apply_commit-Unnoticed rule_floats engine_with_missing refl missing_fails

apply_frame_mutations-BytesOnly_example :
    BytesOnly
      (frame_of 0x101 a_to_b)
      engine_with_field
      (apply_frame_mutations rule_floats (frame_of 0x101 a_to_b) engine_with_field)
apply_frame_mutations-BytesOnly_example =
    apply_frame_mutations-BytesOnly rule_floats (frame_of 0x101 a_to_b) engine_with_field

engine_peers-KeepsIdentity_example : KeepsIdentity (engine_peers rule_floats sample_peers)
engine_peers-KeepsIdentity_example = engine_peers-KeepsIdentity rule_floats sample_peers

abbrev counter_rule : CompiledRule ℕ
counter_rule = record compiled_field {
  source = record field_request { kind = counter; counter_wrap_after = 14 };
}

abbrev counter_group : RuleGroup
counter_group = record {
  can_id = 0x101;
  direction = a_to_b;
  first_rule = 0;
  rule_count = 1;
  next = none;
}

-- The active table of an engine whose one rule, for the frames 0x101 from A to B, is that counter, from
-- 13 on.
abbrev counter_table : ActiveRuleTable ℕ
counter_table = record {
  rule_count = 1;
  group_count = 1;
  rules = λ i. counter_rule;
  groups = λ i. counter_group;
  bucket_head = λ i. some 0;
}

abbrev counting_engine : MutationEngine ℕ
unfolding init new_engine
counting_engine = record sample_engine {
  tables = λ i. counter_table;
  active_table = some 0;
  mutation_reads_enabled = true;
  runtime_state = λ i. record { current_value = 13; enabled = true };
}

counting_engine-Carries :
    Carries rule_floats counter_table counter_group 0 0x101 a_to_b true 13 counting_engine
unfolding init new_engine group_of selector_allows compile_rule
counting_engine-Carries = record { reading = refl; group = refl; running = refl; value = refl }

after_traffic-counter_example :
    ((after_traffic rule_floats
        (frame_of 0x101 a_to_b ∷ frame_of 0x101 a_to_b ∷ frame_of 0x101 a_to_b ∷ [])
        counting_engine).runtime_state
      0).current_value
    ≡ 1
unfolding compiled_field
after_traffic-counter_example =
    after_traffic-counter rule_floats counter_table counter_group 0 0x101 a_to_b true 13
      (frame_of 0x101 a_to_b ∷ frame_of 0x101 a_to_b ∷ frame_of 0x101 a_to_b ∷ []) counting_engine
      (record {
        from = omega arith;
        to = omega arith;
        alone = λ j lo hi other. absurd (ground arith);
      })
      refl refl refl (omega arith) (omega arith) ((refl, refl), ((refl, refl), ((refl, refl), tt)))
      counting_engine-Carries

abbrev checksum_rule : CompiledRule ℕ
checksum_rule = record compiled_field {
  source = record field_request {
    kind = checksum_crc8_autosar;
    checksum_target_byte = 7;
    checksum_counter_byte = 1;
    checksum_end_byte = 6;
    sequence_values = λ i. 16 + i;
  };
}

checksums-received_example :
    (apply_xor_checksum_rule checksum_rule full_bytes 7
      ≡ xor_all checksum_rule.source.checksum_seed
          (protected checksum_rule.source (apply_xor_checksum_rule checksum_rule full_bytes)))
    × (apply_autosar_checksum_rule checksum_rule full_bytes 7
        ≡ received_crc checksum_rule.source (apply_autosar_checksum_rule checksum_rule full_bytes))
checksums-received_example =
    checksums-received checksum_rule full_bytes full_bytes-IsBytes (omega arith) (omega arith)
      (λ i h. omega arith) refl refl

-- The check value of CRC-8/AUTOSAR in its catalogue, for the digits 1 to 9.
catalogue_check :
    bit_xor (register 0xFF (0x31 ∷ 0x32 ∷ 0x33 ∷ 0x34 ∷ 0x35 ∷ 0x36 ∷ 0x37 ∷ 0x38 ∷ 0x39 ∷ [])) 0xFF
    ≡ 0xDF
unfolding register
catalogue_check = refl

-- A reader that saw the gate open before it closed, and a committer that publishes.
abbrev publishing_gate : Gate
publishing_gate = committer_step (committer_step (reader_step 0 open_gate))

publishing_gate-Reach : Reach 2 publishing_gate
publishing_gate-Reach = commits (commits (reads 0 (omega arith) start))

gate_publishes : publishing_gate.committer ≡ publishing
unfolding reader_step committer_step
gate_publishes = refl

Reach-NotInside_example : publishing_gate.reader 0 ≢ inside
Reach-NotInside_example =
    Reach-NotInside 2 0 publishing_gate publishing_gate-Reach gate_publishes (omega arith)

-- A reader inside when the gate closes.
abbrev draining_gate : Gate
draining_gate = committer_step (reader_step 0 (reader_step 0 (reader_step 0 open_gate)))

draining_gate-Reach : Reach 2 draining_gate
draining_gate-Reach =
    commits (reads 0 (omega arith) (reads 0 (omega arith) (reads 0 (omega arith) start)))

gate_drains : draining_gate.committer ≡ draining
unfolding reader_step committer_step
gate_drains = refl

three_each : (i : ℕ) → i < 2 → 3 ≤ steps_of i (1 ∷ 0 ∷ 1 ∷ 0 ∷ 0 ∷ 1 ∷ [])
unfolding steps_of
three_each zero h = omega arith
three_each (suc zero) h = omega arith
three_each (suc (suc i)) h = absurd (omega arith)

Reach-publishes_example :
    (committer_step (run_readers (1 ∷ 0 ∷ 1 ∷ 0 ∷ 0 ∷ 1 ∷ []) draining_gate)).committer ≡ publishing
Reach-publishes_example =
    Reach-publishes 2 draining_gate (1 ∷ 0 ∷ 1 ∷ 0 ∷ 0 ∷ 1 ∷ []) draining_gate-Reach gate_drains
      (omega arith, (omega arith, (omega arith, (omega arith, (omega arith, (omega arith, tt))))))
      three_each
