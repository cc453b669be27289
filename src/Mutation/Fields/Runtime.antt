-- ===== src/Mutation/Fields/Runtime.antt =====
-- The compiled rule of a value that comes at run time (core/mutation_engine.cpp, compileRule and
-- writeDynamicValue) against insertRaw (core/signal_codec.cpp).
use signal_scope_api.Base.{ℕ, ◌-◌, ◌≡◌, ltb, if◌then◌else◌, Array}
use signal_scope_api.Mutation.{CompiledRule}
use signal_scope_api.Mutation.Rules.{MaskAndValue}
use signal_scope_api.Mutation.Apply.{max_dynamic}

-- The cap of writeDynamicValue.
abbrev pub capped_value : ℕ → ℕ → ℕ
capped_value length v = if ltb (max_dynamic length) v then max_dynamic length else v

-- The parts of a compiled rule whose bits come at run time.
record RuntimeParts {F : Type 0} (rule : CompiledRule F) (length : ℕ) (bits : MaskAndValue)
    (places : Array ℕ) : Type 0 where
  pub mask_part : rule.clear_mask ≡ (λ i. 255 - bits.mask i)
  pub count_part : rule.dynamic_bit_count ≡ length
  pub places_part : rule.dynamic_bit_positions ≡ places
