-- ===== src/Mutation/Fields.antt =====
-- The masks that compileRule (core/mutation_engine.cpp) makes of a field, against insertRaw
-- (core/signal_codec.cpp), which writes the field bit by bit.
pub mod Digits
pub mod Masks
pub mod Static
pub mod Positions
pub mod Dynamic
pub mod Runtime
