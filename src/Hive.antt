-- ===== src/Hive.antt =====
-- internal/hive: the acquisition of the hive's bytes and the replay of its transaction logs.
-- `Regf` has the base block and the parser that the package calls, `Replay` the log replay.
pub mod Regf
pub mod Replay
pub mod Host
pub mod Acquire
pub mod Tests
