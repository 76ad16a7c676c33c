-- ===== src/Lib.antt =====
-- A model of the Amcache tables for osquery: a program that reads the Amcache hive of a Windows host
-- and serves it as seven SQL tables.
--
-- The program has three layers. internal/hive acquires the hive: a plain read, a raw read of the NTFS
-- volume where the file is locked, and a replay of its transaction logs where it is dirty.
-- internal/inventory turns the hive's keys into records. tables decodes the records into cells, keeps
-- one parsed hive for five minutes, indexes it, and answers each query of osquery from it.
--
-- Files and code:
--   Base                  lists, texts as lists of code points, machine words, results, a log
--                         that reports once, functions that write to a state on the way
--   Hive.Regf             the registry parser that replay.go calls, as a record of functions, with
--                         what is relied on in `ReadsRegf`; Dirty and checksum of
--                         internal/hive/replay.go
--   Hive.Replay           Replay of internal/hive/replay.go: the logs that apply, the loops over
--                         entries and pages (`replay_log`, `apply_pages`), the header (`finish`)
--   Hive.Host             Windows and the NTFS parser as internal/hive/hive_windows.go calls them: a
--                         record of functions
--   Hive.Acquire          internal/hive/hive_windows.go: hivePath, readPlain, readRaw, acquireHive,
--                         readLog, Read, ReadFiles and Stat, over a `Host`
--   Inventory             internal/inventory/inventory.go: the keys, Record and Snapshot
--   Inventory.Slots       indexSlots of that file, over what the parser reads of a cell (`Cells`)
--   Inventory.Values      decode, valueName, latin1, utf16le and lastWrite of that file
--   Inventory.Parse       nodeName, subkeys, record and Parse of that file, over a `Registry` that
--                         stands for what the parser reads of an opened hive
--   Inventory.Warn        warn of that file, and decode, record and Parse with what they log
--   Tables.Columns, Specs tables/columns.go
--   Tables.Decode, Time,  tables/decode.go: the decoders, the date ladder with package time's parse
--     Cell, Rows          in UTC, cell, and rowsFor
--   Tables.Query          index, selected, sortUnique and intersect of tables/tables.go
--   Tables.Cache          the type cache of tables/tables.go: get, load, expire, drop
--   Tables.Serve          generator and New of tables/tables.go
--   Tables.Pipeline       parse of the cache and All of tables/tables.go, and the stubs Read and
--                         Stat of internal/hive/hive_other.go
--   Extension             main of cmd/amcache_windows/main.go, as the list of its effects
--
-- How the layers meet: Hive.Acquire.read calls Hive.Replay.replay; `parse_snapshot` of Tables.Pipeline
-- reads, parses and indexes, and its outcome is the field `parse` of a `Call` of Tables.Cache;
-- Tables.Serve gives the cached records and their index to Tables.Query and Tables.Rows.
--
-- State: a replay's buffer and expected sequence are `State`; the cache's fields are `Cache`, and a
-- call holds its one slot throughout, so that calls of any number of goroutines are a sequence of
-- steps. Maps are association lists. Go's random order of the map of constraints is any order of
-- the list. Bytes, words and sizes are natural numbers, with the wrap-around of uint32 written out.
--
-- Outside the model, as parameters: the registry parser, Windows and the NTFS parser, Unicode's lower
-- case beyond ASCII (`fold`), the folding of strings.EqualFold (`orbit`), the clock (`horizon`, the times of a `Call`), and the contexts.
-- `Inventory.Warn` and `Tables.Rows.Warnings` have the warnings of the parser and of the row build, over
-- one log that reports a key once (`Base.Once`); `Tables.Pipeline.Logged` has the lines of the
-- cache and of Generate, and the panics that Generate recovers, those of the parsers inside `get` among
-- them; the other modules of Tables.Pipeline follow a query whose parsers return, after any queries
-- whose parsers panicked or not (`Runs`).
--
-- Bounds: the loop over a log's entries has one more than the log's length as fuel, which is enough
-- since every entry that is taken moves on within the log; the walk of a subkey index has 2 ^ 32 + 1,
-- since no 32-bit offset is visited twice; 20 digits hold every 64-bit number.
--
-- Not modelled: the text of the log lines.
pub mod Base
pub mod Extension
pub mod Hive
pub mod Inventory
pub mod Tables
