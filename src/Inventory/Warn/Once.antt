-- ===== src/Inventory/Warn/Once.antt =====
-- Logging leaves `Parse` alone, and no condition is reported twice.
use amcache.Base.{ℕ, ◌≡◌, refl, Option}
use amcache.Base.Once.{IsOnce, once-IsOnce, empty_log, nat_key}
use amcache.Base.Text.{Text}
use amcache.Hive.Regf.{Bytes, Ended}
use amcache.Inventory.Parse.{Registry, parse}
use amcache.Inventory.Warn.{Line, Log, warn}
use amcache.Inventory.Warn.Erased.{parse_logged-Gives}
use amcache.Inventory.Warn.Kept.{WarnKeeps, parse-Keeps}
use amcache.Inventory.Warn.Parse.{parse_logged}

-- Each condition that has been reported has one line, and each line's condition has been reported.
abbrev pub IsReportedOnce : Log → Type 0
IsReportedOnce = IsOnce (λ (line : Line). line.condition)

warn-IsReportedOnce : WarnKeeps IsReportedOnce
unfolding warn
warn-IsReportedOnce c m log h =
    once-IsOnce (λ (line : Line). line.condition) (record { condition = c; message = m }) log h

-- The log over the life of the process: parses of any hives, under any contexts.
pub data Logged : Log → Type 0 where
  silent : Logged empty_log
  parsed :
      {log : Log} (fold : ℕ → ℕ) (ctx : Text → Option Ended) (ctx_subs : Text → ℕ → Option Ended)
      (open_hive : Bytes → Option Registry) (hive : Bytes)
      → Logged log
      → Logged (parse_logged fold ctx ctx_subs open_hive hive log).1

pub Logged-IsReportedOnce : {log : Log} → Logged log → IsReportedOnce log
Logged-IsReportedOnce silent = (refl, refl)
Logged-IsReportedOnce (parsed {log = log} fold ctx ctx_subs open_hive hive l) =
    parse-Keeps IsReportedOnce warn-IsReportedOnce fold ctx ctx_subs open_hive hive log
      (Logged-IsReportedOnce l)

-- After any parses, one more gives the snapshot or the error that it gives without the log, and no
-- condition is reported twice over all of them, whatever the hives hold and wherever a parse ends.
pub parse_logged-IsReportedOnce :
    (fold : ℕ → ℕ) (ctx : Text → Option Ended) (ctx_subs : Text → ℕ → Option Ended)
    (open_hive : Bytes → Option Registry) (hive : Bytes) (log : Log)
    → Logged log
    → ((parse_logged fold ctx ctx_subs open_hive hive log).0
        ≡ parse fold ctx ctx_subs open_hive hive)
      × IsReportedOnce (parse_logged fold ctx ctx_subs open_hive hive log).1
parse_logged-IsReportedOnce fold ctx ctx_subs open_hive hive log l = (
  parse_logged-Gives fold ctx ctx_subs open_hive hive log,
  Logged-IsReportedOnce (parsed fold ctx ctx_subs open_hive hive l),
)
