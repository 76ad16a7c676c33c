-- ===== src/Extension/Tests.antt =====
-- The program started with its flags.
use amcache.Base.{◌^◌, ◌*◌, ◌-◌, ◌≤◌, ◌≡◌, refl, true, [], ◌∷◌}
use amcache.Base.Text.{codes}
use amcache.Extension.{
  pos, negsuc, Flags, Answers, fatal, interval_not_positive, second, ping_interval, main,
  register_all, serve_all,
}
use amcache.Extension.Laws.{runs, IsServed, main-IsServed, ping_interval_bounds}
use amcache.Tables.Serve.{plugins}
use amcache.Tables.Specs.{specs}

abbrev flags : Flags
flags = record { version = codes "dev"; socket = codes "\\\\.\\pipe\\osquery"; interval = pos 3 }

abbrev all_well : Answers
all_well = record { null_opens = true; server_made = true; ended_well = true }

main-runs : runs (main flags all_well) ≡ true
unfolding main serve_all register_all plugins specs
main-runs = refl

main-IsServed_example : IsServed flags all_well
main-IsServed_example = main-IsServed flags all_well main-runs

main_refuses :
    main (record flags { interval = negsuc 0 }) all_well ≡ fatal interval_not_positive ∷ []
unfolding main
main_refuses = refl

ping_interval_bounds_example :
    (9223372037 ≤ 9223372036 → ping_interval (pos 9223372037) ≡ pos (9223372037 * second))
    × (9223372037 ≤ 9223372037
        → 9223372037 ≤ 18446744073
        → ping_interval (pos 9223372037) ≡ negsuc (2 ^ 64 - 1 - 9223372037 * second))
ping_interval_bounds_example = ping_interval_bounds 9223372037
