-- ===== src/Extension/Laws.antt =====
-- When the server runs, and with what.
use amcache.Base.{
  ◌^◌, ◌*◌, ◌-◌, true-ne-false, ℕ, zero, suc, ◌≤◌, ◌≡◌, ◌≢◌, refl, Bool, true, false, List, [], ◌∷◌,
  ◌++◌, map, inl, inr, arith, Bool-cases, ap, sym, ◌∙◌,
}
use mathlib.Core.List.{append-nil}
use amcache.Base.Once.{are_distinct, text_key}
use amcache.Base.Text.{Text, text_eq, codes}
use amcache.Tables.Columns.{ColumnDefinition, Spec}
use amcache.Tables.Specs.{
  specs, application_files, applications, application_shortcuts, driver_binaries, driver_packages,
  device_pnp, device_containers,
}
use amcache.Tables.Serve.{plugins}
use amcache.Extension.{
  ℤ, pos, negsuc, Flags, Answers, Effect, create_server, register, run_server, to_int64, second,
  is_positive, ping_interval, silence, register_all, run_end, serve_all, main,
}

-- The names that are registered, in order.
abbrev pub registered : List Effect → List Text
registered [] = []
registered (register name cols ∷ es) = name ∷ registered es
registered (e ∷ es) = registered es

-- The server is run.
abbrev pub runs : List Effect → Bool
runs [] = false
runs (run_server ∷ es) = true
runs (e ∷ es) = runs es

registered-register_all :
    (ps : List (Text × List ColumnDefinition)) (es : List Effect)
    → registered (register_all ps ++ es)
      ≡ map (λ (p : Text × List ColumnDefinition). p.0) ps ++ registered es
unfolding register_all
registered-register_all [] es = refl
registered-register_all (p ∷ ps) es = ap (◌∷◌ p.0) (registered-register_all ps es)

table_names : List Text
table_names = map (λ (p : Text × List ColumnDefinition). p.0) plugins

table_names-are_distinct : are_distinct table_names ≡ true
unfolding table_names plugins specs text_eq application_files applications application_shortcuts
    driver_binaries driver_packages device_pnp device_containers
table_names-are_distinct = refl

table_names-specs : table_names ≡ map (λ (s : Spec). s.table) specs
unfolding table_names plugins specs
table_names-specs = refl

-- What is known where the server is run.
pub record IsServed (flags : Flags) (env : Answers) : Type 0 where
  pub has_socket : flags.socket ≢ []
  pub seconds : ℕ
  pub some_seconds : 1 ≤ seconds
  pub interval_is : flags.interval ≡ pos seconds
  pub made : env.server_made ≡ true
  pub trace :
      main flags env
      ≡ silence env.null_opens
        ∷ create_server
            (codes "amcache_windows")
            flags.socket
            flags.version
            (pos (60 * second))
            (ping_interval flags.interval)
        ∷ (register_all plugins ++ run_end env.ended_well)
  pub tables : registered (main flags env) ≡ map (λ (s : Spec). s.table) specs
  pub distinct : are_distinct (registered (main flags env)) ≡ true

registered-run_end : (b : Bool) → registered (run_end b) ≡ []
registered-run_end true = refl
registered-run_end false = refl

registered-silence : (b : Bool) (es : List Effect) → registered (silence b ∷ es) ≡ registered es
registered-silence true es = refl
registered-silence false es = refl

runs-silence : (b : Bool) (es : List Effect) → runs (silence b ∷ es) ≡ runs es
runs-silence true es = refl
runs-silence false es = refl

-- The interval is a positive number of seconds.
is_positive-pos : (i : ℤ) → is_positive i ≡ true → (n : ℕ) × (1 ≤ n) × (i ≡ pos n)
is_positive-pos (pos zero) h = cc
is_positive-pos (pos (suc n)) h = (suc n, omega arith, refl)
is_positive-pos (negsuc n) h = cc

served-tables :
    (version : Text) (socket : Text) (i : ℤ) (quiet ended : Bool)
    → registered (
        silence quiet
        ∷ create_server
            (codes "amcache_windows")
            socket
            version
            (pos (60 * second))
            (ping_interval i)
        ∷ (register_all plugins ++ run_end ended))
      ≡ table_names
unfolding table_names
served-tables version socket i quiet ended =
    registered-silence quiet _
    ∙ registered-register_all plugins (run_end ended)
    ∙ ap (λ ns. map (λ (p : Text × List ColumnDefinition). p.0) plugins ++ ns)
        (registered-run_end ended)
    ∙ append-nil _

abbrev start : Text → Text → ℤ → List Effect → List Effect
start version socket i es =
    create_server (codes "amcache_windows") socket version (pos (60 * second)) (ping_interval i)
    ∷ es

main-started :
    (version : Text) (c : ℕ) (s : Text) (i : ℤ) (env : Answers)
    → is_positive i ≡ true
    → main (record { version = version; socket = c ∷ s; interval = i }) env
      ≡ silence env.null_opens ∷ start version (c ∷ s) i (serve_all env)
unfolding main
main-started version c s i env h = rw h refl

main-refused :
    (version : Text) (c : ℕ) (s : Text) (i : ℤ) (env : Answers)
    → is_positive i ≡ false
    → runs (main (record { version = version; socket = c ∷ s; interval = i }) env) ≡ false
unfolding main
main-refused version c s i env h = rw h refl

main-unnamed :
    (version : Text) (i : ℤ) (env : Answers)
    → runs (main (record { version = version; socket = []; interval = i }) env) ≡ false
unfolding main
main-unnamed version i env = refl

serve_all-made :
    (env : Answers)
    → env.server_made ≡ true
    → serve_all env ≡ register_all plugins ++ run_end env.ended_well
unfolding serve_all
serve_all-made env h = rw h refl

serve_all-unmade : (env : Answers) → env.server_made ≡ false → runs (serve_all env) ≡ false
unfolding serve_all
serve_all-unmade env h = rw h refl

made-IsServed :
    (version : Text) (c : ℕ) (s : Text) (i : ℤ) (env : Answers)
    → is_positive i ≡ true
    → env.server_made ≡ true
    → IsServed (record { version = version; socket = c ∷ s; interval = i }) env
made-IsServed version c s i env h k =
    let (seconds, some_seconds, same) = is_positive-pos i h in
    let trace =
      main-started version c s i env h
      ∙ ap (λ es. silence env.null_opens ∷ start version (c ∷ s) i es) (serve_all-made env k) in
    let tables =
      ap registered trace ∙ served-tables version (c ∷ s) i env.null_opens env.ended_well in
    record {
      has_socket = λ e. cc;
      seconds = seconds;
      some_seconds = some_seconds;
      interval_is = same;
      made = k;
      trace = trace;
      tables = tables ∙ table_names-specs;
      distinct = ap are_distinct tables ∙ table_names-are_distinct;
    }

IsServed-cases :
    (version : Text) (socket : Text) (i : ℤ) (env : Answers)
    → runs (main (record { version = version; socket = socket; interval = i }) env) ≡ true
    → IsServed (record { version = version; socket = socket; interval = i }) env
IsServed-cases version [] i env h = absurd (true-ne-false (sym h ∙ main-unnamed version i env))
IsServed-cases version (c ∷ s) i env h = elim (Bool-cases (is_positive i)) [
  | inr e ↦ absurd (true-ne-false (sym h ∙ main-refused version c s i env e))
  | inl e ↦ elim (Bool-cases env.server_made) [
    | inl k ↦ made-IsServed version c s i env e k
    | inr k ↦ absurd (
        true-ne-false (
          sym h
          ∙ ap runs (main-started version c s i env e)
          ∙ runs-silence env.null_opens _
          ∙ serve_all-unmade env k))
  ]
]

-- Where `main` runs its server, it was given a socket and a positive interval, the standard output was
-- redirected (or the failure to do so logged) before the server was made, the server was made with
-- that socket, 60 seconds and the interval, and the seven tables were registered once each, under
-- different names, before it runs.
pub main-IsServed :
    (flags : Flags) (env : Answers) → runs (main flags env) ≡ true → IsServed flags env
main-IsServed flags env h = IsServed-cases flags.version flags.socket flags.interval env h

-- The pause between two health checks is the interval up to 9223372036 seconds; from the next interval
-- up to 18446744073 seconds it is the negative number of nanoseconds that the wrap-around leaves.
pub ping_interval_bounds :
    (n : ℕ)
    → (n ≤ 9223372036 → ping_interval (pos n) ≡ pos (n * second))
      × (9223372037 ≤ n
          → n ≤ 18446744073
          → ping_interval (pos n) ≡ negsuc (2 ^ 64 - 1 - n * second))
unfolding ping_interval to_int64
ping_interval_bounds n = (λ h. ground arith, λ h k. ground arith)
