-- ===== src/Startup/Examples.antt =====
-- A first boot over an empty database.
use livepeer_gateway_console.Common.{
  ◌≡◌, refl, ap, ◌∙◌, Bool, true, false, List, [], ◌∷◌, if◌then◌else◌,
}
use livepeer_gateway_console.Common.Text.{Text, codes, text_eq}
use livepeer_gateway_console.Dedupe.{includes}
use livepeer_gateway_console.Common.Result.{Result, error, ok, err, ok-injective}
use livepeer_gateway_console.Config.Examples.{
  platform, environment, loaded, default_listen, loaded_listens,
}
use livepeer_gateway_console.Startup.{
  RawDatabase, MigrationFiles, Surroundings, Wiring, has_schema, run_script, find_migration,
  apply_bootstrap_migration_if_needed, wire, serve_over, boot_with, boot,
}
use livepeer_gateway_console.Startup.FirstBoot.{
  CreatesTables, NamesApart, HasTables, IsWired, migrated_once, boot-IsWired,
}

abbrev both : List Text
both = codes "audit_events" ∷ codes "routing_observations" ∷ []

abbrev script : Text
script = codes "CREATE TABLE"

-- A database has both tables or none. The script fails where they are there already, and no other
-- text does anything.
abbrev memory : RawDatabase Bool
memory = record {
  tables = λ full. if full then both else [];
  exec = λ sql full.
      if text_eq sql script
      then (if full then (err (error (codes "table already exists")), full) else (ok tt, true))
      else (ok tt, full);
}

memory-NamesApart : NamesApart memory
unfolding NamesApart includes
memory-NamesApart true = (refl, (refl, tt))
memory-NamesApart false = tt

abbrev packed : MigrationFiles
packed = record {
  exists_first = true;
  exists_second = false;
  read_first = ok script;
  read_second = ok [];
}

abbrev lost : MigrationFiles
lost = record packed { exists_first = false }

memory-CreatesTables : CreatesTables memory packed
unfolding CreatesTables find_migration includes
memory-CreatesTables sql true after found h =
    let same : script ≡ sql = ok-injective script sql found in
    let ran : memory.exec script true ≡ (ok tt, after) = ap (λ q. memory.exec q true) same ∙ h in
    let refused : err (error (codes "table already exists")) ≡ ok tt =
      ap (λ (r : Result (Unit {0}) × Bool). r.0) ran in
    absurd (cc)
memory-CreatesTables sql false after found h =
    let same : script ≡ sql = ok-injective script sql found in
    let ran : memory.exec script false ≡ (ok tt, after) = ap (λ q. memory.exec q false) same ∙ h in
    let full : true ≡ after = ap (λ (r : Result (Unit {0}) × Bool). r.1) ran in
    rw (← full) (record { has_events = refl; has_observations = refl })

migrates : apply_bootstrap_migration_if_needed memory packed false ≡ (ok tt, true)
unfolding apply_bootstrap_migration_if_needed has_schema run_script find_migration
migrates = refl

migrated_once_example :
    HasTables both × (apply_bootstrap_migration_if_needed memory lost true ≡ (ok tt, true))
migrated_once_example =
    migrated_once memory packed lost false true memory-NamesApart memory-CreatesTables migrates

abbrev around : Surroundings Bool
around = record {
  platform = platform;
  source = environment;
  raw = memory;
  open_sqlite = λ path. ok false;
  files = packed;
  create_server = ok tt;
}

abbrev wired : Wiring Bool
wired = wire loaded.0 default_listen true

boots : boot around ≡ ok wired
unfolding boot boot_with serve_over
boots = rw (loaded.1, loaded_listens, migrates) refl

boot-IsWired_example : IsWired around wired
boot-IsWired_example = boot-IsWired around wired memory-NamesApart memory-CreatesTables boots
