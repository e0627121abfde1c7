-- ===== src/Startup.antt =====
-- src/main.ts, the composition root, up to `await listen`: the first-boot migration, and the order in
-- which the process is put together.
pub mod FirstBoot
mod Examples
use livepeer_gateway_console.Common.{
  ℕ, ◌*◌, Bool, true, false, Option, none, some, List, [], ◌∷◌, keep, length, ◌==◌, ◌||◌,
  if◌then◌else◌,
}
use livepeer_gateway_console.Common.Text.{Text, codes, text_eq}
use livepeer_gateway_console.Common.Result.{Failure, error, Result, ok, err, ◌>>=◌}
use livepeer_gateway_console.Process.{Process, booted, exit_with}
use livepeer_gateway_console.Config.{
  Platform, ListenConfig, Env, Source, parse_listen_addr, load_env,
}

-- The raw database, its state of type `S`: the names of its tables, and the run of a script, which
-- may fail half-way.
pub record RawDatabase (S : Type 0) : Type 0 where
  pub tables : S → List Text
  pub exec : Text → S → Result (Unit {0}) × S

-- The file system as the migration reads it, from the two paths that it knows.
pub record MigrationFiles : Type 0 where
  pub exists_first : Bool
  pub exists_second : Bool
  pub read_first : Result Text
  pub read_second : Result Text

-- `name IN ('audit_events','routing_observations')`
pub is_ours : Text → Bool
is_ours name = text_eq name (codes "audit_events") || text_eq name (codes "routing_observations")

migration_missing : Failure
migration_missing = error (codes "bootstrap migration 0001_init.sql not found")

-- `candidates.find((p) => existsSync(p))`, read.
pub find_migration : MigrationFiles → Result Text
unfolding migration_missing
find_migration files =
    if files.exists_first
    then files.read_first
    else if files.exists_second
    then files.read_second
    else err migration_missing

module _ {S : Type 0} where
  run_script : RawDatabase S → S → Result Text → Result (Unit {0}) × S
  run_script raw state (err e) = (err e, state)
  run_script raw state (ok sql) = raw.exec sql state

  pub has_schema : RawDatabase S → S → Bool
  has_schema raw state = length (keep is_ours (raw.tables state)) == 2

  -- `applyBootstrapMigrationIfNeeded`
  pub apply_bootstrap_migration_if_needed :
      RawDatabase S → MigrationFiles → S → Result (Unit {0}) × S
  unfolding has_schema run_script find_migration
  apply_bootstrap_migration_if_needed raw files state =
      if has_schema raw state then (ok tt, state) else run_script raw state (find_migration files)

-- What `main` hands to the server and to the worker.
pub record Wiring (S : Type 0) : Type 0 where
  pub listen : ListenConfig
  pub state : S
  pub admin_token : Text
  pub controller_address : Text
  pub service_registry_address : Option Text
  pub sender_address : Option Text
  pub min_balance_wei : Option Text
  pub chain_read_ttl_ms : ℕ
  pub interval_ms : ℕ

-- What `main` finds around it; `create_server` is how that call settles.
pub record Surroundings (S : Type 0) : Type 0 where
  pub platform : Platform
  pub source : Source
  pub raw : RawDatabase S
  pub open_sqlite : Text → Result S
  pub files : MigrationFiles
  pub create_server : Result (Unit {0})

-- `X ? X : null`
truthy : Option Text → Option Text
truthy none = none
truthy (some []) = none
truthy (some (c ∷ s)) = some (c ∷ s)

module _ {S : Type 0} where
  wire : Env → ListenConfig → S → Wiring S
  unfolding truthy
  wire env listen state = record {
    listen = listen;
    state = state;
    admin_token = env.admin_token;
    controller_address = env.controller_address;
    service_registry_address = truthy env.service_registry_address;
    sender_address = truthy env.sender_address;
    min_balance_wei = env.min_balance_wei;
    chain_read_ttl_ms = env.chain_read_ttl_sec * 1000;
    interval_ms = env.resolver_audit_poll_interval_sec * 1000;
  }

  serve_over : Surroundings S → Env → ListenConfig → Result (Unit {0}) × S → Result (Wiring S)
  unfolding wire
  serve_over around env listen (err e, state) = err e
  serve_over around env listen (ok _, state) = do
    created ← around.create_server
    ok (wire env listen state)

  boot_with : Surroundings S → Option Env → Result (Wiring S)
  unfolding serve_over
  boot_with around none = err (error (codes "ZodError"))
  boot_with around (some env) = do
    listen ← parse_listen_addr around.platform.number env.listen_addr
    state ← around.open_sqlite env.state_path
    serve_over around env listen (apply_bootstrap_migration_if_needed around.raw around.files state)

  -- `main` up to `await listen`.
  pub boot : Surroundings S → Result (Wiring S)
  unfolding boot_with
  boot around = boot_with around (load_env around.platform around.source)

  -- `main().catch(..)`: a process that waits for `listen`, or one that has exited.
  pub launch : Result (Wiring S) → Process
  launch (ok wiring) = booted
  launch (err e) = exit_with 1 booted
